-- ===== src/Idl/Skip/Within.antt =====
-- Where idl_skip_value of coerce.c can move the position to, on any bytes.
use lucid.Base.{ℕ, zero, suc, ◌+◌, ◌-◌, ◌%◌, ◌^◌, ◌≤◌, Bool, true, false, ltb, ◌==◌}
use lucid.Base.{
  List, [], ◌∷◌, Option, none, some, ◌≡◌, refl, sym, ap, ◌∙◌, arith, All, if◌then◌else◌, length,
}
use lucid.Base.{drop, length-drop, inl, inr, Bool-cases}
use lucid.Base.Word.{IsSize, size_mod}
use lucid.Status.{ok, err, unsupported, ◌>>=◌, Result-cases}
use lucid.Leb128.{IsByte, uleb128_decode, uleb128_loop}
use lucid.Base.{bit_and, bit_or, ◌*◌}
use lucid.Idl.Types.{Name, Label, IdlType, TypeFields}
use lucid.Idl.Deserializer.{trace, kind_is_nat8, nth_field}
use lucid.Idl.Skip.{
  Skip, ◌>>◌, skip_fixed_size, skip_groups, skip_leb128, with_number, skip_counted,
}
use lucid.Idl.Skip.{
  skip_flag, skip_length_prefixed, with_byte, skip_opt_value, skip_items, skip_record_value,
}
use lucid.Idl.Skip.{
  skip_chosen, skip_variant_value, skip_elements, skip_vec_value, skip_by_kind, skip_resolved,
  idl_skip_value,
}

-- From a position within the input to another.
abbrev Stays : Skip → Type 0
Stays p =
    (input : List ℕ) (here there : ℕ)
    → IsSize (length input)
    → All IsByte input
    → here ≤ length input
    → p input here ≡ ok there
    → there ≤ length input

Stays-ok : Stays (λ input pos. ok pos)
Stays-ok input here there size h within e = ground (arith, e)

Stays-seq : (p q : Skip) → Stays p → Stays q → Stays (p >> q)
Stays-seq p q sp sq input here there size h within e = elim (Result-cases (p input here)) [
  | inl (mid, run) ↦ sq input mid there size h (sp input here mid size h within run) (rw run at e)
  | inr (inl (x, stops)) ↦ absurd (grind (arith, e, stops))
  | inr (inr stops) ↦ absurd (grind (arith, e, stops))
]

Stays-if :
    (b : Bool) (p q : Skip)
    → Stays p
    → Stays q
    → Stays (λ input pos. if b then p input pos else q input pos)
Stays-if true p q sp sq = sp
Stays-if false p q sp sq = sq

refused : Stays (λ input pos. err unsupported)
refused input here there size h within e = absurd (grind (arith, e))

skip_fixed_size-Stays : (size : ℕ) → Stays (skip_fixed_size size)
unfolding skip_fixed_size
skip_fixed_size-Stays n input here there size h within e = ground (arith, e)

skip_flag-Stays : Stays skip_flag
unfolding skip_flag
skip_flag-Stays input here there size h within e = ground (arith, e)

skip_counted-Stays : (len : ℕ) → Stays (skip_counted len)
unfolding skip_counted
skip_counted-Stays len input here there size h within e =
    elim (Bool-cases (ltb (length input) ((here + len) % 2 ^ 64))) [
      | inl beyond ↦ absurd (ground (arith, e, beyond))
      | inr inside ↦ bound (ground (arith, inside)) (ground (arith, e, inside))
    ]
  where
    bound :
        (here + len) % 2 ^ 64 ≤ length input
        → (here + len % size_mod) % size_mod ≡ there
        → there ≤ length input
    bound b q = omega (arith, b, q, size)

groups_bound : (bytes : List ℕ) (pos : ℕ) → skip_groups bytes pos ≤ pos + length bytes
unfolding skip_groups
groups_bound [] pos = omega arith
groups_bound (b ∷ bs) pos = ground (arith, groups_bound bs (pos + 1))

skip_leb128-Stays : Stays skip_leb128
unfolding skip_leb128
skip_leb128-Stays input here there size h within e =
    let same : skip_groups (drop here input) here ≡ there = cc in
    omega (arith, same, groups_bound (drop here input) here, length-drop here input)

uleb128_loop-le :
    (input : List ℕ) (result shift offset v n : ℕ)
    → uleb128_loop input result shift offset ≡ ok (v, n)
    → n ≤ offset + length input
unfolding uleb128_loop
uleb128_loop-le [] result shift offset v n e = cc
uleb128_loop-le (b ∷ input) result shift offset v n e =
    let chunk = bit_and b 0x7f in
    let result' = if ltb shift 64 then bit_or result (chunk * 2 ^ shift % 2 ^ 64) else result in
    ground (arith, e, uleb128_loop-le input result' ((shift + 7) % size_mod) (offset + 1) v n)

uleb128_decode-le :
    (input : List ℕ) (v n : ℕ) → uleb128_decode (some input) ≡ ok (v, n) → n ≤ length input
unfolding uleb128_decode
uleb128_decode-le input v n e = omega (arith, uleb128_loop-le input 0 0 0 v n e)

with_number-Stays : (f : ℕ → Skip) → ((n : ℕ) → Stays (f n)) → Stays (with_number f)
unfolding with_number
with_number-Stays f k input here there size h within e =
    elim (Result-cases (uleb128_decode (some (drop here input)))) [
      | inl ((n, consumed), run) ↦
          let bound = uleb128_decode-le (drop here input) n consumed run in
          k n input ((here + consumed) % size_mod) there size h
            (omega (arith, bound, length-drop here input, within, size)) (rest n consumed run)
      | inr (inl (x, stops)) ↦ absurd (grind (arith, e, stops))
      | inr (inr stops) ↦ absurd (grind (arith, e, stops))
    ]
  where
    rest :
        (n consumed : ℕ)
        → uleb128_decode (some (drop here input)) ≡ ok (n, consumed)
        → f n input ((here + consumed) % size_mod) ≡ ok there
    rest n consumed run = ground (arith, e, run)

skip_length_prefixed-Stays : (b : Bool) → Stays (skip_length_prefixed b)
unfolding skip_length_prefixed
skip_length_prefixed-Stays true =
    Stays-seq skip_flag (with_number skip_counted) skip_flag-Stays
      (with_number-Stays skip_counted skip_counted-Stays)
skip_length_prefixed-Stays false = with_number-Stays skip_counted skip_counted-Stays

skip_opt_value-Stays : (inner : Skip) → Stays inner → Stays (skip_opt_value inner)
unfolding skip_opt_value
skip_opt_value-Stays inner s input here there size h within e = at_byte (drop here input) refl e
  where
    behind : (b : ℕ) → Stays (λ input pos. if b == 1 then inner input pos else ok pos)
    behind b = Stays-if (b == 1) inner (λ input pos. ok pos) s Stays-ok

    at_byte :
        (ahead : List ℕ)
        → drop here input ≡ ahead
        → with_byte
            (λ flag input pos. if flag == 1 then inner input pos else ok pos)
            ahead
            input
            here
          ≡ ok there
        → there ≤ length input
    at_byte [] q run = absurd (grind (arith, run))
    at_byte (b ∷ ahead) q run =
        let longer : length input - here ≡ suc (length ahead) =
          sym (length-drop here input) ∙ ap length q in
        behind b input ((here + 1) % size_mod) there size h (omega (arith, longer, size)) run

skip_items-Stays : (n : ℕ) (one : Skip) → Stays one → Stays (skip_items n one)
unfolding skip_items
skip_items-Stays zero one s = Stays-ok
skip_items-Stays (suc n) one s = Stays-seq one (skip_items n one) s (skip_items-Stays n one s)

module _ (by_type : IdlType → Skip) (s : (t : IdlType) → Stays (by_type t)) where
  skip_record_value-Stays : (ts : TypeFields) → Stays (skip_record_value by_type ts)
  unfolding skip_record_value
  skip_record_value-Stays TypeFields.no_fields = Stays-ok
  skip_record_value-Stays (TypeFields.field l t ts) =
      Stays-seq (by_type t) (skip_record_value by_type ts) (s t) (skip_record_value-Stays ts)

  skip_chosen-Stays : (o : Option (Label × IdlType)) → Stays (skip_chosen by_type o)
  unfolding skip_chosen
  skip_chosen-Stays none input here there size h within e = absurd (grind (arith, e))
  skip_chosen-Stays (some (l, t)) input here there size h within e =
      s t input here there size h within e

  skip_variant_value-Stays : (ts : TypeFields) → Stays (skip_variant_value by_type ts)
  unfolding skip_variant_value
  skip_variant_value-Stays ts =
      with_number-Stays (λ index. skip_chosen by_type (nth_field ts index))
        (λ index. skip_chosen-Stays (nth_field ts index))

module _ (find : Name → Option IdlType) (links : ℕ) where
  traced-Stays :
      (t : IdlType) (f : Option IdlType → Skip)
      → ((u : Option IdlType) → Stays (f u))
      → Stays (λ input pos. trace find links t >>= λ u. f u input pos)
  traced-Stays t f k input here there size h within e = elim (Result-cases (trace find links t)) [
    | inl (u, run) ↦ k u input here there size h within (rw run at e)
    | inr (inl (x, stops)) ↦ absurd (grind (arith, e, stops))
    | inr (inr stops) ↦ absurd (grind (arith, e, stops))
  ]

  module _ (by_type : IdlType → Skip) (s : (t : IdlType) → Stays (by_type t)) where
    skip_vec_value-Stays : (t : IdlType) → Stays (skip_vec_value find links by_type t)
    unfolding skip_vec_value skip_elements
    skip_vec_value-Stays t = with_number-Stays (skip_elements find links by_type t) λ len.
        traced-Stays t
          (λ u input pos.
            if kind_is_nat8 u
            then skip_counted len input pos
            else skip_items len (by_type t) input pos)
          (λ u.
            Stays-if (kind_is_nat8 u) (skip_counted len) (skip_items len (by_type t))
              (skip_counted-Stays len) (skip_items-Stays len (by_type t) (s t)))

    skip_by_kind-Stays : (t : IdlType) → Stays (skip_by_kind find links by_type t)
    unfolding skip_by_kind
    skip_by_kind-Stays IdlType.null = Stays-ok
    skip_by_kind-Stays IdlType.reserved = Stays-ok
    skip_by_kind-Stays IdlType.bool = skip_fixed_size-Stays 1
    skip_by_kind-Stays IdlType.nat8 = skip_fixed_size-Stays 1
    skip_by_kind-Stays IdlType.int8 = skip_fixed_size-Stays 1
    skip_by_kind-Stays IdlType.nat16 = skip_fixed_size-Stays 2
    skip_by_kind-Stays IdlType.int16 = skip_fixed_size-Stays 2
    skip_by_kind-Stays IdlType.nat32 = skip_fixed_size-Stays 4
    skip_by_kind-Stays IdlType.int32 = skip_fixed_size-Stays 4
    skip_by_kind-Stays IdlType.float32 = skip_fixed_size-Stays 4
    skip_by_kind-Stays IdlType.nat64 = skip_fixed_size-Stays 8
    skip_by_kind-Stays IdlType.int64 = skip_fixed_size-Stays 8
    skip_by_kind-Stays IdlType.float64 = skip_fixed_size-Stays 8
    skip_by_kind-Stays IdlType.nat = skip_leb128-Stays
    skip_by_kind-Stays IdlType.int = skip_leb128-Stays
    skip_by_kind-Stays IdlType.text = skip_length_prefixed-Stays false
    skip_by_kind-Stays IdlType.principal = skip_length_prefixed-Stays true
    skip_by_kind-Stays (IdlType.opt t) = skip_opt_value-Stays (by_type t) (s t)
    skip_by_kind-Stays (IdlType.vec t) = skip_vec_value-Stays t
    skip_by_kind-Stays (IdlType.record_of ts) = skip_record_value-Stays by_type s ts
    skip_by_kind-Stays (IdlType.variant ts) = skip_variant_value-Stays by_type s ts
    skip_by_kind-Stays (IdlType.func args rets modes) =
        Stays-seq (skip_fixed_size 1 >> skip_length_prefixed true) (skip_length_prefixed false)
          (Stays-seq (skip_fixed_size 1) (skip_length_prefixed true) (skip_fixed_size-Stays 1)
            (skip_length_prefixed-Stays true))
          (skip_length_prefixed-Stays false)
    skip_by_kind-Stays (IdlType.service ms) = skip_length_prefixed-Stays true
    skip_by_kind-Stays IdlType.empty = refused
    skip_by_kind-Stays (IdlType.var name) = refused

    resolved-Stays : (u : Option IdlType) → Stays (skip_resolved find links by_type u)
    resolved-Stays none input here there size h within e = absurd (grind (arith, e))
    resolved-Stays (some t) input here there size h within e =
        skip_by_kind-Stays t input here there size h within e

  -- On any bytes whose number fits a size_t, and at any type, a skip from a position within them that
  -- succeeds ends at a position within them.
  pub idl_skip_value-Within :
      (fuel : ℕ) (t : IdlType) (input : List ℕ) (here there : ℕ)
      → IsSize (length input)
      → All IsByte input
      → here ≤ length input
      → idl_skip_value find links fuel t input here ≡ ok there
      → there ≤ length input
  unfolding idl_skip_value
  idl_skip_value-Within zero t input here there size h within e = cc
  idl_skip_value-Within (suc fuel) t input here there size h within e =
      traced-Stays t (skip_resolved find links (idl_skip_value find links fuel))
        (resolved-Stays (idl_skip_value find links fuel)
          (λ u bytes p q. idl_skip_value-Within fuel u bytes p q))
        input here there size h within e
