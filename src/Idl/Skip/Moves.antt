-- ===== src/Idl/Skip/Moves.antt =====
-- What the skipping of coerce.c makes of bytes that lie ahead.
use lucid.Base.{ℕ, ◌+◌, ◌%◌, ◌^◌, ◌<◌, false, inl, inr}
use lucid.Base.{
  List, [], ◌∷◌, ◌++◌, append_assoc, ◌≡◌, refl, sym, ◌∙◌, ap, subst, arith, All, All-append,
}
use lucid.Base.{some, length, length-append, drop, drop-length_append}
use lucid.Base.{ltb, Option-cases}
use lucid.Base.Bits.{bit_and_high}
use lucid.Base.Word.{IsSize, size_mod}
use lucid.Status.{ok}
use lucid.Leb128.{
  IsByte, SlebState, sleb128_loop, sleb128_next, sleb128_start, sleb128_decode, sleb128_finish,
}
use lucid.Leb128.Unsigned.{uleb128_number}
use lucid.Idl.Serializer.Wire.{uleb, uleb_decode, uleb-IsByte}
use lucid.Idl.Skip.{Skip, ◌>>◌, skip_fixed_size, skip_groups, skip_leb128, with_number}
use lucid.Idl.Skip.{skip_counted, skip_flag}
use lucid.Base.Int.{ℤ}
use lucid.Status.{Result-cases}

-- In front of any bytes, `p` moves over `bytes` and no more.
abbrev pub Moves : Skip → List ℕ → Type 0
Moves p bytes =
    All IsByte bytes
    × ((before rest : List ℕ)
        → IsSize (length (before ++ (bytes ++ rest)))
        → All IsByte rest
        → p (before ++ (bytes ++ rest)) (length before) ≡ ok (length before + length bytes))

-- How long the parts are.
lengths :
    (before bytes rest : List ℕ)
    → length (before ++ (bytes ++ rest)) ≡ length before + (length bytes + length rest)
lengths before bytes rest =
    length-append before (bytes ++ rest) ∙ ap (λ n. length before + n) (length-append bytes rest)

pub Moves-nil : Moves (λ input pos. ok pos) []
Moves-nil = (tt, λ before rest size h. ground arith)

pub Moves-seq : (p q : Skip) (xs ys : List ℕ) → Moves p xs → Moves q ys → Moves (p >> q) (xs ++ ys)
Moves-seq p q xs ys (hx, mx) (hy, my) = (
  All-append IsByte xs ys hx hy,
  λ before rest size h.
      let split : before ++ ((xs ++ ys) ++ rest) ≡ before ++ (xs ++ (ys ++ rest)) =
        ap (λ t. before ++ t) (append_assoc xs ys rest) in
      let shift : before ++ (xs ++ (ys ++ rest)) ≡ (before ++ xs) ++ (ys ++ rest) =
        sym (append_assoc before xs (ys ++ rest)) in
      let first =
        mx before (ys ++ rest) (subst (λ t. IsSize (length t)) split size)
          (All-append IsByte ys rest hy h) in
      let second = my (before ++ xs) rest (subst (λ t. IsSize (length t)) (split ∙ shift) size) h in
      let stop : length (before ++ xs) + length ys ≡ length before + length (xs ++ ys) =
        omega (arith, length-append before xs, length-append xs ys) in
      rw split (
        rw first (
          subst (λ t. q t (length before + length xs) ≡ ok (length before + length (xs ++ ys)))
            (sym shift)
            (subst
              (λ n. q ((before ++ xs) ++ (ys ++ rest)) n ≡ ok (length before + length (xs ++ ys)))
              (length-append before xs) (second ∙ ap (λ (n : ℕ). ok n) stop)))),
)

pub skip_fixed_size-Moves :
    (bytes : List ℕ) → All IsByte bytes → Moves (skip_fixed_size (length bytes)) bytes
unfolding skip_fixed_size
skip_fixed_size-Moves bytes h =
    (h, λ before rest size hr. ground (arith, lengths before bytes rest))

pub skip_counted-Moves :
    (bytes : List ℕ) → All IsByte bytes → Moves (skip_counted (length bytes)) bytes
unfolding skip_counted
skip_counted-Moves bytes h = (h, λ before rest size hr. ground (arith, lengths before bytes rest))

pub skip_flag-Moves : (b : ℕ) → IsByte b → Moves skip_flag (b ∷ [])
unfolding skip_flag
skip_flag-Moves b h =
    ((h, tt), λ before rest size hr. ground (arith, length-append before (b ∷ rest)))

-- A number, and what moves over the bytes behind it.
pub with_number-Moves :
    (f : ℕ → Skip) (n : ℕ) (ys : List ℕ)
    → n < 2 ^ 64
    → Moves (f n) ys
    → Moves (with_number f) (uleb n ++ ys)
unfolding with_number
with_number-Moves f n ys small m =
    let (h, moves) =
      Moves-seq (λ input pos. ok (pos + length (uleb n))) (f n) (uleb n) ys
        (uleb-IsByte n small, λ before rest size hr. refl) m in
    (
      h,
      λ before rest size hr.
          let split = append_assoc (uleb n) ys rest in
          let decoded = uleb_decode n (ys ++ rest) small (All-append IsByte ys rest m.0 hr) in
          let inside : length before + length (uleb n) < size_mod =
            omega (arith, lengths before (uleb n ++ ys) rest, length-append (uleb n) ys) in
          let enough : ltb (length (before ++ ((uleb n ++ ys) ++ rest))) (length before) ≡ false =
            ground (arith, lengths before (uleb n ++ ys) rest) in
          let ahead : drop (length before) (before ++ ((uleb n ++ ys) ++ rest))
              ≡ uleb n ++ (ys ++ rest) =
            drop-length_append before _ ∙ split in
          let low : (length before + length (uleb n)) % size_mod ≡ length before + length (uleb n) =
            omega arith in
          rw enough (rw ahead (rw decoded (rw low (moves before rest size hr)))),
    )

skip_groups-number :
    (bytes rest : List ℕ) (pos v k : ℕ)
    → All IsByte bytes
    → uleb128_number bytes ≡ some (v, k)
    → skip_groups (bytes ++ rest) pos ≡ pos + k
unfolding skip_groups uleb128_number
skip_groups-number [] rest pos v k h e = cc
skip_groups-number (b ∷ bs) rest pos v k (hb, h) e = elim (Option-cases (uleb128_number bs)) [
  | inl stop ↦ ground (arith, bit_and_high b hb)
  | inr ((v', k'), more) ↦
      ground (arith, bit_and_high b hb, skip_groups-number bs rest (pos + 1) v' k' h more)
]

-- The signed decoder's loop goes over the same bytes, to the end of the input where they have none.
skip_groups-sleb128_loop :
    (input : List ℕ) (pos : ℕ) (s s' : SlebState)
    → sleb128_loop input s ≡ ok s'
    → skip_groups input pos + s.offset ≡ pos + s'.offset
unfolding skip_groups sleb128_loop
skip_groups-sleb128_loop [] pos s s' e = let same : s ≡ s' = cc in ground arith
skip_groups-sleb128_loop (b ∷ bs) pos s s' e =
    ground (arith, skip_groups-sleb128_loop bs (pos + 1) (sleb128_next b s) s')

skip_groups-sleb128_decode :
    (input : List ℕ) (pos k : ℕ) (z : ℤ)
    → sleb128_decode (some input) ≡ ok (z, k)
    → skip_groups input pos ≡ pos + k
unfolding sleb128_decode sleb128_finish
skip_groups-sleb128_decode input pos k z e =
    elim (Result-cases (sleb128_loop input sleb128_start)) [
      | inl (s, run) ↦ ground (arith, skip_groups-sleb128_loop input pos sleb128_start s run)
      | inr (inl (e', run)) ↦ ground arith
      | inr (inr run) ↦ ground arith
    ]

pub skip_nat-Moves :
    (bytes : List ℕ) (v : ℕ)
    → All IsByte bytes
    → uleb128_number bytes ≡ some (v, length bytes)
    → Moves skip_leb128 bytes
unfolding skip_leb128
skip_nat-Moves bytes v h e = (
  h,
  λ before rest size hr.
      rw (drop-length_append before (bytes ++ rest))
        (ap (λ (n : ℕ). ok n) (skip_groups-number bytes rest (length before) v (length bytes) h e)),
)

pub skip_int-Moves :
    (bytes : List ℕ) (z : ℤ)
    → All IsByte bytes
    → ((rest : List ℕ)
        → All IsByte rest
        → sleb128_decode (some (bytes ++ rest)) ≡ ok (z, length bytes))
    → Moves skip_leb128 bytes
unfolding skip_leb128
skip_int-Moves bytes z h decodes = (
  h,
  λ before rest size hr. rw (drop-length_append before (bytes ++ rest)) (
      ap (λ (n : ℕ). ok n)
        (skip_groups-sleb128_decode (bytes ++ rest) (length before) (length bytes) z
          (decodes rest hr))),
)
