-- ===== src/Idl/Skip.antt =====
-- c_candid/runtime/runtime/src/coerce.c, from skip_fixed_size on: moving over a value on the wire
-- without reading it. `data` is `input`, `*pos` the number that is passed and returned; no pointer is
-- NULL but a type that the environment does not know.
pub mod Moves
pub mod Wire
pub mod Within
use lucid.Base.{
  ℕ, zero, suc, ◌+◌, ◌-◌, ◌%◌, ◌^◌, Bool, true, false, List, [], ◌∷◌, Option, none, some,
}
use lucid.Base.{bit_and, ltb, leb, ◌==◌, if◌then◌else◌, length, drop}
use lucid.Base.Word.{size_mod}
use lucid.Status.{Result, ok, err, stuck, truncated, invalid_arg, unsupported, ◌>>=◌}
use lucid.Leb128.{uleb128_decode}
use lucid.Idl.Types.{Name, Label, IdlType, TypeFields}
use lucid.Idl.Deserializer.{trace, kind_is_nat8, nth_field}

abbrev pub Skip : Type 0
Skip = List ℕ → ℕ → Result ℕ

-- One after the other.
infixl 5 ◌>>◌
abbrev pub ◌>>◌ : Skip → Skip → Skip
◌>>◌ p q input pos = p input pos >>= q input

-- The sums wrap around in 32 bits.
unfoldable pub skip_fixed_size : ℕ → Skip
skip_fixed_size size input pos =
    if ltb (length input) ((pos + size) % size_mod)
    then err truncated
    else ok ((pos + size) % size_mod)

-- The bytes from `pos` on; at their end the loop stops too.
unfoldable pub skip_groups : List ℕ → ℕ → ℕ
skip_groups [] pos = pos
skip_groups (byte ∷ bytes) pos =
    let rest = skip_groups bytes (pos + 1) in if bit_and byte 0x80 == 0 then pos + 1 else rest

unfoldable pub skip_leb128 : Skip
unfolding skip_groups
skip_leb128 input pos = ok (skip_groups (drop pos input) pos)

-- `idl_uleb128_decode(data + *pos, data_len - *pos, ..)`, and what is done behind the number. Past the
-- end of the data the difference wraps around, and bytes outside them are read.
unfoldable pub with_number : (ℕ → Skip) → Skip
with_number f input pos =
    if ltb (length input) pos
    then stuck
    else uleb128_decode (some (drop pos input)) >>= λ (n, consumed).
        f n input ((pos + consumed) % size_mod)

-- The test adds in 64 bits; the position keeps 32 of the length, and of the sum.
unfoldable pub skip_counted : ℕ → Skip
skip_counted len input pos =
    if ltb (length input) ((pos + len) % 2 ^ 64)
    then err truncated
    else ok ((pos + len % size_mod) % size_mod)

unfoldable pub skip_flag : Skip
skip_flag input pos = if leb (length input) pos then err truncated else ok ((pos + 1) % size_mod)

unfoldable pub skip_length_prefixed : Bool → Skip
unfolding with_number skip_counted skip_flag
skip_length_prefixed true = skip_flag >> with_number skip_counted
skip_length_prefixed false = with_number skip_counted

-- The byte at `pos`, and what is done behind it.
abbrev pub with_byte : (ℕ → Skip) → List ℕ → Skip
with_byte f [] input pos = err truncated
with_byte f (byte ∷ ahead) input pos = f byte input ((pos + 1) % size_mod)

-- `inner` is idl_skip_value at the inner type. Every flag but 1 stands for none.
unfoldable pub skip_opt_value : Skip → Skip
skip_opt_value inner input pos =
    with_byte (λ flag input pos. if flag == 1 then inner input pos else ok pos) (drop pos input)
      input pos

unfoldable pub skip_items : ℕ → Skip → Skip
skip_items zero item input pos = ok pos
skip_items (suc n) item input pos = item input pos >>= skip_items n item input

unfoldable pub skip_record_value : (IdlType → Skip) → TypeFields → Skip
skip_record_value by_type TypeFields.no_fields input pos = ok pos
skip_record_value by_type (TypeFields.field l t ts) input pos =
    by_type t input pos >>= skip_record_value by_type ts input

unfoldable pub skip_chosen : (IdlType → Skip) → Option (Label × IdlType) → Skip
skip_chosen by_type none input pos = err invalid_arg
skip_chosen by_type (some (l, t)) input pos = by_type t input pos

unfoldable pub skip_variant_value : (IdlType → Skip) → TypeFields → Skip
unfolding with_number skip_chosen
skip_variant_value by_type ts = with_number (λ index. skip_chosen by_type (nth_field ts index))

module _ (find : Name → Option IdlType) (links : ℕ) where
  -- What is done behind the length of a vector.
  unfoldable pub skip_elements : (IdlType → Skip) → IdlType → ℕ → Skip
  unfolding skip_counted skip_items trace
  skip_elements by_type inner len input pos = trace find links inner >>= λ t.
      if kind_is_nat8 t
      then skip_counted len input pos
      else skip_items len (by_type inner) input pos

  unfoldable pub skip_vec_value : (IdlType → Skip) → IdlType → Skip
  unfolding with_number skip_elements
  skip_vec_value by_type inner = with_number (skip_elements by_type inner)

  -- The switch, on the resolved type.
  unfoldable pub skip_by_kind : (IdlType → Skip) → IdlType → Skip
  unfolding skip_leb128 skip_length_prefixed skip_fixed_size skip_opt_value skip_vec_value
      skip_record_value skip_variant_value
  skip_by_kind by_type IdlType.null input pos = ok pos
  skip_by_kind by_type IdlType.reserved input pos = ok pos
  skip_by_kind by_type IdlType.bool input pos = skip_fixed_size 1 input pos
  skip_by_kind by_type IdlType.nat8 input pos = skip_fixed_size 1 input pos
  skip_by_kind by_type IdlType.int8 input pos = skip_fixed_size 1 input pos
  skip_by_kind by_type IdlType.nat16 input pos = skip_fixed_size 2 input pos
  skip_by_kind by_type IdlType.int16 input pos = skip_fixed_size 2 input pos
  skip_by_kind by_type IdlType.nat32 input pos = skip_fixed_size 4 input pos
  skip_by_kind by_type IdlType.int32 input pos = skip_fixed_size 4 input pos
  skip_by_kind by_type IdlType.float32 input pos = skip_fixed_size 4 input pos
  skip_by_kind by_type IdlType.nat64 input pos = skip_fixed_size 8 input pos
  skip_by_kind by_type IdlType.int64 input pos = skip_fixed_size 8 input pos
  skip_by_kind by_type IdlType.float64 input pos = skip_fixed_size 8 input pos
  skip_by_kind by_type IdlType.nat input pos = skip_leb128 input pos
  skip_by_kind by_type IdlType.int input pos = skip_leb128 input pos
  skip_by_kind by_type IdlType.text input pos = skip_length_prefixed false input pos
  skip_by_kind by_type IdlType.principal input pos = skip_length_prefixed true input pos
  skip_by_kind by_type (IdlType.opt t) input pos = skip_opt_value (by_type t) input pos
  skip_by_kind by_type (IdlType.vec t) input pos = skip_vec_value by_type t input pos
  skip_by_kind by_type (IdlType.record_of ts) input pos = skip_record_value by_type ts input pos
  skip_by_kind by_type (IdlType.variant ts) input pos = skip_variant_value by_type ts input pos
  skip_by_kind by_type (IdlType.func args rets modes) input pos =
      (skip_fixed_size 1 >> skip_length_prefixed true >> skip_length_prefixed false) input pos
  skip_by_kind by_type (IdlType.service ms) input pos = skip_length_prefixed true input pos
  skip_by_kind by_type IdlType.empty input pos = err unsupported
  skip_by_kind by_type (IdlType.var name) input pos = err unsupported

  abbrev pub skip_resolved : (IdlType → Skip) → Option IdlType → Skip
  skip_resolved by_type none input pos = err invalid_arg
  skip_resolved by_type (some t) input pos = skip_by_kind by_type t input pos

  -- The fuel bounds the nesting of the value. `*bytes_skipped` is left to the caller: the difference
  -- of the positions.
  unfoldable pub idl_skip_value : ℕ → IdlType → Skip
  unfolding skip_by_kind trace
  idl_skip_value zero t input pos = stuck
  idl_skip_value (suc fuel) t input pos =
      trace find links t >>= λ u. skip_resolved (idl_skip_value fuel) u input pos
