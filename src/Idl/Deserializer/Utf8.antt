-- ===== src/Idl/Deserializer/Utf8.antt =====
-- `idl_utf8_validate` of c_candid/runtime/runtime/src/decode/deserializer.c.
use lucid.Base.{ℕ, zero, suc, Bool, true, false, ◌&&◌}
use lucid.Base.{List, [], ◌∷◌, Option, none, some, leb, ◌==◌, if◌then◌else◌, length, drop, bit_and}

abbrev within : ℕ → ℕ → ℕ → Bool
within lo hi c = leb lo c && leb c hi

-- `(byte & 0xc0) == 0x80`
abbrev is_continuation : ℕ → Bool
is_continuation b = bit_and b 0xc0 == 0x80

abbrev two_more : (ℕ → Bool) → List ℕ → Option ℕ
two_more second (b ∷ c ∷ rest) = if second b && is_continuation c then some 3 else none
two_more second _ = none

abbrev three_more : (ℕ → Bool) → List ℕ → Option ℕ
three_more second (b ∷ c ∷ d ∷ rest) =
    if second b && (is_continuation c && is_continuation d) then some 4 else none
three_more second _ = none

abbrev one_more : List ℕ → Option ℕ
one_more (b ∷ rest) = if is_continuation b then some 2 else none
one_more _ = none

-- One round of the loop at the byte `c`: the bytes to skip, or none to return 0.
unfoldable pub utf8_step : ℕ → List ℕ → Option ℕ
utf8_step c rest =
    if leb c 0x7f
    then some 1
    else if within 0xc2 0xdf c
    then one_more rest
    else if c == 0xe0
    then two_more (within 0xa0 0xbf) rest
    else if within 0xe1 0xec c
    then two_more is_continuation rest
    else if c == 0xed
    then two_more (within 0x80 0x9f) rest
    else if within 0xee 0xef c
    then two_more is_continuation rest
    else if c == 0xf0
    then three_more (within 0x90 0xbf) rest
    else if within 0xf1 0xf3 c
    then three_more is_continuation rest
    else if c == 0xf4
    then three_more (within 0x80 0x8f) rest
    else none

-- A round skips a byte at least, so that the length is fuel enough.
unfoldable pub utf8_loop : ℕ → List ℕ → Bool
utf8_loop fuel [] = true
utf8_loop zero (c ∷ rest) = false
utf8_loop (suc fuel) (c ∷ rest) = elim (utf8_step c rest) [
  | none ↦ false
  | some n ↦ utf8_loop fuel (drop n (c ∷ rest))
]

unfoldable pub idl_utf8_validate : List ℕ → Bool
unfolding utf8_loop utf8_step
idl_utf8_validate bytes = utf8_loop (length bytes) bytes
