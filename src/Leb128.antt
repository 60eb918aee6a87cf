-- ===== src/Leb128.antt =====
-- c_candid/runtime/runtime/src/leb128.c: variable-length integers of seven bits a byte.
-- A pointer argument that the code tests against NULL is an `Option`; the bytes behind an output
-- pointer are the list that a call returns, and what a failed call left there is not kept.
pub mod Groups
pub mod Unsigned
pub mod Written
pub mod Signed
use lucid.Base.{ℕ, zero, suc, ◌+◌, ◌-◌, ◌*◌, ◌/◌, ◌%◌, ◌^◌, ◌<◌, Bool, true, false, not, ◌&&◌}
use lucid.Base.{List, [], ◌∷◌, Option, none, some, ltb, leb, ◌==◌, if◌then◌else◌, bit_and, bit_or}
use lucid.Base.Int.{ℤ, pos, negsuc}
use lucid.Base.Word.{size_mod}
use lucid.Status.{Result, ok, err, overflow, truncated, invalid_arg, ◌>>=◌, map_ok}

abbrev pub IsByte : ℕ → Type 0
IsByte b = b < 256

-- `room` is `out_len - count`; a round that finds none left fails.
unfoldable pub uleb128_emit : ℕ → ℕ → Result (List ℕ)
uleb128_emit zero value = err truncated
uleb128_emit (suc room) value =
    let byte = bit_and value 0x7f in
    let value' = value / 2 ^ 7 in
    let rest = uleb128_emit room value' in
    if value' == 0 then ok (byte ∷ []) else map_ok (λ bytes. bit_or byte 0x80 ∷ bytes) rest

-- `out` is the length of the output buffer, or none for a NULL pointer.
unfoldable pub uleb128_encode : ℕ → Option ℕ → Result (List ℕ)
uleb128_encode value none = err invalid_arg
uleb128_encode value (some out_len) = uleb128_emit out_len value

-- An int64_t as its 64 bits.
abbrev pub to_u64 : ℤ → ℕ
to_u64 (pos n) = n
to_u64 (negsuc n) = 2 ^ 64 - 1 - n

-- `value >>= k` on a signed integer.
abbrev pub shift_right : ℤ → ℕ → ℤ
shift_right (pos n) k = pos (n / 2 ^ k)
shift_right (negsuc n) k = negsuc (n / 2 ^ k)

-- `value == 0 || value == -1`
abbrev pub is_done : ℤ → Bool
is_done (pos n) = n == 0
is_done (negsuc n) = n == 0

unfoldable pub sleb128_emit : ℕ → ℤ → Result (List ℕ)
sleb128_emit zero value = err truncated
sleb128_emit (suc room) value =
    let byte = bit_and (to_u64 value) 0x7f in
    let value' = shift_right value 6 in
    let rest = sleb128_emit room (shift_right value' 1) in
    if is_done value'
    then ok (bit_and byte 0x7f ∷ [])
    else map_ok (λ bytes. bit_or byte 0x80 ∷ bytes) rest

unfoldable pub sleb128_encode : ℤ → Option ℕ → Result (List ℕ)
sleb128_encode value none = err invalid_arg
sleb128_encode value (some out_len) = sleb128_emit out_len value

-- The list is what the loop has not read of the input. `shift` is a size_t.
unfoldable pub uleb128_loop : List ℕ → ℕ → ℕ → ℕ → Result (ℕ × ℕ)
uleb128_loop [] result shift offset = err truncated
uleb128_loop (byte ∷ input) result shift offset =
    let chunk = bit_and byte 0x7f in
    let shifted = chunk * 2 ^ shift % 2 ^ 64 in
    let result' = if ltb shift 64 then bit_or result shifted else result in
    let more = uleb128_loop input result' ((shift + 7) % size_mod) (offset + 1) in
    if leb 64 shift && not (chunk == 0)
    then err overflow
    else if ltb shift 64 && not (shifted / 2 ^ shift == chunk)
    then err overflow
    else if bit_and byte 0x80 == 0
    then ok (result', offset + 1)
    else more

-- The value and the number of bytes consumed.
unfoldable pub uleb128_decode : Option (List ℕ) → Result (ℕ × ℕ)
uleb128_decode none = err invalid_arg
uleb128_decode (some input) = uleb128_loop input 0 0 0

-- The local variables of `idl_sleb128_decode`. `result` is the bit pattern of the 128-bit integer.
pub record SlebState : Type 0 where
  pub result : ℕ
  pub shift : ℕ
  pub offset : ℕ
  pub byte : ℕ

abbrev pub sleb128_next : ℕ → SlebState → SlebState
sleb128_next byte s = record {
  result = bit_or s.result (bit_and byte 0x7f * 2 ^ s.shift);
  shift = s.shift + 7;
  offset = s.offset + 1;
  byte = byte;
}

-- The shift never passes 70, so no bit is shifted out of the 128.
unfoldable pub sleb128_loop : List ℕ → SlebState → Result SlebState
sleb128_loop [] s = ok s
sleb128_loop (byte ∷ input) s =
    let more = sleb128_loop input (sleb128_next byte s) in
    if leb 64 s.shift && (not (byte == 0x00) && not (byte == 0x7f))
    then err overflow
    else if bit_and byte 0x80 == 0
    then ok (sleb128_next byte s)
    else more

-- A 128-bit pattern as the integer that it stands for.
abbrev pub signed128 : ℕ → ℤ
signed128 w = if ltb w (2 ^ 127) then pos w else negsuc (2 ^ 128 - 1 - w)

abbrev pub in_int64 : ℤ → Bool
in_int64 (pos n) = ltb n (2 ^ 63)
in_int64 (negsuc n) = ltb n (2 ^ 63)

-- What follows the loop. `-(1 << shift)` is the pattern `2 ^ 128 - 2 ^ shift`.
unfoldable pub sleb128_finish : SlebState → Result (ℤ × ℕ)
sleb128_finish s =
    let negative = bit_and s.byte 0x40 == 0x40 && ltb s.shift 128 in
    let result = if negative then bit_or s.result (2 ^ 128 - 2 ^ s.shift) else s.result in
    if not (bit_and s.byte 0x80 == 0)
    then err truncated
    else if in_int64 (signed128 result)
    then ok (signed128 result, s.offset)
    else err overflow

abbrev pub sleb128_start : SlebState
sleb128_start = record { result = 0; shift = 0; offset = 0; byte = 0 }

unfoldable pub sleb128_decode : Option (List ℕ) → Result (ℤ × ℕ)
unfolding sleb128_finish
sleb128_decode none = err invalid_arg
sleb128_decode (some input) = sleb128_loop input sleb128_start >>= sleb128_finish
