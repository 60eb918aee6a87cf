-- ===== src/Principal.antt =====
-- cdk-c/src/ic_principal.c: principals and their text, base32 with a checksum in front and dashes.
-- A principal is the list of its bytes; a C string is the list of its characters before the NUL. The
-- pointer to a principal is not NULL.
pub mod Base32
pub mod RoundTrip
pub mod Dashes
pub mod Text
pub mod Sealed
pub mod Parse
use lucid.Base.{
  ℕ, zero, suc, ◌+◌, ◌-◌, ◌*◌, ◌/◌, ◌%◌, ◌^◌, Bool, true, false, not, ◌&&◌, ◌||◌, bit_and, bit_or,
  bit_xor,
}
use lucid.Base.{
  List, [], ◌∷◌, ◌++◌, Option, none, some, ltb, leb, ◌==◌, if◌then◌else◌, length, set, replicate,
  take,
}
use lucid.Base.Array.{get_at}
use lucid.Base.Word.{size_mod}

-- The inner loop of `crc32`, for the bits that are left.
unfoldable pub crc_bits : ℕ → ℕ → ℕ
crc_bits zero crc = crc
crc_bits (suc j) crc =
    crc_bits j (if bit_and crc 1 == 0 then crc / 2 else bit_xor (crc / 2) 0xEDB88320)

unfoldable pub crc_from : List ℕ → ℕ → ℕ
unfolding crc_bits
crc_from [] crc = crc
crc_from (byte ∷ input) crc = crc_from input (crc_bits 8 (bit_xor crc byte))

-- `~` on 32 bits is the difference to `2 ^ 32 - 1`.
unfoldable pub crc32 : List ℕ → ℕ
unfolding crc_from
crc32 input = 2 ^ 32 - 1 - crc_from input 0xFFFFFFFF

-- `a` to `z` and `2` to `7`.
abbrev pub base32_alphabet : List ℕ
base32_alphabet =
    97 ∷ 98 ∷ 99 ∷ 100 ∷ 101 ∷ 102 ∷ 103 ∷ 104 ∷ 105 ∷ 106 ∷ 107 ∷ 108 ∷ 109 ∷ 110 ∷ 111 ∷ 112 ∷ 113
    ∷ 114 ∷ 115 ∷ 116 ∷ 117 ∷ 118 ∷ 119 ∷ 120 ∷ 121 ∷ 122 ∷ 50 ∷ 51 ∷ 52 ∷ 53 ∷ 54 ∷ 55 ∷ []

unfoldable pub base32_char : ℕ → ℕ
unfolding get_at
base32_char digit = get_at 0 base32_alphabet digit

-- The loop of `init_base32_decode_table` from digit `i` on: both cases of a letter. none is -1.
unfoldable pub fill_table : List ℕ → ℕ → List (Option ℕ) → List (Option ℕ)
fill_table [] i table = table
fill_table (char ∷ chars) i table =
    let lower = set table char (some i) in
    fill_table chars (suc i)
      (if leb 97 char && leb char 122 then set lower (char - 97 + 65) (some i) else lower)

unfoldable pub base32_decode_table : List (Option ℕ)
unfolding fill_table
base32_decode_table = fill_table base32_alphabet 0 (replicate 256 none)

-- The loop on `bits_left`: the characters, and the bits that are left. Each round takes five bits.
unfoldable pub emit_digits : ℕ → ℕ → ℕ → List ℕ × ℕ
unfolding base32_char
emit_digits zero buffer bits_left = ([], bits_left)
emit_digits (suc fuel) buffer bits_left =
    let (chars, left) = emit_digits fuel buffer (bits_left - 5) in
    if leb 5 bits_left
    then (base32_char (bit_and (buffer / 2 ^ (bits_left - 5)) 0x1F) ∷ chars, left)
    else ([], bits_left)

unfoldable pub encode_from : List ℕ → ℕ → ℕ → List ℕ
unfolding emit_digits base32_char
encode_from [] buffer bits_left =
    if ltb 0 bits_left
    then base32_char (bit_and (buffer * 2 ^ (5 - bits_left) % 2 ^ 32) 0x1F) ∷ []
    else []
encode_from (byte ∷ input) buffer bits_left =
    let buffer' = bit_or byte (buffer * 2 ^ 8 % 2 ^ 32) in
    let (chars, left) = emit_digits (bits_left + 8) buffer' (bits_left + 8) in
    chars ++ encode_from input buffer' left

unfoldable pub base32_encode : List ℕ → List ℕ
unfolding encode_from
base32_encode input = encode_from input 0 0

-- `isspace` in the C locale.
abbrev is_space : ℕ → Bool
is_space char = char == 32 || (leb 9 char && leb char 13)

-- Bits that are left over must be 0. none is -1.
unfoldable pub finish_decode : ℕ → ℕ → List ℕ → Option (List ℕ)
finish_decode buffer bits_left out =
    if ltb 0 bits_left && not (bit_and buffer (2 ^ bits_left - 1) == 0) then none else some out

-- One round of the decoder on a character that is not NUL: its buffer, the bits left and the output.
unfoldable pub decode_step : ℕ → ℕ → ℕ → ℕ → List ℕ → Option (ℕ × ℕ × List ℕ)
unfolding get_at base32_decode_table
decode_step out_cap char buffer bits_left out =
    if is_space char
    then some (buffer, bits_left, out)
    else elim (get_at none base32_decode_table char) [
      | none ↦ none
      | some val ↦
          let buffer' = bit_or val (buffer * 2 ^ 5 % 2 ^ 32) in
          let left = bits_left + 5 - 8 in
          let byte = bit_and (buffer' / 2 ^ left) 0xFF in
          if leb 8 (bits_left + 5)
          then (if leb out_cap (length out) then none else some (buffer', left, out ++ byte ∷ []))
          else some (buffer', bits_left + 5, out)
    ]

unfoldable pub decode_from : ℕ → List ℕ → ℕ → ℕ → List ℕ → Option (List ℕ)
unfolding finish_decode decode_step
decode_from out_cap [] buffer bits_left out = finish_decode buffer bits_left out
decode_from out_cap (char ∷ chars) buffer bits_left out = elim (char == 0) [
  | true ↦ finish_decode buffer bits_left out
  | false ↦ elim (decode_step out_cap char buffer bits_left out) [
    | none ↦ none
    | some (buffer', left, out') ↦ decode_from out_cap chars buffer' left out'
  ]
]

unfoldable pub base32_decode : List ℕ → ℕ → Option (List ℕ)
unfolding decode_from
base32_decode chars out_cap = decode_from out_cap chars 0 0 []

unfoldable pub remove_dashes : List ℕ → List ℕ
remove_dashes [] = []
remove_dashes (char ∷ chars) =
    if char == 45 then remove_dashes chars else char ∷ remove_dashes chars

abbrev pub principal_max_len : ℕ
principal_max_len = 29

abbrev pub ic_principal_is_valid : List ℕ → Bool
ic_principal_is_valid bytes = ltb 0 (length bytes) && leb (length bytes) principal_max_len

-- A result, the status IC_ERR_INVALID_ARG, or an access outside an array.
pub data Parsed : Type 0 where
  parsed : List ℕ → Parsed
  invalid_arg overrun : Parsed

-- `bytes` is none for NULL, which is accepted with the length 0.
unfoldable pub ic_principal_from_bytes : Option (List ℕ) → ℕ → Parsed
ic_principal_from_bytes none len = if ltb 0 len then invalid_arg else parsed []
ic_principal_from_bytes (some bytes) len =
    if ltb principal_max_len len
    then invalid_arg
    else if ltb (length bytes) len
    then overrun
    else parsed (take len bytes)

unfoldable pub ic_principal_management_canister : Parsed
unfolding ic_principal_from_bytes
ic_principal_management_canister = ic_principal_from_bytes none 0

-- The checksum in the first four bytes, and the bytes behind it.
unfoldable pub split_crc : List ℕ → Option (ℕ × List ℕ)
split_crc (a ∷ b ∷ c ∷ d ∷ rest) =
    some (bit_or d (bit_or (c * 2 ^ 8) (bit_or (b * 2 ^ 16) (a * 2 ^ 24))), rest)
split_crc _ = none

unfoldable pub check_crc : List ℕ → Parsed
unfolding split_crc crc32
check_crc full = elim (split_crc full) [
  | none ↦ invalid_arg
  | some (crc_in, bytes) ↦
      if length bytes == 0 || ltb principal_max_len (length bytes)
      then invalid_arg
      else if crc_in == crc32 bytes
      then parsed bytes
      else invalid_arg
]

-- `b32_buf` has 72 bytes, the last of them for the NUL.
unfoldable pub ic_principal_from_text : Option (List ℕ) → Parsed
unfolding remove_dashes base32_decode check_crc
ic_principal_from_text none = invalid_arg
ic_principal_from_text (some text) =
    let b32 = remove_dashes text in
    if length text == 0
    then invalid_arg
    else if leb 72 (length b32)
    then overrun
    else if ltb (length b32) 8 || ltb 64 (length b32)
    then invalid_arg
    else elim (base32_decode b32 (principal_max_len + 4)) [
      | none ↦ invalid_arg
      | some full ↦ if ltb (length full) 5 then invalid_arg else check_crc full
    ]

-- A character behind the text, with a dash in front of every fifth one; `room` is `text_len - 1`. none
-- is -1.
unfoldable pub dash_step : ℕ → ℕ → ℕ → List ℕ → Option (List ℕ)
dash_step room char i text =
    if leb room (length text)
    then none
    else if ltb 0 i && i % 5 == 0
    then (if leb room (length text + 1) then none else some (text ++ 45 ∷ char ∷ []))
    else some (text ++ char ∷ [])

unfoldable pub dash_from : ℕ → List ℕ → ℕ → List ℕ → Option (List ℕ)
unfolding dash_step
dash_from room [] i text = some text
dash_from room (char ∷ chars) i text = elim (dash_step room char i text) [
  | none ↦ none
  | some text' ↦ dash_from room chars (suc i) text'
]

-- The four bytes of the checksum, the highest first.
unfoldable pub crc_bytes : ℕ → List ℕ
crc_bytes crc =
    bit_and (crc / 2 ^ 24) 0xFF
    ∷ bit_and (crc / 2 ^ 16) 0xFF
    ∷ bit_and (crc / 2 ^ 8) 0xFF
    ∷ bit_and crc 0xFF
    ∷ []

-- `text_len - 1` is a size_t, which for 0 is the largest.
unfoldable pub ic_principal_to_text : List ℕ → ℕ → Option (List ℕ)
unfolding crc32 crc_bytes base32_encode dash_from
ic_principal_to_text bytes text_len =
    if ic_principal_is_valid bytes
    then dash_from ((text_len + (size_mod - 1)) % size_mod)
        (base32_encode (crc_bytes (crc32 bytes) ++ bytes)) 0 []
    else none

unfoldable pub bytes_equal : List ℕ → List ℕ → Bool
bytes_equal [] ys = true
bytes_equal (x ∷ xs) [] = false
bytes_equal (x ∷ xs) (y ∷ ys) = x == y && bytes_equal xs ys

-- `memcmp` on the bytes of the first one's length.
unfoldable pub ic_principal_equal : List ℕ → List ℕ → Bool
unfolding bytes_equal
ic_principal_equal a b = if length a == length b then bytes_equal a b else false
