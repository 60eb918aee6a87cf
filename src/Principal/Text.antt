-- ===== src/Principal/Text.antt =====
-- The text of a principal: its length, and that it is read back.
use lucid.Base.{
  ℕ, ◌+◌, ◌-◌, ◌*◌, ◌/◌, ◌%◌, ◌^◌, ◌≤◌, ◌<◌, ◌≡◌, refl, ap, sym, ◌∙◌, subst, arith, ◌⊎◌, inl, inr,
}
use lucid.Base.{List, [], ◌++◌, none, some, length, All, All-append, bit_and, bit_or}
use lucid.Base.Bits.{bit_and_low, bit_or_disjoint}
use lucid.Base.Word.{size_mod}
use lucid.Leb128.{IsByte}
use lucid.Principal.{
  base32_encode, base32_decode, remove_dashes, dash_from, crc32, crc_bytes, split_crc, check_crc,
}
use lucid.Principal.{parsed, ic_principal_from_text, ic_principal_to_text, principal_max_len}
use lucid.Principal.RoundTrip.{base32_decode-encode}
use lucid.Principal.Dashes.{IsPlain, Dashed, resized, encode-IsPlain, dash_from-Dashed}

split_crc-crc_bytes :
    (crc : ℕ) (bytes : List ℕ)
    → crc < 2 ^ 32
    → split_crc (crc_bytes crc ++ bytes) ≡ some (crc, bytes)
unfolding split_crc crc_bytes
split_crc-crc_bytes crc bytes h = ap (λ (n : ℕ). some (n, bytes)) joined
  where
    a : ℕ
    a = bit_and (crc / 2 ^ 24) 0xFF

    b : ℕ
    b = bit_and (crc / 2 ^ 16) 0xFF

    c : ℕ
    c = bit_and (crc / 2 ^ 8) 0xFF

    d : ℕ
    d = bit_and crc 0xFF

    a_is : a ≡ crc / 2 ^ 24 % 256
    a_is = bit_and_low 8 (crc / 2 ^ 24)

    b_is : b ≡ crc / 2 ^ 16 % 256
    b_is = bit_and_low 8 (crc / 2 ^ 16)

    c_is : c ≡ crc / 2 ^ 8 % 256
    c_is = bit_and_low 8 (crc / 2 ^ 8)

    d_is : d ≡ crc % 256
    d_is = bit_and_low 8 crc

    two : bit_or (b * 2 ^ 16) (a * 2 ^ 24) ≡ (b + a * 2 ^ 8) * 2 ^ 16
    two = bit_or_disjoint 24 (b * 2 ^ 16) a (omega (arith, b_is)) ∙ omega arith

    three :
        bit_or (c * 2 ^ 8) (bit_or (b * 2 ^ 16) (a * 2 ^ 24))
        ≡ (c + (b + a * 2 ^ 8) * 2 ^ 8) * 2 ^ 8
    three =
        ap (bit_or (c * 2 ^ 8)) two
        ∙ bit_or_disjoint 16 (c * 2 ^ 8) (b + a * 2 ^ 8) (omega (arith, c_is))
        ∙ omega arith

    joined : bit_or d (bit_or (c * 2 ^ 8) (bit_or (b * 2 ^ 16) (a * 2 ^ 24))) ≡ crc
    joined =
        ap (bit_or d) three
        ∙ bit_or_disjoint 8 d (c + (b + a * 2 ^ 8) * 2 ^ 8) (omega (arith, d_is))
        ∙ omega (arith, a_is, b_is, c_is, d_is, h)

crc_bytes-IsByte : (crc : ℕ) → All IsByte (crc_bytes crc)
unfolding crc_bytes
crc_bytes-IsByte crc =
    (low (crc / 2 ^ 24), (low (crc / 2 ^ 16), (low (crc / 2 ^ 8), (low crc, tt))))
  where
    low : (n : ℕ) → bit_and n 0xFF < 256
    low n = omega (arith, bit_and_low 8 n)

crc32-bound : (bytes : List ℕ) → crc32 bytes < 2 ^ 32
unfolding crc32
crc32-bound bytes = omega arith

pub check_crc-crc_bytes :
    (bytes : List ℕ)
    → 0 < length bytes
    → length bytes ≤ principal_max_len
    → check_crc (crc_bytes (crc32 bytes) ++ bytes) ≡ parsed bytes
unfolding check_crc
check_crc-crc_bytes bytes some_byte few =
    let split = split_crc-crc_bytes (crc32 bytes) bytes (crc32-bound bytes) in
    ground (arith, split, some_byte, few)

-- The characters of a principal of `n` bytes, with its checksum, and with dashes between them.
abbrev pub char_count : ℕ → ℕ
char_count n = (8 * (n + 4) + 4) / 5

abbrev pub text_size : ℕ → ℕ
text_size n = char_count n + (char_count n - 1) / 5

module _ (bytes : List ℕ) (is_bytes : All IsByte bytes) (some_byte : 0 < length bytes)
    (few : length bytes ≤ principal_max_len) where
  abbrev checked : List ℕ
  checked = crc_bytes (crc32 bytes) ++ bytes

  length-checked : length checked ≡ 4 + length bytes
  unfolding crc_bytes
  length-checked = omega arith

  checked-IsByte : All IsByte checked
  checked-IsByte =
      All-append IsByte (crc_bytes (crc32 bytes)) bytes (crc_bytes-IsByte (crc32 bytes)) is_bytes

  b32-IsPlain : IsPlain (char_count (length bytes)) (base32_encode checked)
  unfolding base32_encode
  b32-IsPlain =
      resized _ _ _ _ refl (omega (arith, length-checked))
        ((encode-IsPlain checked checked-IsByte).0 0)

  to_text-Dashed :
      (text_len : ℕ)
      → Dashed
          ((text_len + (size_mod - 1)) % size_mod)
          (base32_encode checked)
          0
          []
          (ic_principal_to_text bytes text_len)
  unfolding ic_principal_to_text
  to_text-Dashed text_len =
      subst (Dashed room (base32_encode checked) 0 []) (sym run)
        (dash_from-Dashed room (base32_encode checked) 0 [] (omega arith))
    where
      room : ℕ
      room = (text_len + (size_mod - 1)) % size_mod

      run : ic_principal_to_text bytes text_len ≡ dash_from room (base32_encode checked) 0 []
      run = ground (arith, some_byte, few)

  from_text-plain :
      (text : List ℕ)
      → remove_dashes text ≡ base32_encode checked
      → 0 < length text
      → ic_principal_from_text (some text) ≡ parsed bytes
  unfolding ic_principal_from_text
  from_text-plain text e nonempty =
      let size = ap length e ∙ b32-IsPlain.0 in
      let decoded =
        ap (λ cs. base32_decode cs 33) e
        ∙ base32_decode-encode checked 33 checked-IsByte (omega (arith, length-checked, few)) in
      let valid = check_crc-crc_bytes bytes some_byte few in
      let long = length-checked in
      ground (arith, size, decoded, valid, long, nonempty, some_byte, few)

  -- The text of a principal of 1 to 29 bytes fits a buffer exactly if the buffer, which is not empty, is
  -- longer than the characters, ceil(8 (n + 4) / 5), with a dash between any five of them: then it is
  -- of that length and is read back as the principal; else the call fails.
  pub ic_principal_from_text-to_text :
      (text_len : ℕ)
      → 0 < text_len
      → text_len < size_mod
      → ((t : List ℕ) × (text_size (length bytes) < text_len)
          × (ic_principal_to_text bytes text_len ≡ some t)
          × (length t ≡ text_size (length bytes))
          × (ic_principal_from_text (some t) ≡ parsed bytes))
        ⊎ ((text_len ≤ text_size (length bytes)) × (ic_principal_to_text bytes text_len ≡ none))
  unfolding remove_dashes
  ic_principal_from_text-to_text text_len given small = elim (to_text-Dashed text_len) [
    | inl (t, run, size, fits, plain) ↦ inl (
      t,
      omega (arith, size, fits, b32-IsPlain.0, given, small),
      run,
      omega (arith, size, b32-IsPlain.0),
      from_text-plain t (plain ∙ b32-IsPlain.1) (omega (arith, size, b32-IsPlain.0)),
    )
    | inr (run, over) ↦ inr (omega (arith, over, b32-IsPlain.0, given, small), run)
  ]

  -- With a buffer of no bytes the limit wraps around: the whole text of any principal of 1 to 29 bytes is
  -- written.
  pub ic_principal_to_text-empty_buffer :
      (t : List ℕ) × (ic_principal_to_text bytes 0 ≡ some t) × (length t ≡ text_size (length bytes))
  ic_principal_to_text-empty_buffer = elim (to_text-Dashed 0) [
    | inl (t, run, size, fits, plain) ↦ (t, run, omega (arith, size, b32-IsPlain.0))
    | inr (run, over) ↦ absurd (omega (arith, over, b32-IsPlain.0, few))
  ]
