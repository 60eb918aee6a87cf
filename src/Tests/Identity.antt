-- ===== src/Tests/Identity.antt =====
-- The theorems on principals at the principal of a canister, and known values of the functions.
use lucid.Base.{ℕ, ◌≤◌, ◌<◌, ◌≡◌, refl, arith, List, [], ◌∷◌, none, some, length, ◌⊎◌, All}
use lucid.Leb128.{IsByte}
use lucid.Principal.{
  crc32, base32_encode, base32_decode, parsed, overrun, ic_principal_from_text,
  ic_principal_to_text, remove_dashes,
}
use lucid.Principal.RoundTrip.{base32_decode-encode}
use lucid.Principal.Text.{
  text_size, ic_principal_from_text-to_text, ic_principal_to_text-empty_buffer,
}
use lucid.Principal.Parse.{Checked, ic_principal_from_text-cases}

abbrev canister : List ℕ
canister = 0 ∷ 0 ∷ 0 ∷ 0 ∷ 0 ∷ 0 ∷ 0 ∷ 1 ∷ 1 ∷ 1 ∷ []

-- The characters 123456789 have the checksum 0xCBF43926.
crc32_digits : crc32 (49 ∷ 50 ∷ 51 ∷ 52 ∷ 53 ∷ 54 ∷ 55 ∷ 56 ∷ 57 ∷ []) ≡ 0xCBF43926
unfolding crc32
crc32_digits = refl

-- rrkah-fqaaa-aaaaa-aaaaq-cai
abbrev canister_text : List ℕ
canister_text =
    114 ∷ 114 ∷ 107 ∷ 97 ∷ 104 ∷ 45 ∷ 102 ∷ 113 ∷ 97 ∷ 97 ∷ 97 ∷ 45 ∷ 97 ∷ 97 ∷ 97 ∷ 97 ∷ 97 ∷ 45
    ∷ 97 ∷ 97 ∷ 97 ∷ 97 ∷ 113 ∷ 45 ∷ 99 ∷ 97 ∷ 105 ∷ []

canister_to_text : ic_principal_to_text canister 64 ≡ some canister_text
unfolding ic_principal_to_text
canister_to_text = refl

canister_from_text : ic_principal_from_text (some canister_text) ≡ parsed canister
unfolding ic_principal_from_text
canister_from_text = refl

canister-IsByte : All IsByte canister
canister-IsByte = (
  omega arith,
  (
    omega arith,
    (
      omega arith,
      (
        omega arith,
        (
          omega arith,
          (omega arith, (omega arith, (omega arith, (omega arith, (omega arith, tt))))),
        ),
      ),
    ),
  ),
)

base32_decode-encode_example : base32_decode (base32_encode canister) 33 ≡ some canister
base32_decode-encode_example = base32_decode-encode canister 33 canister-IsByte (omega arith)

ic_principal_from_text-to_text_example :
    ((t : List ℕ) × (text_size 10 < 64)
      × (ic_principal_to_text canister 64 ≡ some t)
      × (length t ≡ text_size 10)
      × (ic_principal_from_text (some t) ≡ parsed canister))
    ⊎ ((64 ≤ text_size 10) × (ic_principal_to_text canister 64 ≡ none))
ic_principal_from_text-to_text_example =
    ic_principal_from_text-to_text canister canister-IsByte (omega arith) (omega arith) 64
      (omega arith) (omega arith)

ic_principal_to_text-empty_buffer_example :
    (t : List ℕ) × (ic_principal_to_text canister 0 ≡ some t) × (length t ≡ text_size 10)
ic_principal_to_text-empty_buffer_example =
    ic_principal_to_text-empty_buffer canister canister-IsByte (omega arith) (omega arith)

ic_principal_from_text-cases_example :
    ((72 ≤ length (remove_dashes canister_text))
      × (ic_principal_from_text (some canister_text) ≡ overrun))
    ⊎ ((length (remove_dashes canister_text) < 72)
        × Checked canister_text (ic_principal_from_text (some canister_text)))
ic_principal_from_text-cases_example = ic_principal_from_text-cases canister_text
