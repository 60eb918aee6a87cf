-- ===== src/Principal/Sealed.antt =====
-- The checksum in front of a principal, and the test of it.
use lucid.Base.{
  ℕ, ◌+◌, ◌*◌, ◌/◌, ◌^◌, ◌≤◌, ◌<◌, ◌≡◌, refl, ap, sym, ◌∙◌, arith, Bool-cases, ◌||◌, ◌⊎◌, inl, inr,
}
use lucid.Base.{List, [], ◌∷◌, ◌++◌, ltb, ◌==◌, ==_iff, length, All, bit_or}
use lucid.Base.Bits.{bit_and_low, bit_or_disjoint}
use lucid.Leb128.{IsByte}
use lucid.Principal.{split_crc, check_crc, crc32, crc_bytes}
use lucid.Principal.{parsed, invalid_arg, principal_max_len}

-- The bytes of a valid principal.
abbrev pub IsPrincipal : List ℕ → Type 0
IsPrincipal bytes = (0 < length bytes) × (length bytes ≤ principal_max_len) × All IsByte bytes

-- Four bytes, joined and taken apart again.
crc_bytes-joined :
    (a b c d : ℕ)
    → IsByte a
    → IsByte b
    → IsByte c
    → IsByte d
    → crc_bytes (bit_or d (bit_or (c * 2 ^ 8) (bit_or (b * 2 ^ 16) (a * 2 ^ 24))))
      ≡ a ∷ b ∷ c ∷ d ∷ []
unfolding crc_bytes
crc_bytes-joined a b c d ha hb hc hd = rw joined (
    ground (
      arith,
      bit_and_low 8 (crc / 2 ^ 24),
      bit_and_low 8 (crc / 2 ^ 16),
      bit_and_low 8 (crc / 2 ^ 8),
      bit_and_low 8 crc,
      ha,
      hb,
      hc,
      hd,
    ))
  where
    crc : ℕ
    crc = a * 2 ^ 24 + b * 2 ^ 16 + c * 2 ^ 8 + d

    two : bit_or (b * 2 ^ 16) (a * 2 ^ 24) ≡ (b + a * 2 ^ 8) * 2 ^ 16
    two = bit_or_disjoint 24 (b * 2 ^ 16) a (omega (arith, hb)) ∙ omega arith

    three :
        bit_or (c * 2 ^ 8) (bit_or (b * 2 ^ 16) (a * 2 ^ 24))
        ≡ (c + (b + a * 2 ^ 8) * 2 ^ 8) * 2 ^ 8
    three =
        ap (bit_or (c * 2 ^ 8)) two
        ∙ bit_or_disjoint 16 (c * 2 ^ 8) (b + a * 2 ^ 8) (omega (arith, hc))
        ∙ omega arith

    joined : bit_or d (bit_or (c * 2 ^ 8) (bit_or (b * 2 ^ 16) (a * 2 ^ 24))) ≡ crc
    joined =
        ap (bit_or d) three
        ∙ bit_or_disjoint 8 d (c + (b + a * 2 ^ 8) * 2 ^ 8) (omega (arith, hd))
        ∙ omega arith

-- The checksum of the bytes, and the bytes.
abbrev pub sealed : List ℕ → List ℕ
sealed bytes = crc_bytes (crc32 bytes) ++ bytes

pub check_crc-cases :
    (full : List ℕ)
    → All IsByte full
    → (check_crc full ≡ invalid_arg)
      ⊎ ((bytes : List ℕ) × (check_crc full ≡ parsed bytes)
          × IsPrincipal bytes
          × (full ≡ sealed bytes))
unfolding check_crc split_crc
check_crc-cases [] h = inl refl
check_crc-cases (a ∷ []) h = inl refl
check_crc-cases (a ∷ b ∷ []) h = inl refl
check_crc-cases (a ∷ b ∷ c ∷ []) h = inl refl
check_crc-cases (a ∷ b ∷ c ∷ d ∷ rest) (ha, (hb, (hc, (hd, h)))) =
    let crc = bit_or d (bit_or (c * 2 ^ 8) (bit_or (b * 2 ^ 16) (a * 2 ^ 24))) in
    elim (Bool-cases (length rest == 0 || ltb principal_max_len (length rest))) [
      | inl badly ↦ inl (ground (arith, badly))
      | inr sized ↦ elim (Bool-cases (crc == crc32 rest)) [
        | inr differs ↦ inl (ground (arith, sized, differs))
        | inl agrees ↦ inr (
          rest,
          ground (arith, sized, agrees),
          (ground (arith, sized), ground (arith, sized), h),
          sym (
              ap (λ (n : ℕ). crc_bytes n ++ rest) (sym ((==_iff crc (crc32 rest)).0 agrees))
              ∙ ap (λ bs. bs ++ rest) (crc_bytes-joined a b c d ha hb hc hd)),
        )
      ]
    ]
