-- ===== src/Leb128/Unsigned.antt =====
-- The unsigned decoder of leb128.c against the number that a run of groups stands for.
use lucid.Base.{ℕ, suc, ◌+◌, ◌-◌, ◌*◌, ◌/◌, ◌%◌, ◌^◌, ◌<◌, ◌≤◌}
use lucid.Base.{List, [], ◌∷◌, ◌++◌, Option, none, some, ltb, ◌==◌, if◌then◌else◌}
use lucid.Base.{
  ◌≡◌, sym, ◌∙◌, arith, length, All, ap, inl, inr, Bool-cases, Option-cases, ltb→lt, ltb→le,
}
use lucid.Base.Bits.{bit_and_low, bit_and_high, bit_or_disjoint, pow-add, pow-pos}
use lucid.Base.Word.{size_mod}
use lucid.Status.{Result, ok, err, overflow}
use lucid.Leb128.{IsByte, uleb128_loop, uleb128_decode}
use mathlib.Core.Option
use mathlib.Core.Logic.{◌≢◌, ◌↔◌}
use native.Mathlib.Nat.{
  mul-div_cancel, div-lt_iff_lt-mul, lt_of_mul-lt-mul_right, mul-le-mul_right,
  le_of_mul-le-mul_right, mod-eq_of_lt, mod-lt,
}

-- The groups up to the first byte below 128, lowest first, with their number; no bound on either.
unfoldable pub uleb128_number : List ℕ → Option (ℕ × ℕ)
uleb128_number [] = none
uleb128_number (b ∷ bs) =
    if ltb b 128
    then some (b, 1)
    else Option.map (λ (v, n). (b % 128 + 128 * v, suc n)) (uleb128_number bs)

-- A chunk comes back from its shift exactly if no bit left the 64.
shift_back :
    (chunk p m : ℕ)
    → 0 < p
    → m * p ≡ 2 ^ 64
    → (chunk * p % 2 ^ 64 / p == chunk) ≡ ltb (chunk * p) (2 ^ 64)
shift_back chunk p m hp whole = elim (Bool-cases (ltb (chunk * p) (2 ^ 64))) [
  | inl fits ↦ ground (arith, mul-div_cancel chunk hp)
  | inr wide ↦ ground (arith, lost, too_large (ground arith))
]
  where
    lost : chunk * p % 2 ^ 64 / p < m
    lost = (div-lt_iff_lt-mul hp).1 (omega (arith, mod-lt (chunk * p) {m = 2 ^ 64} (omega arith)))

    too_large : m * p ≤ chunk * p → m ≤ chunk
    too_large h = le_of_mul-le-mul_right h hp

pow_split : (shift : ℕ) → shift < 64 → 2 ^ (64 - shift) * 2 ^ shift ≡ 2 ^ 64
pow_split shift h = sym (pow-add (64 - shift) shift) ∙ ap (λ (k : ℕ). 2 ^ k) {y = 64} (omega arith)

-- A chunk that fits leaves room for the bits below it.
fits_below :
    (result chunk p m : ℕ)
    → result < p
    → m * p ≡ 2 ^ 64
    → chunk * p < 2 ^ 64
    → result + chunk * p < 2 ^ 64
fits_below result chunk p m hr whole h =
    let chunk_lt : chunk < m = lt_of_mul-lt-mul_right p (omega arith) in
    omega (arith, mul-le-mul_right {m = suc chunk} {n = m} p chunk_lt)

-- What one byte does, in plain arithmetic.
abbrev after_byte : ℕ → List ℕ → ℕ → ℕ → ℕ → Result (ℕ × ℕ)
after_byte b input total shift offset =
    if ltb b 128
    then ok (total, offset + 1)
    else uleb128_loop input total ((shift + 7) % size_mod) (offset + 1)

low_shift :
    (b : ℕ) (input : List ℕ) (result shift offset : ℕ)
    → IsByte b
    → result < 2 ^ shift
    → shift < 64
    → uleb128_loop (b ∷ input) result shift offset ≡ (
        if ltb (result + b % 128 * 2 ^ shift) (2 ^ 64)
        then after_byte b input (result + b % 128 * 2 ^ shift) shift offset
        else err overflow)
unfolding uleb128_loop
low_shift b input result shift offset hb hr hs =
    elim (Bool-cases (ltb (b % 128 * 2 ^ shift) (2 ^ 64))) [
      | inl fits ↦
          let small : b % 128 * 2 ^ shift < 2 ^ 64 = ltb→lt _ _ fits in
          let kept = mod-eq_of_lt {n = b % 128 * 2 ^ shift} {m = 2 ^ 64} small in
          ground (
            arith,
            bit_and_low 7 b,
            bit_and_high b hb,
            kept,
            mul-div_cancel (b % 128) (pow-pos shift),
            bit_or_disjoint shift result (b % 128) hr,
            fits_below result (b % 128) (2 ^ shift) (2 ^ (64 - shift)) hr (pow_split shift hs)
                small,
          )
      | inr wide ↦ ground (
        arith,
        bit_and_low 7 b,
        shift_back (b % 128) (2 ^ shift) (2 ^ (64 - shift)) (pow-pos shift) (pow_split shift hs),
      )
    ]

high_pow : (shift : ℕ) → 64 ≤ shift → 2 ^ 64 ≤ 2 ^ shift
high_pow shift h =
    let split : 2 ^ shift ≡ 2 ^ (shift - 64) * 2 ^ 64 =
      ap (λ (k : ℕ). 2 ^ k) {x = shift} (omega arith) ∙ pow-add (shift - 64) 64 in
    omega (arith, split, pow-pos (shift - 64))

high_shift :
    (b : ℕ) (input : List ℕ) (result shift offset : ℕ)
    → IsByte b
    → result < 2 ^ 64
    → 64 ≤ shift
    → uleb128_loop (b ∷ input) result shift offset ≡ (
        if ltb (result + b % 128 * 2 ^ shift) (2 ^ 64)
        then after_byte b input (result + b % 128 * 2 ^ shift) shift offset
        else err overflow)
unfolding uleb128_loop
high_shift b input result shift offset hb hr hs = elim (Bool-cases (b % 128 == 0)) [
  | inl none_set ↦ ground (arith, bit_and_low 7 b, bit_and_high b hb, no_bits (ground arith))
  | inr some_set ↦ ground (arith, bit_and_low 7 b, high_pow shift hs, too_wide (ground arith))
]
  where
    no_bits : b % 128 ≡ 0 → b % 128 * 2 ^ shift ≡ 0
    no_bits z = rw z (omega arith)

    too_wide : 1 ≤ b % 128 → 1 * 2 ^ shift ≤ b % 128 * 2 ^ shift
    too_wide z = mul-le-mul_right (2 ^ shift) z

one_byte :
    (b : ℕ) (input : List ℕ) (result shift offset : ℕ)
    → IsByte b
    → result < 2 ^ shift
    → result < 2 ^ 64
    → uleb128_loop (b ∷ input) result shift offset ≡ (
        if ltb (result + b % 128 * 2 ^ shift) (2 ^ 64)
        then after_byte b input (result + b % 128 * 2 ^ shift) shift offset
        else err overflow)
one_byte b input result shift offset hb hr hw = elim (Bool-cases (ltb shift 64)) [
  | inl low ↦ low_shift b input result shift offset hb hr (ltb→lt _ _ low)
  | inr high ↦ high_shift b input result shift offset hb hw (ltb→le _ _ high)
]

-- The first group and the others, both shifted.
split_number :
    (low v shift : ℕ) → (low + 128 * v) * 2 ^ shift ≡ low * 2 ^ shift + v * 2 ^ (shift + 7)
split_number low v shift = rw (pow-add shift 7) (omega arith)

low_part :
    (b result shift : ℕ) → result < 2 ^ shift → result + b % 128 * 2 ^ shift < 2 ^ (shift + 7)
low_part b result shift h =
    let top = mul-le-mul_right {m = suc (b % 128)} {n = 128} (2 ^ shift) (omega arith) in
    rw (pow-add shift 7) (omega (arith, top))

uleb128_loop-number :
    (input : List ℕ) (result shift offset v n : ℕ)
    → All IsByte input
    → result < 2 ^ shift
    → result < 2 ^ 64
    → shift + 7 * n < size_mod
    → uleb128_number input ≡ some (v, n)
    → uleb128_loop input result shift offset ≡ (
        if ltb (result + v * 2 ^ shift) (2 ^ 64)
        then ok (result + v * 2 ^ shift, offset + n)
        else err overflow)
unfolding uleb128_number
uleb128_loop-number [] result shift offset v n h hr hw hs e = cc
uleb128_loop-number (b ∷ bs) result shift offset v n (hb, h) hr hw hs e =
    elim (Bool-cases (ltb b 128)) [
      | inl last ↦
          ground (arith, one_byte b bs result shift offset hb hr hw, mod-eq_of_lt {n = b} {m = 128})
      | inr more ↦ elim (Option-cases (uleb128_number bs)) [
        | inl stop ↦ ground arith
        | inr ((v', n'), rest) ↦ ground (
          arith,
          one_byte b bs result shift offset hb hr hw,
          split_number (b % 128) v' shift,
          low_part b result shift hr,
          uleb128_loop-number bs (result + b % 128 * 2 ^ shift) (shift + 7) (offset + 1) v' n' h,
        )
      ]
    ]

uleb128_loop-unterminated :
    (input : List ℕ) (result shift offset : ℕ) (p : ℕ × ℕ)
    → All IsByte input
    → result < 2 ^ shift
    → result < 2 ^ 64
    → shift + 7 * length input < size_mod
    → uleb128_number input ≡ none
    → uleb128_loop input result shift offset ≢ ok p
unfolding uleb128_number
uleb128_loop-unterminated [] result shift offset p h hr hw hs e = unfold uleb128_loop in λ q. cc
uleb128_loop-unterminated (b ∷ bs) result shift offset p (hb, h) hr hw hs e =
    elim (Option-cases (uleb128_number bs)) [
      | inl stop ↦ ground (
        arith,
        one_byte b bs result shift offset hb hr hw,
        low_part b result shift hr,
        uleb128_loop-unterminated bs (result + b % 128 * 2 ^ shift) (shift + 7) (offset + 1) p h,
      )
      | inr (q, rest) ↦ ground arith
    ]

pub length-number :
    (input : List ℕ) (v n : ℕ) → uleb128_number input ≡ some (v, n) → n ≤ length input
unfolding uleb128_number
length-number [] v n e = cc
length-number (b ∷ bs) v n e = elim (Option-cases (uleb128_number bs)) [
  | inl stop ↦ ground arith
  | inr ((v', n'), rest) ↦ ground (arith, length-number bs v' n' rest)
]

-- A number of few enough groups for their shifts is decoded.
pub uleb128_decode-number :
    (input : List ℕ) (v n : ℕ)
    → All IsByte input
    → 7 * n < size_mod
    → v < 2 ^ 64
    → uleb128_number input ≡ some (v, n)
    → uleb128_decode (some input) ≡ ok (v, n)
unfolding uleb128_decode
uleb128_decode-number input v n h hs small e = ground (
  arith,
  small,
  uleb128_loop-number input 0 0 0 v n h (omega arith) (omega arith) (omega (arith, hs)) e,
)

-- On bytes, at most so many that no shift of their groups wraps around, decoding succeeds with a value
-- and a count exactly if the input begins with that many groups of that value, and the value fits 64
-- bits; padding by zero groups is accepted.
pub uleb128_decode-eq-ok_iff :
    (input : List ℕ) (v n : ℕ)
    → All IsByte input
    → 7 * length input < size_mod
    → (uleb128_decode (some input) ≡ ok (v, n))
      ↔ ((uleb128_number input ≡ some (v, n)) × (v < 2 ^ 64))
unfolding uleb128_decode
uleb128_decode-eq-ok_iff input v n h hs = elim (Option-cases (uleb128_number input)) [
  | inl stop ↦ ground (
    arith,
    uleb128_loop-unterminated input 0 0 0 (v, n) h (omega arith) (omega arith) (omega (arith, hs))
        stop,
  )
  | inr ((v', n'), e) ↦ ground (
    arith,
    uleb128_loop-number input 0 0 0 v' n' h (omega arith) (omega arith)
        (omega (arith, hs, length-number input v' n' e)) e,
  )
]

-- A number that ends within `bytes` is not changed by what follows.
pub number-append :
    (bytes rest : List ℕ) (v n : ℕ)
    → uleb128_number bytes ≡ some (v, n)
    → uleb128_number (bytes ++ rest) ≡ some (v, n)
unfolding uleb128_number
number-append [] rest v n e = cc
number-append (b ∷ bs) rest v n e = elim (Option-cases (uleb128_number bs)) [
  | inl stop ↦ ground arith
  | inr ((v', n'), more) ↦ ground (arith, number-append bs rest v' n' more)
]
