-- ===== src/Base/Bits.antt =====
-- Bitwise operations on native numbers as arithmetic, at every width.
use Prim.Native.Nat.{ℕ, zero, suc, ◌+◌, ◌-◌, ◌*◌, ◌/◌, ◌%◌, ◌^◌, ◌≤◌, ◌<◌, min, max}
use Prim.Native.Nat.{bit_and, bit_or, digits, bitwise, bit_and-bitwise, bit_or-bitwise}
use native.Mathlib.Nat.{le_refl, pow-suc, one-le-pow}
use native.Mathlib.Omega.{arith}
use native.Mathlib.Nat.{add-zero, add-mul-mod_self_left, mod-eq_of_lt, mod-lt, div-add-mod}
use native.Mathlib.Numerals.{unary_clauses}
use lucid.Base.Tests.{◌==◌, ==_iff}
use mathlib.Core.Bool.{Bool, true, ◌&&◌}
use mathlib.Core.Path.{◌≡◌, refl, ap, ap₂, ◌≡⟨◌⟩◌, ◌∎}

-- `digits` recurs on fuel; any fuel from the first operand on gives the same value.
module _ (lone : ℕ → ℕ) (both : ℕ → ℕ → ℕ) where
  digits_enough : (f g x y : ℕ) → x ≤ f → x ≤ g → digits lone both f x y ≡ digits lone both g x y
  digits_enough zero zero x y hf hg = refl
  digits_enough zero (suc g) zero y hf hg = refl
  digits_enough zero (suc g) (suc x) y hf hg = absurd (omega arith)
  digits_enough (suc f) zero zero y hf hg = refl
  digits_enough (suc f) zero (suc x) y hf hg = absurd (omega arith)
  digits_enough (suc f) (suc g) zero y hf hg = refl
  digits_enough (suc f) (suc g) (suc x) y hf hg =
      rw (digits_enough f g (suc x / 2) (y / 2) (omega arith) (omega arith))

  bitwise_digit :
      (x y : ℕ)
      → bitwise lone both (suc x) y
        ≡ bitwise lone both (suc x / 2) (y / 2) * 2 + both (suc x % 2) (y % 2)
  bitwise_digit x y =
      omega (arith, digits_enough x (suc x / 2) (suc x / 2) (y / 2) (omega arith) (le_refl _))

bit_or_digit : (x y : ℕ) → bit_or x y ≡ bit_or (x / 2) (y / 2) * 2 + max (x % 2) (y % 2)
bit_or_digit zero y = simp bit_or-bitwise (omega arith)
bit_or_digit (suc x) y = simp bit_or-bitwise (bitwise_digit (λ d. d) max x y)

bit_and_digit : (x y : ℕ) → bit_and x y ≡ bit_and (x / 2) (y / 2) * 2 + min (x % 2) (y % 2)
bit_and_digit zero y = simp bit_and-bitwise (omega arith)
bit_and_digit (suc x) y = simp bit_and-bitwise (bitwise_digit (λ d. 0) min x y)

twice_pow : (q k : ℕ) → q * 2 ^ suc k ≡ 2 * (q * 2 ^ k)
twice_pow q k = omega (arith, ap (λ (t : ℕ). q * t) (pow-suc 2 k))

-- Zero on the left is immediate; this is `low | (high << k)` for a `low` of `k` bits.
pub bit_or_disjoint :
    (k low high : ℕ) → low < 2 ^ k → bit_or low (high * 2 ^ k) ≡ low + high * 2 ^ k
bit_or_disjoint zero zero high h = simp bit_or-bitwise (omega arith)
bit_or_disjoint zero (suc low) high h = absurd (omega arith)
bit_or_disjoint (suc k) low high h = ground (
  arith,
  bit_or_digit low (high * 2 ^ suc k),
  twice_pow high k,
  pow-suc 2 k,
  bit_or_disjoint k (low / 2) high (omega (arith, pow-suc 2 k)),
)

bit_and_zero : (n x : ℕ) → x ≤ n → bit_and x 0 ≡ 0
bit_and_zero n zero h = simp bit_and-bitwise (omega arith)
bit_and_zero zero (suc x) h = absurd (omega arith)
bit_and_zero (suc n) (suc x) h =
    omega (arith, bit_and_digit (suc x) 0, bit_and_zero n (suc x / 2) (omega arith))

pub pow-pos : (k : ℕ) → 0 < 2 ^ k
pow-pos k = one-le-pow k 2 (omega arith)

low_digit : (k x : ℕ) → x % 2 ^ suc k ≡ x / 2 % 2 ^ k * 2 + x % 2
low_digit k x =
    x % 2 ^ suc k
    ≡⟨ ap₂ ◌%◌ (omega (arith, x_split)) (omega (arith, pow-suc 2 k)) ⟩
      (x / 2 % p * 2 + x % 2 + 2 * p * (x / 2 / p)) % (2 * p)
    ≡⟨ add-mul-mod_self_left (x / 2 % p * 2 + x % 2) (2 * p) (x / 2 / p) ⟩
      (x / 2 % p * 2 + x % 2) % (2 * p)
    ≡⟨ mod-eq_of_lt (omega (arith, mod-lt (x / 2) (pow-pos k))) ⟩ x / 2 % p * 2 + x % 2 ∎
  where
    p : ℕ
    p = 2 ^ k

    x_split : p * (x / 2 / p) + x / 2 % p ≡ x / 2
    x_split = div-add-mod (x / 2) p

-- `x & (2 ^ k - 1)` is the remainder by `2 ^ k`.
pub bit_and_low : (k x : ℕ) → bit_and x (2 ^ k - 1) ≡ x % 2 ^ k
bit_and_low zero x = rw (bit_and_zero x x (le_refl _)) (omega arith)
bit_and_low (suc k) x = ground (
  arith,
  bit_and_digit x (2 ^ suc k - 1),
  pow-suc 2 k,
  one-le-pow k 2,
  low_digit k x,
  bit_and_low k (x / 2),
)

pub pow-add : (a b : ℕ) → 2 ^ (a + b) ≡ 2 ^ a * 2 ^ b
pow-add a zero = simp (add-zero) (omega arith)
pow-add a (suc b) = simp unary_clauses (omega (arith, pow-add a b))

-- A test on all numbers below a bound.
unfoldable pub all_below : ℕ → (ℕ → Bool) → Bool
all_below zero p = true
all_below (suc n) p = p n && all_below n p

pub all_below-lt : (n : ℕ) (p : ℕ → Bool) → all_below n p ≡ true → (x : ℕ) → x < n → p x ≡ true
unfolding all_below
all_below-lt zero p h x lt = absurd (omega arith)
all_below-lt (suc n) p h x lt = ground (arith, all_below-lt n p (ground arith) x)

-- Bit 7 of a byte: the continuation flag.
pub bit_and_high : (b : ℕ) → b < 256 → bit_and b 0x80 ≡ b / 128 * 128
unfolding all_below
bit_and_high b h = (==_iff _ _).0 (all_below-lt 256 (λ x. bit_and x 0x80 == x / 128 * 128) refl b h)

-- Bit 6 of a byte: the sign of a last group.
pub bit_and_sign : (b : ℕ) → b < 256 → bit_and b 0x40 ≡ b / 64 % 2 * 64
unfolding all_below
bit_and_sign b h =
    (==_iff _ _).0 (all_below-lt 256 (λ x. bit_and x 0x40 == x / 64 % 2 * 64) refl b h)

-- `0x80 | b` on a group of seven bits.
pub bit_or_high : (b : ℕ) → b < 128 → bit_or b 0x80 ≡ b + 128
bit_or_high b h = bit_or_disjoint 7 b 1 h
