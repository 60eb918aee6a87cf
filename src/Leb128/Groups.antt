-- ===== src/Leb128/Groups.antt =====
-- The groups of a signed number, that the encoder writes them, and what a decoding step adds to the
-- result.
use lucid.Base.{ℕ, zero, suc, ◌+◌, ◌-◌, ◌*◌, ◌/◌, ◌%◌, ◌^◌, ◌<◌, ◌≤◌}
use lucid.Base.{List, [], ◌∷◌, ◌==◌, if◌then◌else◌, bit_and}
use lucid.Base.{◌≡◌, arith, ap, ◌∙◌}
use lucid.Base.Int.{ℤ, pos, negsuc, IsSigned}
use lucid.Base.Bits.{bit_and_low, bit_and_high, bit_or_disjoint, bit_or_high, pow-add}
use lucid.Status.{ok}
use lucid.Leb128.{to_u64, sleb128_emit, SlebState}
use lucid.Leb128.{sleb128_next, sleb128_loop}
use native.Mathlib.Nat.{pow-suc, mul-le-mul_right}

-- The groups that stand for an integer, in plain arithmetic, for one that needs `k + 1` at most.
unfoldable pub groups : ℕ → ℤ → List ℕ
groups zero (pos n) = n % 128 ∷ []
groups zero (negsuc n) = (127 - n % 128) ∷ []
groups (suc k) (pos n) =
    let more = groups k (pos (n / 128)) in
    if n / 64 == 0 then n % 128 ∷ [] else (n % 128 + 128) ∷ more
groups (suc k) (negsuc n) =
    let more = groups k (negsuc (n / 128)) in
    if n / 64 == 0 then (127 - n % 128) ∷ [] else (127 - n % 128 + 128) ∷ more

pub low_seven : (v : ℤ) → IsSigned 63 v → (bit_and (to_u64 v) 0x7f) < 128
low_seven v h = ground (arith, bit_and_low 7 (to_u64 v))

pub low_seven_negsuc : (n : ℕ) → n < 2 ^ 63 → bit_and (to_u64 (negsuc n)) 0x7f ≡ 127 - n % 128
low_seven_negsuc n h = omega (arith, bit_and_low 7 (2 ^ 64 - 1 - n))

abbrev pub Fits : ℕ → ℤ → Type 0
Fits k (pos n) = n < 64 * 128 ^ k
Fits k (negsuc n) = n < 64 * 128 ^ k

pub sleb128_emit-groups :
    (k : ℕ) (v : ℤ) → Fits k v → IsSigned 63 v → sleb128_emit (suc k) v ≡ ok (groups k v)
unfolding sleb128_emit groups
sleb128_emit-groups zero (pos n) f h = ground (arith, bit_and_low 7 n, bit_and_low 7 (n % 128))
sleb128_emit-groups zero (negsuc n) f h =
    ground (arith, low_seven_negsuc n h, bit_and_low 7 (127 - n % 128))
sleb128_emit-groups (suc k) (pos n) f h = ground (
  arith,
  bit_and_low 7 n,
  bit_and_low 7 (n % 128),
  bit_or_high (n % 128),
  pow-suc 128 k,
  sleb128_emit-groups k (pos (n / 128)),
)
sleb128_emit-groups (suc k) (negsuc n) f h = ground (
  arith,
  low_seven_negsuc n h,
  bit_and_low 7 (127 - n % 128),
  bit_or_high (127 - n % 128),
  pow-suc 128 k,
  sleb128_emit-groups k (negsuc (n / 128)),
)

pub last_byte :
    (w : ℕ) (rest : List ℕ) (s : SlebState)
    → w < 128
    → s.shift ≤ 63
    → sleb128_loop (w ∷ rest) s ≡ ok (sleb128_next w s)
unfolding sleb128_loop
last_byte w rest s hw hs = ground (arith, bit_and_high w)

pub inner_byte :
    (g : ℕ) (rest : List ℕ) (s : SlebState)
    → g < 128
    → s.shift ≤ 63
    → sleb128_loop ((g + 128) ∷ rest) s ≡ sleb128_loop rest (sleb128_next (g + 128) s)
unfolding sleb128_loop
inner_byte g rest s hg hs = ground (arith, bit_and_high (g + 128))

pub result-next :
    (byte : ℕ) (s : SlebState)
    → s.result < 2 ^ s.shift
    → (sleb128_next byte s).result ≡ s.result + byte % 128 * 2 ^ s.shift
result-next byte s h = rw (bit_and_low 7 byte) (bit_or_disjoint s.shift s.result (byte % 128) h)

pub result-next-lt :
    (byte : ℕ) (s : SlebState)
    → s.result < 2 ^ s.shift
    → (sleb128_next byte s).result < 2 ^ (s.shift + 7)
result-next-lt byte s h =
    let top = mul-le-mul_right {m = suc (byte % 128)} {n = 128} (2 ^ s.shift) (omega arith) in
    rw (pow-add s.shift 7) (omega (arith, result-next byte s h, top))

pub result-next_inner :
    (g : ℕ) (s : SlebState)
    → g < 128
    → s.result < 2 ^ s.shift
    → (sleb128_next (g + 128) s).result ≡ s.result + g * 2 ^ s.shift
result-next_inner g s hg h =
    let low : (g + 128) % 128 ≡ g = omega arith in
    result-next (g + 128) s h ∙ ap (λ (m : ℕ). s.result + m * 2 ^ s.shift) low

pub result-next_last :
    (w : ℕ) (s : SlebState)
    → w < 128
    → s.result < 2 ^ s.shift
    → (sleb128_next w s).result ≡ s.result + w * 2 ^ s.shift
result-next_last w s hw h =
    let low : w % 128 ≡ w = omega arith in
    result-next w s h ∙ ap (λ (m : ℕ). s.result + m * 2 ^ s.shift) low

pub split_shift :
    (low v shift : ℕ) → (low + 128 * v) * 2 ^ shift ≡ low * 2 ^ shift + v * 2 ^ (shift + 7)
split_shift low v shift = rw (pow-add shift 7) (omega arith)

pub split_all : (n shift : ℕ) → n * 2 ^ shift ≡ n % 128 * 2 ^ shift + n / 128 * 2 ^ (shift + 7)
split_all n shift =
    ap (λ (m : ℕ). m * 2 ^ shift) {x = n} {y = n % 128 + 128 * (n / 128)} (omega arith)
    ∙ split_shift (n % 128) (n / 128) shift
