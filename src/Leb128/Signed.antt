-- ===== src/Leb128/Signed.antt =====
-- The signed decoder of leb128.c on the groups of an int64: what is written is read back.
use lucid.Base.{ℕ, zero, suc, ◌+◌, ◌-◌, ◌*◌, ◌/◌, ◌%◌, ◌^◌, ◌<◌, ◌≤◌}
use lucid.Base.{List, ◌++◌, some, ◌==◌}
use lucid.Base.{◌≡◌, arith, length, ap, inl, inr, Bool-cases, sym, ◌∙◌}
use lucid.Base.Int.{ℤ, pos, negsuc, IsSigned}
use lucid.Base.Bits.{bit_and_high, bit_and_sign, bit_or_disjoint, pow-add, pow-pos}
use lucid.Status.{ok}
use lucid.Leb128.{sleb128_encode, SlebState}
use lucid.Leb128.{sleb128_next, sleb128_loop, sleb128_finish, sleb128_start, sleb128_decode}
use native.Mathlib.Nat.{pow-suc, mul-le-mul_right}
use lucid.Leb128.Groups.{
  groups, Fits, sleb128_emit-groups, last_byte, inner_byte, result-next, result-next-lt,
  result-next_inner, result-next_last, split_all,
}

-- The loop reads the groups of a number that is not negative, and stops before the rest.
sleb128_loop-pos :
    (k n : ℕ) (s : SlebState) (rest : List ℕ)
    → n < 64 * 128 ^ k
    → s.shift + 7 * k ≤ 63
    → s.result < 2 ^ s.shift
    → (t : SlebState) × (sleb128_loop (groups k (pos n) ++ rest) s ≡ ok t)
      × (t.byte < 64)
      × (t.result ≡ s.result + n * 2 ^ s.shift)
      × (t.offset ≡ s.offset + length (groups k (pos n)))
unfolding groups
sleb128_loop-pos zero n s rest hn hs hr = (
  sleb128_next (n % 128) s,
  last_byte (n % 128) rest s (omega arith) (omega arith),
  omega arith,
  ground (arith, result-next (n % 128) s hr),
  omega arith,
)
sleb128_loop-pos (suc k) n s rest hn hs hr = elim (Bool-cases (n / 64 == 0)) [
  | inl last ↦ (
    sleb128_next (n % 128) s,
    rw last (last_byte (n % 128) rest s (omega arith) (omega arith)),
    ground arith,
    ground (arith, result-next (n % 128) s hr),
    rw last (omega arith),
  )
  | inr more ↦
      let s' = sleb128_next (n % 128 + 128) s in
      let (t, run, low, value, count) =
        sleb128_loop-pos k (n / 128) s' rest (omega (arith, pow-suc 128 k)) (omega arith)
          (result-next-lt (n % 128 + 128) s hr) in
      (
        t,
        rw more (
            inner_byte (n % 128) (groups k (pos (n / 128)) ++ rest) s (omega arith) (omega arith)
            ∙ run),
        low,
        omega (arith, value, result-next_inner (n % 128) s (omega arith) hr, split_all n s.shift),
        rw more (omega (arith, count)),
      )
]

-- A group of -(n + 1) is the complement of that of `n`.
complement :
    (n shift : ℕ) → (127 - n % 128) * 2 ^ shift + n % 128 * 2 ^ shift + 2 ^ shift ≡ 2 ^ (shift + 7)
complement n shift =
    let whole : 127 - n % 128 + n % 128 ≡ 127 = omega arith in
    rw (pow-add shift 7) (omega (arith, ap (λ (m : ℕ). m * 2 ^ shift) whole))

-- The loop reads the groups of -(n + 1), and stops before the rest at a byte with its sign bit set.
sleb128_loop-negsuc :
    (k n : ℕ) (s : SlebState) (rest : List ℕ)
    → n < 64 * 128 ^ k
    → s.shift + 7 * k ≤ 63
    → s.result < 2 ^ s.shift
    → (t : SlebState) × (sleb128_loop (groups k (negsuc n) ++ rest) s ≡ ok t)
      × (64 ≤ t.byte)
      × (t.byte < 128)
      × (t.shift ≤ 70)
      × (t.result < 2 ^ t.shift)
      × (t.result + (n + 1) * 2 ^ s.shift ≡ s.result + 2 ^ t.shift)
      × (t.offset ≡ s.offset + length (groups k (negsuc n)))
unfolding groups
sleb128_loop-negsuc zero n s rest hn hs hr =
    let small : n % 128 ≡ n = omega arith in
    let w = 127 - n % 128 in
    (
      sleb128_next w s,
      last_byte w rest s (omega arith) (omega arith),
      omega arith,
      omega arith,
      omega arith,
      result-next-lt w s hr,
      omega (
        arith,
        result-next_last w s (omega arith) hr,
        complement n s.shift,
        ap (λ (m : ℕ). m * 2 ^ s.shift) small,
      ),
      omega arith,
    )
sleb128_loop-negsuc (suc k) n s rest hn hs hr = elim (Bool-cases (n / 64 == 0)) [
  | inl last ↦
      let small : n % 128 ≡ n = ground arith in
      let w = 127 - n % 128 in
      (
        sleb128_next w s,
        rw last (last_byte w rest s (omega arith) (omega arith)),
        ground arith,
        omega arith,
        omega arith,
        result-next-lt w s hr,
        omega (
          arith,
          result-next_last w s (omega arith) hr,
          complement n s.shift,
          ap (λ (m : ℕ). m * 2 ^ s.shift) small,
        ),
        rw last (omega arith),
      )
  | inr more ↦
      let g = 127 - n % 128 in
      let s' = sleb128_next (g + 128) s in
      let (t, run, neg, byte, shift, fits, value, count) =
        sleb128_loop-negsuc k (n / 128) s' rest (omega (arith, pow-suc 128 k)) (omega arith)
          (result-next-lt (g + 128) s hr) in
      (
        t,
        rw more (
            inner_byte g (groups k (negsuc (n / 128)) ++ rest) s (omega arith) (omega arith) ∙ run),
        neg,
        byte,
        shift,
        fits,
        omega (
          arith,
          value,
          result-next_inner g s (omega arith) hr,
          split_all n s.shift,
          complement n s.shift,
        ),
        rw more (omega (arith, count)),
      )
]

sign_mask : (shift : ℕ) → shift ≤ 70 → 2 ^ 128 - 2 ^ shift ≡ (2 ^ (128 - shift) - 1) * 2 ^ shift
sign_mask shift h =
    let whole : 2 ^ (128 - shift) * 2 ^ shift ≡ 2 ^ 128 =
      sym (pow-add (128 - shift) shift) ∙ ap (λ (k : ℕ). 2 ^ k) {y = 128} (omega arith) in
    let one_less : 2 ^ (128 - shift) ≡ 2 ^ (128 - shift) - 1 + 1 =
      omega (arith, pow-pos (128 - shift)) in
    omega (arith, whole, ap (λ (m : ℕ). m * 2 ^ shift) one_less)

high_pow : (shift : ℕ) → shift ≤ 70 → 2 ^ shift ≤ 2 ^ 70
high_pow shift h =
    let split : 2 ^ 70 ≡ 2 ^ (70 - shift) * 2 ^ shift =
      ap (λ (k : ℕ). 2 ^ k) {x = 70} (omega arith) ∙ pow-add (70 - shift) shift in
    omega (arith, split, mul-le-mul_right (2 ^ shift) (pow-pos (70 - shift)))

finish-pos :
    (t : SlebState)
    → t.byte < 64
    → t.result < 2 ^ 63
    → sleb128_finish t ≡ ok (pos t.result, t.offset)
unfolding sleb128_finish
finish-pos t hb hr = ground (arith, bit_and_sign t.byte, bit_and_high t.byte)

finish-negsuc :
    (t : SlebState) (n : ℕ)
    → 64 ≤ t.byte
    → t.byte < 128
    → t.shift ≤ 70
    → t.result < 2 ^ t.shift
    → t.result + (n + 1) ≡ 2 ^ t.shift
    → n < 2 ^ 63
    → sleb128_finish t ≡ ok (negsuc n, t.offset)
unfolding sleb128_finish
finish-negsuc t n hb hb' hs hr e hn = ground (
  arith,
  bit_and_sign t.byte,
  bit_and_high t.byte,
  sign_mask t.shift hs,
  high_pow t.shift hs,
  bit_or_disjoint t.shift t.result (2 ^ (128 - t.shift) - 1) hr,
)

length-groups : (k : ℕ) (v : ℤ) → length (groups k v) ≤ k + 1
unfolding groups
length-groups zero (pos n) = omega arith
length-groups zero (negsuc n) = omega arith
length-groups (suc k) (pos n) = ground (arith, length-groups k (pos (n / 128)))
length-groups (suc k) (negsuc n) = ground (arith, length-groups k (negsuc (n / 128)))

decode-groups :
    (v : ℤ) (rest : List ℕ)
    → IsSigned 63 v
    → sleb128_decode (some (groups 9 v ++ rest)) ≡ ok (v, length (groups 9 v))
unfolding sleb128_decode
decode-groups (pos n) rest h =
    let (t, run, low, value, count) =
      sleb128_loop-pos 9 n sleb128_start rest (omega arith) (omega arith) (omega arith) in
    ground (arith, run, finish-pos t low (omega (arith, value)))
decode-groups (negsuc n) rest h =
    let (t, run, neg, byte, shift, fits, value, count) =
      sleb128_loop-negsuc 9 n sleb128_start rest (omega arith) (omega arith) (omega arith) in
    ground (arith, run, finish-negsuc t n neg byte shift fits (omega (arith, value)))

-- Every int64 is written in ten bytes at most, and read back from in front of any bytes, with the
-- number of bytes that were written.
pub sleb128_decode-encode :
    (v : ℤ) (rest : List ℕ)
    → IsSigned 63 v
    → (bytes : List ℕ) × (sleb128_encode v (some 10) ≡ ok bytes)
      × (sleb128_decode (some (bytes ++ rest)) ≡ ok (v, length bytes))
      × (length bytes ≤ 10)
unfolding sleb128_encode
sleb128_decode-encode v rest h =
    (groups 9 v, sleb128_emit-groups 9 v (fits v h) h, decode-groups v rest h, length-groups 9 v)
  where
    fits : (w : ℤ) → IsSigned 63 w → Fits 9 w
    fits (pos n) l = omega arith
    fits (negsuc n) l = omega arith
