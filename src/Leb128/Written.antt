-- ===== src/Leb128/Written.antt =====
-- What the unsigned encoder of leb128.c writes, and that it is read back.
use lucid.Base.{ℕ, zero, suc, ◌+◌, ◌/◌, ◌%◌, ◌^◌, ◌<◌, ◌≤◌}
use lucid.Base.{List, [], ◌∷◌, ◌++◌, some, ltb, ◌==◌, bit_and, bit_or}
use lucid.Base.{◌≡◌, subst, All-append, arith, length, All, inl, inr, Bool-cases, ltb→lt, ltb→le}
use lucid.Base.Bits.{bit_and_low, bit_or_high}
use lucid.Status.{ok, err, truncated, Result-cases}
use lucid.Leb128.{IsByte, uleb128_emit, uleb128_encode, uleb128_decode}
use mathlib.Core.Logic.{◌↔◌}
use native.Mathlib.Nat.{pow-suc, one-le-pow}
use lucid.Leb128.Unsigned.{uleb128_number, uleb128_decode-number}

-- What is written reads as the number it was written for, whatever follows.
pub uleb128_emit-number :
    (room v : ℕ) (bytes rest : List ℕ)
    → uleb128_emit room v ≡ ok bytes
    → (uleb128_number (bytes ++ rest) ≡ some (v, length bytes))
      × All IsByte bytes
      × (length bytes ≤ room)
unfolding uleb128_emit uleb128_number
uleb128_emit-number zero v bytes rest e = cc
uleb128_emit-number (suc room) v bytes rest e = elim (Bool-cases (v / 128 == 0)) [
  | inl last ↦
      let written : (v % 128) ∷ [] ≡ bytes = ground (arith, bit_and_low 7 v) in
      subst
        (λ bs.
          (uleb128_number (bs ++ rest) ≡ some (v, length bs))
          × All IsByte bs
          × (length bs ≤ suc room))
        written (ground arith, omega arith, omega arith)
  | inr more ↦ elim (Result-cases (uleb128_emit room (v / 128))) [
    | inl (bs, e') ↦
        let (number, are_bytes, short) = uleb128_emit-number room (v / 128) bs rest e' in
        let written : (v % 128 + 128) ∷ bs ≡ bytes =
          ground (arith, bit_and_low 7 v, bit_or_high (v % 128)) in
        subst
          (λ bs.
            (uleb128_number (bs ++ rest) ≡ some (v, length bs))
            × All IsByte bs
            × (length bs ≤ suc room))
          written (ground (arith, number), (omega arith, are_bytes), omega arith)
    | inr (inl (x, e')) ↦ ground arith
    | inr (inr e') ↦ ground arith
  ]
]

-- Writing succeeds exactly if the groups fit the room.
pub uleb128_emit_fits :
    (room v : ℕ) → v < 128 ^ suc room → (bytes : List ℕ) × (uleb128_emit (suc room) v ≡ ok bytes)
unfolding uleb128_emit
uleb128_emit_fits zero v h = (v ∷ [], ground (arith, bit_and_low 7 v))
uleb128_emit_fits (suc room) v h = elim (Bool-cases (v / 128 == 0)) [
  | inl last ↦ (bit_and v 0x7f ∷ [], rw last)
  | inr more ↦
      let (bytes, e) = uleb128_emit_fits room (v / 128) (omega (arith, pow-suc 128 (suc room))) in
      (bit_or (bit_and v 0x7f) 0x80 ∷ bytes, ground arith)
]

pub uleb128_emit_too_long :
    (room v : ℕ) → 128 ^ suc room ≤ v → uleb128_emit (suc room) v ≡ err truncated
unfolding uleb128_emit
uleb128_emit_too_long zero v h = ground arith
uleb128_emit_too_long (suc room) v h = ground (
  arith,
  uleb128_emit_too_long room (v / 128) (omega (arith, pow-suc 128 (suc room))),
  pow-suc 128 (suc room),
  one-le-pow (suc room) 128,
)

-- Encoding into a buffer of at least one byte fails exactly if the value needs more groups than
-- the buffer has bytes.
pub uleb128_encode-eq-truncated_iff :
    (v room : ℕ) → (uleb128_encode v (some (suc room)) ≡ err truncated) ↔ (128 ^ suc room ≤ v)
unfolding uleb128_encode
uleb128_encode-eq-truncated_iff v room = elim (Bool-cases (ltb v (128 ^ suc room))) [
  | inl fits ↦
      let (bytes, e) = uleb128_emit_fits room v (ltb→lt _ _ fits) in
      (λ t. cc (e, t), λ h. absurd (omega (arith, ltb→lt _ _ fits)))
  | inr wide ↦ (λ _. ltb→le _ _ wide, λ h. uleb128_emit_too_long room v h)
]

-- Every uint64 is written in ten bytes at most, and read back from in front of any bytes, with the
-- number of bytes that were written.
pub uleb128_decode-encode :
    (v : ℕ) (rest : List ℕ)
    → v < 2 ^ 64
    → All IsByte rest
    → (bytes : List ℕ) × (uleb128_encode v (some 10) ≡ ok bytes)
      × (uleb128_decode (some (bytes ++ rest)) ≡ ok (v, length bytes))
      × (length bytes ≤ 10)
unfolding uleb128_encode
uleb128_decode-encode v rest h hrest =
    let (bytes, e) = uleb128_emit_fits 9 v (omega arith) in
    let (number, are_bytes, short) = uleb128_emit-number 10 v bytes rest e in
    let input_IsByte = All-append IsByte bytes rest are_bytes hrest in
    (
      bytes,
      e,
      uleb128_decode-number _ v (length bytes) input_IsByte (omega (arith, short)) h number,
      short,
    )
