-- ===== src/Principal/Base32.antt =====
-- Base32: what the encoder writes, the decoder reads back.
use lucid.Base.{
  ℕ, ◌+◌, ◌*◌, ◌/◌, ◌%◌, ◌^◌, ◌<◌, ◌≡◌, refl, ap, ◌∙◌, arith, Bool, true, false, not, ◌&&◌, bit_or,
}
use lucid.Base.{List, [], ◌∷◌, ◌++◌, Option, none, some, ◌==◌, ==_iff, length}
use lucid.Base.Array.{get_at}
use lucid.Base.Bits.{all_below, all_below-lt, bit_and_low, bit_or_disjoint}
use lucid.Principal.{
  base32_char, base32_decode_table, is_space, finish_decode, decode_step, decode_from,
}

-- A character of the alphabet is read as its digit.
abbrev is_read_as : ℕ → Option ℕ → Bool
is_read_as d none = false
is_read_as d (some val) = val == d

abbrev is_char : ℕ → Bool
is_char d =
    not (base32_char d == 0)
    && not (is_space (base32_char d))
    && not (base32_char d == 45)
    && is_read_as d (get_at none base32_decode_table (base32_char d))

base32_char-is_char : (d : ℕ) → d < 32 → is_char d ≡ true
unfolding base32_char get_at base32_decode_table all_below
base32_char-is_char d h = all_below-lt 32 is_char refl d h

is_read_as-some : (d : ℕ) (o : Option ℕ) → is_read_as d o ≡ true → o ≡ some d
is_read_as-some d none e = ground (arith, e)
is_read_as-some d (some val) e = ap some ((==_iff val d).0 e)

base32_char-read : (d : ℕ) → d < 32 → get_at none base32_decode_table (base32_char d) ≡ some d
base32_char-read d h = is_read_as-some d _ (ground (arith, base32_char-is_char d h))

base32_char-not_nul : (d : ℕ) → d < 32 → base32_char d == 0 ≡ false
base32_char-not_nul d h = ground (arith, base32_char-is_char d h)

base32_char-not_space : (d : ℕ) → d < 32 → is_space (base32_char d) ≡ false
base32_char-not_space d h = ground (arith, base32_char-is_char d h)

pub base32_char-not_dash : (d : ℕ) → d < 32 → base32_char d == 45 ≡ false
base32_char-not_dash d h = ground (arith, base32_char-is_char d h)

-- `(buffer << k) | low` in 32 bits.
pub join_byte :
    (buffer byte : ℕ)
    → byte < 256
    → bit_or byte (buffer * 2 ^ 8 % 2 ^ 32) ≡ byte + buffer % 2 ^ 24 * 2 ^ 8
join_byte buffer byte h =
    ap (bit_or byte) (omega arith) ∙ bit_or_disjoint 8 byte (buffer % 2 ^ 24) h

join_digit :
    (buffer d : ℕ) → d < 32 → bit_or d (buffer * 2 ^ 5 % 2 ^ 32) ≡ d + buffer % 2 ^ 27 * 2 ^ 5
join_digit buffer d h = ap (bit_or d) (omega arith) ∙ bit_or_disjoint 5 d (buffer % 2 ^ 27) h

-- A digit that does not fill a byte.
pub decode_kept :
    (cap d buffer bits : ℕ) (chars out : List ℕ)
    → d < 32
    → bits < 3
    → decode_from cap (base32_char d ∷ chars) buffer bits out
      ≡ decode_from cap chars (d + buffer % 2 ^ 27 * 2 ^ 5) (bits + 5) out
unfolding decode_from decode_step
decode_kept cap d buffer bits chars out h few =
    let value = base32_char-read d h in
    let nul = base32_char-not_nul d h in
    let space = base32_char-not_space d h in
    let joined = join_digit buffer d h in ground (arith, value, nul, space, joined, few)

-- A digit that does.
pub decode_written :
    (cap d buffer left : ℕ) (chars out : List ℕ)
    → d < 32
    → length out < cap
    → decode_from cap (base32_char d ∷ chars) buffer (left + 3) out
      ≡ decode_from cap chars
          (d + buffer % 2 ^ 27 * 2 ^ 5)
          left
          (out ++ (d + buffer % 2 ^ 27 * 2 ^ 5) / 2 ^ left % 256 ∷ [])
unfolding decode_from decode_step
decode_written cap d buffer left chars out h room =
    let value = base32_char-read d h in
    let nul = base32_char-not_nul d h in
    let space = base32_char-not_space d h in
    let joined = join_digit buffer d h in
    let byte = bit_and_low 8 ((d + buffer % 2 ^ 27 * 2 ^ 5) / 2 ^ left) in
    ground (arith, value, nul, space, joined, room, byte)

pub finish_clean :
    (buffer bits : ℕ) (out : List ℕ)
    → buffer % 2 ^ bits ≡ 0
    → finish_decode buffer bits out ≡ some out
unfolding finish_decode
finish_clean buffer bits out h = ground (arith, bit_and_low bits buffer, h)
