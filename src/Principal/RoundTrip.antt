-- ===== src/Principal/RoundTrip.antt =====
-- The encoder and the decoder side by side: the decoder reads back what the encoder writes.
use lucid.Base.{ℕ, suc, ◌+◌, ◌-◌, ◌*◌, ◌/◌, ◌%◌, ◌^◌, ◌≤◌, ◌<◌, ◌≡◌, ap, sym, ◌∙◌, arith}
use lucid.Base.{List, [], ◌∷◌, ◌++◌, append_assoc, append-nil, some, length, length-append, All}
use lucid.Base.Bits.{bit_and_low}
use lucid.Leb128.{IsByte}
use lucid.Principal.{
  base32_char, emit_digits, encode_from, base32_encode, decode_from, base32_decode,
}
use lucid.Principal.Base32.{join_byte, decode_kept, decode_written, finish_clean}

-- The encoder's buffer after a byte, and the decoder's after a digit.
abbrev pub after_byte : ℕ → ℕ → ℕ
after_byte buffer byte = byte + buffer % 2 ^ 24 * 2 ^ 8

abbrev after_digit : ℕ → ℕ → ℕ
after_digit buffer d = d + buffer % 2 ^ 27 * 2 ^ 5

-- The digits that a byte completes, by the number of bits that were left.
module _ (byte buffer : ℕ) (input : List ℕ) (h : byte < 256) where
  pub encode_0 :
      encode_from (byte ∷ input) buffer 0
      ≡ base32_char (after_byte buffer byte / 2 ^ 3 % 32)
        ∷ encode_from input (after_byte buffer byte) 3
  unfolding encode_from emit_digits
  encode_0 = ground (arith, join_byte buffer byte h, bit_and_low 5 (after_byte buffer byte / 2 ^ 3))

  pub encode_1 :
      encode_from (byte ∷ input) buffer 1
      ≡ base32_char (after_byte buffer byte / 2 ^ 4 % 32)
        ∷ encode_from input (after_byte buffer byte) 4
  unfolding encode_from emit_digits
  encode_1 = ground (arith, join_byte buffer byte h, bit_and_low 5 (after_byte buffer byte / 2 ^ 4))

  pub encode_2 :
      encode_from (byte ∷ input) buffer 2
      ≡ base32_char (after_byte buffer byte / 2 ^ 5 % 32)
        ∷ base32_char (after_byte buffer byte / 2 ^ 0 % 32)
        ∷ encode_from input (after_byte buffer byte) 0
  unfolding encode_from emit_digits
  encode_2 = ground (
    arith,
    join_byte buffer byte h,
    bit_and_low 5 (after_byte buffer byte / 2 ^ 5),
    bit_and_low 5 (after_byte buffer byte / 2 ^ 0),
  )

  pub encode_3 :
      encode_from (byte ∷ input) buffer 3
      ≡ base32_char (after_byte buffer byte / 2 ^ 6 % 32)
        ∷ base32_char (after_byte buffer byte / 2 ^ 1 % 32)
        ∷ encode_from input (after_byte buffer byte) 1
  unfolding encode_from emit_digits
  encode_3 = ground (
    arith,
    join_byte buffer byte h,
    bit_and_low 5 (after_byte buffer byte / 2 ^ 6),
    bit_and_low 5 (after_byte buffer byte / 2 ^ 1),
  )

  pub encode_4 :
      encode_from (byte ∷ input) buffer 4
      ≡ base32_char (after_byte buffer byte / 2 ^ 7 % 32)
        ∷ base32_char (after_byte buffer byte / 2 ^ 2 % 32)
        ∷ encode_from input (after_byte buffer byte) 2
  unfolding encode_from emit_digits
  encode_4 = ground (
    arith,
    join_byte buffer byte h,
    bit_and_low 5 (after_byte buffer byte / 2 ^ 7),
    bit_and_low 5 (after_byte buffer byte / 2 ^ 2),
  )

-- The decoder has taken all the digits of `out`, `last` and the bits behind that the encoder has not
-- written, `bits` of them.
abbrev At : ℕ → ℕ → List ℕ → Type 0
At cap bits input =
    (buffer pending last : ℕ) (out : List ℕ)
    → last < 256
    → pending % 2 ^ (8 - bits) ≡ last / 2 ^ bits
    → buffer % 2 ^ bits ≡ last % 2 ^ bits
    → length out + suc (length input) ≤ cap
    → decode_from cap (encode_from input buffer bits) pending (8 - bits) out
      ≡ some (out ++ last ∷ input)

-- The same where a byte has just ended.
abbrev AtEnd : ℕ → List ℕ → Type 0
AtEnd cap input =
    (buffer pending : ℕ) (out : List ℕ)
    → length out + length input ≤ cap
    → decode_from cap (encode_from input buffer 0) pending 0 out ≡ some (out ++ input)

abbrev Reads : ℕ → List ℕ → Type 0
Reads cap input =
    AtEnd cap input × At cap 1 input × At cap 2 input × At cap 3 input × At cap 4 input

write_last :
    (cap d pending left last : ℕ) (chars out : List ℕ)
    → d < 32
    → length out < cap
    → after_digit pending d / 2 ^ left % 256 ≡ last
    → decode_from cap (base32_char d ∷ chars) pending (left + 3) out
      ≡ decode_from cap chars (after_digit pending d) left (out ++ last ∷ [])
write_last cap d pending left last chars out h room is =
    decode_written cap d pending left chars out h room
    ∙ ap (λ byte. decode_from cap chars (after_digit pending d) left (out ++ byte ∷ [])) is

-- The last digit, filled up with zeros.
module _ (cap buffer pending last : ℕ) (out : List ℕ) (h : last < 256)
    (room : length out < cap) where
  end_1 :
      pending % 2 ^ 7 ≡ last / 2 ^ 1
      → buffer % 2 ^ 1 ≡ last % 2 ^ 1
      → decode_from cap (encode_from [] buffer 1) pending 7 out ≡ some (out ++ last ∷ [])
  unfolding encode_from decode_from
  end_1 high low =
      let d = buffer * 2 ^ 4 % 2 ^ 32 % 32 in
      ap (λ (x : ℕ). decode_from cap (base32_char x ∷ []) pending 7 out)
        (bit_and_low 5 (buffer * 2 ^ 4 % 2 ^ 32))
      ∙ write_last cap d pending 4 last [] out (omega arith) room (omega (arith, high, low))
      ∙ finish_clean (after_digit pending d) 4 (out ++ last ∷ []) (omega arith)

  end_2 :
      pending % 2 ^ 6 ≡ last / 2 ^ 2
      → buffer % 2 ^ 2 ≡ last % 2 ^ 2
      → decode_from cap (encode_from [] buffer 2) pending 6 out ≡ some (out ++ last ∷ [])
  unfolding encode_from decode_from
  end_2 high low =
      let d = buffer * 2 ^ 3 % 2 ^ 32 % 32 in
      ap (λ (x : ℕ). decode_from cap (base32_char x ∷ []) pending 6 out)
        (bit_and_low 5 (buffer * 2 ^ 3 % 2 ^ 32))
      ∙ write_last cap d pending 3 last [] out (omega arith) room (omega (arith, high, low))
      ∙ finish_clean (after_digit pending d) 3 (out ++ last ∷ []) (omega arith)

  end_3 :
      pending % 2 ^ 5 ≡ last / 2 ^ 3
      → buffer % 2 ^ 3 ≡ last % 2 ^ 3
      → decode_from cap (encode_from [] buffer 3) pending 5 out ≡ some (out ++ last ∷ [])
  unfolding encode_from decode_from
  end_3 high low =
      let d = buffer * 2 ^ 2 % 2 ^ 32 % 32 in
      ap (λ (x : ℕ). decode_from cap (base32_char x ∷ []) pending 5 out)
        (bit_and_low 5 (buffer * 2 ^ 2 % 2 ^ 32))
      ∙ write_last cap d pending 2 last [] out (omega arith) room (omega (arith, high, low))
      ∙ finish_clean (after_digit pending d) 2 (out ++ last ∷ []) (omega arith)

  end_4 :
      pending % 2 ^ 4 ≡ last / 2 ^ 4
      → buffer % 2 ^ 4 ≡ last % 2 ^ 4
      → decode_from cap (encode_from [] buffer 4) pending 4 out ≡ some (out ++ last ∷ [])
  unfolding encode_from decode_from
  end_4 high low =
      let d = buffer * 2 ^ 1 % 2 ^ 32 % 32 in
      ap (λ (x : ℕ). decode_from cap (base32_char x ∷ []) pending 4 out)
        (bit_and_low 5 (buffer * 2 ^ 1 % 2 ^ 32))
      ∙ write_last cap d pending 1 last [] out (omega arith) room (omega (arith, high, low))
      ∙ finish_clean (after_digit pending d) 1 (out ++ last ∷ []) (omega arith)

-- One byte more.
module _ (cap byte : ℕ) (input : List ℕ) (h : byte < 256) where
  step_0 : At cap 3 input → AtEnd cap (byte ∷ input)
  step_0 at buffer pending out room =
      let joined = after_byte buffer byte in
      ap (λ chars. decode_from cap chars pending 0 out) (encode_0 byte buffer input h)
      ∙ decode_kept cap (joined / 2 ^ 3 % 32) pending 0 (encode_from input joined 3) out
          (omega arith) (omega arith)
      ∙ at joined (after_digit pending (joined / 2 ^ 3 % 32)) byte out h (omega (arith, h))
          (omega (arith, h)) (omega (arith, room))

  step_1 : At cap 4 input → At cap 1 (byte ∷ input)
  step_1 at buffer pending last out bound high low room =
      let joined = after_byte buffer byte in
      let out' = out ++ last ∷ [] in
      let size : length out' ≡ length out + 1 = length-append out (last ∷ []) in
      let d = joined / 2 ^ 4 % 32 in
      let pending' = after_digit pending d in
      ap (λ chars. decode_from cap chars pending 7 out) (encode_1 byte buffer input h)
      ∙ write_last cap d pending 4 last (encode_from input joined 4) out (omega arith)
          (omega (arith, room)) (omega (arith, high, low, h, bound))
      ∙ at joined pending' byte out' h (omega (arith, h)) (omega (arith, h))
          (omega (arith, room, size))
      ∙ ap some (append_assoc out (last ∷ []) (byte ∷ input))

  step_2 : AtEnd cap input → At cap 2 (byte ∷ input)
  step_2 at buffer pending last out bound high low room =
      let joined = after_byte buffer byte in
      let out' = out ++ last ∷ [] in
      let size : length out' ≡ length out + 1 = length-append out (last ∷ []) in
      let d = joined / 2 ^ 5 % 32 in
      let pending' = after_digit pending d in
      let d' = joined / 2 ^ 0 % 32 in
      ap (λ chars. decode_from cap chars pending 6 out) (encode_2 byte buffer input h)
      ∙ write_last cap d pending 3 last (base32_char d' ∷ encode_from input joined 0) out
          (omega arith) (omega (arith, room)) (omega (arith, high, low, h, bound))
      ∙ write_last cap d' pending' 0 byte (encode_from input joined 0) out' (omega arith)
          (omega (arith, room, size)) (omega (arith, h))
      ∙ at joined (after_digit pending' d') (out' ++ byte ∷ [])
          (omega (arith, room, size, length-append out' (byte ∷ [])))
      ∙ ap some (append_assoc out' (byte ∷ []) input ∙ append_assoc out (last ∷ []) (byte ∷ input))

  step_3 : At cap 1 input → At cap 3 (byte ∷ input)
  step_3 at buffer pending last out bound high low room =
      let joined = after_byte buffer byte in
      let out' = out ++ last ∷ [] in
      let size : length out' ≡ length out + 1 = length-append out (last ∷ []) in
      let d = joined / 2 ^ 6 % 32 in
      let pending' = after_digit pending d in
      let d' = joined / 2 ^ 1 % 32 in
      ap (λ chars. decode_from cap chars pending 5 out) (encode_3 byte buffer input h)
      ∙ write_last cap d pending 2 last (base32_char d' ∷ encode_from input joined 1) out
          (omega arith) (omega (arith, room)) (omega (arith, high, low, h, bound))
      ∙ decode_kept cap d' pending' 2 (encode_from input joined 1) out' (omega arith) (omega arith)
      ∙ at joined (after_digit pending' d') byte out' h (omega (arith, h)) (omega (arith, h))
          (omega (arith, room, size))
      ∙ ap some (append_assoc out (last ∷ []) (byte ∷ input))

  step_4 : At cap 2 input → At cap 4 (byte ∷ input)
  step_4 at buffer pending last out bound high low room =
      let joined = after_byte buffer byte in
      let out' = out ++ last ∷ [] in
      let size : length out' ≡ length out + 1 = length-append out (last ∷ []) in
      let d = joined / 2 ^ 7 % 32 in
      let pending' = after_digit pending d in
      let d' = joined / 2 ^ 2 % 32 in
      ap (λ chars. decode_from cap chars pending 4 out) (encode_4 byte buffer input h)
      ∙ write_last cap d pending 1 last (base32_char d' ∷ encode_from input joined 2) out
          (omega arith) (omega (arith, room)) (omega (arith, high, low, h, bound))
      ∙ decode_kept cap d' pending' 1 (encode_from input joined 2) out' (omega arith) (omega arith)
      ∙ at joined (after_digit pending' d') byte out' h (omega (arith, h)) (omega (arith, h))
          (omega (arith, room, size))
      ∙ ap some (append_assoc out (last ∷ []) (byte ∷ input))

reads : (cap : ℕ) (input : List ℕ) → All IsByte input → Reads cap input
unfolding encode_from decode_from
reads cap [] bytes = (
  (λ buffer pending out room.
      finish_clean pending 0 out (omega arith) ∙ ap some (sym (append-nil out))),
  (λ buffer pending last out h high low room.
      end_1 cap buffer pending last out h (omega (arith, room)) high low),
  (λ buffer pending last out h high low room.
      end_2 cap buffer pending last out h (omega (arith, room)) high low),
  (λ buffer pending last out h high low room.
      end_3 cap buffer pending last out h (omega (arith, room)) high low),
  λ buffer pending last out h high low room.
      end_4 cap buffer pending last out h (omega (arith, room)) high low,
)
reads cap (byte ∷ input) (h, bytes) =
    let (at_0, at_1, at_2, at_3, at_4) = reads cap input bytes in
    (
      step_0 cap byte input h at_3,
      step_1 cap byte input h at_4,
      step_2 cap byte input h at_0,
      step_3 cap byte input h at_1,
      step_4 cap byte input h at_2,
    )

-- Any bytes are read back from their base32 text, where the output has room for them.
pub base32_decode-encode :
    (input : List ℕ) (cap : ℕ)
    → All IsByte input
    → length input ≤ cap
    → base32_decode (base32_encode input) cap ≡ some input
unfolding base32_decode base32_encode
base32_decode-encode input cap bytes room = (reads cap input bytes).0 0 0 [] (omega arith)
