-- ===== src/Tests/Codec.antt =====
-- The theorems on LEB128 at concrete numbers.
use lucid.Base.{ℕ, ◌^◌, ◌≤◌, ◌<◌, ◌≡◌, ◌↔◌, arith, List, [], ◌∷◌, ◌++◌, some, length}
use lucid.Base.Int.{negsuc}
use lucid.Status.{ok}
use lucid.Leb128.{uleb128_encode, uleb128_decode, sleb128_encode, sleb128_decode}
use lucid.Leb128.Unsigned.{uleb128_number, uleb128_decode-eq-ok_iff}
use lucid.Leb128.Written.{uleb128_decode-encode}
use lucid.Leb128.Signed.{sleb128_decode-encode}

-- 624485, padded by a zero group, and one byte more.
abbrev padded : List ℕ
padded = 0xE5 ∷ 0x8E ∷ 0xA6 ∷ 0x00 ∷ 0x07 ∷ []

uleb128_decode-eq-ok_iff_example :
    (uleb128_decode (some padded) ≡ ok (624485, 4))
    ↔ ((uleb128_number padded ≡ some (624485, 4)) × (624485 < 2 ^ 64))
uleb128_decode-eq-ok_iff_example =
    uleb128_decode-eq-ok_iff padded 624485 4
      (omega arith, (omega arith, (omega arith, (omega arith, (omega arith, tt))))) (omega arith)

uleb128_decode-encode_example :
    (bytes : List ℕ) × (uleb128_encode 624485 (some 10) ≡ ok bytes)
    × (uleb128_decode (some (bytes ++ 7 ∷ [])) ≡ ok (624485, length bytes))
    × (length bytes ≤ 10)
uleb128_decode-encode_example =
    uleb128_decode-encode 624485 (7 ∷ []) (omega arith) (omega arith, tt)

sleb128_decode-encode_example :
    (bytes : List ℕ) × (sleb128_encode (negsuc 123455) (some 10) ≡ ok bytes)
    × (sleb128_decode (some (bytes ++ 7 ∷ [])) ≡ ok (negsuc 123455, length bytes))
    × (length bytes ≤ 10)
sleb128_decode-encode_example = sleb128_decode-encode (negsuc 123455) (7 ∷ []) (omega arith)
