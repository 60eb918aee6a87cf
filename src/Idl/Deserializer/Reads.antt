-- ===== src/Idl/Deserializer/Reads.antt =====
-- What the primitive readers of the deserializer make of bytes that lie ahead.
use lucid.Base.{ℕ, zero, suc, ◌+◌, ◌/◌, ◌%◌, ◌^◌, ◌<◌, Bool, true}
use lucid.Base.{
  List, [], ◌∷◌, ◌++◌, append_assoc, ◌≡◌, refl, ◌∙◌, ap, subst, arith, All, All-append,
}
use lucid.Base.{length, length-append}
use lucid.Base.{take-length_append, drop-length_append}
use lucid.Base.Bits.{bit_or_disjoint}
use lucid.Base.Int.{ℤ, pos, negsuc, IsSigned}
use lucid.Base.Word.{IsSize}
use lucid.Status.{Result, ok, err, stuck, truncated, invalid_arg, unsupported}
use lucid.Status
use lucid.Leb128.{IsByte}
use lucid.Idl.Serializer.{to_unsigned, little_endian}
use lucid.Idl.Serializer.Wire.{uleb, uleb_decode, uleb-IsByte}
use lucid.Idl.Deserializer.{Reader, Read, pure, ◌>>=◌, require, read_bytes, read_byte}
use lucid.Idl.Deserializer.{read_leb128, join_bytes, to_signed}
use native.Mathlib.Nat.{pow-suc}

abbrev pub at : ℕ → ℕ → List ℕ → Reader
at here total ahead = record { pos = here; input_len = total; ahead = ahead }

-- In front of any bytes the reader takes `bytes`, and no more, and returns `a`.
abbrev pub Reads : {A : Type 0} → Read A → List ℕ → A → Type 0
Reads p bytes a =
    All IsByte bytes
    × ((here total : ℕ) (rest : List ℕ)
        → total ≡ here + (length bytes + length rest)
        → IsSize total
        → All IsByte rest
        → p (at here total (bytes ++ rest)) ≡ ok (a, at (here + length bytes) total rest))

pub Reads-pure : {A : Type 0} (a : A) → Reads (pure a) [] a
Reads-pure a = (tt, λ here total rest e size h. ground arith)

pub Reads-bind :
    {A B : Type 0} (p : Read A) (q : A → Read B) (xs ys : List ℕ) (a : A) (b : B)
    → Reads p xs a
    → Reads (q a) ys b
    → Reads (p >>= q) (xs ++ ys) b
Reads-bind p q xs ys a b (hx, rx) (hy, ry) = (
  All-append IsByte xs ys hx hy,
  λ here total rest e size h.
      let lengths = length-append xs ys in
      let first =
        rx here total (ys ++ rest) (omega (arith, lengths, length-append ys rest)) size
          (All-append IsByte ys rest hy h) in
      let second = ry (here + length xs) total rest (omega (arith, lengths)) size h in
      let stop : here + length xs + length ys ≡ here + length (xs ++ ys) = omega (arith, lengths) in
      rw (append_assoc xs ys rest)
        (rw first (second ∙ ap (λ (n : ℕ). ok (b, at n total rest)) stop)),
)

-- A reader followed by a pure step.
pub Reads-map :
    {A B : Type 0} (p : Read A) (f : A → B) (xs : List ℕ) (a : A)
    → Reads p xs a
    → Reads (p >>= λ x. pure (f x)) xs (f a)
Reads-map p f xs a (hx, rx) = (hx, λ here total rest e size h. rw (rx here total rest e size h))

-- A test that passes reads nothing.
pub Reads-require :
    {B : Type 0} (b : Bool) (e : Status.Error) (q : Unit {0} → Read B) (ys : List ℕ) (y : B)
    → b ≡ true
    → Reads (q tt) ys y
    → Reads (require b e >>= q) ys y
Reads-require b e q ys y h (hy, ry) =
    (hy, λ here total rest le size hr. rw h (ry here total rest le size hr))

pub read_byte-Reads : (b : ℕ) → IsByte b → Reads read_byte (b ∷ []) b
unfolding read_byte
read_byte-Reads b hb = ((hb, tt), λ here total rest e size h. ground arith)

pub read_bytes-Reads :
    (bytes : List ℕ) → All IsByte bytes → Reads (read_bytes (length bytes)) bytes bytes
unfolding read_bytes
read_bytes-Reads bytes hb = (
  hb,
  λ here total rest e size h. ground (
    arith,
    take-length_append bytes rest,
    drop-length_append bytes rest,
    length-append bytes rest,
  ),
)

pub read_leb128-Reads : (v : ℕ) → v < 2 ^ 64 → Reads read_leb128 (uleb v) v
unfolding read_leb128
read_leb128-Reads v hv = (
  uleb-IsByte v hv,
  λ here total rest e size h.
      ground (arith, uleb_decode v rest hv h, drop-length_append (uleb v) rest),
)

pub length-little_endian : (k v : ℕ) → length (little_endian k v) ≡ k
unfolding little_endian
length-little_endian zero v = refl
length-little_endian (suc k) v = ap suc (length-little_endian k (v / 256))

pub little_endian-IsByte : (k v : ℕ) → All IsByte (little_endian k v)
unfolding little_endian
little_endian-IsByte zero v = tt
little_endian-IsByte (suc k) v = (omega arith, little_endian-IsByte k (v / 256))

-- The bytes of a number join to the number.
pub join_bytes-little_endian : (k v : ℕ) → v < 256 ^ k → join_bytes (little_endian k v) ≡ v
unfolding join_bytes little_endian
join_bytes-little_endian zero v h = omega arith
join_bytes-little_endian (suc k) v h =
    let rest = join_bytes-little_endian k (v / 256) (omega (arith, pow-suc 256 k)) in
    rw rest (bit_or_disjoint 8 (v % 256) (v / 256) (omega arith) ∙ omega arith)

pub read_number-Reads :
    (k v : ℕ)
    → v < 256 ^ k
    → Reads (read_bytes k >>= λ bytes. pure (join_bytes bytes)) (little_endian k v) v
read_number-Reads k v h =
    let bytes = little_endian k v in
    let read =
      Reads-map (read_bytes (length bytes)) join_bytes bytes bytes
        (read_bytes-Reads bytes (little_endian-IsByte k v)) in
    subst (λ n. Reads (read_bytes n >>= λ bs. pure (join_bytes bs)) bytes v)
      (length-little_endian k v)
      (subst (λ n. Reads (read_bytes (length bytes) >>= λ bs. pure (join_bytes bs)) bytes n)
        (join_bytes-little_endian k v h) read)

pub to_signed-to_unsigned_8 : (z : ℤ) → IsSigned 7 z → to_signed 8 (to_unsigned 8 z) ≡ z
to_signed-to_unsigned_8 (pos n) h = ground arith
to_signed-to_unsigned_8 (negsuc n) h = ground arith

pub to_signed-to_unsigned_16 : (z : ℤ) → IsSigned 15 z → to_signed 16 (to_unsigned 16 z) ≡ z
to_signed-to_unsigned_16 (pos n) h = ground arith
to_signed-to_unsigned_16 (negsuc n) h = ground arith

pub to_signed-to_unsigned_32 : (z : ℤ) → IsSigned 31 z → to_signed 32 (to_unsigned 32 z) ≡ z
to_signed-to_unsigned_32 (pos n) h = ground arith
to_signed-to_unsigned_32 (negsuc n) h = ground arith

pub to_signed-to_unsigned_64 : (z : ℤ) → IsSigned 63 z → to_signed 64 (to_unsigned 64 z) ≡ z
to_signed-to_unsigned_64 (pos n) h = ground arith
to_signed-to_unsigned_64 (negsuc n) h = ground arith
