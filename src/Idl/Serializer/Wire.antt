-- ===== src/Idl/Serializer/Wire.antt =====
-- What the serializer writes, as a function of the value; and that it writes that, while memory is
-- granted and the message stays below half of a size_t's range.
use lucid.Base.{ℕ, ◌^◌, ◌<◌, ◌≡◌, refl}
use lucid.Base.{List, [], ◌∷◌, ◌++◌}
use lucid.Base.{some, if◌then◌else◌, length, All}
use lucid.Base.Word.{IsSize}
use lucid.Status.{Result, ok}
use lucid.Leb128.{IsByte, uleb128_encode, uleb128_decode}
use lucid.Leb128.Written.{uleb128_decode-encode, uleb128_emit-number}
use lucid.Idl.Value.{Value, Values, no_values, value, ValueFields, no_fields, field}
use lucid.Idl.Serializer.{to_unsigned, little_endian, count_values}

abbrev pub bytes_of : Result (List ℕ) → List ℕ
bytes_of (ok bytes) = bytes
bytes_of _ = []

-- The groups of an unsigned number.
unfoldable pub uleb : ℕ → List ℕ
uleb v = bytes_of (uleb128_encode v (some 10))

abbrev pub blob_bytes : List ℕ → List ℕ
blob_bytes bytes = uleb (length bytes) ++ bytes

abbrev pub principal_bytes : List ℕ → List ℕ
principal_bytes bytes = (1 ∷ []) ++ blob_bytes bytes

unfoldable mutual
  pub wire : Value → List ℕ
  wire Value.null = []
  wire (Value.bool v) = (if v then 1 else 0) ∷ []
  wire (Value.nat8 v) = v ∷ []
  wire (Value.nat16 v) = little_endian 2 v
  wire (Value.nat32 v) = little_endian 4 v
  wire (Value.nat64 v) = little_endian 8 v
  wire (Value.int8 v) = to_unsigned 8 v ∷ []
  wire (Value.int16 v) = little_endian 2 (to_unsigned 16 v)
  wire (Value.int32 v) = little_endian 4 (to_unsigned 32 v)
  wire (Value.int64 v) = little_endian 8 (to_unsigned 64 v)
  wire (Value.float32 bits) = little_endian 4 bits
  wire (Value.float64 bits) = little_endian 8 bits
  wire (Value.text s) = blob_bytes s
  wire (Value.blob bytes) = blob_bytes bytes
  wire Value.reserved = []
  wire (Value.principal bytes) = principal_bytes bytes
  wire (Value.service bytes) = principal_bytes bytes
  wire (Value.func bytes method) = (1 ∷ []) ++ (principal_bytes bytes ++ blob_bytes method)
  wire (Value.nat bytes) = bytes
  wire (Value.int bytes) = bytes
  wire Value.opt_none = uleb 0
  wire (Value.opt_some v) = uleb 1 ++ wire v
  wire (Value.vec vs) = uleb (count_values vs) ++ wire_values vs
  wire (Value.record_of fs) = wire_fields fs
  wire (Value.variant index fs) = uleb index ++ wire_first fs

  pub wire_values : Values → List ℕ
  wire_values no_values = []
  wire_values (value v vs) = wire v ++ wire_values vs

  pub wire_fields : ValueFields → List ℕ
  wire_fields no_fields = []
  wire_fields (field l v fs) = wire v ++ wire_fields fs

  pub wire_first : ValueFields → List ℕ
  wire_first no_fields = []
  wire_first (field l v fs) = wire v

-- The lengths and the index that are written as uint64 are in its range.
abbrev mutual
  pub InRange : Value → Type 0
  InRange (Value.text s) = IsSize (length s)
  InRange (Value.blob bytes) = IsSize (length bytes)
  InRange (Value.principal bytes) = IsSize (length bytes)
  InRange (Value.service bytes) = IsSize (length bytes)
  InRange (Value.func bytes method) = IsSize (length bytes) × IsSize (length method)
  InRange (Value.opt_some v) = InRange v
  InRange (Value.vec vs) = IsSize (count_values vs) × InRangeValues vs
  InRange (Value.record_of fs) = InRangeFields fs
  InRange (Value.variant index fs) = (index < 2 ^ 64) × InRangeFields fs
  InRange _ = Unit {0}

  pub InRangeValues : Values → Type 0
  InRangeValues no_values = Unit {0}
  InRangeValues (value v vs) = InRange v × InRangeValues vs

  pub InRangeFields : ValueFields → Type 0
  InRangeFields no_fields = Unit {0}
  InRangeFields (field l v fs) = InRange v × InRangeFields fs

pub uleb_encode : (v : ℕ) → v < 2 ^ 64 → uleb128_encode v (some 10) ≡ ok (uleb v)
unfolding uleb
uleb_encode v h = let (bytes, e, _, _) = uleb128_decode-encode v [] h tt in rw e refl

pub uleb-IsByte : (v : ℕ) → v < 2 ^ 64 → All IsByte (uleb v)
unfolding uleb128_encode
uleb-IsByte v h = (uleb128_emit-number 10 v (uleb v) [] (uleb_encode v h)).1

pub uleb_decode :
    (v : ℕ) (rest : List ℕ)
    → v < 2 ^ 64
    → All IsByte rest
    → uleb128_decode (some (uleb v ++ rest)) ≡ ok (v, length (uleb v))
unfolding uleb
uleb_decode v rest h are_bytes =
    let (bytes, e, d, _) = uleb128_decode-encode v rest h are_bytes in rw e d
