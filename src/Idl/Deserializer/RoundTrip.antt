-- ===== src/Idl/Deserializer/RoundTrip.antt =====
-- A value is read back from its wire form, and from what the serializer wrote.
use lucid.Base.{ℕ, zero, suc, ◌+◌, ◌^◌, ◌<◌, List, [], ◌∷◌, ◌++◌, ◌≡◌}
use lucid.Base.{Option, some, length, arith, All, if◌then◌else◌}
use lucid.Base.Int.{ℤ, pos, negsuc, IsSigned}
use lucid.Base.Word.{IsSize}
use lucid.Status.{ok}
use lucid.Leb128.{IsByte}
use lucid.Idl.Types.{Name, IdlType, TypeFields}
use lucid.Idl.Value.{Value, Values, no_values, value, ValueFields, no_fields, field}
use lucid.Idl.Serializer.{to_unsigned, count_values}
use lucid.Idl.Serializer.Wire.{wire, wire_values, wire_fields, principal_bytes}
use lucid.Idl.Deserializer.{read_byte, read_nat16, read_nat32, read_nat64, read_int8}
use lucid.Idl.Deserializer.{
  read_int16, read_int32, read_int64, read_bool, read_principal, read_items,
}
use lucid.Idl.Deserializer.{read_fields, read_by_kind, read_value_by_type}
use lucid.Idl.Deserializer.Reads.{at, Reads, Reads-pure, Reads-bind, Reads-map, read_byte-Reads}
use lucid.Idl.Deserializer.Reads.{
  read_number-Reads, to_signed-to_unsigned_8, to_signed-to_unsigned_16,
}
use lucid.Idl.Deserializer.Reads.{to_signed-to_unsigned_32, to_signed-to_unsigned_64}
use lucid.Idl.Deserializer.Composite.{bool-Reads, signed-Reads, principal-Reads, value_text-Reads}
use lucid.Idl.Deserializer.Composite.{
  value_func-Reads, value_nat-Reads, value_int-Reads, opt_none-Reads,
}
use lucid.Idl.Deserializer.Composite.{opt_some-Reads, variant-Reads, blob_vec-Reads, item_vec-Reads}
use lucid.Idl.Deserializer.Composite.{traced-Reads}
use lucid.Idl.Deserializer.Typing.{depth, depth_values, depth_fields}
use lucid.Idl.Deserializer.Typing.{
  HasType, typed, HasShape, HasItems, no_items, item, HasFields, end, next,
}
use lucid.Idl.Deserializer.Typing.{
  is_null, is_bool, is_nat8, is_nat16, is_nat32, is_nat64, is_int8, is_int16,
}
use lucid.Idl.Deserializer.Typing.{is_int32, is_int64, is_float32, is_float64, is_text, is_reserved}
use lucid.Idl.Deserializer.Typing.{
  is_principal, is_service, is_func, is_nat, is_int, is_opt_none, is_opt_some,
}
use lucid.Idl.Deserializer.Typing.{is_blob, is_vec, is_record, is_variant}

-- A signed integer's bit pattern has no more bits than the integer.
pub unsigned_8 : (z : ℤ) → IsSigned 7 z → to_unsigned 8 z < 2 ^ 8
unsigned_8 (pos n) h = omega arith
unsigned_8 (negsuc n) h = omega arith

unsigned_16 : (z : ℤ) → IsSigned 15 z → to_unsigned 16 z < 2 ^ 16
unsigned_16 (pos n) h = omega arith
unsigned_16 (negsuc n) h = omega arith

unsigned_32 : (z : ℤ) → IsSigned 31 z → to_unsigned 32 z < 2 ^ 32
unsigned_32 (pos n) h = omega arith
unsigned_32 (negsuc n) h = omega arith

unsigned_64 : (z : ℤ) → IsSigned 63 z → to_unsigned 64 z < 2 ^ 64
unsigned_64 (pos n) h = omega arith
unsigned_64 (negsuc n) h = omega arith

module _ (find : Name → Option IdlType) (links : ℕ) where
  mutual
    unfolding read_by_kind wire read_nat16 read_nat32 read_nat64 read_int8 read_int16 read_int32
        read_int64 read_items read_fields

    type-Reads :
        (fuel : ℕ) {t : IdlType} {v : Value}
        → HasType find links t v
        → depth v < fuel
        → Reads (read_value_by_type find links fuel t) (wire v) v
    type-Reads zero h d = absurd (omega arith)
    type-Reads (suc fuel) {t} {v} (typed {u = u} e shape) d =
        traced-Reads find links fuel t u (wire v) v e (shape-Reads fuel shape d)

    shape-Reads :
        (fuel : ℕ) {u : IdlType} {v : Value}
        → HasShape find links u v
        → depth v < suc fuel
        → Reads (read_by_kind find links (read_value_by_type find links fuel) (some u)) (wire v) v
    shape-Reads fuel is_null d = Reads-pure Value.null
    shape-Reads fuel (is_bool b) d =
        Reads-map read_bool Value.bool ((if b then 1 else 0) ∷ []) b (bool-Reads b)
    shape-Reads fuel (is_nat8 n h) d =
        Reads-map read_byte Value.nat8 (n ∷ []) n (read_byte-Reads n h)
    shape-Reads fuel (is_nat16 n h) d =
        Reads-map read_nat16 Value.nat16 _ n (read_number-Reads 2 n h)
    shape-Reads fuel (is_nat32 n h) d =
        Reads-map read_nat32 Value.nat32 _ n (read_number-Reads 4 n h)
    shape-Reads fuel (is_nat64 n h) d =
        Reads-map read_nat64 Value.nat64 _ n (read_number-Reads 8 n h)
    shape-Reads fuel (is_int8 z h) d = Reads-map read_int8 Value.int8 (to_unsigned 8 z ∷ []) z (
        signed-Reads 8 read_byte (to_unsigned 8 z ∷ []) z (to_signed-to_unsigned_8 z h)
          (read_byte-Reads (to_unsigned 8 z) (unsigned_8 z h)))
    shape-Reads fuel (is_int16 z h) d = Reads-map read_int16 Value.int16 _ z (
        signed-Reads 16 read_nat16 _ z (to_signed-to_unsigned_16 z h)
          (read_number-Reads 2 (to_unsigned 16 z) (unsigned_16 z h)))
    shape-Reads fuel (is_int32 z h) d = Reads-map read_int32 Value.int32 _ z (
        signed-Reads 32 read_nat32 _ z (to_signed-to_unsigned_32 z h)
          (read_number-Reads 4 (to_unsigned 32 z) (unsigned_32 z h)))
    shape-Reads fuel (is_int64 z h) d = Reads-map read_int64 Value.int64 _ z (
        signed-Reads 64 read_nat64 _ z (to_signed-to_unsigned_64 z h)
          (read_number-Reads 8 (to_unsigned 64 z) (unsigned_64 z h)))
    shape-Reads fuel (is_float32 n h) d =
        Reads-map read_nat32 Value.float32 _ n (read_number-Reads 4 n h)
    shape-Reads fuel (is_float64 n h) d =
        Reads-map read_nat64 Value.float64 _ n (read_number-Reads 8 n h)
    shape-Reads fuel (is_text s h valid) d = value_text-Reads s h valid
    shape-Reads fuel is_reserved d = Reads-pure Value.reserved
    shape-Reads fuel (is_principal s h) d =
        Reads-map read_principal Value.principal (principal_bytes s) s (principal-Reads s h)
    shape-Reads fuel (is_service ms s h) d =
        Reads-map read_principal Value.service (principal_bytes s) s (principal-Reads s h)
    shape-Reads fuel (is_func args rets modes s name hs hn valid) d =
        value_func-Reads s name hs hn valid
    shape-Reads fuel (is_nat bytes n hb number small few) d =
        value_nat-Reads bytes n hb number small few
    shape-Reads fuel (is_int bytes z h) d = value_int-Reads bytes z h
    shape-Reads fuel (is_opt_none t) d = opt_none-Reads (read_value_by_type find links fuel t)
    shape-Reads fuel (is_opt_some {t = t} {v = v} h) d =
        opt_some-Reads (read_value_by_type find links fuel t) v (type-Reads fuel h (omega arith))
    shape-Reads fuel (is_blob t bytes e h) d =
        blob_vec-Reads find links (read_value_by_type find links fuel) t bytes e h
    shape-Reads fuel (is_vec {t = t} {vs = vs} u e other small items) d =
        item_vec-Reads find links (read_value_by_type find links fuel) t u vs e other small
          (items-Reads fuel items (omega arith))
    shape-Reads fuel (is_record {ts = ts} {fs = fs} fields) d =
        Reads-map (read_fields (read_value_by_type find links fuel) ts) Value.record_of _ fs
          (fields-Reads fuel fields (omega arith))
    shape-Reads fuel (is_variant {ts = ts} {t = t} {v = v} index l small chosen h) d =
        variant-Reads (read_value_by_type find links fuel) ts index l t v small chosen
          (type-Reads fuel h (omega arith))

    items-Reads :
        (fuel : ℕ) {t : IdlType} {vs : Values}
        → HasItems find links t vs
        → depth_values vs < fuel
        → Reads
            (read_items (count_values vs) (read_value_by_type find links fuel t))
            (wire_values vs)
            vs
    items-Reads fuel no_items d = Reads-pure no_values
    items-Reads fuel (item {t = t} {v = v} {vs = vs} h hs) d =
        Reads-bind (read_value_by_type find links fuel t) _ (wire v) (wire_values vs) v (value v vs)
          (type-Reads fuel h (omega arith))
          (Reads-map (read_items (count_values vs) (read_value_by_type find links fuel t)) (value v)
            (wire_values vs) vs (items-Reads fuel hs (omega arith)))

    fields-Reads :
        (fuel : ℕ) {ts : TypeFields} {fs : ValueFields}
        → HasFields find links ts fs
        → depth_fields fs < fuel
        → Reads (read_fields (read_value_by_type find links fuel) ts) (wire_fields fs) fs
    fields-Reads fuel end d = Reads-pure no_fields
    fields-Reads fuel (next {l = l} {t = t} {ts = ts} {v = v} {fs = fs} h hs) d =
        Reads-bind (read_value_by_type find links fuel t) _ (wire v) (wire_fields fs) v
          (field l v fs) (type-Reads fuel h (omega arith))
          (Reads-map (read_fields (read_value_by_type find links fuel) ts) (field l v)
            (wire_fields fs) fs (fields-Reads fuel hs (omega arith)))

  -- A value of a type, of nesting below the fuel, is read back from its wire form in front of any
  -- bytes, in an input whose length fits a size_t; the reader then stands behind that form.
  pub read_value_by_type-wire :
      (fuel here total : ℕ) (t : IdlType) (v : Value) (rest : List ℕ)
      → HasType find links t v
      → depth v < fuel
      → total ≡ here + (length (wire v) + length rest)
      → IsSize total
      → All IsByte rest
      → read_value_by_type find links fuel t (at here total (wire v ++ rest))
        ≡ ok (v, at (here + length (wire v)) total rest)
  read_value_by_type-wire fuel here total t v rest h d e size are_bytes =
      (type-Reads fuel h d).1 here total rest e size are_bytes
