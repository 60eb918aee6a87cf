-- ===== src/Idl/Coerce/Kinds.antt =====
-- c_candid/runtime/runtime/src/coerce.c: the kinds of types and the parts of types and values, with the
-- rules that call no other.
use lucid.Base.{ℕ, ◌+◌, List, [], ◌∷◌, Option, none, some}
use lucid.Base.{◌==◌, if◌then◌else◌}
use lucid.Status.{Result, ok, err, stuck, invalid_arg}
use lucid.Idl.Types.{Label, id_of, IdlType, TypeFields}
use lucid.Idl.Value.{Value, Values, no_values, value, ValueFields, no_fields, field}
use lucid.Idl.Deserializer.Utf8.{idl_utf8_validate}
use lucid.Idl.Subtype.{Kind, ◌is◌}

unfoldable pub kind : IdlType → Kind
kind IdlType.null = Kind.null
kind IdlType.bool = Kind.bool
kind IdlType.nat = Kind.nat
kind IdlType.int = Kind.int
kind IdlType.nat8 = Kind.nat8
kind IdlType.nat16 = Kind.nat16
kind IdlType.nat32 = Kind.nat32
kind IdlType.nat64 = Kind.nat64
kind IdlType.int8 = Kind.int8
kind IdlType.int16 = Kind.int16
kind IdlType.int32 = Kind.int32
kind IdlType.int64 = Kind.int64
kind IdlType.float32 = Kind.float32
kind IdlType.float64 = Kind.float64
kind IdlType.text = Kind.text
kind IdlType.reserved = Kind.reserved
kind IdlType.empty = Kind.empty
kind IdlType.principal = Kind.principal
kind (IdlType.opt t) = Kind.opt
kind (IdlType.vec t) = Kind.vec
kind (IdlType.record_of ts) = Kind.record_of
kind (IdlType.variant ts) = Kind.variant
kind (IdlType.func args rets modes) = Kind.func
kind (IdlType.service ms) = Kind.service
kind (IdlType.var name) = Kind.var

-- `data.inner` of an option and of a vector, `data.record` of a record and of a variant: none is a type
-- of another kind.
abbrev pub opt_inner : IdlType → Option IdlType
opt_inner (IdlType.opt t) = some t
opt_inner _ = none

abbrev pub vec_inner : IdlType → Option IdlType
vec_inner (IdlType.vec t) = some t
vec_inner _ = none

abbrev pub record_fields : IdlType → Option TypeFields
record_fields (IdlType.record_of ts) = some ts
record_fields _ = none

abbrev pub variant_fields : IdlType → Option TypeFields
variant_fields (IdlType.variant ts) = some ts
variant_fields _ = none

-- The bytes of a number, and of a text.
abbrev pub number_bytes : Value → Option (List ℕ)
number_bytes (Value.nat bytes) = some bytes
number_bytes (Value.int bytes) = some bytes
number_bytes _ = none

abbrev pub text_bytes : Value → Option (List ℕ)
text_bytes (Value.text s) = some s
text_bytes _ = none

-- The kind of the copy is set to INT, and the bytes are kept. The union of a value of another kind would
-- be read as that of a number.
unfoldable pub coerce_nat_to_int : Value → Result Value
coerce_nat_to_int v = elim (number_bytes v) [ none ↦ stuck | some bytes ↦ ok (Value.int bytes) ]

unfoldable pub byte_values : List ℕ → Values
byte_values [] = no_values
byte_values (byte ∷ bytes) = value (Value.nat8 byte) (byte_values bytes)

unfoldable pub find_wire_field_type : TypeFields → ℕ → Option IdlType
find_wire_field_type TypeFields.no_fields label_id = none
find_wire_field_type (TypeFields.field l t ts) label_id =
    if id_of l == label_id then some t else find_wire_field_type ts label_id

unfoldable pub find_record_field_value : ValueFields → ℕ → Option Value
find_record_field_value no_fields label_id = none
find_record_field_value (field l v fs) label_id =
    if id_of l == label_id then some v else find_record_field_value fs label_id

-- The first expected field with the id, and its index.
unfoldable pub find_expected : TypeFields → ℕ → ℕ → Option (ℕ × (Label × IdlType))
find_expected TypeFields.no_fields i label_id = none
find_expected (TypeFields.field l t ts) i label_id =
    if id_of l == label_id then some (i, (l, t)) else find_expected ts (i + 1) label_id

unfoldable pub default_of : IdlType → Value
unfolding kind
default_of t =
    if kind t is Kind.opt
    then Value.opt_none
    else if kind t is Kind.null
    then Value.null
    else Value.reserved

abbrev pub some_or_none : Result Value → Result Value
some_or_none (ok v) = ok (Value.opt_some v)
some_or_none (err e) = ok Value.opt_none
some_or_none stuck = stuck

-- The last test of `coerce_impl`.
unfoldable pub coerce_same_kind : IdlType → IdlType → Value → Result Value
unfolding kind
coerce_same_kind wt et v = if kind wt is kind et then ok v else err invalid_arg

abbrev pub checked_text : Value → Result Value
checked_text v = elim (text_bytes v) [
  | none ↦ stuck
  | some s ↦ if idl_utf8_validate s then ok v else err invalid_arg
]
