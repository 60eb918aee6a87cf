-- ===== src/Tests/Coercions.antt =====
-- The theorems on coercion at a record that loses a field and gets one by default, and at a blob.
use lucid.Base.{◌≡◌, refl, arith, Bool, true, false, [], ◌∷◌, Option, none, some}
use lucid.Status.{ok, stuck}
use lucid.Idl.Types.{Name, label_id, IdlType, TypeFields, idl_type_is_primitive}
use lucid.Idl.Value.{Value, ValueFields}
use lucid.Idl.Deserializer.{trace}
use lucid.Idl.Coerce.Kinds.{kind, find_record_field_value, find_wire_field_type, coerce_nat_to_int}
use lucid.Idl.Coerce.{idl_coerce_value, is_optional_like, create_default_optional_field}
use lucid.Idl.Coerce.Fits.{plain_fits, Fits, traced, plain, record_fits, next_field, no_field}
use lucid.Idl.Coerce.Gives.{Gives}
use lucid.Idl.Coerce.Preserve.{idl_coerce_value-Fits}
use lucid.Idl.Coerce.Blob.{idl_coerce_value-blob}

abbrev unknown : Name → Option IdlType
unknown name = none

-- No two types of the examples are at one address.
abbrev apart : IdlType → IdlType → Bool
apart a b = false

apart_eq : (a b : IdlType) → apart a b ≡ true → a ≡ b
apart_eq a b h = absurd (grind (arith, h))

-- record { 1 : nat; 2 : bool } and record { 1 : int; 3 : opt text }
abbrev wire_type : IdlType
wire_type = IdlType.record_of (
    TypeFields.field (label_id 1) IdlType.nat
      (TypeFields.field (label_id 2) IdlType.bool TypeFields.no_fields))

abbrev expected_type : IdlType
expected_type = IdlType.record_of (
    TypeFields.field (label_id 1) IdlType.int
      (TypeFields.field (label_id 3) (IdlType.opt IdlType.text) TypeFields.no_fields))

abbrev wire_value : Value
wire_value = Value.record_of (
    ValueFields.field (label_id 1) (Value.nat (5 ∷ []))
      (ValueFields.field (label_id 2) (Value.bool true) ValueFields.no_fields))

abbrev coerced : Value
coerced = Value.record_of (
    ValueFields.field (label_id 1) (Value.int (5 ∷ []))
      (ValueFields.field (label_id 3) Value.opt_none ValueFields.no_fields))

wire_value-Fits : Fits unknown 1 false wire_type wire_value
unfolding trace plain_fits kind
wire_value-Fits = traced refl (
    record_fits
      (next_field (traced refl (plain refl)) (next_field (traced refl (plain refl)) no_field)))

run : idl_coerce_value unknown 1 apart apart 4 wire_type expected_type wire_value ≡ ok coerced
unfolding idl_coerce_value trace kind idl_type_is_primitive find_record_field_value
    find_wire_field_type is_optional_like create_default_optional_field coerce_nat_to_int
run = refl

follows : (t : IdlType) → trace unknown 1 t ≡ stuck → ⊥
unfolding trace
follows (IdlType.var name) e = cc
follows IdlType.null e = cc
follows _ e = cc

idl_coerce_value-Fits_example :
    Gives
      (Fits unknown 1 true expected_type)
      (idl_coerce_value unknown 1 apart apart 4 wire_type expected_type wire_value)
idl_coerce_value-Fits_example =
    idl_coerce_value-Fits unknown 1 follows apart apart apart_eq 4 wire_type expected_type
      wire_value (omega arith) wire_value-Fits

known : trace unknown 1 IdlType.bool ≡ ok (some IdlType.bool)
unfolding trace
known = refl

idl_coerce_value-blob_example :
    (w : Value) × (idl_coerce_value unknown 1 apart apart 1
        (IdlType.vec IdlType.nat8)
        (IdlType.vec IdlType.bool)
        (Value.blob (7 ∷ []))
      ≡ ok w)
    × (Fits unknown 1 false (IdlType.vec IdlType.bool) w → ⊥)
idl_coerce_value-blob_example =
    idl_coerce_value-blob unknown 0 apart apart 0 IdlType.bool IdlType.bool 7 [] refl known
      (unfold kind in refl)
