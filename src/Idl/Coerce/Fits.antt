-- ===== src/Idl/Coerce/Fits.antt =====
-- Which values are of a type, by their kinds, for the coercion of coerce.c.
use lucid.Base.{ℕ, Bool, true, false, List, Option, some}
use lucid.Base.{◌≡◌, arith}
use lucid.Status.{ok}
use lucid.Idl.Types.{Name, Label, id_of, IdlType, TypeFields}
use lucid.Idl.Value.{Value, Values, no_values, value, ValueFields, no_fields, field}
use lucid.Idl.Deserializer.{trace, nth_field}
use lucid.Idl.Subtype.{Kind}
use lucid.Idl.Coerce.Kinds.{kind, byte_values, find_wire_field_type}

-- The kinds whose values have no parts.
unfoldable pub plain_fits : Kind → Value → Bool
plain_fits Kind.null Value.null = true
plain_fits Kind.bool (Value.bool b) = true
plain_fits Kind.nat (Value.nat bytes) = true
plain_fits Kind.int (Value.int bytes) = true
plain_fits Kind.nat8 (Value.nat8 n) = true
plain_fits Kind.nat16 (Value.nat16 n) = true
plain_fits Kind.nat32 (Value.nat32 n) = true
plain_fits Kind.nat64 (Value.nat64 n) = true
plain_fits Kind.int8 (Value.int8 z) = true
plain_fits Kind.int16 (Value.int16 z) = true
plain_fits Kind.int32 (Value.int32 z) = true
plain_fits Kind.int64 (Value.int64 z) = true
plain_fits Kind.float32 (Value.float32 n) = true
plain_fits Kind.float64 (Value.float64 n) = true
plain_fits Kind.text (Value.text s) = true
plain_fits Kind.reserved Value.reserved = true
plain_fits Kind.principal (Value.principal s) = true
plain_fits Kind.func (Value.func s name) = true
plain_fits Kind.service (Value.service s) = true
plain_fits _ _ = false

-- Where `loose` is true, a vector of bytes is of every vector type.
module _ (find : Name → Option IdlType) (links : ℕ) (loose : Bool) where
  mutual
    pub data Fits : IdlType → Value → Type 0 where
      traced :
          {t u : IdlType} {v : Value} → trace find links t ≡ ok (some u) → FitsKind u v → Fits t v

    pub data FitsKind : IdlType → Value → Type 0 where
      plain : {u : IdlType} {v : Value} → plain_fits (kind u) v ≡ true → FitsKind u v
      opt_none_fits : {t : IdlType} → FitsKind (IdlType.opt t) Value.opt_none
      opt_some_fits :
          {t : IdlType} {v : Value} → Fits t v → FitsKind (IdlType.opt t) (Value.opt_some v)
      blob_fits :
          {t : IdlType} {bytes : List ℕ}
          → trace find links t ≡ ok (some IdlType.nat8)
          → FitsKind (IdlType.vec t) (Value.blob bytes)
      vec_fits :
          {t : IdlType} {vs : Values} → FitsItems t vs → FitsKind (IdlType.vec t) (Value.vec vs)
      bytes_fit :
          {t : IdlType} (bytes : List ℕ)
          → loose ≡ true
          → FitsKind (IdlType.vec t) (Value.vec (byte_values bytes))
      record_fits :
          {ts : TypeFields} {fs : ValueFields}
          → FitsFields ts fs
          → FitsKind (IdlType.record_of ts) (Value.record_of fs)
      variant_fits :
          {ts : TypeFields} {t : IdlType} {v : Value} (index : ℕ) (l : Label)
          → nth_field ts index ≡ some (l, t)
          → find_wire_field_type ts (id_of l) ≡ some t
          → Fits t v
          → FitsKind (IdlType.variant ts) (Value.variant index (field l v no_fields))

    pub data FitsItems : IdlType → Values → Type 0 where
      no_item : {t : IdlType} → FitsItems t no_values
      next_item :
          {t : IdlType} {v : Value} {vs : Values}
          → Fits t v
          → FitsItems t vs
          → FitsItems t (value v vs)

    pub data FitsFields : TypeFields → ValueFields → Type 0 where
      no_field : FitsFields TypeFields.no_fields no_fields
      next_field :
          {l : Label} {t : IdlType} {ts : TypeFields} {v : Value} {fs : ValueFields}
          → Fits t v
          → FitsFields ts fs
          → FitsFields (TypeFields.field l t ts) (field l v fs)

module _ (find : Name → Option IdlType) (links : ℕ) where
  mutual
    pub loosen : {t : IdlType} {v : Value} → Fits find links false t v → Fits find links true t v
    loosen (traced e h) = traced e (loosen_kind h)

    pub loosen_kind :
        {u : IdlType} {v : Value} → FitsKind find links false u v → FitsKind find links true u v
    loosen_kind (plain h) = plain h
    loosen_kind opt_none_fits = opt_none_fits
    loosen_kind (opt_some_fits h) = opt_some_fits (loosen h)
    loosen_kind (blob_fits e) = blob_fits e
    loosen_kind (vec_fits h) = vec_fits (loosen_items h)
    loosen_kind (bytes_fit bytes e) = absurd (grind (arith, e))
    loosen_kind (record_fits h) = record_fits (loosen_fields h)
    loosen_kind (variant_fits index l chosen first h) = variant_fits index l chosen first (loosen h)

    loosen_items :
        {t : IdlType} {vs : Values}
        → FitsItems find links false t vs
        → FitsItems find links true t vs
    loosen_items no_item = no_item
    loosen_items (next_item h hs) = next_item (loosen h) (loosen_items hs)

    loosen_fields :
        {ts : TypeFields} {fs : ValueFields}
        → FitsFields find links false ts fs
        → FitsFields find links true ts fs
    loosen_fields no_field = no_field
    loosen_fields (next_field h hs) = next_field (loosen h) (loosen_fields hs)
