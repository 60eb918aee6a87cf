-- ===== src/Idl/Deserializer/Typing.antt =====
-- Which values stand for a type on the wire, and how deep a value is.
use lucid.Base.{ℕ, suc, ◌*◌, ◌^◌, ◌≤◌, ◌<◌, Bool, true, false, List, ◌++◌, ◌≡◌, All, max}
use lucid.Base.{Option, some, length}
use lucid.Base.Int.{ℤ, IsSigned}
use lucid.Base.Word.{IsSize, size_mod}
use lucid.Status.{ok}
use lucid.Leb128.{IsByte, sleb128_decode}
use lucid.Leb128.Unsigned.{uleb128_number}
use lucid.Idl.Types.{Name, Label, IdlType, TypeFields, TypeList, FuncMode, Methods}
use lucid.Idl.Value.{Value, Values, no_values, value, ValueFields, no_fields, field}
use lucid.Idl.Serializer.{count_values}
use lucid.Idl.Deserializer.{trace, kind_is_nat8, nth_field}
use lucid.Idl.Deserializer.Utf8.{idl_utf8_validate}

-- How many values a value lies in at most, counted from its innermost part.
abbrev mutual
  pub depth : Value → ℕ
  depth (Value.opt_some v) = suc (depth v)
  depth (Value.vec vs) = suc (depth_values vs)
  depth (Value.record_of fs) = suc (depth_fields fs)
  depth (Value.variant index fs) = suc (depth_fields fs)
  depth _ = 0

  pub depth_values : Values → ℕ
  depth_values no_values = 0
  depth_values (value v vs) = max (depth v) (depth_values vs)

  pub depth_fields : ValueFields → ℕ
  depth_fields no_fields = 0
  depth_fields (field l v fs) = max (depth v) (depth_fields fs)

-- Bytes with their length in a size_t.
abbrev pub IsBlob : List ℕ → Type 0
IsBlob bytes = All IsByte bytes × IsSize (length bytes)

abbrev pub IsPrincipal : List ℕ → Type 0
IsPrincipal bytes = All IsByte bytes × (length bytes ≤ 29)

-- The groups of one signed number, which the decoder takes whole.
abbrev pub IsSleb : List ℕ → ℤ → Type 0
IsSleb bytes z =
    All IsByte bytes
    × ((rest : List ℕ)
        → All IsByte rest
        → sleb128_decode (some (bytes ++ rest)) ≡ ok (z, length bytes))

module _ (find : Name → Option IdlType) (links : ℕ) where
  mutual
    -- The type, followed through its names, is the shape of the value.
    pub data HasType : IdlType → Value → Type 0 where
      typed :
          {t u : IdlType} {v : Value}
          → trace find links t ≡ ok (some u)
          → HasShape u v
          → HasType t v

    pub data HasShape : IdlType → Value → Type 0 where
      is_null : HasShape IdlType.null Value.null
      is_bool : (b : Bool) → HasShape IdlType.bool (Value.bool b)
      is_nat8 : (n : ℕ) → n < 2 ^ 8 → HasShape IdlType.nat8 (Value.nat8 n)
      is_nat16 : (n : ℕ) → n < 2 ^ 16 → HasShape IdlType.nat16 (Value.nat16 n)
      is_nat32 : (n : ℕ) → n < 2 ^ 32 → HasShape IdlType.nat32 (Value.nat32 n)
      is_nat64 : (n : ℕ) → n < 2 ^ 64 → HasShape IdlType.nat64 (Value.nat64 n)
      is_int8 : (z : ℤ) → IsSigned 7 z → HasShape IdlType.int8 (Value.int8 z)
      is_int16 : (z : ℤ) → IsSigned 15 z → HasShape IdlType.int16 (Value.int16 z)
      is_int32 : (z : ℤ) → IsSigned 31 z → HasShape IdlType.int32 (Value.int32 z)
      is_int64 : (z : ℤ) → IsSigned 63 z → HasShape IdlType.int64 (Value.int64 z)
      is_float32 : (n : ℕ) → n < 2 ^ 32 → HasShape IdlType.float32 (Value.float32 n)
      is_float64 : (n : ℕ) → n < 2 ^ 64 → HasShape IdlType.float64 (Value.float64 n)
      is_text :
          (s : List ℕ)
          → IsBlob s
          → idl_utf8_validate s ≡ true
          → HasShape IdlType.text (Value.text s)
      is_reserved : HasShape IdlType.reserved Value.reserved
      is_principal : (s : List ℕ) → IsPrincipal s → HasShape IdlType.principal (Value.principal s)
      is_service :
          (ms : Methods) (s : List ℕ)
          → IsPrincipal s
          → HasShape (IdlType.service ms) (Value.service s)
      is_func :
          (args rets : TypeList) (modes : List FuncMode) (s name : List ℕ)
          → IsPrincipal s
          → IsBlob name
          → idl_utf8_validate name ≡ true
          → HasShape (IdlType.func args rets modes) (Value.func s name)
      is_nat :
          (bytes : List ℕ) (n : ℕ)
          → All IsByte bytes
          → uleb128_number bytes ≡ some (n, length bytes)
          → n < 2 ^ 64
          → 7 * length bytes < size_mod
          → HasShape IdlType.nat (Value.nat bytes)
      is_int : (bytes : List ℕ) (z : ℤ) → IsSleb bytes z → HasShape IdlType.int (Value.int bytes)
      is_opt_none : (t : IdlType) → HasShape (IdlType.opt t) Value.opt_none
      is_opt_some :
          {t : IdlType} {v : Value} → HasType t v → HasShape (IdlType.opt t) (Value.opt_some v)
      is_blob :
          (t : IdlType) (bytes : List ℕ)
          → trace find links t ≡ ok (some IdlType.nat8)
          → IsBlob bytes
          → HasShape (IdlType.vec t) (Value.blob bytes)
      is_vec :
          {t : IdlType} {vs : Values} (u : IdlType)
          → trace find links t ≡ ok (some u)
          → kind_is_nat8 (some u) ≡ false
          → count_values vs < 2 ^ 30
          → HasItems t vs
          → HasShape (IdlType.vec t) (Value.vec vs)
      is_record :
          {ts : TypeFields} {fs : ValueFields}
          → HasFields ts fs
          → HasShape (IdlType.record_of ts) (Value.record_of fs)
      is_variant :
          {ts : TypeFields} {t : IdlType} {v : Value} (index : ℕ) (l : Label)
          → index < 2 ^ 64
          → nth_field ts index ≡ some (l, t)
          → HasType t v
          → HasShape (IdlType.variant ts) (Value.variant index (field l v no_fields))

    pub data HasItems : IdlType → Values → Type 0 where
      no_items : {t : IdlType} → HasItems t no_values
      item :
          {t : IdlType} {v : Value} {vs : Values}
          → HasType t v
          → HasItems t vs
          → HasItems t (value v vs)

    pub data HasFields : TypeFields → ValueFields → Type 0 where
      end : HasFields TypeFields.no_fields no_fields
      next :
          {l : Label} {t : IdlType} {ts : TypeFields} {v : Value} {fs : ValueFields}
          → HasType t v
          → HasFields ts fs
          → HasFields (TypeFields.field l t ts) (field l v fs)
