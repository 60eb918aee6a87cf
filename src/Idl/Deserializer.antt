-- ===== src/Idl/Deserializer.antt =====
-- c_candid/runtime/runtime/src/decode/deserializer.c: values read from the input by their types.
-- Arena allocations are taken to succeed here: the returns of IDL_STATUS_ERR_ALLOC are left out, but
-- for the array of a vector, whose size wraps around. A
-- pointer that is tested against NULL and that no caller passes as NULL is not an `Option`.
pub mod Utf8
pub mod Reads
pub mod Typing
pub mod Composite
pub mod RoundTrip
use Utf8.{idl_utf8_validate}
use lucid.Base.{ℕ, zero, suc, ◌+◌, ◌-◌, ◌*◌, ◌/◌, ◌%◌, ◌^◌, Bool, true, false, not, ◌&&◌, ◌||◌}
use lucid.Base.{List, [], ◌∷◌, ◌++◌, bit_or}
use lucid.Base.{Option, none, some, ltb, leb, ◌==◌, if◌then◌else◌, length, take, drop}
use lucid.Base.Int.{ℤ, pos, negsuc}
use lucid.Base.Word.{size_mod}
use lucid.Status.{Result, ok, err, stuck, truncated, invalid_arg, unsupported, alloc}
use lucid.Status
use lucid.Leb128.{uleb128_decode, sleb128_decode}
use lucid.Idl.Types.{Name, Label, IdlType, TypeFields}
use lucid.Idl.Value.{Value, Values, no_values, value, ValueFields, no_fields, field}

-- `ahead` is the input from `pos` on.
pub record Reader : Type 0 where
  pub pos : ℕ
  pub input_len : ℕ
  pub ahead : List ℕ

abbrev pub Read : Type 0 → Type 0
Read A = Reader → Result (A × Reader)

abbrev pub pure : {A : Type 0} → A → Read A
pure a r = ok (a, r)

abbrev pub fail : {A : Type 0} → Status.Error → Read A
fail e r = err e

infixl 5 ◌>>=◌ ◌>>◌
abbrev pub ◌>>=◌ : {A B : Type 0} → Read A → (A → Read B) → Read B
◌>>=◌ p f r = Status.◌>>=◌ (p r) (λ (a, r'). f a r')

abbrev pub ◌>>◌ : {B : Type 0} → Read (Unit {0}) → Read B → Read B
p >> q = p >>= λ _. q

abbrev pub require : Bool → Status.Error → Read (Unit {0})
require b e r = if b then ok (tt, r) else err e

abbrev pub advance : ℕ → Reader → Reader
advance n r = record r { pos = r.pos + n; ahead = drop n r.ahead }

-- The sum wraps around; a window that passes the end of the input is outside the buffer.
unfoldable pub read_bytes : ℕ → Read (List ℕ)
read_bytes len r =
    if ltb r.input_len ((r.pos + len) % size_mod)
    then err truncated
    else if leb len (length r.ahead)
    then ok (take len r.ahead, advance len r)
    else stuck

-- `pos >= input_len` is the end of what is ahead.
abbrev first_byte : List ℕ → Read ℕ
first_byte [] r = stuck
first_byte (b ∷ bs) r = ok (b, advance 1 r)

unfoldable pub read_byte : Read ℕ
read_byte r = if leb r.input_len r.pos then err truncated else first_byte r.ahead r

unfoldable pub read_leb128 : Read ℕ
read_leb128 r = Status.◌>>=◌ (uleb128_decode (some r.ahead)) (λ (v, n). ok (v, advance n r))

unfoldable pub read_sleb128 : Read ℤ
read_sleb128 r = Status.◌>>=◌ (sleb128_decode (some r.ahead)) (λ (v, n). ok (v, advance n r))

-- Bytes, lowest first, joined by `|` and shifts.
unfoldable pub join_bytes : List ℕ → ℕ
join_bytes [] = 0
join_bytes (b ∷ bs) = bit_or b (join_bytes bs * 2 ^ 8)

-- A bit pattern of `w` bits as a signed integer.
abbrev pub to_signed : ℕ → ℕ → ℤ
to_signed w n = if ltb n (2 ^ (w - 1)) then pos n else negsuc (2 ^ w - 1 - n)

unfoldable pub read_bool : Read Bool
read_bool = do byte ← read_byte; require (leb byte 1) invalid_arg; pure (not (byte == 0))

unfoldable pub read_nat16 : Read ℕ
read_nat16 = do bytes ← read_bytes 2; pure (join_bytes bytes)

unfoldable pub read_nat32 : Read ℕ
read_nat32 = do bytes ← read_bytes 4; pure (join_bytes bytes)

unfoldable pub read_nat64 : Read ℕ
read_nat64 = do bytes ← read_bytes 8; pure (join_bytes bytes)

unfoldable pub read_int8 : Read ℤ
read_int8 = do byte ← read_byte; pure (to_signed 8 byte)

unfoldable pub read_int16 : Read ℤ
read_int16 = do v ← read_nat16; pure (to_signed 16 v)

unfoldable pub read_int32 : Read ℤ
read_int32 = do v ← read_nat32; pure (to_signed 32 v)

unfoldable pub read_int64 : Read ℤ
read_int64 = do v ← read_nat64; pure (to_signed 64 v)

-- `(size_t)len` keeps the low 32 bits of the length.
unfoldable pub read_blob : Read (List ℕ)
read_blob = do len ← read_leb128; read_bytes (len % size_mod)

unfoldable pub read_text : Read (List ℕ)
read_text = do bytes ← read_blob; require (idl_utf8_validate bytes) invalid_arg; pure bytes

unfoldable pub read_principal : Read (List ℕ)
read_principal = do
  flag ← read_byte
  require (flag == 1) invalid_arg
  len ← read_leb128
  require (leb len 29) invalid_arg
  read_bytes (len % size_mod)

-- The bytes that `p` moves over.
abbrev pub span_of : {A : Type 0} → Read A → Read (List ℕ)
span_of p r = Status.◌>>=◌ (p r) (λ (a, r'). ok (take (r'.pos - r.pos) r.ahead, r'))

unfoldable pub read_value_text : Read Value
read_value_text = do
  bytes ← read_text
  require (idl_utf8_validate bytes) invalid_arg
  pure (Value.text bytes)

unfoldable pub read_value_func : Read Value
read_value_func = do
  tag ← read_byte
  require (tag == 1) invalid_arg
  bytes ← read_principal
  name ← read_text
  pure (Value.func bytes name)

-- The number is decoded, and dropped: the value keeps the bytes.
unfoldable pub read_value_nat : Read Value
read_value_nat = do bytes ← span_of read_leb128; pure (Value.nat bytes)

unfoldable pub read_value_int : Read Value
read_value_int = do bytes ← span_of read_sleb128; pure (Value.int bytes)

-- The readers of composite values take the reader of the parts.
unfoldable pub read_value_opt : Read Value → Read Value
read_value_opt inner = do
  flag ← read_byte
  if flag == 0
      then pure Value.opt_none
      else if flag == 1
      then (do v ← inner; pure (Value.opt_some v))
      else fail invalid_arg

unfoldable pub read_items : ℕ → Read Value → Read Values
read_items zero item = pure no_values
read_items (suc n) item = do v ← item; vs ← read_items n item; pure (value v vs)

-- `sizeof(idl_value *) * (size_t)len`, in 32 bits.
unfoldable pub items_size : ℕ → ℕ
items_size len = 4 * (len % size_mod) % size_mod

-- An allocation of 0 bytes is NULL. An item behind the end of the array is read, and then stored out
-- of bounds.
unfoldable pub read_array : ℕ → Read Value → Read Values
read_array len item = if items_size len == 0 && not (len == 0) then fail alloc else (do
  vs ← read_items (items_size len / 4) item
  if items_size len / 4 == len then pure vs else (item >>= λ v r. stuck))

unfoldable pub read_fields : (IdlType → Read Value) → TypeFields → Read ValueFields
read_fields by_type TypeFields.no_fields = pure no_fields
read_fields by_type (TypeFields.field l t ts) = do
  v ← by_type t
  fs ← read_fields by_type ts
  pure (field l v fs)

abbrev pub nth_field : TypeFields → ℕ → Option (Label × IdlType)
nth_field TypeFields.no_fields i = none
nth_field (TypeFields.field l t ts) zero = some (l, t)
nth_field (TypeFields.field l t ts) (suc i) = nth_field ts i

unfoldable pub read_chosen : (IdlType → Read Value) → ℕ → Option (Label × IdlType) → Read Value
read_chosen by_type index none = fail invalid_arg
read_chosen by_type index (some (l, t)) = do
  v ← by_type t
  pure (Value.variant index (field l v no_fields))

unfoldable pub read_value_variant : (IdlType → Read Value) → TypeFields → Read Value
unfolding read_chosen
read_value_variant by_type ts = do
  index ← read_leb128
  read_chosen by_type index (nth_field ts index)

-- `idl_type_env_trace`: `find` is `idl_type_env_find`. A chain of more names than the environment
-- has, `links`, comes back to itself, and is followed for ever.
module _ (find : Name → Option IdlType) where
  unfoldable pub trace : ℕ → IdlType → Result (Option IdlType)
  trace zero t = stuck
  trace (suc links) (IdlType.var name) = elim (find name) [
    | none ↦ ok none
    | some t ↦ trace links t
  ]
  trace (suc links) t = ok (some t)

abbrev pub kind_is_nat8 : Option IdlType → Bool
kind_is_nat8 (some IdlType.nat8) = true
kind_is_nat8 _ = false

module _ (find : Name → Option IdlType) (links : ℕ) where
  -- A vector of bytes is one blob.
  unfoldable pub read_value_vec : (IdlType → Read Value) → IdlType → Read Value
  unfolding trace
  read_value_vec by_type inner = do
    len ← read_leb128
    inner_type ← (λ r. Status.◌>>=◌ (trace find links inner) (λ t. ok (t, r)))
    if kind_is_nat8 inner_type
        then (do bytes ← read_bytes (len % size_mod); pure (Value.blob bytes))
        else (do vs ← read_array len (by_type inner); pure (Value.vec vs))

  -- The switch of `idl_deserializer_read_value_by_type`, on the traced type.
  unfoldable pub read_by_kind : (IdlType → Read Value) → Option IdlType → Read Value
  read_by_kind by_type none = fail invalid_arg
  read_by_kind by_type (some IdlType.null) = pure Value.null
  read_by_kind by_type (some IdlType.bool) = do v ← read_bool; pure (Value.bool v)
  read_by_kind by_type (some IdlType.nat8) = do v ← read_byte; pure (Value.nat8 v)
  read_by_kind by_type (some IdlType.nat16) = do v ← read_nat16; pure (Value.nat16 v)
  read_by_kind by_type (some IdlType.nat32) = do v ← read_nat32; pure (Value.nat32 v)
  read_by_kind by_type (some IdlType.nat64) = do v ← read_nat64; pure (Value.nat64 v)
  read_by_kind by_type (some IdlType.int8) = do v ← read_int8; pure (Value.int8 v)
  read_by_kind by_type (some IdlType.int16) = do v ← read_int16; pure (Value.int16 v)
  read_by_kind by_type (some IdlType.int32) = do v ← read_int32; pure (Value.int32 v)
  read_by_kind by_type (some IdlType.int64) = do v ← read_int64; pure (Value.int64 v)
  read_by_kind by_type (some IdlType.float32) = do v ← read_nat32; pure (Value.float32 v)
  read_by_kind by_type (some IdlType.float64) = do v ← read_nat64; pure (Value.float64 v)
  read_by_kind by_type (some IdlType.text) = read_value_text
  read_by_kind by_type (some IdlType.reserved) = pure Value.reserved
  read_by_kind by_type (some IdlType.empty) = fail invalid_arg
  read_by_kind by_type (some IdlType.principal) = do
    bytes ← read_principal
    pure (Value.principal bytes)
  read_by_kind by_type (some (IdlType.service ms)) = do
    bytes ← read_principal
    pure (Value.service bytes)
  read_by_kind by_type (some (IdlType.func args rets modes)) = read_value_func
  read_by_kind by_type (some IdlType.nat) = read_value_nat
  read_by_kind by_type (some IdlType.int) = read_value_int
  read_by_kind by_type (some (IdlType.opt t)) = read_value_opt (by_type t)
  read_by_kind by_type (some (IdlType.vec t)) = read_value_vec by_type t
  read_by_kind by_type (some (IdlType.record_of ts)) = do
    fs ← read_fields by_type ts
    pure (Value.record_of fs)
  read_by_kind by_type (some (IdlType.variant ts)) = read_value_variant by_type ts
  read_by_kind by_type (some (IdlType.var name)) = fail invalid_arg

  -- `idl_deserializer_read_value_by_type`: a value of nesting below the fuel.
  unfoldable pub read_value_by_type : ℕ → IdlType → Read Value
  unfolding read_by_kind trace
  read_value_by_type zero t r = stuck
  read_value_by_type (suc fuel) t r =
      Status.◌>>=◌ (trace find links t) (λ actual. read_by_kind (read_value_by_type fuel) actual r)
