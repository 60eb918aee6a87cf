-- ===== src/Idl/Serializer.antt =====
-- c_candid/runtime/runtime/src/value_serializer.c: values appended to a growing buffer.
-- What a failed call leaves in the serializer is not kept: every caller returns at once. A pointer
-- that is tested against NULL and that no caller passes as NULL is not an `Option` here.

pub mod Wire
pub mod Refine
use lucid.Base.{ℕ, zero, suc, ◌+◌, ◌-◌, ◌*◌, ◌/◌, ◌%◌, ◌^◌, Bool, true, false, List, [], ◌∷◌, ◌++◌}
use lucid.Base.{Option, none, some, ltb, leb, ◌==◌, if◌then◌else◌, length}
use lucid.Base.Int.{ℤ, pos, negsuc}
use lucid.Base.Word.{size_mod}
use lucid.Status.{Result, ok, err, stuck, alloc, ◌>>=◌}
use lucid.Leb128.{uleb128_encode, sleb128_encode}
use lucid.Idl.Arena.{Arena, idl_arena_alloc}
use lucid.Idl.Value.{Value, Values, no_values, value, ValueFields, no_fields, field}

-- `bytes` are the first `len` bytes behind the data pointer.
pub record Serializer : Type 0 where
  pub arena : Arena
  pub bytes : List ℕ
  pub capacity : ℕ

unfoldable pub idl_value_serializer_init : Arena → Serializer
idl_value_serializer_init a = record { arena = a; bytes = []; capacity = 0 }

-- `while (new_cap < needed) new_cap *= 2`. After 32 doublings a size_t that is not 0 is 0, and stays
-- so: with fuel for 33 rounds, to run out is to loop for ever.
unfoldable pub double_until : ℕ → ℕ → ℕ → Result ℕ
double_until zero new_cap needed = stuck
double_until (suc fuel) new_cap needed =
    let again = double_until fuel (new_cap * 2 % size_mod) needed in
    if ltb new_cap needed then again else ok new_cap

abbrev pub rounds : ℕ
rounds = 33

-- A signed integer of `w` bits as its bit pattern.
abbrev pub to_unsigned : ℕ → ℤ → ℕ
to_unsigned w (pos n) = n
to_unsigned w (negsuc n) = 2 ^ w - 1 - n

-- The low `k` bytes of `v`, lowest first: `(uint8_t)((v >> (i * 8)) & 0xFF)`.
unfoldable pub little_endian : ℕ → ℕ → List ℕ
little_endian zero v = []
little_endian (suc k) v = (v % 256) ∷ little_endian k (v / 256)

abbrev pub count_values : Values → ℕ
count_values no_values = 0
count_values (value v vs) = suc (count_values vs)

-- `memcpy` behind the bytes that are there, which goes outside the buffer if it is too small.
abbrev pub copy_behind : List ℕ → Serializer → Result Serializer
copy_behind bytes ser =
    if leb (length ser.bytes + length bytes) ser.capacity
    then ok (record ser { bytes = ser.bytes ++ bytes })
    else stuck

module _ (malloc : ℕ → Bool) where
  unfoldable pub ensure_capacity : ℕ → Serializer → Result Serializer
  ensure_capacity additional ser =
      let needed = (length ser.bytes + additional) % size_mod in
      if leb needed ser.capacity then ok ser else do
        new_cap ← double_until rounds (if ser.capacity == 0 then 256 else ser.capacity) needed
        elim (idl_arena_alloc malloc ser.arena new_cap) [
          | none ↦ err alloc
          | some (address, arena) ↦
              ok (record { arena = arena; bytes = ser.bytes; capacity = new_cap })
        ]

  unfoldable pub write : List ℕ → Serializer → Result Serializer
  unfolding ensure_capacity
  write bytes ser =
      if length bytes == 0
      then ok ser
      else do ser' ← ensure_capacity (length bytes) ser; copy_behind bytes ser'

  unfoldable pub write_byte : ℕ → Serializer → Result Serializer
  write_byte byte ser = write (byte ∷ []) ser

  unfoldable pub write_leb128 : ℕ → Serializer → Result Serializer
  write_leb128 v ser = do bytes ← uleb128_encode v (some 10); write bytes ser

  unfoldable pub write_sleb128 : ℤ → Serializer → Result Serializer
  write_sleb128 v ser = do bytes ← sleb128_encode v (some 10); write bytes ser

  -- Null and reserved have no wire representation.
  unfoldable pub write_null : Serializer → Result Serializer
  write_null ser = ok ser

  unfoldable pub write_bool : Bool → Serializer → Result Serializer
  write_bool v ser = write_byte (if v then 1 else 0) ser

  unfoldable pub write_nat16 : ℕ → Serializer → Result Serializer
  write_nat16 v ser = write (little_endian 2 v) ser

  unfoldable pub write_nat32 : ℕ → Serializer → Result Serializer
  write_nat32 v ser = write (little_endian 4 v) ser

  unfoldable pub write_nat64 : ℕ → Serializer → Result Serializer
  write_nat64 v ser = write (little_endian 8 v) ser

  unfoldable pub write_int8 : ℤ → Serializer → Result Serializer
  write_int8 v ser = write_byte (to_unsigned 8 v) ser

  unfoldable pub write_int16 : ℤ → Serializer → Result Serializer
  write_int16 v ser = write_nat16 (to_unsigned 16 v) ser

  unfoldable pub write_int32 : ℤ → Serializer → Result Serializer
  write_int32 v ser = write_nat32 (to_unsigned 32 v) ser

  unfoldable pub write_int64 : ℤ → Serializer → Result Serializer
  write_int64 v ser = write_nat64 (to_unsigned 64 v) ser

  -- A text and a blob alike: the length, then the bytes.
  unfoldable pub write_text : List ℕ → Serializer → Result Serializer
  write_text s ser = do ser' ← write_leb128 (length s) ser; write s ser'

  unfoldable pub write_principal : List ℕ → Serializer → Result Serializer
  write_principal bytes ser = do
    ser₁ ← write_byte 1 ser
    ser₂ ← write_leb128 (length bytes) ser₁
    write bytes ser₂

  -- `idl_value_serializer_write_value` and the writers of the composite values.
  unfoldable mutual
    pub write_value : Value → Serializer → Result Serializer
    write_value Value.null ser = write_null ser
    write_value (Value.bool v) ser = write_bool v ser
    write_value (Value.nat8 v) ser = write_byte v ser
    write_value (Value.nat16 v) ser = write_nat16 v ser
    write_value (Value.nat32 v) ser = write_nat32 v ser
    write_value (Value.nat64 v) ser = write_nat64 v ser
    write_value (Value.int8 v) ser = write_int8 v ser
    write_value (Value.int16 v) ser = write_int16 v ser
    write_value (Value.int32 v) ser = write_int32 v ser
    write_value (Value.int64 v) ser = write_int64 v ser
    write_value (Value.float32 bits) ser = write_nat32 bits ser
    write_value (Value.float64 bits) ser = write_nat64 bits ser
    write_value (Value.text s) ser = write_text s ser
    write_value (Value.blob bytes) ser = write_text bytes ser
    write_value Value.reserved ser = write_null ser
    write_value (Value.principal bytes) ser = write_principal bytes ser
    write_value (Value.service bytes) ser = write_principal bytes ser
    write_value (Value.func bytes method) ser = do
      ser₁ ← write_byte 1 ser
      ser₂ ← write_principal bytes ser₁
      write_text method ser₂
    write_value (Value.nat leb) ser = write leb ser
    write_value (Value.int sleb) ser = write sleb ser
    write_value Value.opt_none ser = write_leb128 0 ser
    write_value (Value.opt_some v) ser = do ser' ← write_leb128 1 ser; write_value v ser'
    write_value (Value.vec vs) ser = do
      ser' ← write_leb128 (count_values vs) ser
      write_values vs ser'
    write_value (Value.record_of fs) ser = write_fields fs ser
    write_value (Value.variant index fs) ser = do ser' ← write_leb128 index ser; write_first fs ser'

    pub write_values : Values → Serializer → Result Serializer
    write_values no_values ser = ok ser
    write_values (value v vs) ser = do ser' ← write_value v ser; write_values vs ser'

    pub write_fields : ValueFields → Serializer → Result Serializer
    write_fields no_fields ser = ok ser
    write_fields (field l v fs) ser = do ser' ← write_value v ser; write_fields fs ser'

    pub write_first : ValueFields → Serializer → Result Serializer
    write_first no_fields ser = ok ser
    write_first (field l v fs) ser = write_value v ser
