-- ===== src/Tests/Message.antt =====
-- The theorems on the Candid codec at a record of an option and of a vector of a named type.
use lucid.Base.{ℕ, ◌+◌, ◌^◌, ◌≤◌, ◌≡◌, refl, arith, Bool, true, [], ◌∷◌, ◌++◌}
use lucid.Base.{Option, some, length}
use lucid.Base.Word.{IsSize}
use lucid.Status.{ok}
use lucid.Idl.Types.{Name, label_id, IdlType, TypeFields}
use lucid.Idl.Value.{Value, no_values, value, ValueFields}
use lucid.Idl.Arena.{Arena}
use lucid.Idl.Serializer.{Serializer, write_value, idl_value_serializer_init, little_endian}
use lucid.Idl.Serializer.Wire.{wire, uleb, InRange}
use lucid.Idl.Serializer.Refine.{IsReady, write_value-wire}
use lucid.Idl.Deserializer.{read_value_by_type, trace}
use lucid.Idl.Deserializer.Utf8.{idl_utf8_validate}
use lucid.Idl.Deserializer.Reads.{at}
use lucid.Idl.Deserializer.Typing.{HasType, HasShape, HasItems, HasFields, typed}
use lucid.Idl.Deserializer.RoundTrip.{read_value_by_type-wire}
use lucid.Idl.RoundTrip.{read-write_value}
use lucid.Leb128.{uleb128_encode, uleb128_emit, uleb128_decode, uleb128_loop}
use lucid.Idl.Skip.{idl_skip_value, skip_groups}
use lucid.Idl.Skip.Wire.{idl_skip_value-wire}
use lucid.Idl.Skip.Within.{idl_skip_value-Within}

abbrev grants : ℕ → Bool
grants n = true

grants_all : (n : ℕ) → grants n ≡ true
grants_all n = refl

-- Every name stands for nat16.
abbrev env : Name → Option IdlType
env name = some IdlType.nat16

-- record { 1 : opt text; 2 : vec t }
abbrev message_type : IdlType
message_type = IdlType.record_of (
    TypeFields.field (label_id 1) (IdlType.opt IdlType.text)
      (TypeFields.field (label_id 2) (IdlType.vec (IdlType.var (b't' ∷ []))) TypeFields.no_fields))

abbrev message : Value
message = Value.record_of (
    ValueFields.field (label_id 1) (Value.opt_some (Value.text (b'h' ∷ b'i' ∷ []))) (
      ValueFields.field (label_id 2) (Value.vec (value (Value.nat16 300) no_values))
        ValueFields.no_fields))

program : Unit {0}
unfolding trace idl_utf8_validate wire uleb uleb128_encode uleb128_emit little_endian
program = tt

message-InRange : InRange message
message-InRange = (omega arith, ((omega arith, (tt, tt)), tt))

message-wire : wire message ≡ 1 ∷ 2 ∷ b'h' ∷ b'i' ∷ 1 ∷ 44 ∷ 1 ∷ []
unfolding program
message-wire = refl

message-HasType : HasType env 2 message_type message
unfolding program
message-HasType = typed refl (
    HasShape.is_record (
      HasFields.next
        (typed refl (
          HasShape.is_opt_some (
            typed refl (
              HasShape.is_text (b'h' ∷ b'i' ∷ []) ((omega arith, (omega arith, tt)), omega arith)
                refl))))
        (HasFields.next
          (typed refl (
            HasShape.is_vec IdlType.nat16 refl refl (omega arith)
              (HasItems.item (typed refl (HasShape.is_nat16 300 (omega arith))) HasItems.no_items)))
          HasFields.end)))

abbrev arena : Arena
arena = record { blocks = []; default_block_size = 4096 }

short : length (wire message) ≤ 2 ^ 31
unfolding program
short = omega arith

read-write_value_example :
    (ser : Serializer) × (write_value grants message (idl_value_serializer_init arena) ≡ ok ser)
    × (read_value_by_type env 2 3 message_type (at 0 (length ser.bytes) ser.bytes)
        ≡ ok (message, at (length ser.bytes) (length ser.bytes) []))
read-write_value_example =
    read-write_value grants env 2 3 arena message_type message grants_all message-HasType
      message-InRange (omega arith) short

abbrev begun : Serializer
begun = record { arena = arena; bytes = 7 ∷ []; capacity = 1 }

short_behind : length begun.bytes + length (wire message) ≤ 2 ^ 31
unfolding program
short_behind = omega arith

write_value-wire_example :
    (ser' : Serializer) × (write_value grants message begun ≡ ok ser')
    × (ser'.bytes ≡ begun.bytes ++ wire message)
    × IsReady ser'
write_value-wire_example =
    write_value-wire grants grants_all message begun message-InRange (omega arith, omega arith)
      short_behind

total : 10 ≡ 2 + (length (wire message) + 1)
unfolding program
total = refl

read_value_by_type-wire_example :
    read_value_by_type env 2 3 message_type (at 2 10 (wire message ++ 9 ∷ []))
    ≡ ok (message, at (2 + length (wire message)) 10 (9 ∷ []))
read_value_by_type-wire_example =
    read_value_by_type-wire env 2 3 2 10 message_type message (9 ∷ []) message-HasType (omega arith)
      total (omega arith) (omega arith, tt)

around-IsSize : IsSize (length ((9 ∷ 8 ∷ []) ++ (wire message ++ 7 ∷ [])))
unfolding program
around-IsSize = omega arith

idl_skip_value-wire_example :
    (idl_skip_value env 2 3 message_type ((9 ∷ 8 ∷ []) ++ (wire message ++ 7 ∷ [])) 2
      ≡ ok (2 + length (wire message)))
    × (read_value_by_type env 2 3 message_type
          (at 2 (length ((9 ∷ 8 ∷ []) ++ (wire message ++ 7 ∷ []))) (wire message ++ 7 ∷ []))
        ≡ ok (
          message,
          at
              (2 + length (wire message))
              (length ((9 ∷ 8 ∷ []) ++ (wire message ++ 7 ∷ [])))
              (7 ∷ []),
        ))
idl_skip_value-wire_example =
    idl_skip_value-wire env 2 3 message_type message (9 ∷ 8 ∷ []) (7 ∷ []) message-HasType
      (omega arith) around-IsSize (omega arith, tt)

skipped : idl_skip_value env 2 3 message_type (1 ∷ 2 ∷ 3 ∷ 4 ∷ 1 ∷ 44 ∷ 1 ∷ []) 0 ≡ ok 7
unfolding program idl_skip_value skip_groups uleb128_decode uleb128_loop
skipped = refl

idl_skip_value-Within_example : 7 ≤ 7
idl_skip_value-Within_example =
    idl_skip_value-Within env 2 3 message_type (1 ∷ 2 ∷ 3 ∷ 4 ∷ 1 ∷ 44 ∷ 1 ∷ []) 0 7 (omega arith)
      (
        omega arith,
        (
          omega arith,
          (omega arith, (omega arith, (omega arith, (omega arith, (omega arith, tt))))),
        ),
      )
      (omega arith) skipped
