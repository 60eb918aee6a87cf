-- ===== src/Tests/Headers.antt =====
-- The theorems on messages: at a header of a type that holds itself, and at a message of one argument.
use lucid.Base.{
  ℕ, zero, suc, ◌+◌, ◌*◌, ◌/◌, ◌%◌, ◌≡◌, refl, arith, Bool, true, List, [], ◌∷◌, ◌++◌, ltb,
  if◌then◌else◌,
}
use lucid.Base.{some, set, replicate, length, ap}
use lucid.Base.Array.{get_at}
use lucid.Base.{All}
use lucid.Leb128.{IsByte, uleb128_encode, uleb128_emit, sleb128_encode, sleb128_emit}
use lucid.Idl.Value.{Value, Values, value, no_values}
use lucid.Idl.Serializer.Wire.{wire, wire_values, uleb}
use lucid.Idl.Deserializer.{trace}
use lucid.Idl.Deserializer.Typing.{HasShape, typed}
use lucid.Idl.Decoder.{
  idl_deserializer_new, idl_deserializer_done, idl_decoder_config_init, arg_count,
}
use lucid.Idl.Decoder.Done.{HasTypes, argument, no_arguments, standing}
use lucid.Idl.Decoder.Message.{idl_deserializer_done-message}
use lucid.Base.Int.{ℤ, pos, negsuc}
use lucid.Status.{ok, err, invalid_arg, ◌>>=◌}
use lucid.Base.Word.{IsSize, size_mod}
use lucid.Idl.Arena.{align_size, Arena, idl_arena_init, idl_arena_alloc, idl_arena_add_block}
use lucid.Idl.Types.{Name, IdlType, type_of, no_types, query, idl_type_is_primitive}
use lucid.Idl.TypeEnv.{
  idl_type_env_find, idl_type_env_trace, idl_type_env_init, idl_type_env_insert, name_equal,
  hash_string,
}
use lucid.Idl.TypeEnv.Trace.{IsFinal}
use lucid.Leb128.{uleb128_decode, uleb128_loop, sleb128_decode, sleb128_loop}
use lucid.Idl.Header.{Header, idl_header_parse}
use lucid.Idl.Header.Table.{IsBound}
use lucid.Idl.Header.Environment.{IsHeader, idl_header_parse-IsHeader, idl_header_parse-trace}
use lucid.Idl.Header.Read.{read_uleb128}
use lucid.Idl.Header.Composite.{parse_cons_type, make_table_var}
use lucid.Idl.Header.Yields.{EachName}
use lucid.Idl.Header.Form.{
  Ref, to_entry, to_plain, Entry, opt_of, fields_of, entry_type, list_type, func_of, table_wire,
  entry_wire, list_wire, refs_wire, fields_wire, ref_wire, IsEntryOf,
}
use lucid.Idl.Header.Answers.{sleb}
use lucid.Idl.Header.Described.{header_wire, bound_type, HasNames, Describes}
use lucid.Idl.Header.RoundTrip.{idl_header_parse-wire}

abbrev digits : ℕ → ℕ → Name
digits zero n = []
digits (suc fuel) n =
    let front = digits fuel (n / 10) in
    if ltb n 10 then (48 + n) ∷ [] else front ++ ((48 + n % 10) ∷ [])

abbrev print_long : ℤ → Name
print_long (pos n) = digits 10 n
print_long (negsuc n) = b'-' ∷ digits 10 (n + 1)

abbrev grants : ℕ → Bool
grants n = true

abbrev arena : Arena
arena = idl_arena_init 4096

-- table0 is opt table0; the message has one argument, of that type.
abbrev input : List ℕ
input = b'D' ∷ b'I' ∷ b'D' ∷ b'L' ∷ 1 ∷ 0x6e ∷ 0 ∷ 1 ∷ 0 ∷ []

abbrev table0 : Name
table0 = b't' ∷ b'a' ∷ b'b' ∷ b'l' ∷ b'e' ∷ b'0' ∷ []

abbrev header : Header
header = record {
  env = record {
    arena = record {
      blocks = record { capacity = 4096; used = 148 } ∷ [];
      default_block_size = 4096;
    };
    buckets = set (replicate 32 []) 29 ((table0, IdlType.opt (IdlType.var table0)) ∷ []);
    bucket_count = 32;
    count = 1;
  };
  arg_types = type_of (IdlType.var table0) no_types;
}

run : idl_header_parse print_long grants arena input ≡ ok (header, 9)
unfolding idl_header_parse idl_type_env_init idl_arena_alloc idl_arena_add_block idl_arena_init
    align_size idl_type_env_insert hash_string name_equal read_uleb128 parse_cons_type
    uleb128_decode uleb128_loop sleb128_decode sleb128_loop
run = refl

idl_header_parse-IsHeader_example : IsHeader header
idl_header_parse-IsHeader_example =
    idl_header_parse-IsHeader print_long grants arena input header 9 run

bound : EachName (IsBound header.env) (IdlType.var table0)
unfolding EachName IsBound idl_type_env_find hash_string
bound = (IdlType.opt (IdlType.var table0), refl)

idl_header_parse-trace_example :
    (u : IdlType) × (idl_type_env_trace 2 header.env (IdlType.var table0) ≡ ok (some u))
    × IsFinal (some u)
idl_header_parse-trace_example =
    idl_header_parse-trace print_long grants arena input header 9 2 (IdlType.var table0) run bound
      (omega arith)

-- table0 is a record of a nat and of table1, and table1 a query function from texts; the message has one
-- argument of the type table0, and two bytes for it.
abbrev entries : List Entry
entries =
    fields_of true ((0, to_plain IdlType.nat) ∷ ((1, to_entry 1) ∷ []))
    ∷ (func_of (to_plain IdlType.text ∷ []) [] (some query) ∷ [])

abbrev argument_types : List Ref
argument_types = to_entry 0 ∷ []

grants_all : (n : ℕ) → grants n ≡ true
grants_all n = refl

entry_names : HasNames print_long 2
unfolding make_table_var get_at
entry_names zero zero h k e = refl
entry_names (suc zero) (suc zero) h k e = refl
entry_names zero (suc zero) h k e =
    let last : ◌≡◌ {A = ℕ} 48 49 = ap (λ (n : Name). get_at 0 n 5) e in absurd (omega (arith, last))
entry_names (suc zero) zero h k e =
    let last : ◌≡◌ {A = ℕ} 49 48 = ap (λ (n : Name). get_at 0 n 5) e in absurd (omega (arith, last))
entry_names (suc (suc i)) j h k e = absurd (omega (arith, h))
entry_names zero (suc (suc j)) h k e = absurd (omega (arith, k))
entry_names (suc zero) (suc (suc j)) h k e = absurd (omega (arith, k))

entries_fit : All (IsEntryOf 2) entries
unfolding idl_type_is_primitive
entries_fit = (
  (omega arith, (omega arith, refl, (omega arith, omega arith, omega arith, tt))),
  ((omega arith, (refl, tt), omega arith, tt), tt),
)

idl_header_parse-wire_example :
    (h : Header) × (idl_header_parse print_long grants arena
        (header_wire entries argument_types ++ (7 ∷ (9 ∷ [])))
      ≡ ok (h, length (header_wire entries argument_types)))
    × Describes print_long entries argument_types h
unfolding header_wire table_wire entry_wire list_wire uleb uleb128_encode uleb128_emit sleb
    sleb128_encode sleb128_emit fields_wire refs_wire ref_wire
idl_header_parse-wire_example =
    idl_header_parse-wire grants grants_all print_long entries (omega arith) entry_names arena
      argument_types (7 ∷ (9 ∷ [])) entries_fit (omega arith) (omega arith) (omega arith)
      (omega arith)

-- table0 is opt nat8; the one argument is the option of 9, and a byte is left over.
abbrev option_entry : List Entry
option_entry = opt_of (to_plain IdlType.nat8) ∷ []

abbrev arguments : Values
arguments = value (Value.opt_some (Value.nat8 9)) no_values

one_name : HasNames print_long 1
one_name zero zero h k e = refl
one_name (suc i) j h k e = absurd (omega (arith, h))
one_name zero (suc j) h k e = absurd (omega (arith, k))

option_fits : All (IsEntryOf 1) option_entry
unfolding idl_type_is_primitive
option_fits = (refl, tt)

arguments-HasTypes :
    HasTypes
      (bound_type print_long 0 option_entry)
      2
      (list_type print_long argument_types)
      arguments
unfolding trace bound_type list_type make_table_var entry_type name_equal
arguments-HasTypes =
    argument (typed refl (HasShape.is_opt_some (typed refl (HasShape.is_nat8 9 (omega arith)))))
      no_arguments

abbrev message : List ℕ
message = header_wire option_entry argument_types ++ (wire_values arguments ++ (7 ∷ []))

message-IsByte : All IsByte message
unfolding header_wire table_wire entry_wire list_wire uleb uleb128_encode uleb128_emit sleb
    sleb128_encode sleb128_emit refs_wire ref_wire wire_values wire
message-IsByte = omega arith

message-IsSize : IsSize (length message)
unfolding header_wire table_wire entry_wire list_wire uleb uleb128_encode uleb128_emit sleb
    sleb128_encode sleb128_emit refs_wire ref_wire wire_values wire
message-IsSize = omega arith

idl_deserializer_done-message_example :
    (h : Header) × Describes print_long option_entry argument_types h
    × ((idl_deserializer_new print_long grants arena message >>= idl_deserializer_done 2 2) ≡ (
        if ltb 0 1
        then err invalid_arg
        else ok (
            standing idl_decoder_config_init h
              (length (header_wire option_entry argument_types) * 4 % size_mod)
              (arg_count h.arg_types)
              (length message)
              (length message)
              [])))
idl_deserializer_done-message_example =
    idl_deserializer_done-message grants grants_all print_long option_entry (omega arith) one_name
      arena argument_types arguments (7 ∷ []) 2 2 option_fits (omega arith) (omega arith, tt)
      arguments-HasTypes (omega arith) message-IsByte message-IsSize
