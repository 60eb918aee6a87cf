-- ===== src/Lib.antt =====
-- Lucid: a C SDK and a Candid runtime for canisters of the Internet Computer.
--
-- Candid is the wire format of every call: a value is written by the serializer in the layout of its
-- type and read back by the deserializer, which walks the type. Both keep their data in an arena, a
-- bump allocator over a list of blocks, and both use LEB128 for lengths, indices and numbers. The
-- storage layer keeps bytes in stable memory, which survives an upgrade and which the host of the
-- canister implements.
--
-- Files and the code that they model:
-- - Base, with children: numbers, Boolean tests, bit operations, lists, integers and size_t.
-- - Status: c_candid/runtime/runtime/include/idl/base.h and src/base.c. A call ends in `ok`, in a
--   status (`err`), or in `stuck`, where C has no result: a loop that does not end, or an access
--   outside a buffer.
-- - Leb128: c_candid/runtime/runtime/src/leb128.c, idl_uleb128_* and idl_sleb128_* under their names
--   without `idl_`. Leb128/Unsigned, Written, Groups and Signed hold the proofs.
-- - Idl/Types: types.h and types.c; Idl/Value: value.h, whose constructors are those of value.c.
-- - Idl/Arena: arena.c. An address is a block and an offset in it.
-- - Idl/Serializer: value_serializer.c, `write_x` for idl_value_serializer_write_x. Serializer/Wire
--   is the wire form as a function of the value, Serializer/Refine relates the two.
-- - Idl/Deserializer: decode/deserializer.c, `read_x` for idl_deserializer_read_x, as a state monad
--   over the reader; Deserializer/Utf8 is its UTF-8 test. Deserializer/Typing says which values stand
--   for a type; Reads, Composite and RoundTrip hold the proofs. `trace` is idl_type_env_trace of type_env.c; idl_type_env_find is
--   a parameter there.
-- - Idl/RoundTrip: serializer and deserializer together.
-- - Storage: cdk-c/src/ic_storage.c. Storage/Api is the record of the system calls ic0_stable64_*
--   with the behaviour relied on; Storage/Writer, Seek, Restore and Cursors hold the proofs.
-- - Idl/Hash: hash.c. Hash/Order is about the sort and the test for unique ids, Hash/Polynomial
--   about the hash.
-- - Buffer: cdk-c/src/ic_buffer.c. Buffer/Growth is about the doubling loop, Buffer/Append about
--   reservations and appends.
-- - Timer: cdk-c/src/ic_timer.c, `Timers` for its static variables. Timer/Heap is the binary heap
--   of tasks, with Heap/Order, Up, Down, Insert and Remove on its order; Timer/Process and Armed
--   are about ic_timer_process_expired and the global timer, Timer/Invariant, Calls and Reach
--   about the states that calls of the API lead to.
-- - Principal: cdk-c/src/ic_principal.c. Principal/Base32 and RoundTrip are about base32, Dashes
--   and Text about the text form, Sealed about the checksum, Parse about reading any text.
-- - Idl/TypeEnv: type_env.c, over any pointers for the types. TypeEnv/Buckets and Map are about the
--   table as a map, TypeEnv/Trace about the loops that follow names.
-- - Idl/Subtype: subtype.c, on types as pointers into a store, with the table of assumptions;
--   Subtype/Check has the rules. Subtype/Rules, Entries, Table, Kept and Assumptions are about what a
--   check does to the table, Subtype/Layers and Ends about its end. Subtype/Relation says when a type without
--   names is a subtype of another; Subtype/Kinds, Judges, Basics, Lists, Composite and Decides are
--   about the check and this relation.
-- - Idl/Header: the parser of header.c, on the position in the whole input; Header/Read has its
--   numbers and windows, Header/Composite one entry of the table of types (parse_x for
--   parse_x_type). What tfp_snprintf prints is a parameter. Header/Yields, Closed, Table and
--   Environment are about the names in the types that it returns; Header/Form says what the bytes
--   and the types of a table are, and Header/Answers, Elements, Entries, Described and RoundTrip
--   are about what the parser makes of these bytes.
-- - Idl/Coerce: the coercion of coerce.c, with the rules that call no other in Coerce/Kinds; the
--   answer of idl_subtype and the comparison of pointers are parameters. Coerce/Fits says which
--   values are of a type, Coerce/Gives, Parts, Missing, Rules, ByKind and Preserve are about the
--   result and its type, Coerce/Blob about blobs.
-- - Idl/Skip: the skipping of coerce.c, on the position in the whole input. Skip/Moves and Wire
--   are about values on the wire, Skip/Within about any bytes.
-- - Idl/Decoder: decode/deserializer_config.c and the end of decode/deserializer.c, a message with
--   its header and its arguments; Decoder/Done is about its arguments where the header was parsed,
--   Decoder/Message about a whole message.
-- - Tests: the theorems at concrete inputs.
--
-- Bounds and fuel. A size_t has 32 bits, as on wasm32, and its sums wrap around where the code does
-- not exclude it. The doubling of the serializer's capacity runs on 33 rounds: after 32 doublings the
-- capacity is 0 and the C loop never ends. The reader by type runs on fuel that has to exceed the
-- nesting of the value read; the depth of the recursion in C has no bound but the stack. A chain of
-- type names is followed for `links` steps. The UTF-8 test has the length of the input as its fuel.
-- The loops of the heap of timers have the index plus one, or the size
-- plus one, as their fuel; the rounds of ic_timer_process_expired have no bound in C, and one more than
-- the tasks that are due is enough where the callbacks leave the timers alone.
-- Coercion and skipping run on fuel too: skipping for the nesting of the value, coercion for the
-- nesting of the value, twice, and for the option that a value may be put into at each level; a result
-- for too little fuel is `stuck`.
-- The subtype check has fuel for the depth of its recursion, which is unbounded in C where types are
-- circular other than through names.
-- Allocation is a parameter, `malloc`, that says which sizes are granted.
--
-- Not modelled: the contents of arena blocks, so that no theorem is about aliasing; the arena of a
-- deserializer and those of the header's parser and of coercion, whose allocations are taken to be
-- granted, but for arrays whose size wraps around to 0; the builder of the type table and the writer of the header; the HTTP and call interface of
-- the canister; printing. The buddy allocator and tinyprintf are vendored.
pub mod Base
pub mod Status
pub mod Leb128
pub mod Idl
pub mod Storage
pub mod Buffer
pub mod Timer
pub mod Tests
pub mod Principal
