-- ===== src/Idl/Types.antt =====
-- c_candid/runtime/runtime/include/idl/types.h and src/types.c: Candid types and their opcodes.
-- A C string is the list of its bytes before the NUL; a pointer to a type is the type.
use lucid.Base.{ℕ, Bool, true, false, List}
use lucid.Base.Int.{ℤ, pos, negsuc}

abbrev pub Name : Type 0
Name = List ℕ

-- `idl_label`: the id of a named label is the hash of its name.
pub data Label : Type 0 where
  label_id : ℕ → Label
  label_name : ℕ → Name → Label

abbrev pub id_of : Label → ℕ
id_of (label_id id) = id
id_of (label_name id name) = id

pub data FuncMode : Type 0 where
  query oneway composite_query : FuncMode

-- `idl_type`: the kind and, for a composite kind, what the union holds for it.
mutual
  pub data IdlType : Type 0 where
    null bool nat int nat8 nat16 nat32 nat64 int8 int16 int32 int64 float32 float64 : IdlType
    text reserved empty principal : IdlType
    opt : IdlType → IdlType
    vec : IdlType → IdlType
    record_of : TypeFields → IdlType
    variant : TypeFields → IdlType
    func : TypeList → TypeList → List FuncMode → IdlType
    service : Methods → IdlType
    var : Name → IdlType

  pub data TypeFields : Type 0 where
    no_fields : TypeFields
    field : Label → IdlType → TypeFields → TypeFields

  pub data TypeList : Type 0 where
    no_types : TypeList
    type_of : IdlType → TypeList → TypeList

  pub data Methods : Type 0 where
    no_methods : Methods
    method : Name → IdlType → Methods → Methods

unfoldable pub idl_type_is_primitive : IdlType → Bool
idl_type_is_primitive (opt t) = false
idl_type_is_primitive (vec t) = false
idl_type_is_primitive (record_of fs) = false
idl_type_is_primitive (variant fs) = false
idl_type_is_primitive (func args rets modes) = false
idl_type_is_primitive (service ms) = false
idl_type_is_primitive (var name) = false
idl_type_is_primitive _ = true

-- `negsuc n` is -(n + 1).
unfoldable pub idl_type_opcode : IdlType → ℤ
idl_type_opcode null = negsuc 0
idl_type_opcode bool = negsuc 1
idl_type_opcode nat = negsuc 2
idl_type_opcode int = negsuc 3
idl_type_opcode nat8 = negsuc 4
idl_type_opcode nat16 = negsuc 5
idl_type_opcode nat32 = negsuc 6
idl_type_opcode nat64 = negsuc 7
idl_type_opcode int8 = negsuc 8
idl_type_opcode int16 = negsuc 9
idl_type_opcode int32 = negsuc 10
idl_type_opcode int64 = negsuc 11
idl_type_opcode float32 = negsuc 12
idl_type_opcode float64 = negsuc 13
idl_type_opcode text = negsuc 14
idl_type_opcode reserved = negsuc 15
idl_type_opcode empty = negsuc 16
idl_type_opcode principal = negsuc 23
idl_type_opcode (opt t) = negsuc 17
idl_type_opcode (vec t) = negsuc 18
idl_type_opcode (record_of fs) = negsuc 19
idl_type_opcode (variant fs) = negsuc 20
idl_type_opcode (func args rets modes) = negsuc 21
idl_type_opcode (service ms) = negsuc 22
idl_type_opcode (var name) = pos 0
