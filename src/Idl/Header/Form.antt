-- ===== src/Idl/Header/Form.antt =====
-- The table of types of a message as the Candid specification has it, its types and its bytes: what the
-- parser of header.c is to make of them.
use lucid.Base.{ℕ, ◌*◌, ◌^◌, ◌<◌, ◌≤◌, Bool, true, List, [], ◌∷◌, ◌++◌, All, ◌≡◌}
use lucid.Base.{Option, none, some, length, if◌then◌else◌}
use lucid.Base.Int.{ℤ, pos, negsuc}
use lucid.Base.Word.{IsSize}
use lucid.Leb128.{IsByte}
use lucid.Idl.Types.{
  Name, label_id, IdlType, TypeFields, no_fields, field, TypeList, no_types, type_of, FuncMode,
  query, oneway, composite_query, Methods, no_methods, method, idl_type_is_primitive,
  idl_type_opcode,
}
use lucid.Idl.Serializer.Wire.{uleb}
use lucid.Idl.Deserializer.Utf8.{idl_utf8_validate}
use lucid.Idl.Header.Answers.{sleb}
use lucid.Idl.Header.Composite.{make_table_var, in_order, c_string}

-- A type within an entry: the number of an entry, or a primitive type.
pub data Ref : Type 0 where
  to_entry : ℕ → Ref
  to_plain : IdlType → Ref

-- `future` is an opcode below -24, the complement of its number, with the bytes behind its length.
pub data Entry : Type 0 where
  opt_of : Ref → Entry
  vec_of : Ref → Entry
  fields_of : Bool → List (ℕ × Ref) → Entry
  func_of : List Ref → List Ref → Option FuncMode → Entry
  service_of : List (Name × Ref) → Entry
  future : ℕ → List ℕ → Entry

unfoldable pub mode_number : FuncMode → ℕ
mode_number query = 1
mode_number oneway = 2
mode_number composite_query = 3

unfoldable pub ref_number : Ref → ℤ
unfolding idl_type_opcode
ref_number (to_entry i) = pos i
ref_number (to_plain t) = idl_type_opcode t

unfoldable pub ref_wire : Ref → List ℕ
unfolding ref_number
ref_wire r = sleb (ref_number r)

unfoldable pub refs_wire : List Ref → List ℕ
unfolding ref_wire
refs_wire [] = []
refs_wire (r ∷ rs) = ref_wire r ++ refs_wire rs

-- The count, and the types.
unfoldable pub list_wire : List Ref → List ℕ
unfolding refs_wire
list_wire rs = uleb (length rs) ++ refs_wire rs

unfoldable pub fields_wire : List (ℕ × Ref) → List ℕ
unfolding ref_wire
fields_wire [] = []
fields_wire ((id, r) ∷ fs) = (uleb id ++ ref_wire r) ++ fields_wire fs

unfoldable pub modes_wire : Option FuncMode → List ℕ
unfolding mode_number
modes_wire none = uleb 0
modes_wire (some mode) = uleb 1 ++ uleb (mode_number mode)

unfoldable pub methods_wire : List (Name × Ref) → List ℕ
unfolding ref_wire
methods_wire [] = []
methods_wire ((name, r) ∷ ms) = (uleb (length name) ++ (name ++ ref_wire r)) ++ methods_wire ms

unfoldable pub entry_wire : Entry → List ℕ
unfolding ref_wire list_wire fields_wire modes_wire methods_wire
entry_wire (opt_of r) = sleb (negsuc 17) ++ ref_wire r
entry_wire (vec_of r) = sleb (negsuc 18) ++ ref_wire r
entry_wire (fields_of is_record fs) =
    sleb (negsuc (if is_record then 19 else 20)) ++ (uleb (length fs) ++ fields_wire fs)
entry_wire (func_of args rets mode) =
    sleb (negsuc 21) ++ (list_wire args ++ (list_wire rets ++ modes_wire mode))
entry_wire (service_of ms) = sleb (negsuc 22) ++ (uleb (length ms) ++ methods_wire ms)
entry_wire (future n bytes) = sleb (negsuc n) ++ (uleb (length bytes) ++ bytes)

unfoldable pub table_wire : List Entry → List ℕ
unfolding entry_wire
table_wire [] = []
table_wire (e ∷ es) = entry_wire e ++ table_wire es

abbrev pub mode_list : Option FuncMode → List FuncMode
mode_list none = []
mode_list (some mode) = mode ∷ []

module _ (print_long : ℤ → Name) where
  unfoldable pub ref_type : Ref → IdlType
  unfolding make_table_var
  ref_type (to_entry i) = IdlType.var (make_table_var print_long i)
  ref_type (to_plain t) = t

  unfoldable pub list_type : List Ref → TypeList
  unfolding ref_type
  list_type [] = no_types
  list_type (r ∷ rs) = type_of (ref_type r) (list_type rs)

  unfoldable pub fields_type : List (ℕ × Ref) → TypeFields
  unfolding ref_type
  fields_type [] = no_fields
  fields_type ((id, r) ∷ fs) = field (label_id id) (ref_type r) (fields_type fs)

  unfoldable pub methods_type : List (Name × Ref) → Methods
  unfolding ref_type
  methods_type [] = no_methods
  methods_type ((name, r) ∷ ms) = method name (ref_type r) (methods_type ms)

  -- A type of the future is read as reserved.
  unfoldable pub entry_type : Entry → IdlType
  unfolding ref_type list_type fields_type methods_type
  entry_type (opt_of r) = IdlType.opt (ref_type r)
  entry_type (vec_of r) = IdlType.vec (ref_type r)
  entry_type (fields_of is_record fs) =
      if is_record then IdlType.record_of (fields_type fs) else IdlType.variant (fields_type fs)
  entry_type (func_of args rets mode) =
      IdlType.func (list_type args) (list_type rets) (mode_list mode)
  entry_type (service_of ms) = IdlType.service (methods_type ms)
  entry_type (future n bytes) = IdlType.reserved

-- What a table of `table_len` entries may hold.
module _ (table_len : ℕ) where
  abbrev pub IsRef : Ref → Type 0
  IsRef (to_entry i) = i < table_len
  IsRef (to_plain t) = idl_type_is_primitive t ≡ true

  -- Ids go up.
  abbrev pub AreFields : Option ℕ → List (ℕ × Ref) → Type 0
  AreFields prev [] = Unit {0}
  AreFields none ((id, r) ∷ fs) = (id < 2 ^ 32) × IsRef r × AreFields (some id) fs
  AreFields (some prev) ((id, r) ∷ fs) =
      (prev < id) × (id < 2 ^ 32) × IsRef r × AreFields (some id) fs

  -- Names go up, are UTF-8, and hold no NUL.
  abbrev pub AreMethods : Option Name → List (Name × Ref) → Type 0
  AreMethods prev [] = Unit {0}
  AreMethods prev ((name, r) ∷ ms) =
      All IsByte name
      × (IsSize (length name))
      × (idl_utf8_validate name ≡ true)
      × (c_string name ≡ name)
      × (in_order prev name ≡ true)
      × IsRef r
      × AreMethods (some name) ms

  -- The arrays that the code makes for the elements, of 16, 8 and 4 bytes each, are within a size_t.
  abbrev pub IsEntryOf : Entry → Type 0
  IsEntryOf (opt_of r) = IsRef r
  IsEntryOf (vec_of r) = IsRef r
  IsEntryOf (fields_of is_record fs) = IsSize (16 * length fs) × AreFields none fs
  IsEntryOf (func_of args rets mode) =
      IsSize (4 * length args) × All IsRef args × IsSize (4 * length rets) × All IsRef rets
  IsEntryOf (service_of ms) = IsSize (8 * length ms) × AreMethods none ms
  IsEntryOf (future n bytes) = (24 ≤ n) × (n < 2 ^ 63) × All IsByte bytes × IsSize (length bytes)
