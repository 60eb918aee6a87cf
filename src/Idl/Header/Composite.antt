-- ===== src/Idl/Header/Composite.antt =====
-- c_candid/runtime/runtime/src/header.c, up to parse_cons_type: one entry of the table of types.
use lucid.Base.{ℕ, zero, suc, ◌-◌, ◌%◌, ◌^◌, Bool, true, false, not, ◌&&◌, List, [], ◌∷◌, ◌++◌}
use lucid.Base.{Option, none, some, ltb, leb, ◌==◌, if◌then◌else◌}
use lucid.Base.Int.{ℤ, pos, negsuc}
use lucid.Status.{Result, ok, err, invalid_arg}
use lucid.Idl.Types.{
  Name, label_id, IdlType, TypeFields, no_fields, field, TypeList, no_types, type_of, FuncMode,
  query, oneway, composite_query, Methods, no_methods, method,
}
use lucid.Idl.Header.Read.{
  Parse, pure, lift, ◌>>=◌, ◌>>◌, require, read_uleb128, read_sleb128, read_window,
}
use lucid.Idl.Header.Read.{
  skip_window, room_of, grant_array, idl_field_size, idl_method_size, pointer_size, write_element,
}
use lucid.Idl.Deserializer.{to_signed}
use lucid.Idl.Deserializer.Utf8.{idl_utf8_validate}

-- The cases of the switch, by the number that is the complement of the opcode.
unfoldable pub primitive_type : ℕ → Option IdlType
primitive_type n =
    if n == 0
    then some IdlType.null
    else if n == 1
    then some IdlType.bool
    else if n == 2
    then some IdlType.nat
    else if n == 3
    then some IdlType.int
    else if n == 4
    then some IdlType.nat8
    else if n == 5
    then some IdlType.nat16
    else if n == 6
    then some IdlType.nat32
    else if n == 7
    then some IdlType.nat64
    else if n == 8
    then some IdlType.int8
    else if n == 9
    then some IdlType.int16
    else if n == 10
    then some IdlType.int32
    else if n == 11
    then some IdlType.int64
    else if n == 12
    then some IdlType.float32
    else if n == 13
    then some IdlType.float64
    else if n == 14
    then some IdlType.text
    else if n == 15
    then some IdlType.reserved
    else if n == 16
    then some IdlType.empty
    else if n == 23
    then some IdlType.principal
    else none

-- A C string ends before its first NUL.
unfoldable pub c_string : List ℕ → Name
c_string [] = []
c_string (byte ∷ bytes) = let rest = c_string bytes in if byte == 0 then [] else byte ∷ rest

-- `strcmp(a, b) < 0`
unfoldable pub comes_before : Name → Name → Bool
comes_before a [] = false
comes_before [] (y ∷ ys) = true
comes_before (x ∷ xs) (y ∷ ys) =
    let rest = comes_before xs ys in if ltb x y then true else if x == y then rest else false

-- `!(*prev_name && strcmp(*prev_name, name) >= 0)`
unfoldable pub in_order : Option Name → Name → Bool
unfolding comes_before
in_order none name = true
in_order (some prev_name) name = comes_before prev_name name

unfoldable pub func_mode : ℕ → FuncMode
func_mode mode = if mode == 1 then query else if mode == 2 then oneway else composite_query

-- `print_long` is what tfp_snprintf makes of a `long` by "%ld"; a long has 32 bits.
module _ (print_long : ℤ → Name) where
  unfoldable pub make_table_var : ℕ → Name
  make_table_var index =
      (b't' ∷ b'a' ∷ b'b' ∷ b'l' ∷ b'e' ∷ []) ++ print_long (to_signed 32 (index % 2 ^ 32))

  unfoldable pub index_to_type : ℕ → ℤ → Result IdlType
  unfolding make_table_var primitive_type
  index_to_type table_len (pos index) =
      if leb table_len index then err invalid_arg else ok (IdlType.var (make_table_var index))
  index_to_type table_len (negsuc n) = elim (primitive_type n) [
    | none ↦ err invalid_arg
    | some type ↦ ok type
  ]

  module _ (table_len : ℕ) where
    -- read_sleb128 and index_to_type, which stand together wherever a type is read.
    unfoldable pub parse_index : Parse IdlType
    unfolding read_sleb128 index_to_type
    parse_index = do index ← read_sleb128; lift (index_to_type table_len index)

    unfoldable pub parse_opt_type : Parse IdlType
    unfolding parse_index
    parse_opt_type = do inner ← parse_index; pure (IdlType.opt inner)

    unfoldable pub parse_vec_type : Parse IdlType
    unfolding parse_index
    parse_vec_type = do inner ← parse_index; pure (IdlType.vec inner)

    -- The id, and the type.
    unfoldable pub parse_record_field : ℕ → Parse (ℕ × IdlType)
    unfolding read_uleb128 parse_index
    parse_record_field prev_id = do
      field_id ← read_uleb128
      require (ltb field_id (2 ^ 32)) (err invalid_arg)
      require (not (ltb 0 prev_id && leb field_id prev_id)) (err invalid_arg)
      type ← parse_index
      pure (field_id, type)

    unfoldable pub parse_fields : ℕ → ℕ → ℕ → Parse TypeFields
    unfolding parse_record_field
    parse_fields room zero prev_id = pure no_fields
    parse_fields room (suc n) prev_id = do
      (field_id, type) ← parse_record_field prev_id
      write_element room
      rest ← parse_fields (room - 1) n field_id
      pure (field (label_id field_id) type rest)

    unfoldable pub parse_record_variant_type : Bool → Parse IdlType
    unfolding read_uleb128 parse_fields
    parse_record_variant_type is_record = do
      field_count ← read_uleb128
      grant_array idl_field_size field_count
      fields ← parse_fields (room_of idl_field_size field_count) field_count 0
      pure (if is_record then IdlType.record_of fields else IdlType.variant fields)

    unfoldable pub parse_type_list : ℕ → ℕ → Parse TypeList
    unfolding parse_index
    parse_type_list room zero = pure no_types
    parse_type_list room (suc n) = do
      type ← parse_index
      write_element room
      rest ← parse_type_list (room - 1) n
      pure (type_of type rest)

    -- A count, and that many types.
    unfoldable pub parse_types : Parse TypeList
    unfolding read_uleb128 parse_type_list
    parse_types = do
      count ← read_uleb128
      grant_array pointer_size count
      parse_type_list (room_of pointer_size count) count

    abbrev pub parse_func_args : Parse TypeList
    parse_func_args = parse_types

    abbrev pub parse_func_rets : Parse TypeList
    parse_func_rets = parse_types

    -- There is one mode at most.
    unfoldable pub parse_func_modes : Parse (List FuncMode)
    unfolding read_uleb128 func_mode
    parse_func_modes = do
      mode_count ← read_uleb128
      require (leb mode_count 1) (err invalid_arg)
      if mode_count == 0 then pure [] else (do
        mode ← read_uleb128
        require (leb 1 mode && leb mode 3) (err invalid_arg)
        pure (func_mode mode ∷ []))

    unfoldable pub parse_func_type : Parse IdlType
    unfolding parse_types parse_func_modes
    parse_func_type = do
      args ← parse_func_args
      rets ← parse_func_rets
      modes ← parse_func_modes
      pure (IdlType.func args rets modes)

    unfoldable pub parse_service_method : Option Name → Parse (Name × IdlType)
    unfolding read_uleb128 read_window idl_utf8_validate c_string in_order parse_index
    parse_service_method prev_name = do
      name_len ← read_uleb128
      bytes ← read_window name_len
      require (idl_utf8_validate bytes) (err invalid_arg)
      require (in_order prev_name (c_string bytes)) (err invalid_arg)
      type ← parse_index
      pure (c_string bytes, type)

    unfoldable pub parse_methods : ℕ → ℕ → Option Name → Parse Methods
    unfolding parse_service_method
    parse_methods room zero prev_name = pure no_methods
    parse_methods room (suc n) prev_name = do
      (name, type) ← parse_service_method prev_name
      write_element room
      rest ← parse_methods (room - 1) n (some name)
      pure (method name type rest)

    unfoldable pub parse_service_type : Parse IdlType
    unfolding read_uleb128 parse_methods
    parse_service_type = do
      method_count ← read_uleb128
      grant_array idl_method_size method_count
      methods ← parse_methods (room_of idl_method_size method_count) method_count none
      pure (IdlType.service methods)

    unfoldable pub parse_unknown_type : ℤ → Parse IdlType
    unfolding read_uleb128 skip_window
    parse_unknown_type (pos opcode) = lift (err invalid_arg)
    parse_unknown_type (negsuc n) =
        if ltb n 24
        then lift (err invalid_arg)
        else (do blob_len ← read_uleb128; skip_window blob_len; pure IdlType.reserved)

    -- The switch on the opcode: `negsuc n` is -(n + 1).
    unfoldable pub parse_by_opcode : ℤ → Parse IdlType
    unfolding parse_opt_type parse_vec_type parse_record_variant_type parse_func_type
        parse_service_type parse_unknown_type
    parse_by_opcode (pos opcode) = parse_unknown_type (pos opcode)
    parse_by_opcode (negsuc n) =
        if n == 17
        then parse_opt_type
        else if n == 18
        then parse_vec_type
        else if n == 19
        then parse_record_variant_type true
        else if n == 20
        then parse_record_variant_type false
        else if n == 21
        then parse_func_type
        else if n == 22
        then parse_service_type
        else parse_unknown_type (negsuc n)

    unfoldable pub parse_cons_type : Parse IdlType
    unfolding read_sleb128 parse_by_opcode
    parse_cons_type = do opcode ← read_sleb128; parse_by_opcode opcode
