-- ===== src/Idl/Header/Closed.antt =====
-- The types that the parser of header.c returns: names of the table, and none as an entry of it.
use lucid.Base.{
  ℕ, zero, suc, ◌-◌, ◌^◌, ◌<◌, Bool, true, false, not, ◌&&◌, ◌==◌, ltb, leb, Bool-cases,
}
use lucid.Base.{Option, none, some, Option-cases, if◌then◌else◌, ◌≡◌, refl, subst, arith, inl, inr}
use lucid.Base.Int.{ℤ, pos, negsuc}
use lucid.Status.{ok, err, invalid_arg}
use lucid.Idl.Types.{
  Name, label_id, IdlType, TypeFields, no_fields, field, no_types, type_of, no_methods, method,
}
use lucid.Idl.TypeEnv.Trace.{IsFinal}
use lucid.Idl.Deserializer.Utf8.{idl_utf8_validate}
use lucid.Idl.Header.Read.{
  pure, lift, require, read_uleb128, read_sleb128, read_window, skip_window,
}
use lucid.Idl.Header.Read.{
  room_of, grant_array, idl_field_size, idl_method_size, pointer_size, write_element,
}
use lucid.Idl.Header.Composite.{
  make_table_var, primitive_type, index_to_type, parse_index, parse_opt_type, parse_vec_type,
  parse_record_field, parse_fields, parse_record_variant_type, parse_type_list, parse_types,
}
use lucid.Idl.Header.Composite.{
  c_string, in_order, parse_func_modes, parse_func_type, parse_service_method, parse_methods,
  parse_service_type, parse_unknown_type, parse_by_opcode, parse_cons_type,
}
use lucid.Idl.Header.Yields.{EachName, EachNameFields, EachNameList, EachNameMethods}
use lucid.Idl.Header.Yields.{Yields, Yields-pure, Yields-bind, Yields-then, Yields-lift, Yields-if}

module _ (print_long : ℤ → Name) (table_len : ℕ) where
  -- The name of an entry of the table.
  unfoldable pub IsEntry : Name → Type 0
  IsEntry name = (i : ℕ) × (name ≡ make_table_var print_long i) × (i < table_len)

  -- The types in a type are primitive or names of entries; it is no name itself.
  abbrev pub IsComposite : IdlType → Type 0
  IsComposite t = EachName IsEntry t × IsFinal (some t)

  primitive : (n : ℕ) (t : IdlType) → primitive_type n ≡ some t → EachName IsEntry t
  unfolding primitive_type EachName
  primitive n IdlType.null e = tt
  primitive n IdlType.bool e = tt
  primitive n IdlType.nat e = tt
  primitive n IdlType.int e = tt
  primitive n IdlType.nat8 e = tt
  primitive n IdlType.nat16 e = tt
  primitive n IdlType.nat32 e = tt
  primitive n IdlType.nat64 e = tt
  primitive n IdlType.int8 e = tt
  primitive n IdlType.int16 e = tt
  primitive n IdlType.int32 e = tt
  primitive n IdlType.int64 e = tt
  primitive n IdlType.float32 e = tt
  primitive n IdlType.float64 e = tt
  primitive n IdlType.text e = tt
  primitive n IdlType.reserved e = tt
  primitive n IdlType.empty e = tt
  primitive n IdlType.principal e = tt
  primitive n (IdlType.opt t) e = absurd (ground (arith, e))
  primitive n (IdlType.vec t) e = absurd (ground (arith, e))
  primitive n (IdlType.record_of ts) e = absurd (ground (arith, e))
  primitive n (IdlType.variant ts) e = absurd (ground (arith, e))
  primitive n (IdlType.func args rets modes) e = absurd (ground (arith, e))
  primitive n (IdlType.service ms) e = absurd (ground (arith, e))
  primitive n (IdlType.var name) e = absurd (ground (arith, e))

  index_to_type-EachName :
      (index : ℤ) (t : IdlType)
      → index_to_type print_long table_len index ≡ ok t
      → EachName IsEntry t
  unfolding index_to_type
  index_to_type-EachName (pos index) t e = elim (Bool-cases (leb table_len index)) [
    | inl beyond ↦ absurd (ground (arith, e, beyond))
    | inr within ↦ subst (EachName IsEntry) (entry within) (named (ground (arith, within)))
  ]
    where
      entry : leb table_len index ≡ false → IdlType.var (make_table_var print_long index) ≡ t
      entry h = ground (arith, e, h)

      named : index < table_len → EachName IsEntry (IdlType.var (make_table_var print_long index))
      named h = unfold EachName IsEntry in (index, refl, h)
  index_to_type-EachName (negsuc n) t e = elim (Option-cases (primitive_type n)) [
    | inl nothing ↦ absurd (ground (arith, e, nothing))
    | inr (u, found) ↦ subst (EachName IsEntry) (ground (arith, e, found)) (primitive n u found)
  ]

  parse_index-Yields : Yields (EachName IsEntry) (parse_index print_long table_len)
  unfolding parse_index
  parse_index-Yields = Yields-then (EachName IsEntry) read_sleb128 _ (λ index.
      Yields-lift (EachName IsEntry) (index_to_type print_long table_len index)
        (λ t e. index_to_type-EachName index t e))

  parse_opt_type-Yields : Yields IsComposite (parse_opt_type print_long table_len)
  unfolding parse_opt_type EachName
  parse_opt_type-Yields =
      Yields-bind (EachName IsEntry) IsComposite (parse_index print_long table_len) _
        parse_index-Yields (λ t h. Yields-pure IsComposite (IdlType.opt t) (h, tt))

  parse_vec_type-Yields : Yields IsComposite (parse_vec_type print_long table_len)
  unfolding parse_vec_type EachName
  parse_vec_type-Yields =
      Yields-bind (EachName IsEntry) IsComposite (parse_index print_long table_len) _
        parse_index-Yields (λ t h. Yields-pure IsComposite (IdlType.vec t) (h, tt))

  parse_record_field-Yields :
      (prev_id : ℕ)
      → Yields
          (λ (p : ℕ × IdlType). EachName IsEntry p.1)
          (parse_record_field print_long table_len prev_id)
  unfolding parse_record_field
  parse_record_field-Yields prev_id = Yields-then _ read_uleb128 _ λ id.
      Yields-then _ (require (ltb id (2 ^ 32)) (err invalid_arg)) _ λ _.
        Yields-then _ (require (not (ltb 0 prev_id && leb id prev_id)) (err invalid_arg)) _ λ _.
          Yields-bind (EachName IsEntry) _ (parse_index print_long table_len) _ parse_index-Yields
            (λ t h. Yields-pure (λ (p : ℕ × IdlType). EachName IsEntry p.1) (id, t) h)

  parse_fields-Yields :
      (room n prev_id : ℕ)
      → Yields (EachNameFields IsEntry) (parse_fields print_long table_len room n prev_id)
  unfolding parse_fields EachNameFields
  parse_fields-Yields room zero prev_id = Yields-pure (EachNameFields IsEntry) no_fields tt
  parse_fields-Yields room (suc n) prev_id =
      Yields-bind (λ (p : ℕ × IdlType). EachName IsEntry p.1) (EachNameFields IsEntry)
        (parse_record_field print_long table_len prev_id) _ (parse_record_field-Yields prev_id)
        λ (id, t) h. Yields-then (EachNameFields IsEntry) (write_element room) _ λ _.
          Yields-bind (EachNameFields IsEntry) (EachNameFields IsEntry)
            (parse_fields print_long table_len (room - 1) n id) _
            (parse_fields-Yields (room - 1) n id)
            (λ ts hs. Yields-pure (EachNameFields IsEntry) (field (label_id id) t ts) (h, hs))

  parse_record_variant_type-Yields :
      (b : Bool) → Yields IsComposite (parse_record_variant_type print_long table_len b)
  unfolding parse_record_variant_type EachName
  parse_record_variant_type-Yields b = Yields-then IsComposite read_uleb128 _ λ n.
      Yields-then IsComposite (grant_array idl_field_size n) _ λ _.
        Yields-bind (EachNameFields IsEntry) IsComposite
          (parse_fields print_long table_len (room_of idl_field_size n) n 0) _
          (parse_fields-Yields (room_of idl_field_size n) n 0) (λ ts h. made b ts h)
    where
      made :
          (b : Bool) (ts : TypeFields)
          → EachNameFields IsEntry ts
          → Yields IsComposite (pure (if b then IdlType.record_of ts else IdlType.variant ts))
      made true ts h = Yields-pure IsComposite (IdlType.record_of ts) (h, tt)
      made false ts h = Yields-pure IsComposite (IdlType.variant ts) (h, tt)

  parse_type_list-Yields :
      (room n : ℕ) → Yields (EachNameList IsEntry) (parse_type_list print_long table_len room n)
  unfolding parse_type_list EachNameList
  parse_type_list-Yields room zero = Yields-pure (EachNameList IsEntry) no_types tt
  parse_type_list-Yields room (suc n) =
      Yields-bind (EachName IsEntry) (EachNameList IsEntry) (parse_index print_long table_len) _
        parse_index-Yields
        λ t h. Yields-then (EachNameList IsEntry) (write_element room) _ λ _.
          Yields-bind (EachNameList IsEntry) (EachNameList IsEntry)
            (parse_type_list print_long table_len (room - 1) n) _
            (parse_type_list-Yields (room - 1) n)
            (λ ts hs. Yields-pure (EachNameList IsEntry) (type_of t ts) (h, hs))

  pub parse_types-Yields : Yields (EachNameList IsEntry) (parse_types print_long table_len)
  unfolding parse_types
  parse_types-Yields = Yields-then (EachNameList IsEntry) read_uleb128 _ (λ n.
      Yields-then (EachNameList IsEntry) (grant_array pointer_size n) _
        (λ _. parse_type_list-Yields (room_of pointer_size n) n))

  parse_func_type-Yields : Yields IsComposite (parse_func_type print_long table_len)
  unfolding parse_func_type EachName
  parse_func_type-Yields =
      Yields-bind (EachNameList IsEntry) IsComposite (parse_types print_long table_len) _
        parse_types-Yields
        λ args h.
          Yields-bind (EachNameList IsEntry) IsComposite (parse_types print_long table_len) _
            parse_types-Yields
            λ rets k.
              Yields-then IsComposite (parse_func_modes print_long table_len) _
                (λ modes. Yields-pure IsComposite (IdlType.func args rets modes) ((h, k), tt))

  parse_service_method-Yields :
      (prev_name : Option Name)
      → Yields
          (λ (p : Name × IdlType). EachName IsEntry p.1)
          (parse_service_method print_long table_len prev_name)
  unfolding parse_service_method
  parse_service_method-Yields prev_name = Yields-then _ read_uleb128 _ λ n.
      Yields-then _ (read_window n) _ λ bytes.
        Yields-then _ (require (idl_utf8_validate bytes) (err invalid_arg)) _ λ _.
          Yields-then _ (require (in_order prev_name (c_string bytes)) (err invalid_arg)) _ λ _.
            Yields-bind (EachName IsEntry) _ (parse_index print_long table_len) _ parse_index-Yields
              (λ t h.
                Yields-pure (λ (p : Name × IdlType). EachName IsEntry p.1) (c_string bytes, t) h)

  parse_methods-Yields :
      (room n : ℕ) (prev_name : Option Name)
      → Yields (EachNameMethods IsEntry) (parse_methods print_long table_len room n prev_name)
  unfolding parse_methods EachNameMethods
  parse_methods-Yields room zero prev_name = Yields-pure (EachNameMethods IsEntry) no_methods tt
  parse_methods-Yields room (suc n) prev_name =
      Yields-bind (λ (p : Name × IdlType). EachName IsEntry p.1) (EachNameMethods IsEntry)
        (parse_service_method print_long table_len prev_name) _
        (parse_service_method-Yields prev_name)
        λ (name, t) h. Yields-then (EachNameMethods IsEntry) (write_element room) _ λ _.
          Yields-bind (EachNameMethods IsEntry) (EachNameMethods IsEntry)
            (parse_methods print_long table_len (room - 1) n (some name)) _
            (parse_methods-Yields (room - 1) n (some name))
            (λ ms hs. Yields-pure (EachNameMethods IsEntry) (method name t ms) (h, hs))

  parse_service_type-Yields : Yields IsComposite (parse_service_type print_long table_len)
  unfolding parse_service_type EachName
  parse_service_type-Yields = Yields-then IsComposite read_uleb128 _ λ n.
      Yields-then IsComposite (grant_array idl_method_size n) _ λ _.
        Yields-bind (EachNameMethods IsEntry) IsComposite
          (parse_methods print_long table_len (room_of idl_method_size n) n none) _
          (parse_methods-Yields (room_of idl_method_size n) n none)
          (λ ms h. Yields-pure IsComposite (IdlType.service ms) (h, tt))

  parse_unknown_type-Yields :
      (opcode : ℤ) → Yields IsComposite (parse_unknown_type print_long table_len opcode)
  unfolding parse_unknown_type EachName
  parse_unknown_type-Yields (pos n) =
      Yields-lift IsComposite (err invalid_arg) (λ t e. absurd (grind (arith, e)))
  parse_unknown_type-Yields (negsuc n) =
      Yields-if IsComposite (ltb n 24) (lift (err invalid_arg)) _
        (Yields-lift IsComposite (err invalid_arg) (λ t e. absurd (grind (arith, e))))
        (Yields-then IsComposite read_uleb128 _ λ len.
          Yields-then IsComposite (skip_window len) _
            (λ _. Yields-pure IsComposite IdlType.reserved (tt, tt)))

  parse_by_opcode-Yields :
      (opcode : ℤ) → Yields IsComposite (parse_by_opcode print_long table_len opcode)
  unfolding parse_by_opcode
  parse_by_opcode-Yields (pos n) = parse_unknown_type-Yields (pos n)
  parse_by_opcode-Yields (negsuc n) = Yields-if IsComposite (n == 17) _ _ parse_opt_type-Yields (
      Yields-if IsComposite (n == 18) _ _ parse_vec_type-Yields (
        Yields-if IsComposite (n == 19) _ _ (parse_record_variant_type-Yields true) (
          Yields-if IsComposite (n == 20) _ _ (parse_record_variant_type-Yields false) (
            Yields-if IsComposite (n == 21) _ _ parse_func_type-Yields (
              Yields-if IsComposite (n == 22) _ _ parse_service_type-Yields
                (parse_unknown_type-Yields (negsuc n)))))))

  pub parse_cons_type-Yields : Yields IsComposite (parse_cons_type print_long table_len)
  unfolding parse_cons_type
  parse_cons_type-Yields = Yields-then IsComposite read_sleb128 _ parse_by_opcode-Yields
