-- ===== src/Idl/Header/Entries.antt =====
-- The parser of header.c at the wire form of an entry of the table of types.
use lucid.Base.{ℕ, suc, ◌-◌, ◌*◌, ◌^◌, ◌<◌, ◌≤◌, true, false, ◌&&◌}
use lucid.Base.{List, [], ◌∷◌, ◌++◌, All, ◌≡◌, refl, sym, subst, arith, leb}
use lucid.Base.{Option, none, some, length}
use lucid.Base.Int.{ℤ, negsuc}
use lucid.Base.Word.{IsSize}
use lucid.Status.{ok, err, alloc, invalid_arg}
use lucid.Leb128.{IsByte}
use lucid.Idl.Types.{Name, IdlType, FuncMode, query, oneway, composite_query, no_methods, method}
use lucid.Idl.Serializer.Wire.{uleb}
use lucid.Idl.Deserializer.Utf8.{idl_utf8_validate}
use lucid.Idl.Header.Read.{pure, ◌>>=◌, ◌>>◌, require, read_uleb128, skip_window, write_element}
use lucid.Idl.Header.Composite.{
  parse_index, parse_opt_type, parse_vec_type, func_mode, parse_func_modes, parse_func_type,
  parse_service_method, parse_methods, parse_service_type, parse_unknown_type, parse_by_opcode,
  parse_cons_type, c_string, in_order,
}
use lucid.Idl.Header.Answers.{
  sleb, Answers, Answers-pure, Answers-bind, Answers-map, Answers-require, Answers-last,
  read_uleb128-Answers, read_sleb128-Answers, read_window-Answers, skip_window-Answers,
}
use lucid.Idl.Header.Form.{
  Ref, Entry, opt_of, vec_of, fields_of, func_of, service_of, future, mode_number, ref_wire,
  list_wire, modes_wire, methods_wire, entry_wire, ref_type, list_type, methods_type, mode_list,
  entry_type, IsRef, AreMethods, IsEntryOf,
}
use lucid.Idl.Header.Elements.{
  room_8, array_8, Answers-element, parse_index-Answers, list-Answers, record_variant-Answers,
}

module _ (print_long : ℤ → Name) (table_len : ℕ) (small : IsSize table_len) where
  -- One mode: the tests and the pure steps are computed.
  mode-Answers :
      (mode : FuncMode)
      → Answers
          (parse_func_modes print_long table_len)
          (uleb 1 ++ uleb (mode_number mode))
          (ok (mode ∷ []))
  unfolding parse_func_modes mode_number func_mode
  mode-Answers mode =
      Answers-bind _ _ (uleb 1) (uleb (mode_number mode)) 1 _ (read_uleb128-Answers 1 (omega arith))
        (Answers-require true (err invalid_arg) _ (uleb (mode_number mode)) _ refl (
          Answers-last _ _ (uleb (mode_number mode)) (mode_number mode) _
            (read_uleb128-Answers (mode_number mode) (number_small mode)) (known mode)))
    where
      number_small : (mode : FuncMode) → mode_number mode < 2 ^ 64
      number_small query = omega arith
      number_small oneway = omega arith
      number_small composite_query = omega arith

      known :
          (mode : FuncMode)
          → Answers
              (require (leb 1 (mode_number mode) && leb (mode_number mode) 3) (err invalid_arg)
                >> pure (func_mode (mode_number mode) ∷ []))
              []
              (ok (mode ∷ []))
      known query = Answers-require true (err invalid_arg) _ [] _ refl (Answers-pure (query ∷ []))
      known oneway = Answers-require true (err invalid_arg) _ [] _ refl (Answers-pure (oneway ∷ []))
      known composite_query =
          Answers-require true (err invalid_arg) _ [] _ refl (Answers-pure (composite_query ∷ []))

  modes-Answers :
      (mode : Option FuncMode)
      → Answers (parse_func_modes print_long table_len) (modes_wire mode) (ok (mode_list mode))
  unfolding parse_func_modes modes_wire
  modes-Answers none =
      Answers-last _ _ (uleb 0) 0 _ (read_uleb128-Answers 0 (omega arith))
        (Answers-require true (err invalid_arg) _ [] _ refl (Answers-pure []))
  modes-Answers (some mode) = mode-Answers mode

  func-Answers :
      (args rets : List Ref) (mode : Option FuncMode)
      → IsSize (4 * length args)
      → All (IsRef table_len) args
      → IsSize (4 * length rets)
      → All (IsRef table_len) rets
      → Answers
          (parse_func_type print_long table_len)
          (list_wire args ++ (list_wire rets ++ modes_wire mode))
          (ok (entry_type print_long (func_of args rets mode)))
  unfolding parse_func_type entry_type
  func-Answers args rets mode room h room' h' =
      Answers-bind _ _ (list_wire args) (list_wire rets ++ modes_wire mode)
        (list_type print_long args) _ (list-Answers print_long table_len small args room h)
        (Answers-bind _ _ (list_wire rets) (modes_wire mode) (list_type print_long rets) _
          (list-Answers print_long table_len small rets room' h')
          (Answers-map (parse_func_modes print_long table_len)
            (IdlType.func (list_type print_long args) (list_type print_long rets)) (modes_wire mode)
            (mode_list mode) (modes-Answers mode)))

  method-Answers :
      (prev : Option Name) (name : Name) (r : Ref)
      → All IsByte name
      → IsSize (length name)
      → idl_utf8_validate name ≡ true
      → c_string name ≡ name
      → in_order prev name ≡ true
      → IsRef table_len r
      → Answers
          (parse_service_method print_long table_len prev)
          (uleb (length name) ++ (name ++ ref_wire r))
          (ok (name, ref_type print_long r))
  unfolding parse_service_method
  method-Answers prev name r bytes short valid whole up h =
      Answers-bind _ _ (uleb (length name)) (name ++ ref_wire r) (length name) _
        (read_uleb128-Answers (length name) (omega arith))
        (Answers-bind _ _ name (ref_wire r) name _ (read_window-Answers name bytes) (
          Answers-require _ (err invalid_arg) _ (ref_wire r) _ valid (
            subst
              (λ n.
                Answers {A = Name × IdlType}
                  (require (in_order prev n) (err invalid_arg)
                    >> (parse_index print_long table_len >>= λ t. pure (n, t)))
                  (ref_wire r) (ok (name, ref_type print_long r)))
              (sym whole)
              (Answers-require _ (err invalid_arg) _ (ref_wire r) _ up (
                Answers-map _ (λ t. (name, t)) (ref_wire r) (ref_type print_long r)
                  (parse_index-Answers print_long table_len small r h))))))

  methods-Answers :
      (prev : Option Name) (ms : List (Name × Ref))
      → AreMethods table_len prev ms
      → Answers
          (parse_methods print_long table_len (length ms) (length ms) prev)
          (methods_wire ms)
          (ok (methods_type print_long ms))
  unfolding parse_methods methods_wire methods_type
  methods-Answers prev [] h = Answers-pure no_methods
  methods-Answers prev ((name, r) ∷ ms) (bytes, short, valid, whole, up, h, hs) =
      Answers-bind _
        (λ (p : Name × IdlType).
          write_element (suc (length ms))
          >> (parse_methods print_long table_len (suc (length ms) - 1) (length ms) (some p.0)
              >>= λ rest. pure (method p.0 p.1 rest)))
        (uleb (length name) ++ (name ++ ref_wire r)) (methods_wire ms) (name, ref_type print_long r)
        _ (method-Answers prev name r bytes short valid whole up h)
        (Answers-element
          (λ n. parse_methods print_long table_len n (length ms) (some name) >>= λ rest.
            pure (method name (ref_type print_long r) rest))
          (length ms) (methods_wire ms) _
          (Answers-map _ (method name (ref_type print_long r)) (methods_wire ms)
            (methods_type print_long ms) (methods-Answers (some name) ms hs)))

  service-Answers :
      (ms : List (Name × Ref))
      → IsSize (8 * length ms)
      → AreMethods table_len none ms
      → Answers
          (parse_service_type print_long table_len)
          (uleb (length ms) ++ methods_wire ms)
          (ok (entry_type print_long (service_of ms)))
  unfolding parse_service_type entry_type
  service-Answers ms room h =
      Answers-bind _ _ (uleb (length ms)) (methods_wire ms) (length ms) _
        (read_uleb128-Answers (length ms) (omega arith))
        (Answers-require _ (err alloc) _ (methods_wire ms) _ (array_8 (length ms) room) (
          Answers-map _ IdlType.service (methods_wire ms) (methods_type print_long ms) (
            subst
              (λ n.
                Answers (parse_methods print_long table_len n (length ms) none) (methods_wire ms)
                  (ok (methods_type print_long ms)))
              (sym (room_8 (length ms) room)) (methods-Answers none ms h))))

  future-Answers :
      (n : ℕ) (bytes : List ℕ)
      → 24 ≤ n
      → All IsByte bytes
      → IsSize (length bytes)
      → Answers
          (parse_by_opcode print_long table_len (negsuc n))
          (uleb (length bytes) ++ bytes)
          (ok IdlType.reserved)
  unfolding parse_by_opcode parse_unknown_type
  future-Answers n bytes far h short =
      subst (λ p. Answers p (uleb (length bytes) ++ bytes) (ok IdlType.reserved)) (ground arith)
        (Answers-bind read_uleb128 (λ len. skip_window len >> pure IdlType.reserved)
          (uleb (length bytes)) bytes (length bytes) _
          (read_uleb128-Answers (length bytes) (omega arith))
          (Answers-map _ (λ u. IdlType.reserved) bytes tt (skip_window-Answers bytes h)))

  -- The wire form of an entry is parsed into its type.
  pub entry-Answers :
      (e : Entry)
      → IsEntryOf table_len e
      → Answers (parse_cons_type print_long table_len) (entry_wire e) (ok (entry_type print_long e))
  unfolding parse_cons_type parse_by_opcode parse_opt_type parse_vec_type entry_wire entry_type
  entry-Answers (opt_of r) h =
      Answers-bind _ _ (sleb (negsuc 17)) (ref_wire r) (negsuc 17) _
        (read_sleb128-Answers (negsuc 17) (omega arith))
        (Answers-map _ IdlType.opt (ref_wire r) (ref_type print_long r)
          (parse_index-Answers print_long table_len small r h))
  entry-Answers (vec_of r) h =
      Answers-bind _ _ (sleb (negsuc 18)) (ref_wire r) (negsuc 18) _
        (read_sleb128-Answers (negsuc 18) (omega arith))
        (Answers-map _ IdlType.vec (ref_wire r) (ref_type print_long r)
          (parse_index-Answers print_long table_len small r h))
  entry-Answers (fields_of true fs) (room, h) =
      Answers-bind _ _ (sleb (negsuc 19)) _ (negsuc 19) _
        (read_sleb128-Answers (negsuc 19) (omega arith))
        (record_variant-Answers print_long table_len small true fs room h)
  entry-Answers (fields_of false fs) (room, h) =
      Answers-bind _ _ (sleb (negsuc 20)) _ (negsuc 20) _
        (read_sleb128-Answers (negsuc 20) (omega arith))
        (record_variant-Answers print_long table_len small false fs room h)
  entry-Answers (func_of args rets mode) (room, h, room', h') =
      Answers-bind _ _ (sleb (negsuc 21)) _ (negsuc 21) _
        (read_sleb128-Answers (negsuc 21) (omega arith))
        (func-Answers args rets mode room h room' h')
  entry-Answers (service_of ms) (room, h) =
      Answers-bind _ _ (sleb (negsuc 22)) _ (negsuc 22) _
        (read_sleb128-Answers (negsuc 22) (omega arith)) (service-Answers ms room h)
  entry-Answers (future n bytes) (far, within, h, short) =
      Answers-bind _ _ (sleb (negsuc n)) _ (negsuc n) _ (read_sleb128-Answers (negsuc n) within)
        (future-Answers n bytes far h short)
