-- ===== src/Idl/Header/Elements.antt =====
-- The parser of header.c at the wire form of a type within an entry, of a list of types, and of fields.
use lucid.Base.{ℕ, suc, ◌-◌, ◌*◌, ◌%◌, ◌^◌, ◌<◌, Bool, true, not, ◌&&◌}
use lucid.Base.{List, [], ◌∷◌, ◌++◌, All, ◌≡◌, refl, sym, subst, arith, ltb, leb, ◌==◌}
use lucid.Base.{Option, none, some, length, if◌then◌else◌}
use lucid.Base.Int.{ℤ, IsSigned}
use lucid.Base.Word.{IsSize, size_mod}
use lucid.Status.{Result, ok, err, stuck, alloc, invalid_arg}
use lucid.Idl.Types.{
  Name, label_id, IdlType, no_fields, field, no_types, type_of, idl_type_is_primitive,
  idl_type_opcode,
}
use lucid.Idl.Serializer.Wire.{uleb}
use lucid.Idl.Header.Read.{Parse, pure, ◌>>=◌, ◌>>◌, room_of, write_element}
use lucid.Idl.Header.Composite.{
  primitive_type, index_to_type, parse_index, parse_record_field, parse_fields,
  parse_record_variant_type, parse_type_list, parse_types,
}
use lucid.Idl.Header.Answers.{
  Answers, Answers-pure, Answers-bind, Answers-map, Answers-require, read_uleb128-Answers,
  read_sleb128-Answers,
}
use lucid.Idl.Header.Form.{
  Ref, to_entry, to_plain, fields_of, ref_number, ref_wire, refs_wire, list_wire, fields_wire,
  ref_type, list_type, fields_type, entry_type, IsRef, AreFields,
}

-- An array of a size within a size_t has room for its elements.
room_16 : (n : ℕ) → IsSize (16 * n) → room_of 16 n ≡ n
room_16 n h = omega arith

pub room_8 : (n : ℕ) → IsSize (8 * n) → room_of 8 n ≡ n
room_8 n h = omega arith

room_4 : (n : ℕ) → IsSize (4 * n) → room_of 4 n ≡ n
room_4 n h = omega arith

-- While there is room, the write of an element goes on with one place less.
pub Answers-element :
    {B : Type 0} (q : ℕ → Parse B) (n : ℕ) (ys : List ℕ) (r : Result B)
    → Answers (q n) ys r
    → Answers (write_element (suc n) >> q (suc n - 1)) ys r
Answers-element q n ys r h =
    Answers-require (not (suc n == 0)) stuck (q (suc n - 1)) ys r (ground arith)
      (subst (λ k. Answers (q k) ys r) (omega arith) h)

-- An array of a size within a size_t is granted.
array_16 : (n : ℕ) → IsSize (16 * n) → not (16 * n % size_mod == 0 && not (n == 0)) ≡ true
array_16 n h = ground arith

pub array_8 : (n : ℕ) → IsSize (8 * n) → not (8 * n % size_mod == 0 && not (n == 0)) ≡ true
array_8 n h = ground arith

array_4 : (n : ℕ) → IsSize (4 * n) → not (4 * n % size_mod == 0 && not (n == 0)) ≡ true
array_4 n h = ground arith

module _ (print_long : ℤ → Name) (table_len : ℕ) (small : IsSize table_len) where
  opcode_index :
      (t : IdlType)
      → idl_type_is_primitive t ≡ true
      → index_to_type print_long table_len (idl_type_opcode t) ≡ ok t
  unfolding idl_type_is_primitive idl_type_opcode index_to_type primitive_type
  opcode_index IdlType.null h = refl
  opcode_index (IdlType.opt t) h = cc
  opcode_index (IdlType.vec t) h = cc
  opcode_index (IdlType.record_of ts) h = cc
  opcode_index (IdlType.variant ts) h = cc
  opcode_index (IdlType.func args rets modes) h = cc
  opcode_index (IdlType.service ms) h = cc
  opcode_index (IdlType.var name) h = cc
  opcode_index _ h = refl

  opcode_small : (t : IdlType) → IsSigned 63 (idl_type_opcode t)
  unfolding idl_type_opcode
  opcode_small IdlType.null = omega arith
  opcode_small _ = omega arith

  number_small : (r : Ref) → IsRef table_len r → IsSigned 63 (ref_number r)
  unfolding ref_number
  number_small (to_entry i) h = omega arith
  number_small (to_plain t) h = opcode_small t

  number_index :
      (r : Ref)
      → IsRef table_len r
      → index_to_type print_long table_len (ref_number r) ≡ ok (ref_type print_long r)
  unfolding ref_number ref_type index_to_type
  number_index (to_entry i) h = ground arith
  number_index (to_plain t) h = opcode_index t h

  pub parse_index-Answers :
      (r : Ref)
      → IsRef table_len r
      → Answers (parse_index print_long table_len) (ref_wire r) (ok (ref_type print_long r))
  unfolding parse_index ref_wire
  parse_index-Answers r h =
      let read = read_sleb128-Answers (ref_number r) (number_small r h) in
      record {
        are_bytes = read.are_bytes;
        answer = λ before rest size hr.
            rw (read.answer before rest size hr) (rw (number_index r h) refl);
      }

  refs-Answers :
      (rs : List Ref)
      → All (IsRef table_len) rs
      → Answers
          (parse_type_list print_long table_len (length rs) (length rs))
          (refs_wire rs)
          (ok (list_type print_long rs))
  unfolding parse_type_list refs_wire list_type
  refs-Answers [] h = Answers-pure no_types
  refs-Answers (r ∷ rs) (h, hs) =
      Answers-bind (parse_index print_long table_len) _ (ref_wire r) (refs_wire rs)
        (ref_type print_long r) _ (parse_index-Answers r h)
        (Answers-element
          (λ n. parse_type_list print_long table_len n (length rs) >>= λ rest.
            pure (type_of (ref_type print_long r) rest))
          (length rs) (refs_wire rs) _
          (Answers-map (parse_type_list print_long table_len (length rs) (length rs))
            (type_of (ref_type print_long r)) (refs_wire rs) (list_type print_long rs)
            (refs-Answers rs hs)))

  pub list-Answers :
      (rs : List Ref)
      → IsSize (4 * length rs)
      → All (IsRef table_len) rs
      → Answers (parse_types print_long table_len) (list_wire rs) (ok (list_type print_long rs))
  unfolding parse_types list_wire
  list-Answers rs room h =
      Answers-bind _ _ (uleb (length rs)) (refs_wire rs) (length rs) _
        (read_uleb128-Answers (length rs) (omega arith))
        (Answers-require _ (err alloc) _ (refs_wire rs) _ (array_4 (length rs) room) (
          subst
            (λ n.
              Answers (parse_type_list print_long table_len n (length rs)) (refs_wire rs)
                (ok (list_type print_long rs)))
            (sym (room_4 (length rs) room)) (refs-Answers rs h)))

  -- The id that is tested against.
  abbrev prev_number : Option ℕ → ℕ
  prev_number none = 0
  prev_number (some id) = id

  AreFields-id :
      (prev : Option ℕ) (id : ℕ) (r : Ref) (fs : List (ℕ × Ref))
      → AreFields table_len prev ((id, r) ∷ fs)
      → (not (ltb 0 (prev_number prev) && leb id (prev_number prev)) ≡ true)
        × (id < 2 ^ 32)
        × IsRef table_len r
        × AreFields table_len (some id) fs
  AreFields-id none id r fs (small_id, h, hs) = (refl, small_id, h, hs)
  AreFields-id (some prev) id r fs (up, small_id, h, hs) = (ground arith, small_id, h, hs)

  record_field-Answers :
      (prev id : ℕ) (r : Ref)
      → not (ltb 0 prev && leb id prev) ≡ true
      → id < 2 ^ 32
      → IsRef table_len r
      → Answers
          (parse_record_field print_long table_len prev)
          (uleb id ++ ref_wire r)
          (ok (id, ref_type print_long r))
  unfolding parse_record_field
  record_field-Answers prev id r up small_id h =
      Answers-bind _ _ (uleb id) (ref_wire r) id _ (read_uleb128-Answers id (omega arith)) (
        Answers-require _ (err invalid_arg) _ (ref_wire r) _ (ground arith) (
          Answers-require _ (err invalid_arg) _ (ref_wire r) _ up (
            Answers-map _ (λ t. (id, t)) (ref_wire r) (ref_type print_long r)
              (parse_index-Answers r h))))

  fields-Answers :
      (prev : Option ℕ) (fs : List (ℕ × Ref))
      → AreFields table_len prev fs
      → Answers
          (parse_fields print_long table_len (length fs) (length fs) (prev_number prev))
          (fields_wire fs)
          (ok (fields_type print_long fs))
  unfolding parse_fields fields_wire fields_type
  fields-Answers prev [] h = Answers-pure no_fields
  fields-Answers prev ((id, r) ∷ fs) h =
      let (up, small_id, fine, rest_fine) = AreFields-id prev id r fs h in
      Answers-bind _
        (λ (p : ℕ × IdlType).
          write_element (suc (length fs))
          >> (parse_fields print_long table_len (suc (length fs) - 1) (length fs) p.0 >>= λ rest.
              pure (field (label_id p.0) p.1 rest)))
        (uleb id ++ ref_wire r) (fields_wire fs) (id, ref_type print_long r) _
        (record_field-Answers (prev_number prev) id r up small_id fine)
        (Answers-element
          (λ n. parse_fields print_long table_len n (length fs) id >>= λ rest.
            pure (field (label_id id) (ref_type print_long r) rest))
          (length fs) (fields_wire fs) _
          (Answers-map _ (field (label_id id) (ref_type print_long r)) (fields_wire fs)
            (fields_type print_long fs) (fields-Answers (some id) fs rest_fine)))

  pub record_variant-Answers :
      (is_record : Bool) (fs : List (ℕ × Ref))
      → IsSize (16 * length fs)
      → AreFields table_len none fs
      → Answers
          (parse_record_variant_type print_long table_len is_record)
          (uleb (length fs) ++ fields_wire fs)
          (ok (entry_type print_long (fields_of is_record fs)))
  unfolding parse_record_variant_type entry_type
  record_variant-Answers is_record fs room h =
      Answers-bind _ _ (uleb (length fs)) (fields_wire fs) (length fs) _
        (read_uleb128-Answers (length fs) (omega arith))
        (Answers-require _ (err alloc) _ (fields_wire fs) _ (array_16 (length fs) room) (
          Answers-map _ (λ ts. if is_record then IdlType.record_of ts else IdlType.variant ts)
            (fields_wire fs) (fields_type print_long fs)
            (subst
              (λ n.
                Answers (parse_fields print_long table_len n (length fs) 0) (fields_wire fs)
                  (ok (fields_type print_long fs)))
              (sym (room_16 (length fs) room)) (fields-Answers none fs h))))
