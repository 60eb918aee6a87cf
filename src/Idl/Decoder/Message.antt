-- ===== src/Idl/Decoder/Message.antt =====
-- A whole message: the header of header.c, the values of value_serializer.c, and their reader in
-- decode/deserializer.c, from its making to its end.
use lucid.Base.{ℕ, ◌*◌, ◌%◌, ◌<◌, Bool, true, List, [], ◌++◌, All, ◌≡◌, sym, subst, arith}
use lucid.Base.{ltb, length, length-append, if◌then◌else◌, drop-length_append}
use mathlib.Core.Path.{fun_ext}
use lucid.Base.Int.{ℤ}
use lucid.Base.Word.{IsSize, size_mod}
use lucid.Status.{ok, err, invalid_arg, ◌>>=◌}
use lucid.Leb128.{IsByte}
use lucid.Idl.Arena.{Arena}
use lucid.Idl.Types.{Name}
use lucid.Idl.Value.{Values}
use lucid.Idl.TypeEnv.{idl_type_env_find}
use lucid.Idl.Serializer.Wire.{wire_values}
use lucid.Idl.Deserializer.Typing.{depth_values}
use lucid.Idl.Header.{Header}
use lucid.Idl.Header.Form.{Ref, Entry, list_type, IsRef, IsEntryOf}
use lucid.Idl.Header.Described.{header_wire, bound_type, HasNames, Describes}
use lucid.Idl.Header.RoundTrip.{idl_header_parse-wire}
use lucid.Idl.Decoder.{
  arg_count, idl_decoder_config_init, idl_deserializer_new, idl_deserializer_done,
}
use lucid.Idl.Decoder.Done.{HasTypes, standing, All_behind, idl_deserializer_done-new}

module _ (malloc : ℕ → Bool) (granted : (n : ℕ) → malloc n ≡ true) (print_long : ℤ → Name)
    (es : List Entry) (small : IsSize (length es)) (names : HasNames print_long (length es)) where
  -- The whole message: a header in wire form, whose table and argument types are as in
  -- idl_header_parse-wire, then the wire forms of values of the argument types, of nesting below the
  -- fuel, then any bytes; it has bytes whose number fits a size_t. Where memory is granted: if nothing is
  -- behind the values, a deserializer that is made for the message and told to be done reads all of it,
  -- with a header that describes the table and the argument types; otherwise it fails with an invalid
  -- argument.
  pub idl_deserializer_done-message :
      (arena : Arena) (args : List Ref) (vs : Values) (rest : List ℕ) (links fuel : ℕ)
      → All (IsEntryOf (length es)) es
      → IsSize (4 * length args)
      → All (IsRef (length es)) args
      → HasTypes (bound_type print_long 0 es) links (list_type print_long args) vs
      → depth_values vs < fuel
      → All IsByte (header_wire es args ++ (wire_values vs ++ rest))
      → IsSize (length (header_wire es args ++ (wire_values vs ++ rest)))
      → (header : Header) × Describes print_long es args header
        × ((idl_deserializer_new print_long malloc arena
                (header_wire es args ++ (wire_values vs ++ rest))
              >>= idl_deserializer_done links fuel)
            ≡ (if ltb 0 (length rest)
                then err invalid_arg
                else ok (
                    standing idl_decoder_config_init header
                      (length (header_wire es args) * 4 % size_mod)
                      (arg_count header.arg_types)
                      (length (header_wire es args ++ (wire_values vs ++ rest)))
                      (length (header_wire es args ++ (wire_values vs ++ rest)))
                      [])))
  idl_deserializer_done-message arena args vs rest links fuel h room hargs types deep bytes size =
      let front = header_wire es args in
      let behind = wire_values vs ++ rest in
      let (header, run, describes) =
        idl_header_parse-wire malloc granted print_long es small names arena args behind h room
          hargs (All_behind front behind bytes) size in
      let typed : HasTypes (idl_type_env_find header.env) links header.arg_types vs =
        subst (λ ts. HasTypes (idl_type_env_find header.env) links ts vs) (sym describes.0)
          (subst (λ f. HasTypes f links (list_type print_long args) vs) (sym (fun_ext describes.1))
            types) in
      (
        header,
        describes,
        idl_deserializer_done-new print_long malloc arena links fuel (front ++ behind) header
            (length front) vs rest run (omega (arith, length-append front behind))
            (drop-length_append front behind) typed deep size bytes,
      )
