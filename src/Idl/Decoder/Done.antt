-- ===== src/Idl/Decoder/Done.antt =====
-- A whole message: idl_deserializer_new, and idl_deserializer_done over the arguments.
use lucid.Base.{
  ℕ, suc, ◌+◌, ◌-◌, ◌*◌, ◌%◌, ◌<◌, ◌≤◌, Bool, List, [], ◌∷◌, ◌++◌, append_assoc, ◌≡◌, sym, ap, ap₂,
  subst, ◌∙◌, arith, All,
}
use lucid.Base.{
  Option, some, length, length-append, length-drop, drop, drop-length_append, All-drop,
  if◌then◌else◌, ltb,
}
use lucid.Base.Int.{ℤ}
use lucid.Base.Word.{IsSize, size_mod}
use lucid.Status.{ok, err, invalid_arg, ◌>>=◌}
use lucid.Leb128.{IsByte}
use lucid.Idl.Arena.{Arena}
use lucid.Idl.Types.{Name, IdlType, TypeList, no_types, type_of}
use lucid.Idl.Value.{Value, Values, no_values, value}
use lucid.Idl.TypeEnv.{idl_type_env_find}
use lucid.Idl.Serializer.Wire.{wire, wire_values}
use lucid.Idl.Deserializer.{read_value_by_type}
use lucid.Idl.Deserializer.Reads.{at}
use lucid.Idl.Deserializer.Typing.{HasType, depth_values}
use lucid.Idl.Deserializer.RoundTrip.{read_value_by_type-wire}
use lucid.Idl.Header.{Header, idl_header_parse}
use lucid.Idl.Decoder.{
  DecoderConfig, Decoder, arg_count, nth_type, idl_decoder_config_init, idl_deserializer_add_cost,
  idl_deserializer_new_with_config, idl_deserializer_new, idl_deserializer_get_value, read_rest,
  at_end, idl_deserializer_done,
}

-- The values are of the types, one by one.
pub data HasTypes (find : Name → Option IdlType) (links : ℕ) : TypeList → Values → Type 0 where
  no_arguments : HasTypes find links no_types no_values
  argument :
      {t : IdlType} {ts : TypeList} {v : Value} {vs : Values}
      → HasType find links t v
      → HasTypes find links ts vs
      → HasTypes find links (type_of t ts) (value v vs)

-- The deserializer before the argument `index`, at a position, with these bytes ahead.
abbrev pub standing : DecoderConfig → Header → ℕ → ℕ → ℕ → ℕ → List ℕ → Decoder
standing config header cost index here total ahead = record {
  config = config;
  reader = at here total ahead;
  header = header;
  arg_index = index;
  cost_accumulated = cost;
}

pub All_behind : (xs ys : List ℕ) → All IsByte (xs ++ ys) → All IsByte ys
All_behind xs ys h =
    subst (All IsByte) (drop-length_append xs ys) (All-drop IsByte (length xs) (xs ++ ys) h)

module _ (links fuel : ℕ) (config : DecoderConfig) (header : Header) (cost total : ℕ) where
  get_value_run :
      (index here there : ℕ) (ahead rest : List ℕ) (t : IdlType) (v : Value)
      → nth_type header.arg_types index ≡ some t
      → read_value_by_type (idl_type_env_find header.env) links fuel t (at here total ahead)
        ≡ ok (v, at there total rest)
      → idl_deserializer_get_value links fuel (standing config header cost index here total ahead)
        ≡ ok ((t, v), standing config header cost (index + 1) there total rest)
  unfolding idl_deserializer_get_value
  get_value_run index here there ahead rest t v e run = ground (arith, e, run)

  same_place :
      (i i' n n' : ℕ) (rest : List ℕ)
      → i ≡ i'
      → n ≡ n'
      → ok (standing config header cost i n total rest)
        ≡ ok (standing config header cost i' n' total rest)
  same_place i i' n n' rest e f =
      ap₂ (λ (a b : ℕ). ok (standing config header cost a b total rest)) e f

  read_rest-wire :
      (index here : ℕ) (ts : TypeList) (vs : Values) (rest : List ℕ)
      → ((k : ℕ) → nth_type header.arg_types (index + k) ≡ nth_type ts k)
      → HasTypes (idl_type_env_find header.env) links ts vs
      → depth_values vs < fuel
      → total ≡ here + (length (wire_values vs) + length rest)
      → IsSize total
      → All IsByte (wire_values vs ++ rest)
      → read_rest links fuel
          (arg_count ts)
          (standing config header cost index here total (wire_values vs ++ rest))
        ≡ ok (
            standing config header cost
              (index + arg_count ts)
              (here + length (wire_values vs))
              total
              rest)
  unfolding read_rest wire_values
  read_rest-wire index here _ _ rest nth no_arguments d e size hb =
      same_place index (index + 0) here (here + 0) rest (omega arith) (omega arith)
  read_rest-wire index here _ _ rest nth (argument {t = t} {ts = ts} {v = v} {vs = vs} h hs) d e
        size hb =
      let lengths = length-append (wire v) (wire_values vs) in
      let split = append_assoc (wire v) (wire_values vs) rest in
      let bytes = subst (All IsByte) split hb in
      let ahead = All_behind (wire v) (wire_values vs ++ rest) bytes in
      let read =
        read_value_by_type-wire (idl_type_env_find header.env) links fuel here total t v
          (wire_values vs ++ rest) h (omega (arith, d))
          (omega (arith, e, lengths, length-append (wire_values vs) rest)) size ahead in
      let first : nth_type header.arg_types index ≡ some t =
        ap (nth_type header.arg_types) {x = index} {y = index + 0} (omega arith) ∙ nth 0 in
      let one =
        get_value_run index here (here + length (wire v)) (wire v ++ (wire_values vs ++ rest))
          (wire_values vs ++ rest) t v first read in
      let others =
        read_rest-wire (index + 1) (here + length (wire v)) ts vs rest
          (λ k.
            ap (nth_type header.arg_types) {x = index + 1 + k} {y = index + suc k} (omega arith)
            ∙ nth (suc k))
          hs (omega (arith, d)) (omega (arith, e, lengths)) size ahead in
      let stop =
        same_place (index + 1 + arg_count ts) (index + suc (arg_count ts))
          (here + length (wire v) + length (wire_values vs))
          (here + length (wire v ++ wire_values vs)) rest (omega arith) (omega (arith, lengths)) in
      rw split (rw one (others ∙ stop))

module _ (print_long : ℤ → Name) (malloc : ℕ → Bool) (arena : Arena) (links fuel : ℕ) where
  new_run :
      (input : List ℕ) (header : Header) (consumed : ℕ)
      → idl_header_parse print_long malloc arena input ≡ ok (header, consumed)
      → idl_deserializer_new print_long malloc arena input
        ≡ ok (
            standing idl_decoder_config_init header
              (consumed * 4 % size_mod)
              0
              consumed
              (length input)
              (drop consumed input))
  unfolding idl_deserializer_new idl_deserializer_new_with_config idl_deserializer_add_cost
  new_run input header consumed e =
      let cost : (0 + consumed * 4 % size_mod) % size_mod ≡ consumed * 4 % size_mod = omega arith in
      rw e (
        ap
          (λ (c : ℕ). ok (
            standing idl_decoder_config_init header c 0 consumed (length input)
              (drop consumed input)))
          cost)

  -- What is behind the arguments decides.
  end_run :
      (header : Header) (cost count here total : ℕ) (rest : List ℕ)
      → total ≡ here + length rest
      → at_end links fuel (standing idl_decoder_config_init header cost count here total rest) ≡ (
          if ltb 0 (length rest)
          then err invalid_arg
          else ok (standing idl_decoder_config_init header cost count total total []))
  end_run header cost count here total [] e =
      let same : here ≡ total = omega (arith, e) in
      subst
        (λ (n : ℕ).
          at_end links fuel (standing idl_decoder_config_init header cost count n total [])
          ≡ ok (standing idl_decoder_config_init header cost count total total []))
        (sym same) (ground arith)
  end_run header cost count here total (b ∷ rest) e = ground (arith, e)

  done_run :
      (de de' : Decoder)
      → read_rest links fuel (arg_count de.header.arg_types - de.arg_index) de ≡ ok de'
      → idl_deserializer_done links fuel de ≡ at_end links fuel de'
  unfolding idl_deserializer_done
  done_run de de' e = ap (λ r. r >>= at_end links fuel) e

  -- A message, of bytes whose number fits a size_t, whose header is parsed and ends within it,
  -- and whose other bytes start with the wire forms of values of the argument types, of nesting
  -- below the fuel: where nothing is behind these, a deserializer that is made for the message
  -- and told to be done reads all arguments; otherwise it fails with an invalid argument.
  pub idl_deserializer_done-new :
      (input : List ℕ) (header : Header) (consumed : ℕ) (vs : Values) (rest : List ℕ)
      → idl_header_parse print_long malloc arena input ≡ ok (header, consumed)
      → consumed ≤ length input
      → drop consumed input ≡ wire_values vs ++ rest
      → HasTypes (idl_type_env_find header.env) links header.arg_types vs
      → depth_values vs < fuel
      → IsSize (length input)
      → All IsByte input
      → (idl_deserializer_new print_long malloc arena input >>= idl_deserializer_done links fuel)
        ≡ (if ltb 0 (length rest)
            then err invalid_arg
            else ok (
                standing idl_decoder_config_init header
                  (consumed * 4 % size_mod)
                  (arg_count header.arg_types)
                  (length input)
                  (length input)
                  []))
  idl_deserializer_done-new input header consumed vs rest e within split types d size bytes =
      let run = new_run input header consumed e in
      let cost = consumed * 4 % size_mod in
      let ahead : All IsByte (wire_values vs ++ rest) =
        subst (All IsByte) split (All-drop IsByte consumed input bytes) in
      let whole : length input ≡ consumed + (length (wire_values vs) + length rest) = omega (
        arith,
        within,
        length-drop consumed input,
        ap length split,
        length-append (wire_values vs) rest,
      ) in
      let arguments =
        read_rest-wire links fuel idl_decoder_config_init header cost (length input) 0 consumed
          header.arg_types vs rest
          (λ k. ap (nth_type header.arg_types) {x = 0 + k} {y = k} (omega arith)) types d whole size
          ahead in
      let finish =
        end_run header cost (0 + arg_count header.arg_types) (consumed + length (wire_values vs))
          (length input) rest (omega (arith, whole)) in
      let less : arg_count header.arg_types - 0 ≡ arg_count header.arg_types = omega arith in
      let count : 0 + arg_count header.arg_types ≡ arg_count header.arg_types = omega arith in
      ap (λ r. r >>= idl_deserializer_done links fuel) run
      ∙ done_run
          (standing idl_decoder_config_init header cost 0 consumed (length input)
            (drop consumed input))
          (standing idl_decoder_config_init header cost (0 + arg_count header.arg_types)
            (consumed + length (wire_values vs)) (length input) rest)
          (ap
              (λ bs.
                read_rest links fuel (arg_count header.arg_types - 0)
                  (standing idl_decoder_config_init header cost 0 consumed (length input) bs))
              split
            ∙ ap
                (λ (n : ℕ). read_rest links fuel n (
                  standing idl_decoder_config_init header cost 0 consumed (length input)
                    (wire_values vs ++ rest)))
                less
            ∙ arguments)
      ∙ finish
      ∙ ap
          (λ (n : ℕ).
            if ltb 0 (length rest)
            then err invalid_arg
            else ok
                (standing idl_decoder_config_init header cost n (length input) (length input) []))
          count
