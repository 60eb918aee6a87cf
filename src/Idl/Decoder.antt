-- ===== src/Idl/Decoder.antt =====
-- c_candid/runtime/runtime/src/decode/deserializer_config.c and the last part of deserializer.c: a whole
-- message, its header and its arguments in turn. No pointer but that to a configuration is NULL; what a
-- failed call left in the deserializer is not kept.
pub mod Done
pub mod Message
use lucid.Base.{
  ℕ, zero, suc, ◌+◌, ◌-◌, ◌*◌, ◌%◌, Bool, true, ◌&&◌, List, Option, none, some, ltb, leb,
  if◌then◌else◌,
}
use lucid.Base.{length, drop}
use lucid.Base.Int.{ℤ}
use lucid.Base.Word.{size_mod}
use lucid.Status.{Result, ok, err, overflow, invalid_arg, ◌>>=◌}
use lucid.Idl.Arena.{Arena}
use lucid.Idl.Types.{Name, IdlType, TypeList, no_types, type_of}
use lucid.Idl.Value.{Value}
use lucid.Idl.TypeEnv.{idl_type_env_find}
use lucid.Idl.Deserializer.{Reader, read_value_by_type}
use lucid.Idl.Header.{Header, idl_header_parse}
use lucid.Idl.Coerce.{idl_coerce_value}

-- `idl_decoder_config`
pub record DecoderConfig : Type 0 where
  pub decoding_quota : ℕ
  pub skipping_quota : ℕ
  pub full_error_message : Bool

abbrev pub idl_decoder_config_init : DecoderConfig
idl_decoder_config_init = record {
  decoding_quota = 0;
  skipping_quota = 0;
  full_error_message = true;
}

abbrev pub idl_decoder_config_set_decoding_quota : DecoderConfig → ℕ → DecoderConfig
idl_decoder_config_set_decoding_quota config quota = record config { decoding_quota = quota }

abbrev pub idl_decoder_config_set_skipping_quota : DecoderConfig → ℕ → DecoderConfig
idl_decoder_config_set_skipping_quota config quota = record config { skipping_quota = quota }

-- `idl_deserializer`, with its input and position as the reader.
pub record Decoder : Type 0 where
  pub config : DecoderConfig
  pub reader : Reader
  pub header : Header
  pub arg_index : ℕ
  pub cost_accumulated : ℕ

abbrev pub arg_count : TypeList → ℕ
arg_count no_types = 0
arg_count (type_of t ts) = suc (arg_count ts)

abbrev pub nth_type : TypeList → ℕ → Option IdlType
nth_type no_types i = none
nth_type (type_of t ts) zero = some t
nth_type (type_of t ts) (suc i) = nth_type ts i

-- The sum wraps around; a quota of 0 is none.
unfoldable pub idl_deserializer_add_cost : ℕ → Decoder → Result Decoder
idl_deserializer_add_cost cost de =
    let sum = (de.cost_accumulated + cost) % size_mod in
    if ltb 0 de.config.decoding_quota && ltb de.config.decoding_quota sum
    then err overflow
    else ok (record de { cost_accumulated = sum })

abbrev pub config_or_default : Option DecoderConfig → DecoderConfig
config_or_default none = idl_decoder_config_init
config_or_default (some config) = config

abbrev pub begin : DecoderConfig → List ℕ → Header → ℕ → Decoder
begin config input header consumed = record {
  config = config;
  reader = record { pos = consumed; input_len = length input; ahead = drop consumed input };
  header = header;
  arg_index = 0;
  cost_accumulated = 0;
}

-- The parameters of `idl_header_parse`.
module _ (print_long : ℤ → Name) (malloc : ℕ → Bool) (arena : Arena) where
  unfoldable pub idl_deserializer_new_with_config : Option DecoderConfig → List ℕ → Result Decoder
  unfolding idl_header_parse idl_deserializer_add_cost
  idl_deserializer_new_with_config config input =
      idl_header_parse print_long malloc arena input >>= λ (header, consumed).
      idl_deserializer_add_cost (consumed * 4 % size_mod)
        (begin (config_or_default config) input header consumed)

  unfoldable pub idl_deserializer_new : List ℕ → Result Decoder
  unfolding idl_deserializer_new_with_config
  idl_deserializer_new input = idl_deserializer_new_with_config none input

unfoldable pub idl_deserializer_is_done : Decoder → Bool
idl_deserializer_is_done de = leb (arg_count de.header.arg_types) de.arg_index

unfoldable pub idl_deserializer_remaining : Decoder → ℕ
idl_deserializer_remaining de = (de.reader.input_len + size_mod - de.reader.pos) % size_mod

-- The bounds of the reader of values: the links between names and the nesting of a value.
module _ (links fuel : ℕ) where
  abbrev pub next_argument : Decoder → Option IdlType → Result ((IdlType × Value) × Decoder)
  next_argument de none = err invalid_arg
  next_argument de (some t) =
      read_value_by_type (idl_type_env_find de.header.env) links fuel t de.reader >>= λ (v, r).
      ok ((t, v), record de { reader = r; arg_index = de.arg_index + 1 })

  -- The next argument, with its type.
  unfoldable pub idl_deserializer_get_value : Decoder → Result ((IdlType × Value) × Decoder)
  unfolding read_value_by_type idl_type_env_find
  idl_deserializer_get_value de = next_argument de (nth_type de.header.arg_types de.arg_index)

  -- `same` and `subtype` are the parameters of the coercion.
  unfoldable pub idl_deserializer_get_value_with_type :
      (IdlType → IdlType → Bool)
      → (IdlType → IdlType → Bool)
      → IdlType
      → Decoder
      → Result (Value × Decoder)
  unfolding idl_deserializer_get_value idl_coerce_value idl_type_env_find
  idl_deserializer_get_value_with_type same subtype expected_type de =
      idl_deserializer_get_value de >>= λ ((wire_type, v), de').
      idl_coerce_value (idl_type_env_find de'.header.env) links same subtype fuel wire_type
        expected_type v
      >>= λ w. ok (w, de')

  -- The rounds that `idl_deserializer_is_done` leaves.
  unfoldable pub read_rest : ℕ → Decoder → Result Decoder
  unfolding idl_deserializer_get_value
  read_rest zero de = ok de
  read_rest (suc n) de = idl_deserializer_get_value de >>= λ (argument, de'). read_rest n de'

  abbrev pub at_end : Decoder → Result Decoder
  at_end de = if ltb de.reader.pos de.reader.input_len then err invalid_arg else ok de

  unfoldable pub idl_deserializer_done : Decoder → Result Decoder
  unfolding read_rest
  idl_deserializer_done de = read_rest (arg_count de.header.arg_types - de.arg_index) de >>= at_end
