-- ===== src/Idl/Header.antt =====
-- c_candid/runtime/runtime/src/header.c: the parser of the header of a message, with its table of types.
-- The state is the position in `input`. Arena allocations of types, names and arrays are taken to
-- succeed; those of the type environment are granted as `malloc` says. No pointer is NULL.
pub mod Read
pub mod Table
pub mod Environment
pub mod Yields
pub mod Closed
pub mod Composite
pub mod Answers
pub mod Form
pub mod Elements
pub mod Entries
pub mod RoundTrip
pub mod Described
use lucid.Base.{
  ℕ, zero, suc, ◌+◌, ◌-◌, ◌*◌, ◌/◌, ◌%◌, ◌^◌, Bool, true, false, not, ◌&&◌, ◌||◌, List, [], ◌∷◌,
  ◌++◌,
}
use lucid.Base.{Option, none, some, ltb, leb, ◌==◌, if◌then◌else◌, length, take, drop}
use lucid.Base.Int.{ℤ, pos, negsuc}
use lucid.Base.Word.{size_mod}
use lucid.Status.{Error, Result, ok, err, stuck, truncated, invalid_arg, alloc}
use lucid.Status
use lucid.Idl.Arena.{Arena}
use lucid.Idl.Types.{Name, IdlType, TypeList}
use lucid.Idl.TypeEnv.{TypeEnv, idl_type_env_init, idl_type_env_insert, name_equal}
use lucid.Idl.Header.Read.{Parse, pure, ◌>>=◌, lift, read_uleb128}
use lucid.Idl.Header.Composite.{parse_types, make_table_var, parse_cons_type}

-- `idl_header`; the number of argument types is that of the list.
pub record Header : Type 0 where
  pub env : TypeEnv IdlType
  pub arg_types : TypeList

-- "DIDL"
abbrev pub magic : List ℕ
magic = b'D' ∷ b'I' ∷ b'D' ∷ b'L' ∷ []

abbrev pub inserted : Option Error × TypeEnv IdlType → Result (TypeEnv IdlType)
inserted (none, env) = ok env
inserted (some e, env) = err e

abbrev pub initialised : Option (TypeEnv IdlType) → Result (TypeEnv IdlType)
initialised none = err alloc
initialised (some env) = ok env

module _ (print_long : ℤ → Name) (malloc : ℕ → Bool) where
  -- The loop over the table: `n` entries from entry `i` on. A type that was just made is at no address
  -- of another.
  unfoldable pub parse_table : ℕ → ℕ → ℕ → TypeEnv IdlType → Parse (TypeEnv IdlType)
  parse_table table_len zero i env = pure env
  parse_table table_len (suc n) i env = do
    type ← parse_cons_type print_long table_len
    env' ← lift (
        inserted
          (idl_type_env_insert malloc (λ bound new. false) env (make_table_var print_long i) type))
    parse_table table_len n (i + 1) env'

  -- What follows the magic bytes.
  unfoldable pub parse_body : Arena → Parse Header
  unfolding parse_table
  parse_body arena = do
    env ← lift (initialised (idl_type_env_init malloc arena))
    table_len ← read_uleb128
    env' ← parse_table table_len table_len 0 env
    arg_types ← parse_types print_long table_len
    pure (record { env = env'; arg_types = arg_types })

  -- The header and the number of bytes consumed.
  unfoldable pub idl_header_parse : Arena → List ℕ → Result (Header × ℕ)
  unfolding parse_body name_equal
  idl_header_parse arena input =
      if ltb (length input) 4
      then err truncated
      else if name_equal (take 4 input) magic
      then parse_body arena input 4
      else err invalid_arg
