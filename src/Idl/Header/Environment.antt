-- ===== src/Idl/Header/Environment.antt =====
-- The environment that idl_header_parse of header.c returns: it knows every name in its types.
use lucid.Base.{ℕ, zero, suc, ◌+◌, ◌≤◌, Bool, Bool-cases, ltb}
use lucid.Base.{List, some, Option-cases, ◌≡◌, refl, ◌∙◌, subst, arith, inl, inr, take, length}
use lucid.Base.Int.{ℤ}
use lucid.Status.{ok}
use lucid.Idl.Arena.{Arena}
use lucid.Idl.Types.{Name, IdlType, TypeList}
use lucid.Idl.Deserializer.{trace}
use lucid.Idl.TypeEnv.{
  TypeEnv, idl_type_env_init, idl_type_env_find, name_equal, idl_type_env_trace,
}
use lucid.Idl.TypeEnv.Buckets.{IsEnv}
use lucid.Idl.TypeEnv.Trace.{IsFinal}
use lucid.Idl.Header.{Header, magic, parse_table, parse_body, idl_header_parse, initialised}
use lucid.Idl.Header.Read.{lift, read_uleb128}
use lucid.Idl.Header.Composite.{parse_types}
use lucid.Idl.Header.Yields.{EachName, EachNameList}
use lucid.Idl.Header.Yields.{
  EachNameList-map, Yields, Yields-pure, Yields-bind, Yields-then, Yields-lift,
}
use lucid.Idl.Header.Closed.{IsEntry, parse_types-Yields}
use lucid.Idl.Header.Table.{
  IsBound, IsClosed, IsTable, parse_table-Yields, initial-IsTable, entry-IsBound, IsTable-IsClosed,
}

-- The header that was read: the environment is a map, every bound type and argument type has bound
-- names only, and no name is bound to a name.
unfoldable pub IsHeader : Header → Type 0
IsHeader header =
    IsEnv header.env × IsClosed header.env × EachNameList (IsBound header.env) header.arg_types

final_run :
    (env : TypeEnv IdlType) (links : ℕ) (t : IdlType)
    → IsFinal (some t)
    → idl_type_env_trace (suc links) env t ≡ ok (some t)
unfolding idl_type_env_trace trace
final_run env links (IdlType.var name) h = absurd h
final_run env links t h = refl

bound_run :
    (env : TypeEnv IdlType) (links : ℕ) (name : Name) (u : IdlType)
    → idl_type_env_find env name ≡ some u
    → idl_type_env_trace (suc links) env (IdlType.var name) ≡ idl_type_env_trace links env u
unfolding idl_type_env_trace trace
bound_run env links name u e = ground (arith, e)

trace_closed :
    (env : TypeEnv IdlType)
    → IsClosed env
    → (links : ℕ) (t : IdlType) → EachName (IsBound env) t
    → 2 ≤ links
    → (u : IdlType) × (idl_type_env_trace links env t ≡ ok (some u)) × IsFinal (some u)
unfolding EachName IsBound
trace_closed env closed zero t names h = absurd (omega (arith, h))
trace_closed env closed (suc zero) t names h = absurd (omega (arith, h))
trace_closed env closed (suc (suc links)) (IdlType.var name) (u, found) h =
    let (inner, final) = closed name u found in
    (u, bound_run env (suc links) name u found ∙ final_run env links u final, final)
trace_closed env closed (suc (suc links)) t names h = (t, final_run env (suc links) t tt, tt)

module _ (print_long : ℤ → Name) (malloc : ℕ → Bool) where
  initialised-Yields :
      (arena : Arena)
      → Yields
          (λ env. idl_type_env_init malloc arena ≡ some env)
          (lift (initialised (idl_type_env_init malloc arena)))
  initialised-Yields arena =
      Yields-lift (λ env. idl_type_env_init malloc arena ≡ some env)
        (initialised (idl_type_env_init malloc arena)) (λ env e. run env e)
    where
      run :
          (env : TypeEnv IdlType)
          → initialised (idl_type_env_init malloc arena) ≡ ok env
          → idl_type_env_init malloc arena ≡ some env
      run env e = elim (Option-cases (idl_type_env_init {T = IdlType} malloc arena)) [
        | inl nothing ↦ absurd (grind (arith, e, nothing))
        | inr (env', found) ↦ ground (arith, e, found)
      ]

  table-IsHeader :
      (table_len : ℕ) (env : TypeEnv IdlType) (args : TypeList)
      → IsTable print_long malloc table_len table_len env
      → EachNameList (IsEntry print_long table_len) args
      → IsHeader (record { env = env; arg_types = args })
  unfolding IsHeader IsTable
  table-IsHeader table_len env args table h = (
    table.0,
    IsTable-IsClosed print_long malloc table_len env table,
    EachNameList-map (IsEntry print_long table_len) (IsBound env)
        (entry-IsBound print_long malloc table_len env table) args h,
  )

  parse_body-Yields : (arena : Arena) → Yields IsHeader (parse_body print_long malloc arena)
  unfolding parse_body
  parse_body-Yields arena =
      Yields-bind (λ env. idl_type_env_init malloc arena ≡ some env) IsHeader
        (lift (initialised (idl_type_env_init malloc arena))) _ (initialised-Yields arena)
        λ env e. Yields-then IsHeader read_uleb128 _ λ table_len.
          Yields-bind (IsTable print_long malloc table_len table_len) IsHeader
            (parse_table print_long malloc table_len table_len 0 env) _ (whole table_len env e)
            λ env' table.
              Yields-bind (EachNameList (IsEntry print_long table_len)) IsHeader
                (parse_types print_long table_len) _ (parse_types-Yields print_long table_len)
                λ args h.
                  Yields-pure IsHeader (record { env = env'; arg_types = args })
                    (table-IsHeader table_len env' args table h)
    where
      whole :
          (table_len : ℕ) (env : TypeEnv IdlType)
          → idl_type_env_init malloc arena ≡ some env
          → Yields
              (IsTable print_long malloc table_len table_len)
              (parse_table print_long malloc table_len table_len 0 env)
      whole table_len env e =
          subst
            (λ (k : ℕ).
              Yields (IsTable print_long malloc table_len k)
                (parse_table print_long malloc table_len table_len 0 env))
            {x = 0 + table_len} {y = table_len} (omega arith)
            (parse_table-Yields print_long malloc table_len table_len 0 env
              (initial-IsTable print_long malloc table_len arena env e))

  -- A header that is parsed, from any bytes, is closed: its environment is a map, every name in a bound
  -- type and in an argument type is bound, and no name is bound to a name.
  pub idl_header_parse-IsHeader :
      (arena : Arena) (input : List ℕ) (header : Header) (consumed : ℕ)
      → idl_header_parse print_long malloc arena input ≡ ok (header, consumed)
      → IsHeader header
  unfolding idl_header_parse
  idl_header_parse-IsHeader arena input header consumed e =
      elim (Bool-cases (ltb (length input) 4)) [
        | inl short ↦ absurd (ground (arith, e, short))
        | inr long ↦ elim (Bool-cases (name_equal (take 4 input) magic)) [
          | inl found ↦
              parse_body-Yields arena input 4 consumed header (ground (arith, e, long, found))
          | inr other ↦ absurd (ground (arith, e, long, other))
        ]
      ]

  -- In the environment of a header that is parsed, following a type whose names are bound ends after one
  -- link at most, in a type that is no name.
  pub idl_header_parse-trace :
      (arena : Arena) (input : List ℕ) (header : Header) (consumed links : ℕ) (t : IdlType)
      → idl_header_parse print_long malloc arena input ≡ ok (header, consumed)
      → EachName (IsBound header.env) t
      → 2 ≤ links
      → (u : IdlType) × (idl_type_env_trace links header.env t ≡ ok (some u)) × IsFinal (some u)
  unfolding IsHeader
  idl_header_parse-trace arena input header consumed links t e names enough =
      let (map, closed, args) = idl_header_parse-IsHeader arena input header consumed e in
      trace_closed header.env closed links t names enough
