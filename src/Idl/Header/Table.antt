-- ===== src/Idl/Header/Table.antt =====
-- The loop over the table of types in idl_header_parse of header.c: each round binds its name.
use lucid.Base.{ℕ, zero, suc, ◌+◌, ◌<◌, Bool, true, false, Bool-cases, ltb, ltb→lt}
use lucid.Base.{
  [], ◌∷◌, Option, none, some, if◌then◌else◌, ◌≡◌, refl, sym, ◌∙◌, ap, subst, arith, inl, inr,
}
use lucid.Base.Int.{ℤ}
use lucid.Status.{Error, ok}
use lucid.Idl.Arena.{Arena}
use lucid.Idl.Types.{Name, IdlType}
use lucid.Idl.TypeEnv.{
  TypeEnv, idl_type_env_init, idl_type_env_insert, idl_type_env_find, name_equal,
}
use lucid.Idl.TypeEnv.Buckets.{IsEnv}
use lucid.Idl.TypeEnv.Map.{Inserts, idl_type_env_insert-Inserts, idl_type_env_init-IsEnv}
use lucid.Idl.TypeEnv.Map.{idl_type_env_init-find}
use lucid.Idl.TypeEnv.Trace.{IsFinal}
use lucid.Idl.Header.{parse_table, inserted}
use lucid.Idl.Header.Read.{lift}
use lucid.Idl.Header.Composite.{make_table_var, parse_cons_type}
use lucid.Idl.Header.Yields.{EachName, EachName_map}
use lucid.Idl.Header.Yields.{Yields, Yields-pure, Yields-bind, Yields-lift}
use lucid.Idl.Header.Closed.{IsEntry, IsComposite, parse_cons_type-Yields}

-- The name has a type.
unfoldable pub IsBound : TypeEnv IdlType → Name → Type 0
IsBound env name = (t : IdlType) × (idl_type_env_find env name ≡ some t)

-- Each bound type is no name, and each name in it is bound.
abbrev pub IsClosed : TypeEnv IdlType → Type 0
IsClosed env =
    (name : Name) (t : IdlType)
    → idl_type_env_find env name ≡ some t
    → EachName (IsBound env) t × IsFinal (some t)

module _ (print_long : ℤ → Name) (malloc : ℕ → Bool) (table_len : ℕ) where
  -- After `done` rounds of the loop.
  unfoldable pub IsTable : ℕ → TypeEnv IdlType → Type 0
  IsTable done env =
      IsEnv env
      × ((i : ℕ) → i < done → IsBound env (make_table_var print_long i))
      × ((name : Name) (t : IdlType)
          → idl_type_env_find env name ≡ some t
          → IsComposite print_long table_len t)

  abbrev pub insertion : TypeEnv IdlType → ℕ → IdlType → Option Error × TypeEnv IdlType
  insertion env i type =
      idl_type_env_insert malloc (λ bound new. false) env (make_table_var print_long i) type

  -- What a successful insertion does.
  abbrev pub Binds : TypeEnv IdlType → Name → IdlType → TypeEnv IdlType → Type 0
  Binds env name type env' =
      IsEnv env'
      × ((other : Name)
          → idl_type_env_find env' other
            ≡ (if name_equal name other then some type else idl_type_env_find env other))

  pub success :
      (env env' : TypeEnv IdlType) (name : Name) (type : IdlType)
      (r : Option Error × TypeEnv IdlType)
      → Inserts env (λ bound new. false) name type r
      → inserted r ≡ ok env'
      → Binds env name type env'
  success env env' name type (none, env'') (v, inr (unbound, inr (status, count, found))) e =
      let same : env'' ≡ env' = cc in subst (Binds env name type) same (v, found)
  success env env' name type (none, env'') (v, inr (unbound, inl (status, count, found))) e =
      absurd (grind (arith, status))
  success env env' name type (none, env'') (v, inl (bound, found, same, status)) e =
      absurd (grind (arith, status))
  success env env' name type (some x, env'') h e = absurd (grind (arith, e))

  name_equal_refl : (name : Name) → name_equal name name ≡ true
  unfolding name_equal
  name_equal_refl [] = refl
  name_equal_refl (c ∷ name) = ground (arith, name_equal_refl name)

  binds-IsTable :
      (i : ℕ) (env env' : TypeEnv IdlType) (type : IdlType)
      → IsTable i env
      → IsComposite print_long table_len type
      → Binds env (make_table_var print_long i) type env'
      → IsTable (i + 1) env'
  unfolding IsTable IsBound
  binds-IsTable i env env' type (v, known, composite) h (v', found) = (v', still, kept)
    where
      name : Name
      name = make_table_var print_long i

      this :
          (other : Name) → name_equal name other ≡ true → idl_type_env_find env' other ≡ some type
      this other e = found other ∙ ap (λ c. if c then some type else idl_type_env_find env other) e

      that :
          (other : Name)
          → name_equal name other ≡ false
          → idl_type_env_find env' other ≡ idl_type_env_find env other
      that other e = found other ∙ ap (λ c. if c then some type else idl_type_env_find env other) e

      lower : (j : ℕ) → j < i + 1 → name_equal name (make_table_var print_long j) ≡ false → j < i
      lower j h e = elim (Bool-cases (ltb j i)) [
        | inl less ↦ ltb→lt j i less
        | inr not_less ↦ absurd (differ (ground (arith, h, not_less)))
      ]
        where
          differ : i ≡ j → ⊥
          differ q =
              let same : true ≡ false =
                sym (name_equal_refl name)
                ∙ ap (λ (k : ℕ). name_equal name (make_table_var print_long k)) q
                ∙ e in
              absurd (grind (arith, same))

      still : (j : ℕ) → j < i + 1 → IsBound env' (make_table_var print_long j)
      still j before = elim (Bool-cases (name_equal name (make_table_var print_long j))) [
        | inl here ↦ (type, this (make_table_var print_long j) here)
        | inr elsewhere ↦
            let (t, e) = known j (lower j before elsewhere) in
            (t, that (make_table_var print_long j) elsewhere ∙ e)
      ]

      unwrap : {a b : IdlType} → some a ≡ some b → a ≡ b
      unwrap e = cc

      kept :
          (other : Name) (t : IdlType)
          → idl_type_env_find env' other ≡ some t
          → IsComposite print_long table_len t
      kept other t e = elim (Bool-cases (name_equal name other)) [
        | inl here ↦ subst (IsComposite print_long table_len) (unwrap (sym (this other here) ∙ e)) h
        | inr elsewhere ↦ composite other t (sym (that other elsewhere) ∙ e)
      ]

  insert-Yields :
      (i : ℕ) (env : TypeEnv IdlType) (type : IdlType)
      → IsTable i env
      → IsComposite print_long table_len type
      → Yields (IsTable (i + 1)) (lift (inserted (insertion env i type)))
  unfolding IsTable
  insert-Yields i env type table h =
      Yields-lift (IsTable (i + 1)) (inserted (insertion env i type)) λ env' e.
        binds-IsTable i env env' type table h (
          success env env' (make_table_var print_long i) type (insertion env i type)
            (idl_type_env_insert-Inserts malloc (λ bound new. false) env table.0
              (make_table_var print_long i) type)
            e)

  pub parse_table-Yields :
      (n i : ℕ) (env : TypeEnv IdlType)
      → IsTable i env
      → Yields (IsTable (i + n)) (parse_table print_long malloc table_len n i env)
  unfolding parse_table
  parse_table-Yields zero i env table =
      Yields-pure (IsTable (i + zero)) env
        (subst (λ (k : ℕ). IsTable k env) {x = i} {y = i + zero} (omega arith) table)
  parse_table-Yields (suc n) i env table =
      Yields-bind (IsComposite print_long table_len) (IsTable (i + suc n))
        (parse_cons_type print_long table_len) _ (parse_cons_type-Yields print_long table_len)
        λ type h.
          Yields-bind (IsTable (i + 1)) (IsTable (i + suc n))
            (lift (inserted (insertion env i type))) _ (insert-Yields i env type table h)
            λ env' table'.
              subst
                (λ (k : ℕ).
                  Yields (IsTable k) (parse_table print_long malloc table_len n (i + 1) env'))
                {x = i + 1 + n} {y = i + suc n} (omega arith)
                (parse_table-Yields n (i + 1) env' table')

  pub initial-IsTable :
      (arena : Arena) (env : TypeEnv IdlType)
      → idl_type_env_init malloc arena ≡ some env
      → IsTable 0 env
  unfolding IsTable
  initial-IsTable arena env e = (
    idl_type_env_init-IsEnv malloc arena env e,
    λ i h. absurd (omega (arith, h)),
    λ name t found.
        let clash : none ≡ some t = sym (idl_type_env_init-find malloc arena env name e) ∙ found in
        absurd (grind (arith, clash)),
  )

  -- A name of the table is bound when the table has been read.
  pub entry-IsBound :
      (env : TypeEnv IdlType)
      → IsTable table_len env
      → (name : Name) → IsEntry print_long table_len name
      → IsBound env name
  unfolding IsTable IsEntry
  entry-IsBound env (v, known, composite) name (i, e, h) = subst (IsBound env) (sym e) (known i h)

  pub IsTable-IsClosed : (env : TypeEnv IdlType) → IsTable table_len env → IsClosed env
  unfolding IsTable
  IsTable-IsClosed env (v, known, composite) name t e =
      let (names, final) = composite name t e in
      let table : IsTable table_len env = (v, known, composite) in
      (
        EachName_map (IsEntry print_long table_len) (IsBound env) (entry-IsBound env table) t names,
        final,
      )
