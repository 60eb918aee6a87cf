-- ===== src/Idl/Header/RoundTrip.antt =====
-- The parser of header.c at the wire form of a header, while memory is granted.
use lucid.Base.{
  ℕ, suc, ◌+◌, ◌*◌, ◌<◌, ◌≤◌, Bool, true, false, List, [], ◌∷◌, ◌++◌, All, ◌≡◌, refl, ap, ◌∙◌,
  subst, arith, ltb,
}
use lucid.Base.{Option, none, some, length, if◌then◌else◌, Bool-cases, inl, inr}
use lucid.Base.Int.{ℤ}
use lucid.Base.Word.{IsSize}
use lucid.Status.{ok}
use lucid.Leb128.{IsByte}
use lucid.Idl.Arena.{Arena}
use lucid.Idl.Types.{Name, IdlType}
use lucid.Idl.TypeEnv.{TypeEnv, idl_type_env_init, idl_type_env_find, name_equal}
use lucid.Idl.TypeEnv.Buckets.{IsEnv, name_equal-eq}
use lucid.Idl.TypeEnv.Map.{
  idl_type_env_insert-Inserts, idl_type_env_init-IsEnv, idl_type_env_init-find,
}
use lucid.Idl.Serializer.Wire.{uleb}
use lucid.Idl.Header.{
  Header, magic, inserted, initialised, parse_table, parse_body, idl_header_parse,
}
use lucid.Idl.Header.Read.{lift}
use lucid.Idl.Header.Composite.{make_table_var, parse_cons_type}
use lucid.Idl.Header.Answers.{
  Answers, Answers-pure, Answers-bind, Answers-map, read_uleb128-Answers,
}
use lucid.Idl.Header.Form.{
  Ref, Entry, entry_wire, table_wire, list_wire, entry_type, list_type, IsRef, IsEntryOf,
}
use lucid.Idl.Header.Entries.{entry-Answers}
use lucid.Idl.Header.Elements.{list-Answers}
use lucid.Idl.Header.Table.{insertion, Binds, success}
use lucid.Idl.Header.Described.{
  header_wire, bound_type, HasNames, Describes, Answers-known, insert_granted, init_granted,
}

abbrev or_else : Option IdlType → Option IdlType → Option IdlType
or_else none o = o
or_else (some t) o = some t

module _ (malloc : ℕ → Bool) (granted : (n : ℕ) → malloc n ≡ true) where
  module _ (print_long : ℤ → Name) (table_len : ℕ) (small : IsSize table_len)
      (names : HasNames print_long table_len) where
    apart :
        (i j : ℕ)
        → i < table_len
        → j < table_len
        → (i ≡ j → ⊥)
        → name_equal (make_table_var print_long i) (make_table_var print_long j) ≡ false
    apart i j h k other =
        elim (Bool-cases (name_equal (make_table_var print_long i) (make_table_var print_long j))) [
          | inr e ↦ e
          | inl e ↦ absurd (
              other (
                names i j h k
                  (name_equal-eq (make_table_var print_long i) (make_table_var print_long j) e)))
        ]

    -- The name of an entry is no name of a later one.
    later_unbound :
        (i j : ℕ) (es : List Entry)
        → i < j
        → j + length es ≤ table_len
        → bound_type print_long j es (make_table_var print_long i) ≡ none
    unfolding bound_type
    later_unbound i j [] less within = refl
    later_unbound i j (e ∷ es) less within =
        rw (apart j i (omega arith) (omega arith) (λ same. omega (arith, same, less)))
          (later_unbound i (j + 1) es (omega arith) (omega arith))

    -- No entry from `i` on is bound yet.
    abbrev Fresh : ℕ → TypeEnv IdlType → Type 0
    Fresh i env =
        (k : ℕ) → i ≤ k → k < table_len → idl_type_env_find env (make_table_var print_long k) ≡ none

    -- What the rest of the loop returns.
    abbrev Reads : ℕ → List Entry → TypeEnv IdlType → Type 0
    Reads i es env =
        (env' : TypeEnv IdlType) × Answers
          (parse_table print_long malloc table_len (length es) i env) (table_wire es) (ok env')
        × ((name : Name)
            → idl_type_env_find env' name
              ≡ or_else (bound_type print_long i es name) (idl_type_env_find env name))

    step-Fresh :
        (i : ℕ) (env env' : TypeEnv IdlType) (type : IdlType)
        → i < table_len
        → Fresh i env
        → Binds print_long malloc table_len env (make_table_var print_long i) type env'
        → Fresh (i + 1) env'
    step-Fresh i env env' type within fresh (v, found) k below inside =
        found (make_table_var print_long k)
        ∙ ap (λ b. if b then some type else idl_type_env_find env (make_table_var print_long k))
            (apart i k within inside (λ same. omega (arith, same, below)))
        ∙ fresh k (omega arith) inside

    -- The binding of the first entry and those of the others together.
    join :
        (i : ℕ) (e : Entry) (es : List Entry) (env env' : TypeEnv IdlType) (name : Name)
        → i + suc (length es) ≤ table_len
        → Binds print_long malloc table_len env
            (make_table_var print_long i)
            (entry_type print_long e)
            env'
        → or_else (bound_type print_long (i + 1) es name) (idl_type_env_find env' name)
          ≡ or_else (bound_type print_long i (e ∷ es) name) (idl_type_env_find env name)
    unfolding bound_type
    join i e es env env' name within (v, found) =
        elim (Bool-cases (name_equal (make_table_var print_long i) name)) [
          | inl here ↦
              let same = name_equal-eq (make_table_var print_long i) name here in
              let later : bound_type print_long (i + 1) es name ≡ none =
                subst (λ n. bound_type print_long (i + 1) es n ≡ none) same
                  (later_unbound i (i + 1) es (omega arith) (omega arith)) in
              rw (found name) (rw here (rw later refl))
          | inr other ↦ rw (found name) (rw other refl)
        ]

    table-Reads :
        (i : ℕ) (es : List Entry) (env : TypeEnv IdlType)
        → i + length es ≤ table_len
        → All (IsEntryOf table_len) es
        → IsEnv env
        → Fresh i env
        → Reads i es env
    unfolding parse_table table_wire bound_type
    table-Reads i [] env within h v fresh = (env, Answers-pure env, λ name. refl)
    table-Reads i (e ∷ es) env within (h, hs) v fresh =
        let name = make_table_var print_long i in
        let type = entry_type print_long e in
        let (env', run) =
          insert_granted malloc granted env name type (fresh i (omega arith) (omega arith)) in
        let inserts = idl_type_env_insert-Inserts malloc (λ bound new. false) env v name type in
        let bound : Binds print_long malloc table_len env name type env' =
          success print_long malloc table_len env env' name type
            (insertion print_long malloc table_len env i type) inserts (ap inserted run) in
        let (env'', rest, found) =
          table-Reads (i + 1) es env' (omega arith) hs bound.0
            (step-Fresh i env env' type (omega arith) fresh bound) in
        (
          env'',
          Answers-bind (parse_cons_type print_long table_len) _ (entry_wire e) (table_wire es) type
              _ (entry-Answers print_long table_len small e h)
              (Answers-bind (lift (inserted (insertion print_long malloc table_len env i type))) _
                [] (table_wire es) env' _ (Answers-known _ env' (ap inserted run)) rest),
          λ other. found other ∙ join i e es env env' other within bound,
        )

  abbrev body_wire : List Entry → List Ref → List ℕ
  body_wire es args = uleb (length es) ++ (table_wire es ++ list_wire args)

  module _ (print_long : ℤ → Name) (es : List Entry) (small : IsSize (length es))
      (names : HasNames print_long (length es)) where
    body-Answers :
        (arena : Arena) (args : List Ref)
        → All (IsEntryOf (length es)) es
        → IsSize (4 * length args)
        → All (IsRef (length es)) args
        → (header : Header) × Answers
            (parse_body print_long malloc arena)
            (body_wire es args)
            (ok header)
          × Describes print_long es args header
    unfolding parse_body
    body-Answers arena args h room hargs =
        let (env, made) = init_granted malloc granted arena in
        let empty : (name : Name) → idl_type_env_find env name ≡ none =
          λ name. idl_type_env_init-find malloc arena env name made in
        let (env', table, found) =
          table-Reads print_long (length es) small names 0 es env (omega arith) h
            (idl_type_env_init-IsEnv malloc arena env made) (λ k below inside. empty _) in
        let list = list-Answers print_long (length es) small args room hargs in
        (
          record { env = env'; arg_types = list_type print_long args },
          Answers-bind (lift (initialised (idl_type_env_init malloc arena))) _ [] _ env _
              (Answers-known _ env (ap initialised made))
              (Answers-bind _ _ (uleb (length es)) _ (length es) _
                (read_uleb128-Answers (length es) (omega arith))
                (Answers-bind _ _ (table_wire es) (list_wire args) env' _ table (
                  Answers-map _ (λ types. record { env = env'; arg_types = types }) (list_wire args)
                    (list_type print_long args) list))),
          (refl, λ name. found name ∙ unbound env name (empty name)),
        )
      where
        unbound :
            (env : TypeEnv IdlType) (name : Name)
            → idl_type_env_find env name ≡ none
            → or_else (bound_type print_long 0 es name) (idl_type_env_find env name)
              ≡ bound_type print_long 0 es name
        unbound env name e =
            ap (λ o. or_else (bound_type print_long 0 es name) o) e
            ∙ or_none (bound_type print_long 0 es name)
          where
            or_none : (o : Option IdlType) → or_else o none ≡ o
            or_none none = refl
            or_none (some t) = refl

    -- Where memory is granted and entries have different names: the header in wire form with a table of
    -- entries, each of which is one of its number of entries, and with argument types, in front of any
    -- bytes in an input whose length fits a size_t, is parsed up to its end. Its argument types are the
    -- ones written, and its environment binds the name of each entry to the entry's type, and no other.
    pub idl_header_parse-wire :
        (arena : Arena) (args : List Ref) (rest : List ℕ)
        → All (IsEntryOf (length es)) es
        → IsSize (4 * length args)
        → All (IsRef (length es)) args
        → All IsByte rest
        → IsSize (length (header_wire es args ++ rest))
        → (header : Header) × (idl_header_parse print_long malloc arena
              (header_wire es args ++ rest)
            ≡ ok (header, length (header_wire es args)))
          × Describes print_long es args header
    unfolding idl_header_parse header_wire name_equal
    idl_header_parse-wire arena args rest h room hargs bytes size =
        let (header, body, describes) = body-Answers arena args h room hargs in
        let input = magic ++ (body_wire es args ++ rest) in
        let long : ltb (length input) 4 ≡ false = ground arith in
        let stop : 4 + length (body_wire es args) ≡ length (header_wire es args) = omega arith in
        (
          header,
          rw long (body.answer magic rest size bytes ∙ ap (λ (n : ℕ). ok (header, n)) stop),
          describes,
        )
