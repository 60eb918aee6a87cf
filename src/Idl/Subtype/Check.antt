-- ===== src/Idl/Subtype/Check.antt =====
-- The rules of the subtype check, each by its function of subtype.c. A check takes the table of
-- assumptions and returns it; it is none where the C code does not return: where a chain of type names is
-- a circle, or the fuel for the recursion runs out.
use lucid.Base.{ℕ, zero, suc, Bool, true, false, ◌&&◌, ◌||◌, List, [], ◌∷◌, Option, none, some}
use lucid.Base.{◌==◌, if◌then◌else◌, ltb, length}
use lucid.Idl.Types.{Name, FuncMode, query, oneway, composite_query}
use lucid.Idl.TypeEnv.{name_equal}
use lucid.Idl.Subtype.{
  Ref, Kind, kind_code, ◌is◌, Node, SubtypeResult, subtype_ok, subtype_fail, opt_special, OptReport,
  warning, error,
}
use lucid.Idl.Subtype.{Gamma, idl_gamma_insert, idl_gamma_remove, idl_gamma_init}
use lucid.Idl.Arena.{Arena}

abbrev pub Check : Type 0 → Type 0
Check A = Gamma → Option (A × Gamma)

infixl 5 ◌>>=◌
unfoldable pub ◌>>=◌ : {A B : Type 0} → Check A → (A → Check B) → Check B
◌>>=◌ m f g = elim (m g) [ none ↦ none | some (a, g') ↦ f a g' ]

abbrev pub pure : {A : Type 0} → A → Check A
pure a g = some (a, g)

abbrev pub is_ok : SubtypeResult → Bool
is_ok subtype_ok = true
is_ok _ = false

abbrev pub is_fail : SubtypeResult → Bool
is_fail subtype_fail = true
is_fail _ = false

-- `idl_type_is_primitive`: the kinds in front of the composite ones.
abbrev pub is_primitive : Kind → Bool
is_primitive k = ltb (kind_code k) 18

abbrev pub mode_code : FuncMode → ℕ
mode_code query = 0
mode_code oneway = 1
mode_code composite_query = 2

abbrev pub find_field : List (ℕ × Ref) → ℕ → Option Ref
find_field [] label_id = none
find_field ((id, t) ∷ fields) label_id =
    if id == label_id then some t else find_field fields label_id

abbrev pub find_service_method : List (Name × Ref) → Name → Option Ref
find_service_method [] name = none
find_service_method ((n, t) ∷ methods) name =
    if name_equal n name then some t else find_service_method methods name

abbrev pub modes_equal : List FuncMode → List FuncMode → Bool
modes_equal [] [] = true
modes_equal [] (b ∷ ns) = false
modes_equal (a ∷ ms) [] = false
modes_equal (a ∷ ms) (b ∷ ns) = mode_code a == mode_code b && modes_equal ms ns

abbrev pub check_base_subtype_rules : Kind → Kind → SubtypeResult
check_base_subtype_rules k1 k2 =
    if k2 is Kind.reserved
      || k1 is Kind.empty
      || k1 is Kind.nat && k2 is Kind.int
      || k1 is k2 && is_primitive k1
    then subtype_ok
    else subtype_fail

abbrev pub check_opt_subtype_null : Kind → Kind → SubtypeResult
check_opt_subtype_null k1 k2 =
    if k2 is Kind.opt && k1 is Kind.null then subtype_ok else subtype_fail

abbrev pub check_opt_subtype_special : OptReport → SubtypeResult
check_opt_subtype_special error = subtype_fail
check_opt_subtype_special _ = opt_special

module _ (type_at : Ref → Node) (find : Name → Option Ref) (links : ℕ) where
  -- The loop of `idl_type_env_trace` on pointers; the inner none is NULL.
  unfoldable pub trace_ref : ℕ → Ref → Option (Option Ref)
  trace_ref zero t = none
  trace_ref (suc fuel) t = elim ((type_at t).kind is Kind.var) [
    | false ↦ some (some t)
    | true ↦ elim (find (type_at t).var_name) [ none ↦ some none | some t' ↦ trace_ref fuel t' ]
  ]

  -- On another kind than VAR the type itself.
  unfoldable pub resolve_type : Ref → Check (Option Ref)
  unfolding trace_ref
  resolve_type t g = elim (trace_ref links t) [ none ↦ none | some o ↦ some (o, g) ]

  abbrev pub optional_like : Option Ref → Bool
  optional_like none = false
  optional_like (some t) =
      (type_at t).kind is Kind.null
      || (type_at t).kind is Kind.reserved
      || (type_at t).kind is Kind.opt

  unfoldable pub idl_type_is_optional_like : Ref → Check Bool
  unfolding resolve_type ◌>>=◌
  idl_type_is_optional_like t = resolve_type t >>= λ o. pure (optional_like o)

  -- `check` is `subtype_check_impl`.
  module _ (check : Ref → Ref → Check SubtypeResult) where
    unfoldable pub check_vec_subtype : Node → Node → Check SubtypeResult
    check_vec_subtype n1 n2 =
        if n1.kind is Kind.vec && n2.kind is Kind.vec
        then check n1.inner n2.inner
        else pure subtype_fail

    unfoldable pub check_opt_subtype_opt : Node → Node → Check SubtypeResult
    unfolding ◌>>=◌
    check_opt_subtype_opt n1 n2 =
        if n1.kind is Kind.opt && n2.kind is Kind.opt
        then (check n1.inner n2.inner >>= λ r. pure (if is_ok r then subtype_ok else subtype_fail))
        else pure subtype_fail

    unfoldable pub check_opt_subtype_wrap : Ref → Node → Check SubtypeResult
    unfolding ◌>>=◌ resolve_type idl_type_is_optional_like
    check_opt_subtype_wrap t1 n2 = resolve_type n2.inner >>= λ o. elim o [
      | none ↦ pure subtype_fail
      | some inner_t2 ↦ idl_type_is_optional_like inner_t2 >>= λ like.
          if like
          then pure subtype_fail
          else (check t1 n2.inner >>= λ r. pure (if is_ok r then subtype_ok else subtype_fail))
    ]

    unfoldable pub check_record_subtype : List (ℕ × Ref) → List (ℕ × Ref) → Check SubtypeResult
    unfolding ◌>>=◌ idl_type_is_optional_like
    check_record_subtype fields1 [] = pure subtype_ok
    check_record_subtype fields1 ((id, t2) ∷ fields2) =
        let rest = check_record_subtype fields1 fields2 in
        elim (find_field fields1 id) [
          | some t1 ↦ check t1 t2 >>= λ r. if is_fail r then pure subtype_fail else rest
          | none ↦ idl_type_is_optional_like t2 >>= λ like. if like then rest else pure subtype_fail
        ]

    unfoldable pub check_variant_subtype : List (ℕ × Ref) → List (ℕ × Ref) → Check SubtypeResult
    unfolding ◌>>=◌
    check_variant_subtype [] fields2 = pure subtype_ok
    check_variant_subtype ((id, t1) ∷ fields1) fields2 =
        let rest = check_variant_subtype fields1 fields2 in
        elim (find_field fields2 id) [
          | none ↦ pure subtype_fail
          | some t2 ↦ check t1 t2 >>= λ r. if is_fail r then pure subtype_fail else rest
        ]

    -- The arguments that both have, the other way round, then those that only the second has.
    unfoldable pub check_args : List Ref → List Ref → Check SubtypeResult
    unfolding ◌>>=◌ idl_type_is_optional_like
    check_args [] [] = pure subtype_ok
    check_args [] (a2 ∷ args2) =
        let rest = check_args [] args2 in
        idl_type_is_optional_like a2 >>= λ like. if like then rest else pure subtype_fail
    check_args (a1 ∷ args1) [] = pure subtype_fail
    check_args (a1 ∷ args1) (a2 ∷ args2) =
        let rest = check_args args1 args2 in
        check a2 a1 >>= λ r. if is_fail r then pure subtype_fail else rest

    -- The results of the second.
    unfoldable pub check_rets : List Ref → List Ref → Check SubtypeResult
    unfolding ◌>>=◌
    check_rets rets1 [] = pure subtype_ok
    check_rets [] (r2 ∷ rets2) = pure subtype_fail
    check_rets (r1 ∷ rets1) (r2 ∷ rets2) =
        let rest = check_rets rets1 rets2 in
        check r1 r2 >>= λ r. if is_fail r then pure subtype_fail else rest

    unfoldable pub check_func_subtype : Node → Node → Check SubtypeResult
    unfolding ◌>>=◌ check_args check_rets
    check_func_subtype n1 n2 =
        if ltb (length n2.args) (length n1.args) || ltb (length n1.rets) (length n2.rets)
        then pure subtype_fail
        else (check_args n1.args n2.args >>= λ r.
            if is_fail r
            then pure subtype_fail
            else (check_rets n1.rets n2.rets >>= λ r'.
                if is_fail r'
                then pure subtype_fail
                else pure (if modes_equal n1.modes n2.modes then subtype_ok else subtype_fail)))

    unfoldable pub check_service_subtype :
        List (Name × Ref) → List (Name × Ref) → Check SubtypeResult
    unfolding ◌>>=◌
    check_service_subtype methods1 [] = pure subtype_ok
    check_service_subtype methods1 ((name, t2) ∷ methods2) =
        let rest = check_service_subtype methods1 methods2 in
        elim (find_service_method methods1 name) [
          | none ↦ pure subtype_fail
          | some t1 ↦ check t1 t2 >>= λ r. if is_fail r then pure subtype_fail else rest
        ]

    -- From the first rule for a second type of kind OPT on.
    unfoldable pub check_opt_rules : OptReport → Ref → Node → Node → Check SubtypeResult
    unfolding ◌>>=◌ check_opt_subtype_opt check_opt_subtype_wrap
    check_opt_rules report t1 n1 n2 =
        if is_ok (check_opt_subtype_null n1.kind n2.kind)
        then pure subtype_ok
        else (check_opt_subtype_opt n1 n2 >>= λ r.
            if is_ok r
            then pure r
            else (check_opt_subtype_wrap t1 n2 >>= λ r'.
                if is_ok r' then pure r' else pure (check_opt_subtype_special report)))

    unfoldable pub check_composite : Node → Node → Check SubtypeResult
    unfolding check_record_subtype check_variant_subtype check_func_subtype check_service_subtype
    check_composite n1 n2 =
        if n1.kind is Kind.record_of && n2.kind is Kind.record_of
        then check_record_subtype n1.fields n2.fields
        else if n1.kind is Kind.variant && n2.kind is Kind.variant
        then check_variant_subtype n1.fields n2.fields
        else if n1.kind is Kind.func && n2.kind is Kind.func
        then check_func_subtype n1 n2
        else if n1.kind is Kind.service && n2.kind is Kind.service
        then check_service_subtype n1.methods n2.methods
        else pure subtype_fail

    -- `subtype_check_impl` on types that are no names.
    unfoldable pub check_rules : OptReport → Ref → Ref → Check SubtypeResult
    unfolding ◌>>=◌ check_vec_subtype check_opt_rules check_composite
    check_rules report t1 t2 =
        let n1 = type_at t1 in
        let n2 = type_at t2 in
        if is_ok (check_base_subtype_rules n1.kind n2.kind)
        then pure subtype_ok
        else (check_vec_subtype n1 n2 >>= λ r.
            if is_fail r
            then (if n2.kind is Kind.opt
                then check_opt_rules report t1 n1 n2
                else check_composite n1 n2)
            else pure r)

    module _ (hash : Ref → Ref → ℕ) (malloc : ℕ → Bool) where
      -- FAIL, after the pair is removed again.
      unfoldable pub drop_pair : Ref → Ref → Check SubtypeResult
      unfolding idl_gamma_remove
      drop_pair t1 t2 g = some (subtype_fail, idl_gamma_remove hash g t1 t2)

      -- On what the two types stand for.
      unfoldable pub check_resolved : Ref → Ref → Option Ref → Option Ref → Check SubtypeResult
      unfolding ◌>>=◌ drop_pair
      check_resolved t1 t2 none o2 = drop_pair t1 t2
      check_resolved t1 t2 (some r1) none = drop_pair t1 t2
      check_resolved t1 t2 (some r1) (some r2) =
          check r1 r2 >>= λ r. if is_fail r then drop_pair t1 t2 else pure r

      unfoldable pub check_assumed : Ref → Ref → Check SubtypeResult
      unfolding ◌>>=◌ resolve_type check_resolved
      check_assumed t1 t2 =
          resolve_type t1 >>= λ o1. resolve_type t2 >>= λ o2. check_resolved t1 t2 o1 o2

      -- A type is a name: the pair is assumed while what the names stand for is checked.
      unfoldable pub subtype_check_var_case : Ref → Ref → Check SubtypeResult
      unfolding idl_gamma_insert check_assumed
      subtype_check_var_case t1 t2 g =
          let (added, g') = idl_gamma_insert hash malloc g t1 t2 in
          if added then check_assumed t1 t2 g' else some (subtype_ok, g)

module _ (type_at : Ref → Node) (find : Name → Option Ref) (links : ℕ) (hash : Ref → Ref → ℕ)
    (malloc : ℕ → Bool) (report : OptReport) where
  unfoldable pub subtype_check_impl : ℕ → Ref → Ref → Check SubtypeResult
  unfolding check_rules subtype_check_var_case
  subtype_check_impl zero t1 t2 = λ g. none
  subtype_check_impl (suc fuel) t1 t2 =
      let again = subtype_check_impl fuel in
      if t1 == t2
      then pure subtype_ok
      else if (type_at t1).kind is Kind.var || (type_at t2).kind is Kind.var
      then subtype_check_var_case type_at find links again hash malloc t1 t2
      else check_rules type_at find links again report t1 t2

  abbrev pub idl_subtype_check : ℕ → Ref → Ref → Check SubtypeResult
  idl_subtype_check = subtype_check_impl

-- With a table of its own, under the report `warning`; none is no result.
unfoldable pub idl_subtype :
    (Ref → Node)
    → (Name → Option Ref)
    → ℕ
    → (Ref → Ref → ℕ)
    → (ℕ → Bool)
    → ℕ
    → Arena
    → Ref
    → Ref
    → Option SubtypeResult
unfolding subtype_check_impl
idl_subtype type_at find links hash malloc fuel arena t1 t2 = elim (idl_gamma_init malloc arena) [
  | none ↦ some subtype_fail
  | some gamma ↦ elim (idl_subtype_check type_at find links hash malloc warning fuel t1 t2 gamma) [
    | none ↦ none
    | some (result, gamma') ↦ some result
  ]
]
