-- ===== src/Idl/TypeEnv/Trace.antt =====
-- Following the names of a type environment: when it ends.
use lucid.Base.{
  ℕ, zero, suc, ◌<◌, ◌≡◌, refl, ◌∙◌, arith, Option, none, some, Option-cases, inl, inr,
}
use lucid.Status.{ok, stuck}
use lucid.Idl.Types.{Name, IdlType}
use lucid.Idl.Deserializer.{trace}
use lucid.Idl.TypeEnv.{TypeEnv, idl_type_env_find, idl_type_env_trace}

-- Not a name.
abbrev pub IsFinal : Option IdlType → Type 0
IsFinal none = Unit {0}
IsFinal (some (IdlType.var name)) = ⊥
IsFinal (some _) = Unit {0}

-- How many names there can be from a type on.
abbrev pub links_of : (Name → ℕ) → IdlType → ℕ
links_of rank (IdlType.var name) = suc (rank name)
links_of rank _ = 0

module _ (env : TypeEnv IdlType) where
  -- Where every name that is bound to a name comes before it in some order by numbers, following a type
  -- ends, with enough fuel for the number of the type, in a type that is no name, or in NULL.
  pub idl_type_env_trace-ends :
      (rank : Name → ℕ)
      → ((name next : Name)
          → idl_type_env_find env name ≡ some (IdlType.var next)
          → rank next < rank name)
      → (links : ℕ) (t : IdlType) → links_of rank t < links
      → (o : Option IdlType) × (idl_type_env_trace links env t ≡ ok o) × IsFinal o
  unfolding idl_type_env_trace trace
  idl_type_env_trace-ends rank down zero t h = absurd (omega (arith, h))
  idl_type_env_trace-ends rank down (suc links) (IdlType.var name) h =
      elim (Option-cases (idl_type_env_find env name)) [
        | inl unbound ↦ (none, unbound_run unbound, tt)
        | inr (t, bound) ↦
            let (o, run, final) = idl_type_env_trace-ends rank down links t (lower t bound) in
            (o, bound_run t bound ∙ run, final)
      ]
    where
      unbound_run :
          idl_type_env_find env name ≡ none
          → idl_type_env_trace (suc links) env (IdlType.var name) ≡ ok none
      unbound_run e = ground (arith, e)

      bound_run :
          (t : IdlType)
          → idl_type_env_find env name ≡ some t
          → idl_type_env_trace (suc links) env (IdlType.var name) ≡ idl_type_env_trace links env t
      bound_run t e = ground (arith, e)

      lower : (t : IdlType) → idl_type_env_find env name ≡ some t → links_of rank t < links
      lower (IdlType.var next) e = omega (arith, down name next e, h)
      lower t e = omega (arith, h)
  idl_type_env_trace-ends rank down (suc links) t h = (some t, refl, tt)

  -- Where each name of some set is bound to a name of the set, following one of them never ends: no fuel
  -- is enough.
  pub idl_type_env_trace-cycle :
      (Among : Name → Type 0)
      → ((name : Name)
          → Among name
          → (next : Name) × (idl_type_env_find env name ≡ some (IdlType.var next)) × Among next)
      → (links : ℕ) (name : Name) → Among name
      → idl_type_env_trace links env (IdlType.var name) ≡ stuck
  unfolding idl_type_env_trace trace
  idl_type_env_trace-cycle Among onward zero name a = refl
  idl_type_env_trace-cycle Among onward (suc links) name a =
      let (next, bound, a') = onward name a in
      run next bound ∙ idl_type_env_trace-cycle Among onward links next a'
    where
      run :
          (next : Name)
          → idl_type_env_find env name ≡ some (IdlType.var next)
          → idl_type_env_trace (suc links) env (IdlType.var name)
            ≡ idl_type_env_trace links env (IdlType.var next)
      run next e = ground (arith, e)
