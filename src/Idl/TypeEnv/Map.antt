-- ===== src/Idl/TypeEnv/Map.antt =====
-- The type environment as a map from names to types that never changes a binding.
use lucid.Base.{
  ℕ, zero, suc, ◌+◌, ◌%◌, ◌≡◌, refl, ap, sym, ◌∙◌, subst, arith, Bool, Bool-cases, Option-cases,
  ◌⊎◌, inl, inr,
}
use lucid.Base.{List, [], Option, none, some, if◌then◌else◌, length, replicate}
use lucid.Base.Array.{get_at}
use lucid.Base.Word.{size_mod}
use lucid.Status.{Error, alloc, invalid_arg}
use lucid.Idl.Arena.{Arena, Address, idl_arena_alloc}
use lucid.Idl.Types.{Name}
use lucid.Idl.TypeEnv.{
  TypeEnv, hash_string, name_equal, find_in, idl_type_env_find, add_entry, idl_type_env_insert,
  idl_type_env_init,
}
use lucid.Idl.TypeEnv.{entry_size, initial_bucket_count}
use lucid.Idl.TypeEnv.Buckets.{total, IsBucket, IsEnv, bound_in, bound_in-find, bound_in-IsEnv}

module _ {T : Type 0} where
  -- What an insertion returns in `env`.
  abbrev pub Inserts : TypeEnv T → (T → T → Bool) → Name → T → Option Error × TypeEnv T → Type 0
  Inserts env same name type (status, env') =
      IsEnv env'
      × (((bound : T) × (idl_type_env_find env name ≡ some bound)
            × (env' ≡ env)
            × (status ≡ (if same bound type then none else some invalid_arg)))
          ⊎ ((idl_type_env_find env name ≡ none)
              × (((status ≡ some alloc)
                    × (env'.count ≡ env.count)
                    × ((other : Name) → idl_type_env_find env' other ≡ idl_type_env_find env other))
                  ⊎ ((status ≡ none)
                      × (env'.count ≡ (env.count + 1) % size_mod)
                      × ((other : Name)
                          → idl_type_env_find env' other ≡ (
                              if name_equal name other
                              then some type
                              else idl_type_env_find env other))))))

  module _ (malloc : ℕ → Bool) (same : T → T → Bool) (env : TypeEnv T) (v : IsEnv env) (name : Name)
      (type : T) where
    bound_run :
        (bound : T)
        → idl_type_env_find env name ≡ some bound
        → idl_type_env_insert malloc same env name type
          ≡ (if same bound type then (none, env) else (some invalid_arg, env))
    unfolding idl_type_env_find idl_type_env_insert
    bound_run bound e = ground (arith, e)

    unbound_run :
        idl_type_env_find env name ≡ none
        → idl_type_env_insert malloc same env name type ≡ add_entry malloc env name type
    unfolding idl_type_env_find idl_type_env_insert
    unbound_run e = ground (arith, e)

    add_entry-Inserts :
        idl_type_env_find env name ≡ none
        → Inserts env same name type (add_entry malloc env name type)
    add_entry-Inserts unbound = elim (Option-cases (idl_arena_alloc malloc env.arena entry_size)) [
      | inl refused ↦
          subst (Inserts env same name type) (sym (no_entry refused))
            (v, inr (unbound, inl (refl, refl, λ other. refl)))
      | inr ((entry, arena'), granted) ↦
          elim (Option-cases (idl_arena_alloc malloc arena' (length name + 1))) [
            | inl refused ↦
                subst (Inserts env same name type) (sym (no_name entry arena' granted refused))
                  (moved arena', inr (unbound, inl (refl, refl, λ other. kept arena' other)))
            | inr ((copy, arena''), granted') ↦
                subst (Inserts env same name type)
                  (sym (added entry copy arena' arena'' granted granted'))
                  (
                    bound_in-IsEnv env v name type arena'' unbound,
                    inr (
                      unbound,
                      inr (refl, refl, λ other. bound_in-find env v name type arena'' other),
                    ),
                  )
          ]
    ]
      where
        no_entry :
            idl_arena_alloc malloc env.arena entry_size ≡ none
            → add_entry malloc env name type ≡ (some alloc, env)
        no_entry e = unfold add_entry in ground (arith, e)

        no_name :
            (entry : Address) (arena' : Arena)
            → idl_arena_alloc malloc env.arena entry_size ≡ some (entry, arena')
            → idl_arena_alloc malloc arena' (length name + 1) ≡ none
            → add_entry malloc env name type ≡ (some alloc, record env { arena = arena' })
        no_name entry arena' e f = unfold add_entry in ground (arith, e, f)

        added :
            (entry copy : Address) (arena' arena'' : Arena)
            → idl_arena_alloc malloc env.arena entry_size ≡ some (entry, arena')
            → idl_arena_alloc malloc arena' (length name + 1) ≡ some (copy, arena'')
            → add_entry malloc env name type ≡ (none, bound_in env name type arena'')
        added entry copy arena' arena'' e f = unfold add_entry in ground (arith, e, f)

        moved : (a : Arena) → IsEnv (record env { arena = a })
        moved a = record {
          full = v.full;
          some_bucket = v.some_bucket;
          each = v.each;
          counted = v.counted;
        }

        kept :
            (a : Arena) (other : Name)
            → idl_type_env_find (record env { arena = a }) other ≡ idl_type_env_find env other
        kept a other = unfold idl_type_env_find in refl

    pub idl_type_env_insert-Inserts :
        Inserts env same name type (idl_type_env_insert malloc same env name type)
    idl_type_env_insert-Inserts = elim (Option-cases (idl_type_env_find env name)) [
      | inl unbound ↦
          subst (Inserts env same name type) (sym (unbound_run unbound)) (add_entry-Inserts unbound)
      | inr (bound, is) ↦ elim (Bool-cases (same bound type)) [
        | inl equal ↦
            subst (Inserts env same name type)
              (sym (
                bound_run bound is
                ∙ ap (λ c. if c then (none, env) else (some invalid_arg, env)) equal))
              (v, inl (bound, is, refl, ap (λ c. if c then none else some invalid_arg) (sym equal)))
        | inr differs ↦
            subst (Inserts env same name type)
              (sym (
                bound_run bound is
                ∙ ap (λ c. if c then (none, env) else (some invalid_arg, env)) differs))
              (
                v,
                inl (bound, is, refl, ap (λ c. if c then none else some invalid_arg) (sym differs)),
              )
      ]
    ]

  blank_at : (k i : ℕ) → get_at {A = List (Name × T)} [] (replicate k []) i ≡ []
  unfolding get_at
  blank_at zero i = refl
  blank_at (suc k) zero = refl
  blank_at (suc k) (suc i) = blank_at k i

  abbrev blank : Arena → TypeEnv T
  blank a = record {
    arena = a;
    buckets = replicate initial_bucket_count [];
    bucket_count = initial_bucket_count;
    count = 0;
  }

  init_blank :
      (malloc : ℕ → Bool) (arena : Arena) (env : TypeEnv T)
      → idl_type_env_init malloc arena ≡ some env
      → (a : Arena) × (blank a ≡ env)
  init_blank malloc arena env run = elim (Option-cases (idl_arena_alloc malloc arena 128)) [
    | inl refused ↦ absurd (nothing (unset refused))
    | inr ((address, a), granted) ↦ (a, same (set_up address a granted))
  ]
    where
      unset :
          idl_arena_alloc malloc arena 128 ≡ none → idl_type_env_init {T = T} malloc arena ≡ none
      unset e = unfold idl_type_env_init in ground (arith, e)

      set_up :
          (address : Address) (a : Arena)
          → idl_arena_alloc malloc arena 128 ≡ some (address, a)
          → idl_type_env_init {T = T} malloc arena ≡ some (blank a)
      set_up address a e = unfold idl_type_env_init in ground (arith, e)

      nothing : idl_type_env_init {T = T} malloc arena ≡ none → ⊥
      nothing e = cc

      same : {a : Arena} → idl_type_env_init {T = T} malloc arena ≡ some (blank a) → blank a ≡ env
      same e = cc

  -- An environment that was initialized is well formed.
  pub idl_type_env_init-IsEnv :
      (malloc : ℕ → Bool) (arena : Arena) (env : TypeEnv T)
      → idl_type_env_init malloc arena ≡ some env
      → IsEnv env
  idl_type_env_init-IsEnv malloc arena env run =
      let (a, same) = init_blank malloc arena env run in subst IsEnv same (fresh a)
    where
      fresh : (a : Arena) → IsEnv (blank a)
      fresh a = record {
        full = refl;
        some_bucket = omega arith;
        each =
            λ i. subst (IsBucket initial_bucket_count i) (sym (blank_at initial_bucket_count i)) tt;
        counted = unfold total in refl;
      }

  -- And it binds nothing.
  pub idl_type_env_init-find :
      (malloc : ℕ → Bool) (arena : Arena) (env : TypeEnv T) (name : Name)
      → idl_type_env_init malloc arena ≡ some env
      → idl_type_env_find env name ≡ none
  unfolding idl_type_env_find find_in
  idl_type_env_init-find malloc arena env name run =
      let (a, same) = init_blank malloc arena env run in
      subst (λ v. idl_type_env_find v name ≡ none) same
        (ap (λ b. find_in b name) (blank_at initial_bucket_count (hash_string name % 32)))
