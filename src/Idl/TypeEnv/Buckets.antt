-- ===== src/Idl/TypeEnv/Buckets.antt =====
-- The buckets of the type environment: each name is in the bucket of its hash, once.
use lucid.Base.{
  ℕ, zero, suc, ◌+◌, ◌%◌, ◌<◌, ◌≡◌, refl, ap, ap₂, sym, ◌∙◌, subst, arith, true, false, Bool-cases,
  inl, inr,
}
use lucid.Base.{List, [], ◌∷◌, none, some, ◌==◌, ==_iff, if◌then◌else◌, length, length-set, set}
use lucid.Base.Array.{get_at, get_at-set}
use lucid.Base.Word.{size_mod}
use lucid.Idl.Arena.{Arena}
use lucid.Idl.Types.{Name}
use lucid.Idl.TypeEnv.{TypeEnv, hash_string, name_equal, find_in, bucket_of, idl_type_env_find}

pub name_equal-eq : (a b : Name) → name_equal a b ≡ true → a ≡ b
unfolding name_equal
name_equal-eq [] [] h = refl
name_equal-eq [] (y ∷ ys) h = absurd (ground (arith, h))
name_equal-eq (x ∷ xs) [] h = absurd (ground (arith, h))
name_equal-eq (x ∷ xs) (y ∷ ys) h =
    ap₂ ◌∷◌ (ground (arith, h)) (name_equal-eq xs ys (ground (arith, h)))

module _ {T : Type 0} where
  -- The number of entries.
  unfoldable pub total : List (List (Name × T)) → ℕ
  total [] = 0
  total (b ∷ bs) = length b + total bs

  total-set :
      (bs : List (List (Name × T))) (i : ℕ) (e : Name × T)
      → i < length bs
      → total (set bs i (e ∷ get_at [] bs i)) ≡ suc (total bs)
  unfolding total get_at
  total-set [] i e h = absurd (omega (arith, h))
  total-set (b ∷ bs) zero e h = omega arith
  total-set (b ∷ bs) (suc i) e h = omega (arith, total-set bs i e (omega (arith, h)))

  -- The entries of bucket `i` of `n`: each name belongs there and stands once.
  abbrev pub IsBucket : ℕ → ℕ → List (Name × T) → Type 0
  IsBucket n i [] = Unit {0}
  IsBucket n i ((name, t) ∷ entries) =
      (hash_string name % n ≡ i) × (find_in entries name ≡ none) × IsBucket n i entries

  pub record IsEnv (env : TypeEnv T) : Type 0 where
    pub full : length env.buckets ≡ env.bucket_count
    pub some_bucket : 0 < env.bucket_count
    pub each : (i : ℕ) → IsBucket env.bucket_count i (get_at [] env.buckets i)
    pub counted : env.count ≡ total env.buckets % size_mod

  -- With the entry of `name` in front of its bucket.
  abbrev pub bound_in : TypeEnv T → Name → T → Arena → TypeEnv T
  bound_in env name type arena = record env {
    arena = arena;
    buckets =
        set env.buckets (bucket_of env name)
          ((name, type) ∷ get_at [] env.buckets (bucket_of env name));
    count = (env.count + 1) % size_mod;
  }

  find_in-other :
      (entries : List (Name × T)) (name other : Name) (type : T)
      → find_in ((name, type) ∷ entries) other
        ≡ (if name_equal name other then some type else find_in entries other)
  unfolding find_in
  find_in-other entries name other type = refl

  module _ (env : TypeEnv T) (v : IsEnv env) (name : Name) (type : T) (arena : Arena) where
    bucket_inside : bucket_of env name < length env.buckets
    bucket_inside = omega (arith, v.full, v.some_bucket)

    bucket_after :
        (i : ℕ)
        → get_at [] (bound_in env name type arena).buckets i ≡ (
            if bucket_of env name == i
            then (name, type) ∷ get_at [] env.buckets (bucket_of env name)
            else get_at [] env.buckets i)
    bucket_after i =
        get_at-set [] env.buckets (bucket_of env name) i
          ((name, type) ∷ get_at [] env.buckets (bucket_of env name)) bucket_inside

    bucket_here :
        (i : ℕ)
        → bucket_of env name == i ≡ true
        → get_at [] (bound_in env name type arena).buckets i
          ≡ (name, type) ∷ get_at [] env.buckets (bucket_of env name)
    bucket_here i h =
        bucket_after i
        ∙ ap
            (λ c.
              if c
              then (name, type) ∷ get_at [] env.buckets (bucket_of env name)
              else get_at [] env.buckets i)
            h

    bucket_elsewhere :
        (i : ℕ)
        → bucket_of env name == i ≡ false
        → get_at [] (bound_in env name type arena).buckets i ≡ get_at [] env.buckets i
    bucket_elsewhere i h =
        bucket_after i
        ∙ ap
            (λ c.
              if c
              then (name, type) ∷ get_at [] env.buckets (bucket_of env name)
              else get_at [] env.buckets i)
            h

    pub bound_in-find :
        (other : Name)
        → idl_type_env_find (bound_in env name type arena) other
          ≡ (if name_equal name other then some type else idl_type_env_find env other)
    unfolding idl_type_env_find
    bound_in-find other = elim (Bool-cases (bucket_of env name == bucket_of env other)) [
      | inl together ↦
          let there : bucket_of env name ≡ bucket_of env other =
            (==_iff (bucket_of env name) (bucket_of env other)).0 together in
          ap (λ b. find_in b other) (bucket_here (bucket_of env other) together)
          ∙ find_in-other (get_at [] env.buckets (bucket_of env name)) name other type
          ∙ ap
              (λ (i : ℕ).
                if name_equal name other
                then some type
                else find_in (get_at [] env.buckets i) other)
              there
      | inr apart ↦
          ap (λ b. find_in b other) (bucket_elsewhere (bucket_of env other) apart)
          ∙ elim (Bool-cases (name_equal name other)) [
            | inl same ↦ absurd (differ (name_equal-eq name other same) apart)
            | inr differs ↦
                ap (λ c. if c then some type else idl_type_env_find env other) (sym differs)
          ]
    ]
      where
        differ : name ≡ other → bucket_of env name == bucket_of env other ≡ false → ⊥
        differ e f = ground (arith, ap (bucket_of env) e, f)

    pub bound_in-IsEnv : idl_type_env_find env name ≡ none → IsEnv (bound_in env name type arena)
    unfolding idl_type_env_find
    bound_in-IsEnv unbound = record {
      full = length-set env.buckets (bucket_of env name) _ ∙ v.full;
      some_bucket = v.some_bucket;
      each = λ i. elim (Bool-cases (bucket_of env name == i)) [
        | inl here ↦
            let is : bucket_of env name ≡ i = (==_iff (bucket_of env name) i).0 here in
            subst (IsBucket env.bucket_count i) (sym (bucket_here i here)) (
              is,
              unbound,
              subst (λ j. IsBucket env.bucket_count j (get_at [] env.buckets (bucket_of env name)))
                  is (v.each (bucket_of env name)),
            )
        | inr elsewhere ↦
            subst (IsBucket env.bucket_count i) (sym (bucket_elsewhere i elsewhere)) (v.each i)
      ];
      counted =
          omega (
            arith,
            v.counted,
            total-set env.buckets (bucket_of env name) (name, type) bucket_inside,
          );
    }
