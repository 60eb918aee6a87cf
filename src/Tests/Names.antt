-- ===== src/Tests/Names.antt =====
-- The theorems on the type environment at an environment of two names.
use lucid.Base.{
  ℕ, ◌%◌, ◌<◌, ◌≡◌, refl, ap, sym, ◌∙◌, arith, Bool, true, false, [], ◌∷◌, Option, some, none,
  if◌then◌else◌, Bool-cases, inl, inr, replicate,
}
use lucid.Base.Array.{get_at}
use lucid.Status.{ok, stuck}
use lucid.Idl.Arena.{Arena, idl_arena_init}
use lucid.Idl.Types.{Name, IdlType}
use lucid.Idl.TypeEnv.{
  TypeEnv, idl_type_env_find, idl_type_env_trace, find_in, name_equal, hash_string,
}
use lucid.Idl.TypeEnv.Trace.{IsFinal, idl_type_env_trace-ends, idl_type_env_trace-cycle}

abbrev grants : ℕ → Bool
grants n = true

abbrev arena : Arena
arena = idl_arena_init 4096

abbrev fresh : TypeEnv ℕ
fresh = record {
  arena = record {
    blocks = record { capacity = 4096; used = 128 } ∷ [];
    default_block_size = 4096;
  };
  buckets = replicate 32 [];
  bucket_count = 32;
  count = 0;
}

abbrev name_a : Name
name_a = 97 ∷ []

abbrev name_b : Name
name_b = 98 ∷ []

-- `a` is bound to the name given.
abbrev a_is : Name → TypeEnv IdlType
a_is name = record {
  arena = arena;
  buckets = ((name_a, IdlType.var name) ∷ []) ∷ [];
  bucket_count = 1;
  count = 1;
}

abbrev rank : Name → ℕ
rank name = if name_equal name_a name then 1 else 0

find_a :
    (name : Name)
    → idl_type_env_find (a_is name_b) name
      ≡ (if name_equal name_a name then some (IdlType.var name_b) else none)
unfolding idl_type_env_find find_in get_at
find_a name =
    ap (λ (i : ℕ). find_in (get_at [] (a_is name_b).buckets i) name) {x = hash_string name % 1}
      {y = 0} (omega arith)

down :
    (name next : Name)
    → idl_type_env_find (a_is name_b) name ≡ some (IdlType.var next)
    → rank next < rank name
unfolding name_equal
down name next e = elim (Bool-cases (name_equal name_a name)) [
  | inl is ↦ ground (arith, ap rank (target (found is)), is)
  | inr other ↦ absurd (nowhere (missing other))
]
  where
    found :
        name_equal name_a name ≡ true
        → ◌≡◌ {A = Option IdlType} (some (IdlType.var name_b)) (some (IdlType.var next))
    found h = sym (find_a name ∙ ap (λ c. if c then some (IdlType.var name_b) else none) h) ∙ e

    target :
        ◌≡◌ {A = Option IdlType} (some (IdlType.var name_b)) (some (IdlType.var next))
        → name_b ≡ next
    target h = cc

    missing :
        name_equal name_a name ≡ false → ◌≡◌ {A = Option IdlType} none (some (IdlType.var next))
    missing h = sym (find_a name ∙ ap (λ c. if c then some (IdlType.var name_b) else none) h) ∙ e

    nowhere : ◌≡◌ {A = Option IdlType} none (some (IdlType.var next)) → ⊥
    nowhere h = cc

idl_type_env_trace-ends_example :
    (o : Option IdlType) × (idl_type_env_trace 3 (a_is name_b) (IdlType.var name_a) ≡ ok o)
    × IsFinal o
unfolding name_equal
idl_type_env_trace-ends_example =
    idl_type_env_trace-ends (a_is name_b) rank down 3 (IdlType.var name_a) (omega arith)

a_is_a : idl_type_env_find (a_is name_a) name_a ≡ some (IdlType.var name_a)
unfolding idl_type_env_find find_in get_at name_equal hash_string
a_is_a = refl

idl_type_env_trace-cycle_example : idl_type_env_trace 7 (a_is name_a) (IdlType.var name_a) ≡ stuck
idl_type_env_trace-cycle_example =
    idl_type_env_trace-cycle (a_is name_a) (λ n. n ≡ name_a)
      (λ n e. (name_a, ap (idl_type_env_find (a_is name_a)) e ∙ a_is_a, refl)) 7 name_a refl
