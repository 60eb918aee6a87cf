-- ===== src/Idl/TypeEnv.antt =====
-- c_candid/runtime/runtime/src/type_env.c: names bound to types, in a hash table with chaining. A bound
-- type is a pointer; `same` is the comparison of pointers. No argument is NULL. `malloc` says which
-- blocks the arena is granted.
pub mod Map
pub mod Buckets
pub mod Trace
use lucid.Base.{
  ℕ, zero, suc, ◌+◌, ◌*◌, ◌%◌, ◌^◌, Bool, true, false, ◌&&◌, List, [], ◌∷◌, Option, none, some,
}
use lucid.Base.{◌==◌, if◌then◌else◌, length, set, replicate}
use lucid.Base.Array.{get_at}
use lucid.Base.Word.{size_mod}
use lucid.Status.{Error, alloc, invalid_arg, Result, ok}
use lucid.Idl.Arena.{Arena, idl_arena_alloc}
use lucid.Idl.Types.{Name, IdlType}
use lucid.Idl.Deserializer.{trace}

unfoldable pub hash_from : Name → ℕ → ℕ
hash_from [] h = h
hash_from (char ∷ s) h = hash_from s (((h * 2 ^ 5 + h) % size_mod + char) % size_mod)

unfoldable pub hash_string : Name → ℕ
unfolding hash_from
hash_string s = hash_from s 5381

-- `strcmp(a, b) == 0`
unfoldable pub name_equal : Name → Name → Bool
name_equal [] [] = true
name_equal [] (y ∷ ys) = false
name_equal (x ∷ xs) [] = false
name_equal (x ∷ xs) (y ∷ ys) = x == y && name_equal xs ys

-- The entries of each bucket, the latest first.
pub record TypeEnv (T : Type 0) : Type 0 where
  pub arena : Arena
  pub buckets : List (List (Name × T))
  pub bucket_count : ℕ
  pub count : ℕ

abbrev pub initial_bucket_count : ℕ
initial_bucket_count = 32

-- sizeof(idl_type_env_entry) and sizeof(idl_type_env_entry *) on wasm32.
abbrev pub entry_size : ℕ
entry_size = 12

abbrev pub entry_pointer_size : ℕ
entry_pointer_size = 4

module _ {T : Type 0} where
  -- The loop over the entries of a bucket.
  unfoldable pub find_in : List (Name × T) → Name → Option T
  unfolding name_equal
  find_in [] name = none
  find_in ((n, t) ∷ entries) name = if name_equal n name then some t else find_in entries name

  abbrev pub bucket_of : TypeEnv T → Name → ℕ
  bucket_of env name = hash_string name % env.bucket_count

  unfoldable pub idl_type_env_find : TypeEnv T → Name → Option T
  unfolding find_in get_at
  idl_type_env_find env name = find_in (get_at [] env.buckets (bucket_of env name)) name

  unfoldable pub idl_type_env_count : TypeEnv T → ℕ
  idl_type_env_count env = env.count

  -- none is the allocation failure. The buckets are zeroed: they are empty.
  unfoldable pub idl_type_env_init : (ℕ → Bool) → Arena → Option (TypeEnv T)
  idl_type_env_init malloc arena =
      elim (idl_arena_alloc malloc arena (entry_pointer_size * initial_bucket_count)) [
        | none ↦ none
        | some (address, arena') ↦ some (record {
          arena = arena';
          buckets = replicate initial_bucket_count [];
          bucket_count = initial_bucket_count;
          count = 0;
        })
      ]

  -- A new entry in front of its bucket, with a copy of the name.
  unfoldable pub add_entry : (ℕ → Bool) → TypeEnv T → Name → T → Option Error × TypeEnv T
  unfolding get_at
  add_entry malloc env name type =
      let bucket = bucket_of env name in
      elim (idl_arena_alloc malloc env.arena entry_size) [
        | none ↦ (some alloc, env)
        | some (entry, arena') ↦ elim (idl_arena_alloc malloc arena' (length name + 1)) [
          | none ↦ (some alloc, record env { arena = arena' })
          | some (name_copy, arena'') ↦ (
            none,
            record env {
              arena = arena'';
              buckets = set env.buckets bucket ((name, type) ∷ get_at [] env.buckets bucket);
              count = (env.count + 1) % size_mod;
            },
          )
        ]
      ]

  -- The status, none for IDL_STATUS_OK, and the environment.
  unfoldable pub idl_type_env_insert :
      (ℕ → Bool) → (T → T → Bool) → TypeEnv T → Name → T → Option Error × TypeEnv T
  unfolding find_in get_at add_entry
  idl_type_env_insert malloc same env name type =
      elim (find_in (get_at [] env.buckets (bucket_of env name)) name) [
        | none ↦ add_entry malloc env name type
        | some bound ↦ if same bound type then (none, env) else (some invalid_arg, env)
      ]

-- The loop is `trace`, on fuel for the links between names.
unfoldable pub idl_type_env_rec_find : ℕ → TypeEnv IdlType → Name → Result (Option IdlType)
unfolding trace idl_type_env_find
idl_type_env_rec_find links env name = elim (idl_type_env_find env name) [
  | none ↦ ok none
  | some t ↦ trace (idl_type_env_find env) links t
]

unfoldable pub idl_type_env_trace : ℕ → TypeEnv IdlType → IdlType → Result (Option IdlType)
unfolding trace idl_type_env_find
idl_type_env_trace links env type = trace (idl_type_env_find env) links type
