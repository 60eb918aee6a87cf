-- ===== src/Idl/Header/Described.antt =====
-- The bytes of the header of a message, what its table binds, and the type environment of type_env.c while
-- memory is granted.
use lucid.Base.{
  ℕ, ◌%◌, ◌+◌, ◌*◌, ◌<◌, Bool, true, false, List, [], ◌∷◌, ◌++◌, ◌≡◌, sym, subst, arith,
}
use lucid.Base.{Option, none, some, length, if◌then◌else◌, replicate, set}
use lucid.Base.Array.{get_at}
use lucid.Base.Int.{ℤ}
use lucid.Base.Word.{size_mod}
use lucid.Status.{Result, ok}
use lucid.Idl.Arena.{Arena, idl_arena_alloc_granted}
use lucid.Idl.Types.{Name, IdlType}
use lucid.Idl.TypeEnv.{
  TypeEnv, idl_type_env_init, idl_type_env_find, idl_type_env_insert, add_entry, name_equal,
  entry_pointer_size, entry_size, initial_bucket_count, bucket_of,
}
use lucid.Idl.Serializer.Wire.{uleb}
use lucid.Idl.Header.{Header, magic}
use lucid.Idl.Header.Read.{lift}
use lucid.Idl.Header.Composite.{make_table_var}
use lucid.Idl.Header.Answers.{Answers, Answers-pure}
use lucid.Idl.Header.Form.{Ref, Entry, table_wire, list_wire, entry_type, list_type}

-- The header of a message with these entries, and arguments of these types.
unfoldable pub header_wire : List Entry → List Ref → List ℕ
unfolding table_wire list_wire
header_wire es args = magic ++ (uleb (length es) ++ (table_wire es ++ list_wire args))

-- What the table binds a name to, from its entry `i` on.
unfoldable pub bound_type : (ℤ → Name) → ℕ → List Entry → Name → Option IdlType
unfolding make_table_var entry_type name_equal
bound_type print_long i [] name = none
bound_type print_long i (e ∷ es) name =
    if name_equal (make_table_var print_long i) name
    then some (entry_type print_long e)
    else bound_type print_long (i + 1) es name

-- The entries of a table have different names.
abbrev pub HasNames : (ℤ → Name) → ℕ → Type 0
HasNames print_long table_len =
    (i j : ℕ)
    → i < table_len
    → j < table_len
    → make_table_var print_long i ≡ make_table_var print_long j
    → i ≡ j

pub Answers-known : {A : Type 0} (r : Result A) (a : A) → r ≡ ok a → Answers (lift r) [] (ok a)
Answers-known r a e = subst (λ s. Answers (lift s) [] (ok a)) (sym e) (Answers-pure a)

-- The header of a wire form, and what its table binds.
abbrev pub Describes : (ℤ → Name) → List Entry → List Ref → Header → Type 0
Describes print_long es args header =
    (header.arg_types ≡ list_type print_long args)
    × ((name : Name) → idl_type_env_find header.env name ≡ bound_type print_long 0 es name)

module _ (malloc : ℕ → Bool) (granted : (n : ℕ) → malloc n ≡ true) where
  pub insert_granted :
      (env : TypeEnv IdlType) (name : Name) (type : IdlType)
      → idl_type_env_find env name ≡ none
      → (env' : TypeEnv IdlType) × (idl_type_env_insert malloc (λ bound new. false) env name type
          ≡ (none, env'))
  unfolding idl_type_env_insert idl_type_env_find add_entry
  insert_granted env name type unbound =
      let ((entry, a), first) =
        idl_arena_alloc_granted malloc granted env.arena entry_size (λ e. omega (arith, e)) in
      let ((copy, a'), second) =
        idl_arena_alloc_granted malloc granted a (length name + 1) (λ e. omega (arith, e)) in
      let bucket = bucket_of env name in
      (
        record env {
          arena = a';
          buckets = set env.buckets bucket ((name, type) ∷ get_at [] env.buckets bucket);
          count = (env.count + 1) % size_mod;
        },
        ground (arith, unbound, first, second),
      )

  pub init_granted :
      (arena : Arena) → (env : TypeEnv IdlType) × (idl_type_env_init malloc arena ≡ some env)
  unfolding idl_type_env_init
  init_granted arena =
      let ((address, a), e) =
        idl_arena_alloc_granted malloc granted arena (entry_pointer_size * initial_bucket_count)
          (λ e. omega (arith, e)) in
      (
        record {
          arena = a;
          buckets = replicate initial_bucket_count [];
          bucket_count = initial_bucket_count;
          count = 0;
        },
        ground (arith, e),
      )
