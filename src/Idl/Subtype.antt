-- ===== src/Idl/Subtype.antt =====
-- c_candid/runtime/runtime/src/subtype.c: the subtype check with its table of assumptions, gamma.
-- A pointer to a type is a number, `Ref`, and `type_at` is what it points to: the check compares
-- pointers, and types may be shared or circular. `find` is idl_type_env_find. No argument is NULL.
pub mod Check
pub mod Rules
pub mod Entries
pub mod Table
pub mod Kept
pub mod Assumptions
pub mod Ends
pub mod Layers
pub mod Kinds
pub mod Relation
pub mod Judges
pub mod Composite
pub mod Basics
pub mod Lists
pub mod Decides
use lucid.Base.{
  ℕ, zero, suc, ◌-◌, ◌*◌, ◌%◌, ◌^◌, Bool, true, false, not, ◌&&◌, ◌||◌, List, [], ◌∷◌, Option, none,
  some,
}
use lucid.Base.{◌==◌, if◌then◌else◌, ltb, length, set, replicate, bit_xor}
use lucid.Base.Array.{get_at}
use lucid.Idl.Arena.{Arena, idl_arena_alloc}
use lucid.Idl.Types.{Name, FuncMode, query, oneway, composite_query}
use lucid.Idl.TypeEnv.{name_equal}

abbrev pub Ref : Type 0
Ref = ℕ

-- `idl_kind`.
pub data Kind : Type 0 where
  null bool nat int nat8 nat16 nat32 nat64 int8 int16 int32 int64 float32 float64 : Kind
  text reserved empty principal opt vec record_of variant func service var : Kind

abbrev pub kind_code : Kind → ℕ
kind_code Kind.null = 0
kind_code Kind.bool = 1
kind_code Kind.nat = 2
kind_code Kind.int = 3
kind_code Kind.nat8 = 4
kind_code Kind.nat16 = 5
kind_code Kind.nat32 = 6
kind_code Kind.nat64 = 7
kind_code Kind.int8 = 8
kind_code Kind.int16 = 9
kind_code Kind.int32 = 10
kind_code Kind.int64 = 11
kind_code Kind.float32 = 12
kind_code Kind.float64 = 13
kind_code Kind.text = 14
kind_code Kind.reserved = 15
kind_code Kind.empty = 16
kind_code Kind.principal = 17
kind_code Kind.opt = 18
kind_code Kind.vec = 19
kind_code Kind.record_of = 20
kind_code Kind.variant = 21
kind_code Kind.func = 22
kind_code Kind.service = 23
kind_code Kind.var = 24

infix 50 ◌is◌
abbrev pub ◌is◌ : Kind → Kind → Bool
a is b = kind_code a == kind_code b

-- `idl_type`: its kind, and what its union holds for the kinds that have data.
pub record Node : Type 0 where
  pub kind : Kind
  pub inner : Ref
  pub fields : List (ℕ × Ref)
  pub args : List Ref
  pub rets : List Ref
  pub modes : List FuncMode
  pub methods : List (Name × Ref)
  pub var_name : Name

pub data SubtypeResult : Type 0 where
  subtype_ok subtype_fail opt_special : SubtypeResult

pub data OptReport : Type 0 where
  silence warning error : OptReport

-- `idl_gamma`: the pairs of each bucket, the latest first.
pub record Gamma : Type 0 where
  pub arena : Arena
  pub buckets : List (List (Ref × Ref))
  pub bucket_count : ℕ
  pub count : ℕ

-- sizeof(idl_gamma_entry) and sizeof(idl_gamma_entry *) on wasm32.
abbrev gamma_entry_size : ℕ
gamma_entry_size = 12

abbrev gamma_pointer_size : ℕ
gamma_pointer_size = 4

abbrev gamma_bucket_count : ℕ
gamma_bucket_count = 64

-- none is the allocation failure.
unfoldable pub idl_gamma_init : (ℕ → Bool) → Arena → Option Gamma
idl_gamma_init malloc arena =
    elim (idl_arena_alloc malloc arena (gamma_pointer_size * gamma_bucket_count)) [
      | none ↦ none
      | some (address, arena') ↦ some (record {
        arena = arena';
        buckets = replicate gamma_bucket_count [];
        bucket_count = gamma_bucket_count;
        count = 0;
      })
    ]

unfoldable pub has_pair : List (Ref × Ref) → Ref → Ref → Bool
has_pair [] t1 t2 = false
has_pair ((a, b) ∷ entries) t1 t2 = a == t1 && b == t2 || has_pair entries t1 t2

-- The first entry of the pair is unlinked; none if there is no such entry.
unfoldable pub unlink : List (Ref × Ref) → Ref → Ref → Option (List (Ref × Ref))
unlink [] t1 t2 = none
unlink ((a, b) ∷ entries) t1 t2 =
    let rest = unlink entries t1 t2 in
    if a == t1 && b == t2
    then some entries
    else elim rest [ none ↦ none | some entries' ↦ some ((a, b) ∷ entries') ]

-- The addresses are the allocator's; a uintptr_t has 32 bits.
unfoldable pub hash_type_pair : (Ref → ℕ) → Ref → Ref → ℕ
hash_type_pair address t1 t2 = bit_xor (address t1 * 31 % 2 ^ 32) (address t2)

-- `hash` is `hash_type_pair` at some addresses; nothing below depends on which.
module _ (hash : Ref → Ref → ℕ) where
  abbrev pub pair_bucket : Gamma → Ref → Ref → ℕ
  pair_bucket g t1 t2 = hash t1 t2 % g.bucket_count

  unfoldable pub idl_gamma_contains : Gamma → Ref → Ref → Bool
  unfolding get_at has_pair
  idl_gamma_contains g t1 t2 = has_pair (get_at [] g.buckets (pair_bucket g t1 t2)) t1 t2

  -- Whether the pair was added, which it is not where it is there or memory is refused.
  unfoldable pub idl_gamma_insert : (ℕ → Bool) → Gamma → Ref → Ref → Bool × Gamma
  unfolding get_at idl_gamma_contains
  idl_gamma_insert malloc g t1 t2 =
      let bucket = pair_bucket g t1 t2 in
      if idl_gamma_contains g t1 t2
      then (false, g)
      else elim (idl_arena_alloc malloc g.arena gamma_entry_size) [
        | none ↦ (false, g)
        | some (entry, arena') ↦ (
          true,
          record g {
            arena = arena';
            buckets = set g.buckets bucket ((t1, t2) ∷ get_at [] g.buckets bucket);
            count = suc g.count;
          },
        )
      ]

  unfoldable pub idl_gamma_remove : Gamma → Ref → Ref → Gamma
  unfolding get_at unlink
  idl_gamma_remove g t1 t2 =
      let bucket = pair_bucket g t1 t2 in
      elim (unlink (get_at [] g.buckets bucket) t1 t2) [
        | none ↦ g
        | some entries ↦ record g { buckets = set g.buckets bucket entries; count = g.count - 1 }
      ]
