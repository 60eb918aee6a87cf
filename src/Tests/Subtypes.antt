-- ===== src/Tests/Subtypes.antt =====
-- The theorems on the subtype check at two names, for nat and for int, and at two options.
use lucid.Base.{
  ℕ, ◌+◌, ◌*◌, ◌≡◌, ◌≢◌, refl, arith, Bool, true, false, [], ◌∷◌, Option, some, none, ◌==◌,
  if◌then◌else◌, ◌||◌,
}
use lucid.Idl.Arena.{align_size, idl_arena_alloc}
use lucid.Idl.Types.{Name}
use lucid.Idl.Subtype.{
  Ref, Kind, Node, ◌is◌, subtype_fail, silence, Gamma, has_pair, idl_gamma_contains,
}
use lucid.Idl.Subtype.Check.{subtype_check_impl}
use lucid.Idl.Subtype.Rules.{IsGamma}
use lucid.Idl.Subtype.Assumptions.{subtype_check_impl-Grows}

abbrev grants : ℕ → Bool
grants n = true

abbrev plain : Kind → Name → Node
plain kind name = record {
  kind = kind;
  inner = 0;
  fields = [];
  args = [];
  rets = [];
  modes = [];
  methods = [];
  var_name = name;
}

-- 0 and 1 are the names `a` and `b`, 2 is nat, any other int.
abbrev type_at : Ref → Node
type_at t =
    if t == 0
    then plain Kind.var (97 ∷ [])
    else if t == 1
    then plain Kind.var (98 ∷ [])
    else if t == 2
    then plain Kind.nat []
    else plain Kind.int []

abbrev find : Name → Option Ref
find [] = none
find (char ∷ name) = if char == 97 then some 2 else some 3

abbrev hash : Ref → Ref → ℕ
hash t1 t2 = t1 * 31 + t2

abbrev before : Gamma
before = record {
  arena = record { blocks = record { capacity = 4096; used = 0 } ∷ []; default_block_size = 4096 };
  buckets = [] ∷ ((5, 6) ∷ []) ∷ [];
  bucket_count = 2;
  count = 1;
}

-- The pair that was added is taken out again; the arena keeps its place.
abbrev after : Gamma
after = record {
  arena = record { blocks = record { capacity = 4096; used = 12 } ∷ []; default_block_size = 4096 };
  buckets = [] ∷ ((5, 6) ∷ []) ∷ [];
  bucket_count = 2;
  count = 1;
}

int_nat :
    subtype_check_impl type_at find 3 hash grants silence 3 1 0 before ≡ some (subtype_fail, after)
unfolding subtype_check_impl idl_arena_alloc align_size
int_nat = refl

before-IsGamma : IsGamma before
unfolding has_pair
before-IsGamma = (refl, omega arith, (tt, ((refl, tt), tt)))

subtype_check_impl-Grows_example :
    IsGamma after
    × ((a b : Ref)
        → idl_gamma_contains hash before a b ≡ true
        → idl_gamma_contains hash after a b ≡ true)
    × (◌≢◌ {A = ℕ} 1 0
        → ((type_at 1).kind is Kind.var || (type_at 0).kind is Kind.var) ≡ true
        → subtype_fail ≡ subtype_fail
        → idl_gamma_contains hash after 1 0 ≡ false)
subtype_check_impl-Grows_example =
    subtype_check_impl-Grows hash type_at find 3 grants silence 3 1 0 before after subtype_fail
      before-IsGamma int_nat

-- 0 and 1 are opt nat and opt int, 2 is nat, any other int.
abbrev opts : Ref → Node
opts t =
    if t == 0
    then record (plain Kind.opt []) { inner = 2 }
    else if t == 1
    then record (plain Kind.opt []) { inner = 3 }
    else if t == 2
    then plain Kind.nat []
    else plain Kind.int []

abbrev rank : Ref → ℕ
rank t = if t == 0 || t == 1 then 1 else 0
