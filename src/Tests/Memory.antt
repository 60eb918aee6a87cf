-- ===== src/Tests/Memory.antt =====
-- The theorems on the arena at a block that is nearly full.
use lucid.Base.{ℕ, ◌+◌, ◌%◌, ◌≤◌, ◌≡◌, ◌≢◌, refl, arith, Bool, true, [], ◌∷◌}
use lucid.Base.{some}
use lucid.Idl.Arena.{
  Arena, IsArena, used_of, capacity_of, align_size, idl_arena_alloc, idl_arena_add_block,
  idl_arena_alloc_fresh,
}

abbrev grants : ℕ → Bool
grants n = true

abbrev nearly_full : Arena
nearly_full = record {
  blocks = record { capacity = 16; used = 12 } ∷ record { capacity = 8; used = 8 } ∷ [];
  default_block_size = 16;
}

-- Five bytes need a third block.
abbrev grown : Arena
grown = record {
  blocks = record { capacity = 16; used = 8 } ∷ nearly_full.blocks;
  default_block_size = 16;
}

nearly_full-IsArena : IsArena nearly_full
nearly_full-IsArena = (omega arith, (omega arith, tt))

alloc_five : idl_arena_alloc grants nearly_full 5 ≡ some ((2, 0), grown)
unfolding idl_arena_alloc idl_arena_add_block align_size
alloc_five = refl

idl_arena_alloc_fresh_example :
    IsArena grown
    × (0 ≡ used_of nearly_full.blocks 2)
    × (0 + 5 ≤ used_of grown.blocks 2)
    × (used_of grown.blocks 2 ≤ 0 + 5 + 3)
    × (used_of grown.blocks 2 ≤ capacity_of grown.blocks 2)
    × (0 % 4 ≡ 0 → used_of grown.blocks 2 % 4 ≡ 0)
    × ((i : ℕ) → i ≢ 2 → used_of grown.blocks i ≡ used_of nearly_full.blocks i)
idl_arena_alloc_fresh_example =
    idl_arena_alloc_fresh grants nearly_full grown 5 2 0 nearly_full-IsArena (omega arith)
      alloc_five

grants_all : (n : ℕ) → grants n ≡ true
grants_all n = refl

five_bytes : ◌≢◌ {A = ℕ} 5 0
five_bytes e = absurd (omega (arith, e))
