-- ===== src/Idl/Arena.antt =====
-- c_candid/runtime/runtime/src/arena.c: a bump allocator over a list of blocks. An address is the
-- number of the block, counted from the oldest, and an offset in it. `malloc n` says whether the C
-- library grants a block of `n` bytes.
use lucid.Base.{ℕ, ◌+◌, ◌-◌, ◌%◌, ◌≤◌, ◌<◌, Bool, true, ◌&&◌, List, [], ◌∷◌}
use lucid.Base.{
  Option, none, some, ltb, ◌==◌, if◌then◌else◌, length, map, arith, ◌≡◌, ◌≢◌, ◌↔◌, All, refl,
}
use lucid.Base.{Bool-cases, inl, inr, subst}
use lucid.Base.Word.{size_mod, IsSize}
use lucid.Status.{Result, ok, err, alloc}

pub record Block : Type 0 where
  pub capacity : ℕ
  pub used : ℕ

-- The head of the list is the newest block, the only one that is allocated from.
pub record Arena : Type 0 where
  pub blocks : List Block
  pub default_block_size : ℕ

abbrev pub Address : Type 0
Address = ℕ × ℕ

-- sizeof(void *) and sizeof(idl_arena_block) on wasm32.
abbrev pointer_size : ℕ
pointer_size = 4

abbrev block_header_size : ℕ
block_header_size = 16

unfoldable pub align_size : ℕ → ℕ
align_size size =
    let rem = size % pointer_size in
    if rem == 0 then size else (size + (pointer_size - rem)) % size_mod

unfoldable pub idl_arena_init : ℕ → Arena
idl_arena_init default_block_size = record {
  blocks = [];
  default_block_size = if default_block_size == 0 then 4096 else default_block_size;
}

unfoldable pub idl_arena_reset : Arena → Arena
idl_arena_reset a = record a {
  blocks = map (λ b. record { capacity = b.capacity; used = 0 }) a.blocks;
}

unfoldable pub idl_arena_destroy : Arena → Arena
idl_arena_destroy a = record a { blocks = [] }

-- `capacity - used` of the head, where there is one.
abbrev lacks_room : List Block → ℕ → Bool
lacks_room [] size = true
lacks_room (b ∷ bs) size = ltb (b.capacity - b.used) size

-- `size` bytes of the head block.
abbrev take_head : Arena → ℕ → List Block → Option (Address × Arena)
take_head a size [] = none
take_head a size (b ∷ bs) = some (
  (length bs, b.used),
  record a { blocks = record { capacity = b.capacity; used = b.used + size } ∷ bs },
)

module _ (malloc : ℕ → Bool) where
  unfoldable pub idl_arena_add_block : Arena → ℕ → Result Arena
  idl_arena_add_block a min_size =
      let block_size =
        if ltb a.default_block_size min_size then min_size else a.default_block_size in
      if malloc block_header_size && malloc block_size
      then ok (record a { blocks = record { capacity = block_size; used = 0 } ∷ a.blocks })
      else err alloc

  -- none is NULL.
  unfoldable pub idl_arena_alloc : Arena → ℕ → Option (Address × Arena)
  unfolding idl_arena_add_block
  idl_arena_alloc a size =
      if size == 0
      then none
      else if lacks_room a.blocks (align_size size)
      then elim (idl_arena_add_block a (align_size size)) [
        | ok a' ↦ take_head a' (align_size size) a'.blocks
        | _ ↦ none
      ]
      else take_head a (align_size size) a.blocks

abbrev pub IsFilled : Block → Type 0
IsFilled b = b.used ≤ b.capacity

-- No block is used past its end.
abbrev pub IsArena : Arena → Type 0
IsArena a = All IsFilled a.blocks

-- The bytes of a block that are handed out.
abbrev pub used_of : List Block → ℕ → ℕ
used_of [] i = 0
used_of (b ∷ bs) i = if i == length bs then b.used else used_of bs i

abbrev pub capacity_of : List Block → ℕ → ℕ
capacity_of [] i = 0
capacity_of (b ∷ bs) i = if i == length bs then b.capacity else capacity_of bs i

used_beyond : (bs : List Block) (i : ℕ) → length bs ≤ i → used_of bs i ≡ 0
used_beyond [] i h = refl
used_beyond (b ∷ bs) i h = ground (arith, used_beyond bs i)

-- The first bytes that are free in `b`.
abbrev from_head : Block → List Block → ℕ → ℕ → Address × Arena
from_head b bs d size = (
  (length bs, b.used),
  record {
    blocks = record { capacity = b.capacity; used = b.used + size } ∷ bs;
    default_block_size = d;
  },
)

abbrev empty_block : ℕ → Block
empty_block capacity = record { capacity = capacity; used = 0 }

-- `size` bytes of `block` from `offset` on, taken out of `blocks`, which become `blocks'`.
abbrev Granted : List Block → ℕ → (Address × Arena) → ℕ → Type 0
Granted blocks size ((block, offset), a') i =
    IsArena a'
    × (offset ≡ used_of blocks block)
    × (offset + size ≤ capacity_of a'.blocks block)
    × (used_of a'.blocks i ≡ (if i == block then offset + size else used_of blocks i))

head_Granted :
    (b : Block) (bs : List Block) (d size i : ℕ)
    → b.used + size ≤ b.capacity
    → All IsFilled bs
    → Granted (b ∷ bs) size (from_head b bs d size) i
head_Granted b bs d size i h v = ground arith

new_Granted :
    (bs : List Block) (d capacity size i : ℕ)
    → size ≤ capacity
    → All IsFilled bs
    → Granted bs size (from_head (empty_block capacity) bs d size) i
new_Granted bs d capacity size i h v = ground (arith, used_beyond bs (length bs) (omega arith))

-- The size of a block that is added for `size` bytes.
abbrev block_size_for : ℕ → ℕ → ℕ
block_size_for d size = if ltb d size then size else d

module _ (malloc : ℕ → Bool) where
  -- An allocation that adds a block.
  grown_Granted :
      (bs : List Block) (d size i : ℕ) (granted : Address × Arena)
      → All IsFilled bs
      → lacks_room bs (align_size size) ≡ true
      → idl_arena_alloc malloc (record { blocks = bs; default_block_size = d }) size ≡ some granted
      → Granted bs (align_size size) granted i
  unfolding idl_arena_alloc idl_arena_add_block
  grown_Granted bs d size i granted v lacks e =
      let al = align_size size in
      let capacity = block_size_for d al in
      elim (Bool-cases (malloc block_header_size && malloc capacity)) [
        | inl got ↦
            let fits : al ≤ capacity = ground arith in
            let same : from_head (empty_block capacity) bs d al ≡ granted = ground arith in
            subst (λ p. Granted bs al p i) same (new_Granted bs d capacity al i fits v)
        | inr refused ↦ absurd (ground arith)
      ]

  alloc_Granted :
      (bs : List Block) (d size i : ℕ) (granted : Address × Arena)
      → All IsFilled bs
      → idl_arena_alloc malloc (record { blocks = bs; default_block_size = d }) size ≡ some granted
      → Granted bs (align_size size) granted i
  unfolding idl_arena_alloc idl_arena_add_block
  alloc_Granted [] d size i granted v e = grown_Granted [] d size i granted v refl e
  alloc_Granted (b ∷ bs) d size i granted (filled, v) e =
      elim (Bool-cases (ltb (b.capacity - b.used) (align_size size))) [
        | inl lacks ↦ grown_Granted (b ∷ bs) d size i granted (filled, v) lacks e
        | inr room ↦
            let fits : b.used + align_size size ≤ b.capacity = ground arith in
            let same : from_head b bs d (align_size size) ≡ granted = ground arith in
            subst (λ p. Granted (b ∷ bs) (align_size size) p i) same
              (head_Granted b bs d (align_size size) i fits v)
      ]

aligned :
    (size : ℕ)
    → size ≤ size_mod - 4
    → (align_size size % 4 ≡ 0) × (size ≤ align_size size) × (align_size size ≤ size + 3)
unfolding align_size
aligned size h = ground arith

-- A request is rounded up to a multiple of the pointer size, unless it is within three bytes of the
-- largest size_t: then the sum wraps around and less is handed out than was asked for.
pub align_size_wraps :
    (size : ℕ)
    → IsSize size
    → (align_size size % 4 ≡ 0) × ((align_size size < size) ↔ (size_mod - 4 < size))
unfolding align_size
align_size_wraps size h = ground arith

module _ (malloc : ℕ → Bool) where
  -- In an arena where no block is used past its end, a granted allocation of at most 2 ^ 32 - 4 bytes
  -- starts where its block was used up to, and the bytes asked for end within the block; the block is
  -- then used up to the end of those bytes and at most three bytes more, so that it ends at a multiple
  -- of four where it began at one; every other block is used as before, and no block is used past its
  -- end.
  pub idl_arena_alloc_fresh :
      (a a' : Arena) (size block offset : ℕ)
      → IsArena a
      → size ≤ size_mod - 4
      → idl_arena_alloc malloc a size ≡ some ((block, offset), a')
      → IsArena a'
        × (offset ≡ used_of a.blocks block)
        × (offset + size ≤ used_of a'.blocks block)
        × (used_of a'.blocks block ≤ offset + size + 3)
        × (used_of a'.blocks block ≤ capacity_of a'.blocks block)
        × (offset % 4 ≡ 0 → used_of a'.blocks block % 4 ≡ 0)
        × ((i : ℕ) → i ≢ block → used_of a'.blocks i ≡ used_of a.blocks i)
  idl_arena_alloc_fresh a a' size block offset v small e =
      let all : (i : ℕ) → Granted a.blocks (align_size size) ((block, offset), a') i =
        λ i. alloc_Granted malloc a.blocks a.default_block_size size i ((block, offset), a') v e in
      let (arena, starts, ends, used) = all block in
      let used_up : used_of a'.blocks block ≡ offset + align_size size = ground (arith, used) in
      let (whole, low, high) = aligned size small in
      (
        arena,
        starts,
        omega (arith, used_up, low),
        omega (arith, used_up, high),
        omega (arith, used_up, ends),
        λ h. omega (arith, used_up, whole, h),
        λ i other. let (_, _, _, same) = all i in untouched i other same,
      )
    where
      untouched :
          (i : ℕ)
          → i ≢ block
          → used_of a'.blocks i
            ≡ (if i == block then offset + align_size size else used_of a.blocks i)
          → used_of a'.blocks i ≡ used_of a.blocks i
      untouched i other e = ground (arith, e, other)

module _ (malloc : ℕ → Bool) (granted : (n : ℕ) → malloc n ≡ true) where
  alloc_grown :
      (bs : List Block) (d size : ℕ)
      → size ≢ 0
      → lacks_room bs (align_size size) ≡ true
      → idl_arena_alloc malloc (record { blocks = bs; default_block_size = d }) size
        ≡ some (from_head (empty_block (block_size_for d (align_size size))) bs d (align_size size))
  unfolding idl_arena_alloc idl_arena_add_block
  alloc_grown bs d size h lacks =
      ground (arith, granted block_header_size, granted (block_size_for d (align_size size)), lacks)

  alloc_some :
      (bs : List Block) (d size : ℕ)
      → size ≢ 0
      → (r : Address × Arena) × (idl_arena_alloc malloc
            (record { blocks = bs; default_block_size = d })
            size
          ≡ some r)
  unfolding idl_arena_alloc
  alloc_some [] d size h = (_, alloc_grown [] d size h refl)
  alloc_some (b ∷ bs) d size h = elim (Bool-cases (ltb (b.capacity - b.used) (align_size size))) [
    | inl lacks ↦ (_, alloc_grown (b ∷ bs) d size h lacks)
    | inr room ↦ (from_head b bs d (align_size size), ground arith)
  ]

  -- With memory granted, an allocation of at least one byte succeeds.
  pub idl_arena_alloc_granted :
      (a : Arena) (size : ℕ)
      → size ≢ 0
      → (r : Address × Arena) × (idl_arena_alloc malloc a size ≡ some r)
  idl_arena_alloc_granted a size h = alloc_some a.blocks a.default_block_size size h
