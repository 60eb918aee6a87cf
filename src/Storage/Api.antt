-- ===== src/Storage/Api.antt =====
-- The stable memory of the system API (`ic0_stable64_*` in cdk-c/include/ic0.h), which the host
-- implements, with the behaviour that the storage layer relies on.
use lucid.Base.{ℕ, zero, suc, ◌+◌, ◌*◌, ◌≤◌, ◌≡◌, List, [], ◌∷◌, Option, some, length}
use lucid.Base.Int.{ℤ, pos}

-- The byte of `bytes` at `i`, counted from `offset`, or `old` outside of them.
abbrev pub overlay : ℕ → List ℕ → ℕ → ℕ → ℕ
overlay offset [] i old = old
overlay zero (b ∷ bytes) zero old = b
overlay zero (b ∷ bytes) (suc i) old = overlay zero bytes i old
overlay (suc offset) (b ∷ bytes) zero old = old
overlay (suc offset) (b ∷ bytes) (suc i) old = overlay offset (b ∷ bytes) i old

-- `n` bytes from `offset` on.
abbrev pub window : (ℕ → ℕ) → ℕ → ℕ → List ℕ
window cell offset zero = []
window cell offset (suc n) = cell offset ∷ window cell (offset + 1) n

-- A size counts pages of 64 KiB. none is -1 of a growth, and a trap of an access.
pub record Host : Type 1 where
  pub State : Type 0
  pub cell : State → ℕ → ℕ
  pub stable64_size : State → ℕ
  pub stable64_grow : ℕ → State → Option (ℕ × State)
  pub stable64_write : ℤ → List ℕ → State → Option State
  pub stable64_read : ℤ → ℕ → State → Option (List ℕ)
  pub grow_old :
      (n : ℕ) (s s' : State) (old : ℕ) → stable64_grow n s ≡ some (old, s') → old ≡ stable64_size s
  pub grow_size :
      (n : ℕ) (s s' : State) (old : ℕ)
      → stable64_grow n s ≡ some (old, s')
      → stable64_size s' ≡ stable64_size s + n
  pub grow_cell :
      (n : ℕ) (s s' : State) (old i : ℕ) → stable64_grow n s ≡ some (old, s') → cell s' i ≡ cell s i
  pub write_within :
      (offset : ℕ) (bytes : List ℕ) (s : State)
      → offset + length bytes ≤ stable64_size s * 65536
      → (s' : State) × (stable64_write (pos offset) bytes s ≡ some s')
        × (stable64_size s' ≡ stable64_size s)
        × ((i : ℕ) → cell s' i ≡ overlay offset bytes i (cell s i))
  pub read_within :
      (offset n : ℕ) (s : State)
      → offset + n ≤ stable64_size s * 65536
      → stable64_read (pos offset) n s ≡ some (window (cell s) offset n)
