-- ===== src/Storage/Seek.antt =====
-- Where a seek moves the cursor, and which seeks are refused.
use lucid.Base.{ℕ, ◌*◌, ◌≤◌, ◌<◌, ◌≡◌}
use lucid.Base.{◌⊎◌}
use lucid.Base.Int.{ℤ, pos}
use lucid.Storage.{
  Outcome, done, failed, out_of_bounds, Cursor, Whence, seek_set, seek_cur, seek_end,
}
use lucid.Storage.{int64_max, page_size}
use lucid.Storage.Writer.{at}

-- The place that each kind of seek counts from.
abbrev pub origin : Whence → ℕ → ℕ → ℕ
origin seek_set offset capacity = 0
origin seek_cur offset capacity = offset
origin seek_end offset capacity = capacity * page_size

-- Either the sum is an offset that an int64_t holds and the cursor is there, or no such offset is
-- the sum and the seek is refused.
abbrev Lands : ℤ → ℕ → Outcome Cursor → Type 0
Lands target capacity r =
    ((t : ℕ) × (target ≡ pos t) × (t ≤ int64_max) × (r ≡ done (at t capacity)))
    ⊎ ((r ≡ failed out_of_bounds) × ((t : ℕ) → target ≡ pos t → int64_max < t))
