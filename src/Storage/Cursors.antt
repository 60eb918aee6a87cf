-- ===== src/Storage/Cursors.antt =====
-- The seekable cursor: its write against the writer's, and what a read finds after a write and a seek.
use lucid.Base.{ℕ, suc, ◌+◌, ◌-◌, ◌*◌, ◌/◌, ◌≤◌, ◌≡◌, sym, ◌∙◌, ap, subst, arith}
use lucid.Base.{List, ◌∷◌, some, length, inl, inr, min}
use lucid.Base.Int.{pos}
use lucid.Storage.Api.{Host, overlay, window}
use lucid.Storage.{done, failed, trap, Cursor, seek_set, page_size, int64_max, ◌>>=◌}
use lucid.Storage.{ic_stable_io_write, ic_stable_io_read, ic_stable_io_seek, ic_stable_writer_write}
use lucid.Storage.{grow_to, put_bytes, calculate_required_pages, ic_stable_read, get_bytes}
use lucid.Storage.Writer.{
  at, Holds, window-overlay, window_ext, writer_write_cases, writer_write_steps,
}
use lucid.Storage.Writer.{required_pages_lem}

module _ (host : Host) where
  open host use {State, cell, stable64_size, read_within}

  -- Where the end of the data is within INT64_MAX, the write at a seekable cursor does what the
  -- write of a writer does.
  pub ic_stable_io_write-writer :
      (offset capacity b : ℕ) (bytes : List ℕ) (s : State)
      → offset + length (b ∷ bytes) ≤ int64_max
      → ic_stable_io_write host (some (b ∷ bytes)) (at offset capacity) s
        ≡ ic_stable_writer_write host (some (b ∷ bytes)) (at offset capacity) s
  unfolding ic_stable_io_write
  ic_stable_io_write-writer offset capacity b bytes s h =
      guard_passes
      ∙ ap (λ r. grow_to host (at offset capacity) r s >>= put_bytes host (b ∷ bytes))
          (required_pages_lem (offset + length (b ∷ bytes)))
      ∙ sym (writer_write_steps host offset capacity b bytes s)
    where
      guard_passes : ic_stable_io_write host (some (b ∷ bytes)) (at offset capacity) s ≡ (
          grow_to host
            (at offset capacity)
            (calculate_required_pages (pos (offset + length (b ∷ bytes))))
            s
          >>= put_bytes host (b ∷ bytes))
      guard_passes = ground (arith, h)

  get_all :
      (offset available n : ℕ) (c : ℕ) (s : State)
      → suc n ≤ available
      → ic_stable_read host (pos offset) (suc n) s ≡ done (window (cell s) offset (suc n))
      → get_bytes host (suc n) (pos available) (at offset c) s
        ≡ done (window (cell s) offset (suc n), at (offset + suc n) c)
  get_all offset available n c s h run =
      let count : min (suc n) available ≡ suc n = omega arith in ground (arith, h, count, run)

  read_at :
      (offset n : ℕ) (s : State)
      → offset + suc n ≤ stable64_size s * 65536
      → ic_stable_read host (pos offset) (suc n) s ≡ done (window (cell s) offset (suc n))
  unfolding ic_stable_read
  read_at offset n s h = let found = read_within offset (suc n) s h in ground (arith, found)

  io_read_run :
      (offset n c : ℕ) (s : State)
      → c ≡ stable64_size s
      → c ≤ int64_max / page_size
      → offset + suc n ≤ c * 65536
      → ic_stable_io_read host (suc n) (at offset c) s
        ≡ done (some (window (cell s) offset (suc n), at (offset + suc n) c))
  unfolding ic_stable_io_read
  io_read_run offset n c s e small h =
      let all =
        get_all offset (c * 65536 - offset) n c s (omega (arith, h))
          (read_at offset n s (omega (arith, h, e))) in
      ground (arith, small, h, all)

  -- What a seek to `offset` and a read find there.
  abbrev Found : ℕ → List ℕ → Cursor × State → Type 0
  Found offset bytes (io, s) =
      (io'' : Cursor) × (ic_stable_io_seek (pos offset) seek_set io ≡ done io'')
      × (ic_stable_io_read host (length bytes) io'' s ≡ done (some (bytes, io)))

  seek_run :
      (offset after c : ℕ)
      → offset ≤ int64_max
      → ic_stable_io_seek (pos offset) seek_set (at after c) ≡ done (at offset c)
  unfolding ic_stable_io_seek
  seek_run offset after c h = ground (arith, h)

  Found-at :
      (offset c b : ℕ) (bytes : List ℕ) (s s' : State)
      → offset ≤ int64_max
      → c ≡ stable64_size s'
      → c ≤ int64_max / page_size
      → offset + length (b ∷ bytes) ≤ c * 65536
      → Holds host offset (b ∷ bytes) s s'
      → Found offset (b ∷ bytes) (at (offset + length (b ∷ bytes)) c, s')
  Found-at offset c b bytes s s' low e small fits holds =
      let shown =
        window_ext (cell s') (λ i. overlay offset (b ∷ bytes) i (cell s i)) offset
          (length (b ∷ bytes)) (λ i le. holds i)
        ∙ window-overlay (b ∷ bytes) (cell s) offset in
      (
        at offset c,
        seek_run offset (offset + length (b ∷ bytes)) c low,
        io_read_run offset (length bytes) c s' e small fits
            ∙ ap (λ l. done (some (l, at (offset + length (b ∷ bytes)) c))) shown,
      )

  done_injective : (p q : Cursor × State) → done p ≡ done q → p ≡ q
  done_injective p q e = ap (λ r. elim r [ done x ↦ x | failed _ ↦ p | trap ↦ p ]) e

  -- After a write of data that is not empty at a cursor whose capacity is the size of the memory,
  -- which succeeded within INT64_MAX and left a capacity in bytes within INT64_MAX: a seek back to the
  -- old offset succeeds, and a read of the length of the data from there returns the data and the
  -- cursor that the write left.
  pub ic_stable_io_read-seek_write :
      (offset capacity b : ℕ) (bytes : List ℕ) (s s' : State) (io' : Cursor)
      → capacity ≡ stable64_size s
      → offset + length (b ∷ bytes) ≤ int64_max
      → ic_stable_io_write host (some (b ∷ bytes)) (at offset capacity) s ≡ done (io', s')
      → io'.capacity ≤ int64_max / page_size
      → (io'' : Cursor) × (ic_stable_io_seek (pos offset) seek_set io' ≡ done io'')
        × (ic_stable_io_read host (length (b ∷ bytes)) io'' s' ≡ done (some (b ∷ bytes, io')))
  ic_stable_io_read-seek_write offset capacity b bytes s s' io' e h written small =
      let run = sym (ic_stable_io_write-writer offset capacity b bytes s h) ∙ written in
      elim (writer_write_cases host offset capacity b bytes s e) [
        | inl (failure, _) ↦ absurd (grind (arith, run, failure))
        | inr (c, s₂, finished, size, fits, holds) ↦
            let same = done_injective _ (io', s') (sym finished ∙ run) in
            let room : c ≤ int64_max / page_size =
              subst (λ (p : Cursor × State). p.0.capacity ≤ int64_max / page_size) (sym same)
                small in
            subst (Found offset (b ∷ bytes)) same
              (Found-at offset c b bytes s s₂ (omega (arith, h)) size room fits holds)
      ]
