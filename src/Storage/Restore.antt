-- ===== src/Storage/Restore.antt =====
-- What is restored after bytes were saved: whole pages that begin with the bytes.
use lucid.Base.{ℕ, suc, ◌+◌, ◌*◌, ◌-◌, ◌%◌, ◌^◌, ◌≤◌, ◌<◌, ◌≡◌, refl, sym, ◌∙◌, ap, subst, arith}
use lucid.Base.{Bool, true, List, ◌∷◌, none, some, length, take, ◌⊎◌, inl, inr}
use lucid.Base.Int.{pos}
use lucid.Storage.Api.{Host, overlay, window}
use lucid.Storage.{Outcome, done, failed, trap, out_of_memory, Cursor, page_size, ◌>>=◌}
use lucid.Storage.{
  ic_stable_writer_create_at, ic_stable_writer_create, ic_stable_writer_write, grow_to,
}
use lucid.Storage.{
  ic_stable_save, ic_stable_restore, ic_stable_bytes, ic_stable_read, ic_stable_size,
}
use lucid.Storage.{calculate_required_pages}
use lucid.Storage.Writer.{
  required_pages, at, Holds, take-window, length-window, window-overlay, window_ext,
  writer_write_cases,
}

module _ (host : Host) where
  open host use {State, cell, stable64_size, read_within}

  created :
      (malloc : ℕ → Bool) (s : State)
      → malloc 16 ≡ true
      → ic_stable_writer_create host malloc s ≡ some (at 0 (stable64_size s), s)
  unfolding ic_stable_writer_create ic_stable_writer_create_at grow_to calculate_required_pages
      ic_stable_size
  created malloc s granted = ground (arith, granted)

  save_steps :
      (malloc : ℕ → Bool) (bytes : List ℕ) (s : State)
      → malloc 16 ≡ true
      → ic_stable_save host malloc (some bytes) s ≡ (
          ic_stable_writer_write host (some bytes) (at 0 (stable64_size s)) s >>= λ (w, s').
          done s')
  unfolding ic_stable_save
  save_steps malloc bytes s granted = rw (created malloc s granted, ic_stable_save) refl

  read_all :
      (size : ℕ) (s : State)
      → suc size ≤ stable64_size s * 65536
      → ic_stable_read host (pos 0) (suc size) s ≡ done (window (cell s) 0 (suc size))
  unfolding ic_stable_read
  read_all size s h =
      let window_read = read_within 0 (suc size) s (omega arith) in ground (arith, window_read)

  restored :
      (malloc : ℕ → Bool) (size : ℕ) (s : State)
      → stable64_size s * page_size ≡ suc size
      → suc size < 2 ^ 32
      → malloc (suc size) ≡ true
      → ic_stable_restore host malloc s ≡ done (window (cell s) 0 (suc size))
  unfolding ic_stable_restore ic_stable_bytes ic_stable_size
  restored malloc size s total small granted =
      let size_mod : suc size % 2 ^ 32 ≡ suc size = omega arith in
      let read = read_all size s (omega (arith, total)) in
      rw (total, ic_stable_restore, ic_stable_bytes)
        (rw size_mod (ground (arith, granted, small, read)))

  -- Saving data that is not empty, when the writer's 16 bytes are allocated, fails with out-of-memory
  -- just where the host refuses the pages that are missing; otherwise it ends in a memory of at least
  -- the length of the data, which has the data at its start and all else as before.
  pub ic_stable_save-Holds :
      (malloc : ℕ → Bool) (b : ℕ) (bytes : List ℕ) (s : State)
      → malloc 16 ≡ true
      → ((ic_stable_save host malloc (some (b ∷ bytes)) s ≡ failed out_of_memory)
          × (host.stable64_grow (required_pages (length (b ∷ bytes)) - stable64_size s) s ≡ none))
        ⊎ ((s' : State) × (ic_stable_save host malloc (some (b ∷ bytes)) s ≡ done s')
            × (length (b ∷ bytes) ≤ stable64_size s' * page_size)
            × Holds host 0 (b ∷ bytes) s s')
  ic_stable_save-Holds malloc b bytes s granted =
      let steps = save_steps malloc (b ∷ bytes) s granted in
      let finish : Outcome (Cursor × State) → Outcome State = λ r. r >>= λ (w, s₂). done s₂ in
      elim (writer_write_cases host 0 (stable64_size s) b bytes s refl) [
        | inl (run, refused) ↦ inl (
          steps ∙ ap finish run,
          subst (λ k. host.stable64_grow (required_pages k - stable64_size s) s ≡ none)
              (omega arith) refused,
        )
        | inr (c, s', run, size, fits, holds) ↦
            inr (s', steps ∙ ap finish run, omega (arith, size, fits), holds)
      ]

  window_shows :
      (b : ℕ) (bytes : List ℕ) (s s' : State) (size : ℕ)
      → length (b ∷ bytes) ≤ size
      → Holds host 0 (b ∷ bytes) s s'
      → take (length (b ∷ bytes)) (window (cell s') 0 size) ≡ b ∷ bytes
  window_shows b bytes s s' size h holds =
      let data' = b ∷ bytes in
      let n = length data' in
      ap (λ (k : ℕ). take n (window (cell s') 0 k)) {x = size} {y = n + (size - n)} (omega arith)
      ∙ take-window (cell s') 0 n (size - n)
      ∙ window_ext (cell s') (λ i. overlay 0 data' i (cell s i)) 0 n (λ i le. holds i)
      ∙ window-overlay data' (cell s) 0

  done_injective : (s₁ s₂ : State) → done s₁ ≡ done s₂ → s₁ ≡ s₂
  done_injective s₁ s₂ e = ap (λ r. elim r [ done s ↦ s | failed _ ↦ s₁ | trap ↦ s₁ ]) e

  saved-Holds :
      (malloc : ℕ → Bool) (b : ℕ) (bytes : List ℕ) (s s' : State)
      → malloc 16 ≡ true
      → ic_stable_save host malloc (some (b ∷ bytes)) s ≡ done s'
      → (length (b ∷ bytes) ≤ stable64_size s' * page_size) × Holds host 0 (b ∷ bytes) s s'
  saved-Holds malloc b bytes s s' granted saved =
      elim (ic_stable_save-Holds malloc b bytes s granted) [
        | inl (failure, _) ↦ absurd (grind (arith, saved, failure))
        | inr (s₂, run, fits, holds) ↦
            let same = done_injective s₂ s' (sym run ∙ saved) in
            subst
              (λ (t : State).
                (length (b ∷ bytes) ≤ stable64_size t * page_size) × Holds host 0 (b ∷ bytes) s t)
              same (fits, holds)
      ]

  -- After a save that succeeded, when allocation does and the memory is smaller than 4 GiB, a restore
  -- succeeds: what it returns is as long as the whole pages and begins with the bytes saved.
  pub ic_stable_restore-save :
      (malloc : ℕ → Bool) (b : ℕ) (bytes : List ℕ) (s s' : State)
      → ((n : ℕ) → malloc n ≡ true)
      → ic_stable_save host malloc (some (b ∷ bytes)) s ≡ done s'
      → stable64_size s' * page_size < 2 ^ 32
      → (out : List ℕ) × (ic_stable_restore host malloc s' ≡ done out)
        × (length out ≡ stable64_size s' * page_size)
        × (take (length (b ∷ bytes)) out ≡ b ∷ bytes)
  ic_stable_restore-save malloc b bytes s s' granted saved small =
      let (fits, holds) = saved-Holds malloc b bytes s s' (granted 16) saved in
      let size = stable64_size s' * page_size in
      let total : size ≡ suc (size - 1) = omega (arith, fits) in
      (
        window (cell s') 0 (suc (size - 1)),
        restored malloc (size - 1) s' total (omega (arith, small, total))
            (granted (suc (size - 1))),
        length-window (cell s') 0 (suc (size - 1)) ∙ sym total,
        window_shows b bytes s s' (suc (size - 1)) (omega (arith, fits, total)) holds,
      )
