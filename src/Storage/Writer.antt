-- ===== src/Storage/Writer.antt =====
-- What the writer puts into stable memory, and what is restored from it.
use lucid.Base.{ℕ, zero, suc, ◌+◌, ◌-◌, ◌*◌, ◌/◌, ◌≤◌, ◌<◌, ◌≡◌, refl, ◌∙◌, ap, ap₂, arith}
use lucid.Base.{true, false, List, [], ◌∷◌, none, some, ltb}
use lucid.Base.{length, take, Bool-cases, Option-cases, inl, inr, ltb→lt, ltb→le, ◌⊎◌}
use lucid.Base.Int.{pos, ◌+ℤ◌}
use lucid.Storage.Api.{Host, overlay, window}
use lucid.Storage.{Outcome, done, failed, out_of_memory, Cursor, ◌>>=◌}
use lucid.Storage.{
  calculate_required_pages, grow_to, put_bytes, ic_stable_writer_write, ic_stable_write,
}
use lucid.Storage.{stable_writer_grow, ic_stable_grow}

-- The pages that bytes need: rounded up.
pub required_pages : ℕ → ℕ
required_pages n = (n + 65535) / 65536

pub required_pages_lem : (n : ℕ) → calculate_required_pages (pos n) ≡ pos (required_pages n)
unfolding calculate_required_pages required_pages
required_pages_lem n = ground arith

pub required_pages-fits : (n c : ℕ) → required_pages n ≤ c → n ≤ c * 65536
unfolding required_pages
required_pages-fits n c h = omega arith

pub overlay_outside :
    (offset : ℕ) (bytes : List ℕ) (i old : ℕ)
    → (i < offset) ⊎ (offset + length bytes ≤ i)
    → overlay offset bytes i old ≡ old
overlay_outside offset [] i old h = refl
overlay_outside zero (b ∷ bytes) zero old h = absurd (omega arith)
overlay_outside zero (b ∷ bytes) (suc i) old h = overlay_outside zero bytes i old (omega arith)
overlay_outside (suc offset) (b ∷ bytes) zero old h = refl
overlay_outside (suc offset) (b ∷ bytes) (suc i) old h =
    overlay_outside offset (b ∷ bytes) i old (omega arith)

overlay_first :
    (offset b : ℕ) (bytes : List ℕ) (old : ℕ) → overlay offset (b ∷ bytes) offset old ≡ b
overlay_first zero b bytes old = refl
overlay_first (suc offset) b bytes old = overlay_first offset b bytes old

overlay_rest :
    (offset b : ℕ) (bytes : List ℕ) (i old : ℕ)
    → offset < i
    → overlay offset (b ∷ bytes) i old ≡ overlay (suc offset) bytes i old
overlay_rest zero b [] (suc i) old h = refl
overlay_rest zero b (c ∷ bytes) (suc i) old h = refl
overlay_rest zero b bytes zero old h = absurd (omega arith)
overlay_rest (suc offset) b bytes zero old h = absurd (omega arith)
overlay_rest (suc offset) b [] (suc i) old h = overlay_outside offset (b ∷ []) i old (omega arith)
overlay_rest (suc offset) b (c ∷ bytes) (suc i) old h =
    overlay_rest offset b (c ∷ bytes) i old (omega arith)

pub window_ext :
    (f g : ℕ → ℕ) (offset n : ℕ)
    → ((i : ℕ) → offset ≤ i → f i ≡ g i)
    → window f offset n ≡ window g offset n
window_ext f g offset zero h = refl
window_ext f g offset (suc n) h =
    ap₂ ◌∷◌ (h offset (omega arith)) (window_ext f g (offset + 1) n (λ i le. h i (omega arith)))

-- What was laid over a memory is what a window shows there.
pub window-overlay :
    (bytes : List ℕ) (cell : ℕ → ℕ) (offset : ℕ)
    → window (λ i. overlay offset bytes i (cell i)) offset (length bytes) ≡ bytes
window-overlay [] cell offset = refl
window-overlay (b ∷ bytes) cell offset = ap₂ ◌∷◌ (overlay_first offset b bytes (cell offset)) (
    window_ext _ (λ i. overlay (offset + 1) bytes i (cell i)) (offset + 1) (length bytes)
      (λ i le. shifted i le)
    ∙ window-overlay bytes cell (offset + 1))
  where
    next : suc offset ≡ offset + 1
    next = omega arith

    shifted :
        (i : ℕ)
        → offset + 1 ≤ i
        → overlay offset (b ∷ bytes) i (cell i) ≡ overlay (offset + 1) bytes i (cell i)
    shifted i le =
        overlay_rest offset b bytes i (cell i) (omega arith)
        ∙ ap (λ (o : ℕ). overlay o bytes i (cell i)) next

pub take-window :
    (f : ℕ → ℕ) (offset n m : ℕ) → take n (window f offset (n + m)) ≡ window f offset n
take-window f offset zero m = refl
take-window f offset (suc n) m =
    let count : suc n + m ≡ suc (n + m) = omega arith in
    rw count (ap (λ t. f offset ∷ t) (take-window f (offset + 1) n m))

pub length-window : (f : ℕ → ℕ) (offset n : ℕ) → length (window f offset n) ≡ n
length-window f offset zero = refl
length-window f offset (suc n) = ap suc (length-window f (offset + 1) n)

abbrev pub at : ℕ → ℕ → Cursor
at offset capacity = record { offset = pos offset; capacity = capacity }

module _ (host : Host) where
  open host use {
    State, cell, stable64_size, stable64_grow, stable64_write, stable64_read, grow_old, grow_size,
    grow_cell, write_within, read_within,
  }

  -- The memory afterwards: `bytes` from `offset` on, and all else as before.
  abbrev pub Holds : ℕ → List ℕ → State → State → Type 0
  Holds offset bytes s s' = (i : ℕ) → cell s' i ≡ overlay offset bytes i (cell s i)

  -- Memory that has room for the required pages, and the same bytes.
  abbrev Roomy : ℕ → ℕ → ℕ → State → Outcome (Cursor × State) → Type 0
  Roomy offset capacity required s r =
      (c : ℕ) × (s' : State) × (r ≡ done (at offset c, s'))
      × (c ≡ stable64_size s')
      × (required ≤ c)
      × (capacity ≤ c)
      × ((i : ℕ) → cell s' i ≡ cell s i)

  grow_enough :
      (offset capacity required : ℕ) (s : State)
      → ltb capacity required ≡ false
      → grow_to host (at offset capacity) (pos required) s ≡ done (at offset capacity, s)
  unfolding grow_to
  grow_enough offset capacity required s enough = ground (arith, enough)

  grow_refused :
      (offset capacity required : ℕ) (s : State)
      → ltb capacity required ≡ true
      → stable64_grow (required - capacity) s ≡ none
      → grow_to host (at offset capacity) (pos required) s ≡ failed out_of_memory
  unfolding grow_to stable_writer_grow ic_stable_grow
  grow_refused offset capacity required s short refused = ground (arith, short, refused)

  grow_granted :
      (offset capacity required old : ℕ) (s s' : State)
      → ltb capacity required ≡ true
      → stable64_grow (required - capacity) s ≡ some (old, s')
      → grow_to host (at offset capacity) (pos required) s
        ≡ done (at offset (old + (required - capacity)), s')
  unfolding grow_to stable_writer_grow ic_stable_grow
  grow_granted offset capacity required old s s' short grown = ground (arith, short, grown)

  grow_cases :
      (offset capacity required : ℕ) (s : State)
      → capacity ≡ stable64_size s
      → ((grow_to host (at offset capacity) (pos required) s ≡ failed out_of_memory)
          × (stable64_grow (required - capacity) s ≡ none))
        ⊎ Roomy offset capacity required s (grow_to host (at offset capacity) (pos required) s)
  grow_cases offset capacity required s e = elim (Bool-cases (ltb capacity required)) [
    | inr enough ↦ inr (
      capacity,
      s,
      grow_enough offset capacity required s enough,
      e,
      ltb→le _ _ enough,
      omega arith,
      λ i. refl,
    )
    | inl short ↦ elim (Option-cases (stable64_grow (required - capacity) s)) [
      | inl refused ↦ inl (grow_refused offset capacity required s short refused, refused)
      | inr ((old, s'), grown) ↦
          let was = grow_old (required - capacity) s s' old grown in
          let is = grow_size (required - capacity) s s' old grown in
          let more = ltb→lt capacity required short in
          inr (
            old + (required - capacity),
            s',
            grow_granted offset capacity required old s s' short grown,
            omega (arith, was, is),
            omega (arith, was, e, more),
            omega (arith, was, e),
            λ i. grow_cell (required - capacity) s s' old i grown,
          )
    ]
  ]

  put_bytes_written :
      (offset c b : ℕ) (bytes : List ℕ) (s s' : State)
      → stable64_write (pos offset) (b ∷ bytes) s ≡ some s'
      → put_bytes host (b ∷ bytes) (at offset c, s) ≡ done (at (offset + length (b ∷ bytes)) c, s')
  unfolding put_bytes ic_stable_write
  put_bytes_written offset c b bytes s s' written = ground (arith, written)

  put_done :
      (offset c b : ℕ) (bytes : List ℕ) (s : State)
      → c ≡ stable64_size s
      → offset + length (b ∷ bytes) ≤ c * 65536
      → (s' : State) × (put_bytes host (b ∷ bytes) (at offset c, s)
          ≡ done (at (offset + length (b ∷ bytes)) c, s'))
        × (stable64_size s' ≡ stable64_size s)
        × Holds offset (b ∷ bytes) s s'
  put_done offset c b bytes s e fits =
      let (s', written, size, holds) = write_within offset (b ∷ bytes) s (omega (arith, e)) in
      (s', put_bytes_written offset c b bytes s s' written, size, holds)

  pub writer_write_steps :
      (offset capacity b : ℕ) (bytes : List ℕ) (s : State)
      → ic_stable_writer_write host (some (b ∷ bytes)) (at offset capacity) s ≡ (
          grow_to host (at offset capacity) (pos (required_pages (offset + length (b ∷ bytes)))) s
          >>= put_bytes host (b ∷ bytes))
  unfolding ic_stable_writer_write
  writer_write_steps offset capacity b bytes s =
      ap (λ r. grow_to host (at offset capacity) r s >>= put_bytes host (b ∷ bytes))
        (ap calculate_required_pages joined ∙ required_pages_lem (offset + length (b ∷ bytes)))
    where
      joined : pos offset +ℤ pos (suc (length bytes)) ≡ pos (offset + length (b ∷ bytes))
      joined = ground arith

  -- Writing data that is not empty at a cursor whose capacity is the size of the memory: either the
  -- host refuses to grow by the missing pages, and the write fails with out-of-memory; or the cursor
  -- moves behind the data and its capacity is the new size, which holds the data, the data stand at
  -- the old offset, and every other byte is as before.
  pub writer_write_cases :
      (offset capacity b : ℕ) (bytes : List ℕ) (s : State)
      → capacity ≡ stable64_size s
      → let data' = b ∷ bytes in
        let after = offset + length data' in
        let run = ic_stable_writer_write host (some data') (at offset capacity) s in
        ((run ≡ failed out_of_memory) × (stable64_grow (required_pages after - capacity) s ≡ none))
        ⊎ ((c : ℕ) × (s' : State) × (run ≡ done (at after c, s'))
            × (c ≡ stable64_size s')
            × (after ≤ c * 65536)
            × Holds offset data' s s')
  writer_write_cases offset capacity b bytes s e =
      let after = offset + length (b ∷ bytes) in
      let steps = writer_write_steps offset capacity b bytes s in
      let put = put_bytes host (b ∷ bytes) in
      elim (grow_cases offset capacity (required_pages after) s e) [
        | inl (refused, none_left) ↦ inl (steps ∙ ap (λ r. r >>= put) refused, none_left)
        | inr (c, s₁, grown, same, enough, _, kept) ↦
            let fits : after ≤ c * 65536 = required_pages-fits after c enough in
            let (s', written, size, holds) = put_done offset c b bytes s₁ same fits in
            inr (
              c,
              s',
              steps ∙ ap (λ r. r >>= put) grown ∙ written,
              omega (arith, size, same),
              fits,
              λ i. holds i ∙ ap (overlay offset (b ∷ bytes) i) (kept i),
            )
      ]
