-- ===== src/Tests/Growing.antt =====
-- The theorems on the buffer at an empty buffer and at one that is full.
use lucid.Base.{ℕ, ◌+◌, ◌*◌, ◌^◌, ◌≤◌, ◌<◌, ◌≡◌, refl, arith, Bool, true, [], ◌∷◌, ◌++◌, some}
use lucid.Base.{inr, ◌⊎◌}
use lucid.Base.Word.{size_mod}
use lucid.Buffer.{Buffer, done, failed, buffer_overflow, ic_buffer_reserve, ic_buffer_append}
use lucid.Buffer.Growth.{IsCapacity}
use lucid.Buffer.Append.{IsBuffer, beyond, ic_buffer_reserve-cases, ic_buffer_append-cases}

abbrev grants : ℕ → Bool
grants n = true

grants_all : (n : ℕ) → grants n ≡ true
grants_all n = refl

abbrev full : Buffer
full = record { bytes = 5 ∷ 6 ∷ []; capacity = 64 }

full-IsCapacity : IsCapacity full.capacity
full-IsCapacity = inr (25, (omega arith, omega arith))

-- Three GiB are above 2 ^ 31.
ic_buffer_reserve-cases_example :
    ((3 * 2 ^ 30 ≤ 64) × (ic_buffer_reserve grants full (3 * 2 ^ 30) ≡ done full))
    ⊎ (((c : ℕ) × (64 < 3 * 2 ^ 30)
          × (3 * 2 ^ 30 ≤ 2 ^ 31)
          × (3 * 2 ^ 30 ≤ c)
          × IsCapacity c
          × (ic_buffer_reserve grants full (3 * 2 ^ 30) ≡ done (record full { capacity = c })))
        ⊎ ((2 ^ 31 < 3 * 2 ^ 30) × (ic_buffer_reserve grants full (3 * 2 ^ 30) ≡ beyond full)))
ic_buffer_reserve-cases_example =
    ic_buffer_reserve-cases grants grants_all full (3 * 2 ^ 30) full-IsCapacity

ic_buffer_append-cases_example :
    ((2 + 2 ≤ 2 ^ 31)
      × ((c : ℕ) × (ic_buffer_append grants full (some (7 ∷ 8 ∷ []))
            ≡ done (record { bytes = full.bytes ++ 7 ∷ 8 ∷ []; capacity = c }))
          × IsBuffer (record { bytes = full.bytes ++ 7 ∷ 8 ∷ []; capacity = c })))
    ⊎ (((2 ^ 31 < 2 + 2)
          × (2 + 2 < size_mod)
          × (ic_buffer_append grants full (some (7 ∷ 8 ∷ [])) ≡ beyond full))
        ⊎ ((size_mod ≤ 2 + 2)
            × (ic_buffer_append grants full (some (7 ∷ 8 ∷ [])) ≡ failed buffer_overflow)))
ic_buffer_append-cases_example =
    ic_buffer_append-cases grants grants_all full 7 (8 ∷ []) (omega arith, full-IsCapacity)
      (omega arith)
