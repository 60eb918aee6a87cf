-- ===== src/Tests/Store.antt =====
-- The theorems on stable memory at a host that grants up to 100 pages.
use lucid.Base.{ℕ, ◌+◌, ◌-◌, ◌*◌, ◌≤◌, ◌≡◌, refl, arith, Bool, true, List, [], ◌∷◌}
use lucid.Base.{Option, some, none, leb, if◌then◌else◌, length, take, ◌⊎◌}
use lucid.Base.Int.{ℤ, pos, negsuc}
use lucid.Storage.Api.{Host, overlay, window}
use lucid.Storage.{done, failed, out_of_memory, page_size}
use lucid.Storage.{ic_stable_writer_write, ic_stable_save, ic_stable_restore, ic_stable_io_seek}
use lucid.Storage.Writer.{at, Holds, required_pages, writer_write_cases}
use lucid.Storage.Restore.{ic_stable_save-Holds, ic_stable_restore-save}
use lucid.Storage.Cursors.{ic_stable_io_read-seek_write}
use lucid.Storage.{Cursor, seek_set, ic_stable_io_write, ic_stable_io_read}

abbrev grants : ℕ → Bool
grants n = true

grants_all : (n : ℕ) → grants n ≡ true
grants_all n = refl

record Pages : Type 0 where
  count : ℕ
  byte : ℕ → ℕ

abbrev pages_grow : ℕ → Pages → Option (ℕ × Pages)
pages_grow n s =
    if leb (s.count + n) 100 then some (s.count, record s { count = s.count + n }) else none

abbrev pages_write : ℤ → List ℕ → Pages → Option Pages
pages_write (negsuc offset) bytes s = none
pages_write (pos offset) bytes s =
    if leb (offset + length bytes) (s.count * 65536)
    then some (record s { byte = λ i. overlay offset bytes i (s.byte i) })
    else none

abbrev pages_read : ℤ → ℕ → Pages → Option (List ℕ)
pages_read (negsuc offset) n s = none
pages_read (pos offset) n s =
    if leb (offset + n) (s.count * 65536) then some (window s.byte offset n) else none

write_allowed :
    (offset : ℕ) (bytes : List ℕ) (s : Pages)
    → offset + length bytes ≤ s.count * 65536
    → pages_write (pos offset) bytes s
      ≡ some (record s { byte = λ i. overlay offset bytes i (s.byte i) })
write_allowed offset bytes s h = ground arith

abbrev host : Host
host = record {
  State = Pages;
  cell = λ s. s.byte;
  stable64_size = λ s. s.count;
  stable64_grow = pages_grow;
  stable64_write = pages_write;
  stable64_read = pages_read;
  grow_old = λ n s s' old e. ground arith;
  grow_size = λ n s s' old e. ground arith;
  grow_cell = λ n s s' old i e. ground arith;
  write_within = λ offset bytes s h. (_, write_allowed offset bytes s h, refl, λ i. refl);
  read_within = λ offset n s h. ground arith;
}

abbrev one_page : Pages
one_page = record { count = 1; byte = λ i. 0 }

writer_write_cases_example :
    ((ic_stable_writer_write host (some (7 ∷ 8 ∷ [])) (at 65535 1) one_page ≡ failed out_of_memory)
      × (pages_grow (required_pages (65535 + 2) - 1) one_page ≡ none))
    ⊎ ((c : ℕ) × (s' : Pages) × (ic_stable_writer_write host
            (some (7 ∷ 8 ∷ []))
            (at 65535 1)
            one_page
          ≡ done (at (65535 + 2) c, s'))
        × (c ≡ s'.count)
        × (65535 + 2 ≤ c * 65536)
        × Holds host 65535 (7 ∷ 8 ∷ []) one_page s')
writer_write_cases_example = writer_write_cases host 65535 1 7 (8 ∷ []) one_page refl

abbrev no_pages : Pages
no_pages = record { count = 0; byte = λ i. 0 }

ic_stable_save-Holds_example :
    ((ic_stable_save host grants (some (7 ∷ 8 ∷ [])) no_pages ≡ failed out_of_memory)
      × (pages_grow (required_pages 2 - 0) no_pages ≡ none))
    ⊎ ((s' : Pages) × (ic_stable_save host grants (some (7 ∷ 8 ∷ [])) no_pages ≡ done s')
        × (2 ≤ s'.count * page_size)
        × Holds host 0 (7 ∷ 8 ∷ []) no_pages s')
ic_stable_save-Holds_example = ic_stable_save-Holds host grants 7 (8 ∷ []) no_pages refl

abbrev saved_pages : Pages
saved_pages = record { count = 1; byte = λ i. overlay 0 (7 ∷ 8 ∷ []) i 0 }

saved : ic_stable_save host grants (some (7 ∷ 8 ∷ [])) no_pages ≡ done saved_pages
unfolding ic_stable_save
saved = refl

ic_stable_restore-save_example :
    (out : List ℕ) × (ic_stable_restore host grants saved_pages ≡ done out)
    × (length out ≡ 1 * page_size)
    × (take 2 out ≡ 7 ∷ 8 ∷ [])
ic_stable_restore-save_example =
    ic_stable_restore-save host grants 7 (8 ∷ []) no_pages saved_pages grants_all saved
      (omega arith)

abbrev two_pages : Pages
two_pages = record { count = 2; byte = λ i. overlay 65535 (7 ∷ 8 ∷ []) i 0 }

written :
    ic_stable_io_write host (some (7 ∷ 8 ∷ [])) (at 65535 1) one_page ≡ done (at 65537 2, two_pages)
unfolding ic_stable_io_write
written = refl

ic_stable_io_read-seek_write_example :
    (io'' : Cursor) × (ic_stable_io_seek (pos 65535) seek_set (at 65537 2) ≡ done io'')
    × (ic_stable_io_read host 2 io'' two_pages ≡ done (some (7 ∷ 8 ∷ [], at 65537 2)))
ic_stable_io_read-seek_write_example =
    ic_stable_io_read-seek_write host 65535 1 7 (8 ∷ []) one_page two_pages (at 65537 2) refl
      (omega arith) written (omega arith)
