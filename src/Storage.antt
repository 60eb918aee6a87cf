-- ===== src/Storage.antt =====
-- cdk-c/src/ic_storage.c: stable memory and the writer, reader and seekable cursor over it.
-- The system API is a parameter, `Host`; `malloc n` says whether `cdk_malloc(n)` is not NULL. An
-- int64_t offset is an integer; sums and products that C leaves undefined on overflow are exact
-- here, and the code's own checks are kept. A NULL data pointer is `none`, and its length then is
-- not 0.
pub mod Api
pub mod Cursors
pub mod Restore
pub mod Seek
pub mod Writer
use Api.{Host}
use lucid.Base.{ℕ, zero, suc, ◌+◌, ◌-◌, ◌*◌, ◌/◌, ◌%◌, ◌^◌, Bool, true, false, not, ◌&&◌, ◌||◌}
use lucid.Base.{List, [], ◌∷◌, Option, none, some, ltb, leb, ◌==◌, if◌then◌else◌, length, min}
use lucid.Base.Int.{ℤ, pos, negsuc, ◌+ℤ◌, ◌-ℤ◌, ltb_ℤ}

pub data StorageError : Type 0 where
  out_of_memory out_of_bounds invalid_arg : StorageError

-- `failed` changes nothing; `trap` ends the message.
pub data Outcome (A : Type 0) : Type 0 where
  done : A → Outcome A
  failed : StorageError → Outcome A
  trap : Outcome A

infixl 5 ◌>>=◌
abbrev pub ◌>>=◌ : {A B : Type 0} → Outcome A → (A → Outcome B) → Outcome B
done a >>= f = f a
failed e >>= f = failed e
trap >>= f = trap

-- IC_STABLE_PAGE_SIZE_BYTES, INT64_MAX, SIZE_MAX.
abbrev pub page_size : ℕ
page_size = 65536

abbrev pub int64_max : ℕ
int64_max = 2 ^ 63 - 1

-- Division rounds towards 0, and the remainder has the sign of the dividend.
unfoldable pub calculate_required_pages : ℤ → ℤ
calculate_required_pages (pos n) =
    pos (if n % page_size == 0 then n / page_size else n / page_size + 1)
calculate_required_pages (negsuc n) =
    let quotient = pos 0 -ℤ pos ((n + 1) / page_size) in
    if (n + 1) % page_size == 0 then quotient else quotient +ℤ pos 1

-- The structs of the writer, the reader and the cursor alike: an offset in bytes and a capacity in
-- pages.
pub record Cursor : Type 0 where
  pub offset : ℤ
  pub capacity : ℕ

pub data Whence : Type 0 where
  seek_set seek_cur seek_end : Whence

module _ (host : Host) where
  open host use {State, stable64_size, stable64_grow, stable64_write, stable64_read}

  unfoldable pub ic_stable_size : State → ℕ
  ic_stable_size s = stable64_size s

  -- none is -1.
  unfoldable pub ic_stable_grow : ℕ → State → Option (ℕ × State)
  ic_stable_grow new_pages s = stable64_grow new_pages s

  -- The size is a length, which is not negative.
  unfoldable pub ic_stable_write : ℤ → List ℕ → State → Outcome State
  ic_stable_write offset [] s = done s
  ic_stable_write offset (b ∷ bytes) s = elim (stable64_write offset (b ∷ bytes) s) [
    | none ↦ trap
    | some s' ↦ done s'
  ]

  unfoldable pub ic_stable_read : ℤ → ℕ → State → Outcome (List ℕ)
  ic_stable_read offset zero s = done []
  ic_stable_read offset (suc n) s = elim (stable64_read offset (suc n) s) [
    | none ↦ trap
    | some bytes ↦ done bytes
  ]

  -- `stable_writer_grow`, and `stable_io_grow` on a positive number of pages.
  unfoldable pub stable_writer_grow : Cursor → ℕ → State → Outcome (Cursor × State)
  unfolding ic_stable_grow
  stable_writer_grow w new_pages s = elim (ic_stable_grow new_pages s) [
    | none ↦ failed out_of_memory
    | some (old_pages, s') ↦ done (record w { capacity = old_pages + new_pages }, s')
  ]

  -- Grows where the pages that are required exceed the capacity.
  unfoldable pub grow_to : Cursor → ℤ → State → Outcome (Cursor × State)
  unfolding stable_writer_grow
  grow_to w (pos required) s =
      if ltb w.capacity required
      then stable_writer_grow w (required - w.capacity) s
      else done (w, s)
  grow_to w (negsuc required) s = done (w, s)

  -- none is NULL.
  unfoldable pub ic_stable_writer_create_at : (ℕ → Bool) → ℤ → State → Option (Cursor × State)
  unfolding grow_to ic_stable_size calculate_required_pages
  ic_stable_writer_create_at malloc offset s =
      let w : Cursor = record { offset = offset; capacity = ic_stable_size s } in
      if malloc 16
      then elim (grow_to w (calculate_required_pages offset) s) [ done r ↦ some r | _ ↦ none ]
      else none

  unfoldable pub ic_stable_writer_create : (ℕ → Bool) → State → Option (Cursor × State)
  unfolding ic_stable_writer_create_at
  ic_stable_writer_create malloc s = ic_stable_writer_create_at malloc (pos 0) s

  -- The bytes at the offset, which moves behind them.
  unfoldable pub put_bytes : List ℕ → Cursor × State → Outcome (Cursor × State)
  unfolding ic_stable_write
  put_bytes bytes (w, s) = ic_stable_write w.offset bytes s >>= λ s'.
      done (record w { offset = w.offset +ℤ pos (length bytes) }, s')

  unfoldable pub ic_stable_writer_write :
      Option (List ℕ) → Cursor → State → Outcome (Cursor × State)
  unfolding grow_to put_bytes calculate_required_pages
  ic_stable_writer_write none w s = failed invalid_arg
  ic_stable_writer_write (some []) w s = done (w, s)
  ic_stable_writer_write (some (b ∷ bytes)) w s =
      let required = calculate_required_pages (w.offset +ℤ pos (suc (length bytes))) in
      grow_to w required s >>= put_bytes (b ∷ bytes)

  unfoldable pub ic_stable_reader_create_at : (ℕ → Bool) → ℤ → State → Option Cursor
  unfolding ic_stable_size
  ic_stable_reader_create_at malloc offset s =
      if malloc 16 then some (record { offset = offset; capacity = ic_stable_size s }) else none

  -- The bytes that are there from the offset on, at most `len`; none at the end.
  abbrev pub get_bytes : ℕ → ℤ → Cursor → State → Outcome (List ℕ × Cursor)
  get_bytes len (negsuc available) r s = done ([], r)
  get_bytes len (pos available) r s =
      if available == 0
      then done ([], r)
      else (ic_stable_read r.offset (min len available) s >>= λ bytes.
          done (bytes, record r { offset = r.offset +ℤ pos (min len available) }))

  -- -1 for a NULL buffer, which is not here; the count returned is the number of bytes.
  unfoldable pub ic_stable_reader_read : ℕ → Cursor → State → Outcome (List ℕ × Cursor)
  unfolding ic_stable_read
  ic_stable_reader_read len r s =
      if len == 0
      then done ([], r)
      else get_bytes len (pos (r.capacity * page_size) -ℤ r.offset) r s

  -- none is NULL.
  unfoldable pub ic_stable_io_create_at : (ℕ → Bool) → ℤ → State → Option Cursor
  unfolding ic_stable_size
  ic_stable_io_create_at malloc (negsuc offset) s = none
  ic_stable_io_create_at malloc (pos offset) s =
      if malloc 16 then some (record { offset = pos offset; capacity = ic_stable_size s }) else none

  -- On a size_t of 32 bits no length is above `(size_t)INT64_MAX`.
  abbrev io_write_at : ℤ → List ℕ → Cursor → State → Outcome (Cursor × State)
  io_write_at (negsuc offset) bytes io s = failed invalid_arg
  io_write_at (pos offset) bytes io s =
      if ltb (int64_max - length bytes) offset
      then failed out_of_bounds
      else (grow_to io (calculate_required_pages (pos (offset + length bytes))) s
          >>= put_bytes bytes)

  unfoldable pub ic_stable_io_write : Option (List ℕ) → Cursor → State → Outcome (Cursor × State)
  unfolding grow_to put_bytes calculate_required_pages
  ic_stable_io_write none io s = failed invalid_arg
  ic_stable_io_write (some []) io s = done (io, s)
  ic_stable_io_write (some (b ∷ bytes)) io s = io_write_at io.offset (b ∷ bytes) io s

  -- none is -1.
  unfoldable pub ic_stable_io_read : ℕ → Cursor → State → Outcome (Option (List ℕ × Cursor))
  unfolding ic_stable_read
  ic_stable_io_read len io s =
      if len == 0
      then done (some ([], io))
      else if ltb_ℤ io.offset (pos 0)
      then done none
      else if ltb (int64_max / page_size) io.capacity
      then done none
      else (get_bytes len (pos (io.capacity * page_size) -ℤ io.offset) io s >>= λ r. done (some r))

-- The offset that a seek counts from.
abbrev seek_base : Whence → Cursor → Outcome ℤ
seek_base seek_set io = done (pos 0)
seek_base seek_cur io = done io.offset
seek_base seek_end io =
    if ltb (int64_max / page_size) io.capacity
    then failed out_of_bounds
    else done (pos (io.capacity * page_size))

-- `-offset` overflows for INT64_MIN; it is taken to wrap around there, to INT64_MIN again.
abbrev negated : ℕ → ℤ
negated n = if n == int64_max then negsuc int64_max else pos (n + 1)

-- A new offset past INT64_MAX or below 0 is refused, as far as the tests see it.
abbrev seek_to : ℤ → ℤ → Cursor → Outcome Cursor
seek_to (pos offset) base io =
    if ltb_ℤ (pos int64_max -ℤ pos offset) base
    then failed out_of_bounds
    else done (record io { offset = base +ℤ pos offset })
seek_to (negsuc offset) base io =
    if ltb_ℤ base (negated offset)
    then failed out_of_bounds
    else done (record io { offset = base +ℤ negsuc offset })

unfoldable pub ic_stable_io_seek : ℤ → Whence → Cursor → Outcome Cursor
ic_stable_io_seek offset whence io = seek_base whence io >>= λ base. seek_to offset base io

module _ (host : Host) where
  open host use {State}

  unfoldable pub ic_stable_save : (ℕ → Bool) → Option (List ℕ) → State → Outcome State
  unfolding ic_stable_writer_create ic_stable_writer_write
  ic_stable_save malloc none s = failed invalid_arg
  ic_stable_save malloc (some bytes) s = elim (ic_stable_writer_create host malloc s) [
    | none ↦ failed out_of_memory
    | some (w, s₁) ↦ ic_stable_writer_write host (some bytes) w s₁ >>= λ (w', s₂). done s₂
  ]

  -- All of stable memory. The product is compared with SIZE_MAX after a cast to size_t, which keeps
  -- its low 32 bits, so that the comparison never fails; the buffer has the size that the cast
  -- leaves.
  unfoldable pub ic_stable_bytes : (ℕ → Bool) → State → Outcome (List ℕ)
  unfolding ic_stable_read ic_stable_size
  ic_stable_bytes malloc s =
      let total_bytes = ic_stable_size host s * page_size in
      if total_bytes == 0
      then done []
      else if malloc (total_bytes % 2 ^ 32)
      then (if leb (2 ^ 32) total_bytes then trap else ic_stable_read host (pos 0) total_bytes s)
      else failed out_of_memory

  unfoldable pub ic_stable_restore : (ℕ → Bool) → State → Outcome (List ℕ)
  unfolding ic_stable_bytes
  ic_stable_restore malloc s = ic_stable_bytes malloc s
