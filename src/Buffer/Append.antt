-- ===== src/Buffer/Append.antt =====
-- What a reservation and an append do, on every branch, when memory is granted.
use lucid.Base.{ℕ, ◌+◌, ◌^◌, ◌≤◌, ◌<◌, ◌≡◌, arith}
use lucid.Base.{Bool, true, false, List, ◌∷◌, ◌++◌, some, length, length-append, ltb, leb, ◌==◌}
use lucid.Base.{if◌then◌else◌, Bool-cases, inl, inr, ◌⊎◌, ltb→lt, ltb→le, leb→le}
use lucid.Base.Word.{size_mod, IsSize}
use lucid.Buffer.{
  Buffer, Attempt, done, failed, diverges, out_of_memory, buffer_overflow, double_until, rounds,
}
use lucid.Buffer.{ic_buffer_reserve, ic_buffer_append}
use lucid.Buffer.Growth.{Reaches, Reaches-le, IsCapacity, double_until_enough, double_until_refused}
use lucid.Buffer.Growth.{double_until_diverges}

abbrev start : ℕ → ℕ
start capacity = if capacity == 0 then 64 else capacity

start-Reaches : (capacity : ℕ) → IsCapacity capacity → (d : ℕ) × Reaches d (start capacity)
start-Reaches capacity (inl e) = (25, ground (arith, e))
start-Reaches capacity (inr (d, r)) = (d, ground (arith, r, Reaches-le d capacity r))

-- The buffer has its bytes within a capacity that growth can give it.
abbrev pub IsBuffer : Buffer → Type 0
IsBuffer buf = (length buf.bytes ≤ buf.capacity) × IsCapacity buf.capacity

capacity_le : (capacity : ℕ) → IsCapacity capacity → capacity ≤ 2 ^ 31
capacity_le capacity (inl e) = omega (arith, e)
capacity_le capacity (inr (d, r)) = (Reaches-le d capacity r).1

grown_run :
    (capacity request : ℕ)
    → IsCapacity capacity
    → request ≤ 2 ^ 31
    → (c : ℕ) × (double_until rounds capacity (start capacity) request ≡ done c)
      × (request ≤ c)
      × IsCapacity c
grown_run capacity request v h =
    let (d, r) = start-Reaches capacity v in
    let (c, run, enough, reaches) =
      double_until_enough rounds d capacity (start capacity) request (omega (arith, r.0)) r
        (ground arith) h in
    (c, run, enough, inr reaches)

-- Where a loop that cannot reach its goal ends.
abbrev pub beyond : Buffer → Attempt Buffer
beyond buf = if buf.capacity == 0 then diverges else failed out_of_memory

abbrev beyond_loop : ℕ → Attempt ℕ
beyond_loop capacity = if capacity == 0 then diverges else failed out_of_memory

beyond_run :
    (capacity request : ℕ)
    → IsCapacity capacity
    → 2 ^ 31 < request
    → double_until rounds capacity (start capacity) request ≡ beyond_loop capacity
beyond_run capacity request (inl e) h =
    ground (arith, e, double_until_diverges rounds 25 64 request (omega arith, omega arith) h)
beyond_run capacity request (inr (d, r)) h =
    let some_room = (Reaches-le d capacity r).0 in
    let run =
      double_until_refused rounds d capacity capacity request (omega (arith, r.0)) r some_room
        (omega arith) h in
    ground (arith, some_room, run)

module _ (realloc : ℕ → Bool) (granted : (n : ℕ) → realloc n ≡ true) where
  reserve_loop :
      (buf : Buffer) (request c : ℕ)
      → leb request buf.capacity ≡ false
      → double_until rounds buf.capacity (start buf.capacity) request ≡ done c
      → ic_buffer_reserve realloc buf request ≡ done (record buf { capacity = c })
  unfolding ic_buffer_reserve
  reserve_loop buf request c more run = ground (arith, more, run, granted c)

  reserve_beyond :
      (buf : Buffer) (request : ℕ)
      → leb request buf.capacity ≡ false
      → double_until rounds buf.capacity (start buf.capacity) request ≡ beyond_loop buf.capacity
      → ic_buffer_reserve realloc buf request ≡ beyond buf
  unfolding ic_buffer_reserve
  reserve_beyond buf request more run = ground (arith, more, run)

  -- When memory is granted, a reservation at a capacity that growth gives changes nothing if the
  -- capacity is there; it ends in a capacity that is enough and that growth gives, the bytes as
  -- before, if the request is above the capacity and at most 2 ^ 31; on a larger request it fails
  -- with out-of-memory, or, at capacity 0, its loop never ends.
  pub ic_buffer_reserve-cases :
      (buf : Buffer) (request : ℕ)
      → IsCapacity buf.capacity
      → ((request ≤ buf.capacity) × (ic_buffer_reserve realloc buf request ≡ done buf))
        ⊎ (((c : ℕ) × (buf.capacity < request)
              × (request ≤ 2 ^ 31)
              × (request ≤ c)
              × IsCapacity c
              × (ic_buffer_reserve realloc buf request ≡ done (record buf { capacity = c })))
            ⊎ ((2 ^ 31 < request) × (ic_buffer_reserve realloc buf request ≡ beyond buf)))
  unfolding ic_buffer_reserve
  ic_buffer_reserve-cases buf request v = elim (Bool-cases (leb request buf.capacity)) [
    | inl there ↦ inl (leb→le request buf.capacity there, ground (arith, there))
    | inr more ↦ elim (Bool-cases (leb request (2 ^ 31))) [
      | inl within ↦
          let (c, run, enough, is) =
            grown_run buf.capacity request v (leb→le request (2 ^ 31) within) in
          inr (
            inl (
              c,
              ground (arith, more),
              leb→le request (2 ^ 31) within,
              enough,
              is,
              reserve_loop buf request c more run,
            ))
      | inr past ↦
          let h : 2 ^ 31 < request = ground (arith, past) in
          inr (inr (h, reserve_beyond buf request more (beyond_run buf.capacity request v h)))
    ]
  ]

  appends :
      (buf buf' : Buffer) (b : ℕ) (bytes : List ℕ)
      → length buf.bytes + length (b ∷ bytes) < size_mod
      → ic_buffer_reserve realloc buf (length buf.bytes + length (b ∷ bytes)) ≡ done buf'
      → ic_buffer_append realloc buf (some (b ∷ bytes))
        ≡ done (record buf' { bytes = buf'.bytes ++ b ∷ bytes })
  unfolding ic_buffer_append
  appends buf buf' b bytes fits run = ground (arith, fits, run)

  append_beyond :
      (buf : Buffer) (b : ℕ) (bytes : List ℕ)
      → length buf.bytes + length (b ∷ bytes) < size_mod
      → ic_buffer_reserve realloc buf (length buf.bytes + length (b ∷ bytes)) ≡ beyond buf
      → ic_buffer_append realloc buf (some (b ∷ bytes)) ≡ beyond buf
  unfolding ic_buffer_append
  append_beyond buf b bytes fits run = ground (arith, fits, run)

  append_overflow :
      (buf : Buffer) (b : ℕ) (bytes : List ℕ)
      → IsSize (length (b ∷ bytes))
      → size_mod ≤ length buf.bytes + length (b ∷ bytes)
      → ic_buffer_append realloc buf (some (b ∷ bytes)) ≡ failed buffer_overflow
  unfolding ic_buffer_append
  append_overflow buf b bytes size h = ground (arith, size, h)

  appended-IsBuffer :
      (buf : Buffer) (appended : List ℕ) (c : ℕ)
      → length buf.bytes + length appended ≤ c
      → IsCapacity c
      → IsBuffer (record { bytes = buf.bytes ++ appended; capacity = c })
  appended-IsBuffer buf appended c h v = (omega (arith, h, length-append buf.bytes appended), v)

  -- When memory is granted, appending bytes to a buffer that is well formed puts them behind its own
  -- and leaves it well formed, if the total is at most 2 ^ 31; it fails with buffer-overflow if the
  -- total does not fit a size_t; in between it fails with out-of-memory, or, at capacity 0, its loop
  -- never ends.
  pub ic_buffer_append-cases :
      (buf : Buffer) (b : ℕ) (bytes : List ℕ)
      → IsBuffer buf
      → IsSize (length (b ∷ bytes))
      → let total = length buf.bytes + length (b ∷ bytes) in
        let run = ic_buffer_append realloc buf (some (b ∷ bytes)) in
        ((total ≤ 2 ^ 31)
          × ((c : ℕ) × (run ≡ done (record { bytes = buf.bytes ++ b ∷ bytes; capacity = c }))
              × IsBuffer (record { bytes = buf.bytes ++ b ∷ bytes; capacity = c })))
        ⊎ (((2 ^ 31 < total) × (total < size_mod) × (run ≡ beyond buf))
            ⊎ ((size_mod ≤ total) × (run ≡ failed buffer_overflow)))
  ic_buffer_append-cases buf b bytes (within, v) size =
      let total = length buf.bytes + length (b ∷ bytes) in
      elim (Bool-cases (ltb total size_mod)) [
        | inr past ↦
            let h = ltb→le total size_mod past in inr (inr (h, append_overflow buf b bytes size h))
        | inl below ↦
            let fits = ltb→lt total size_mod below in
            elim (ic_buffer_reserve-cases buf total v) [
              | inl (there, run) ↦ inl (
                omega (arith, there, capacity_le buf.capacity v),
                (
                  buf.capacity,
                  appends buf buf b bytes fits run,
                  appended-IsBuffer buf (b ∷ bytes) buf.capacity there v,
                ),
              )
              | inr (inl (c, _, small, enough, is, run)) ↦ inl (
                small,
                (
                  c,
                  appends buf (record buf { capacity = c }) b bytes fits run,
                  appended-IsBuffer buf (b ∷ bytes) c enough is,
                ),
              )
              | inr (inr (h, run)) ↦ inr (inl (h, fits, append_beyond buf b bytes fits run))
            ]
      ]
