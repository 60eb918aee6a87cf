-- ===== src/Buffer.antt =====
-- cdk-c/src/ic_buffer.c: a byte buffer that grows. `bytes` are the first `size` bytes behind the data
-- pointer. `realloc n` says whether `realloc(data, n)` is not NULL. The buffer itself is no NULL
-- pointer; data that are NULL are `none`.
pub mod Append
pub mod Growth
use lucid.Base.{
  ℕ, zero, suc, ◌+◌, ◌-◌, ◌*◌, ◌%◌, ◌^◌, Bool, List, [], ◌∷◌, ◌++◌, Option, none, some,
}
use lucid.Base.{ltb, leb, ◌==◌, if◌then◌else◌, length}
use lucid.Base.Word.{size_mod}

pub data BufferError : Type 0 where
  invalid_arg out_of_memory buffer_overflow : BufferError

-- A call that fails leaves the buffer as it was. `diverges` is a loop that does not end.
pub data Attempt (A : Type 0) : Type 0 where
  done : A → Attempt A
  failed : BufferError → Attempt A
  diverges : Attempt A

pub record Buffer : Type 0 where
  pub bytes : List ℕ
  pub capacity : ℕ

unfoldable pub ic_buffer_init : Buffer
ic_buffer_init = record { bytes = []; capacity = 0 }

-- The loop of `ic_buffer_reserve`. After 32 doublings a size_t is 0 and stays so: with fuel for 33
-- rounds, to run out is to loop for ever.
unfoldable pub double_until : ℕ → ℕ → ℕ → ℕ → Attempt ℕ
double_until zero old new_capacity capacity = diverges
double_until (suc fuel) old new_capacity capacity =
    let doubled = new_capacity * 2 % size_mod in
    let more = double_until fuel old doubled capacity in
    if ltb new_capacity capacity
    then (if ltb doubled old then failed out_of_memory else more)
    else done new_capacity

abbrev pub rounds : ℕ
rounds = 33

module _ (realloc : ℕ → Bool) where
  unfoldable pub ic_buffer_reserve : Buffer → ℕ → Attempt Buffer
  ic_buffer_reserve buf capacity =
      if leb capacity buf.capacity
      then done buf
      else elim (double_until rounds buf.capacity (if buf.capacity == 0 then 64 else buf.capacity)
          capacity) [
            | done new_capacity ↦
                if realloc new_capacity
                then done (record buf { capacity = new_capacity })
                else failed out_of_memory
            | failed e ↦ failed e
            | diverges ↦ diverges
          ]

  unfoldable pub ic_buffer_append : Buffer → Option (List ℕ) → Attempt Buffer
  unfolding ic_buffer_reserve
  ic_buffer_append buf none = failed invalid_arg
  ic_buffer_append buf (some appended) =
      if length appended == 0
      then done buf
      else if ltb (size_mod - 1 - length appended) (length buf.bytes)
      then failed buffer_overflow
      else elim (ic_buffer_reserve buf (length buf.bytes + length appended)) [
        | done buf' ↦ done (record buf' { bytes = buf'.bytes ++ appended })
        | failed e ↦ failed e
        | diverges ↦ diverges
      ]

  unfoldable pub ic_buffer_append_byte : Buffer → ℕ → Attempt Buffer
  unfolding ic_buffer_append
  ic_buffer_append_byte buf byte = ic_buffer_append buf (some (byte ∷ []))

unfoldable pub ic_buffer_clear : Buffer → Buffer
ic_buffer_clear buf = record buf { bytes = [] }

unfoldable pub ic_buffer_free : Buffer → Buffer
ic_buffer_free buf = record buf { bytes = []; capacity = 0 }
