-- ===== src/Idl/Header/Read.antt =====
-- c_candid/runtime/runtime/src/header.c: the state of the parser, numbers and windows of bytes.
use lucid.Base.{ℕ, ◌+◌, ◌*◌, ◌/◌, ◌%◌, ◌^◌, ◌&&◌, Bool, not, List}
use lucid.Base.{some, ltb, leb, ◌==◌, if◌then◌else◌, length, take, drop}
use lucid.Base.Int.{ℤ}
use lucid.Base.Word.{size_mod}
use lucid.Status.{Result, ok, err, stuck, truncated, alloc}
use lucid.Status
use lucid.Leb128.{uleb128_decode, sleb128_decode}

abbrev pub Parse : Type 0 → Type 0
Parse A = List ℕ → ℕ → Result (A × ℕ)

abbrev pub pure : {A : Type 0} → A → Parse A
pure a input pos = ok (a, pos)

abbrev pub lift : {A : Type 0} → Result A → Parse A
lift r input pos = Status.◌>>=◌ r (λ a. ok (a, pos))

infixl 5 ◌>>=◌ ◌>>◌
abbrev pub ◌>>=◌ : {A B : Type 0} → Parse A → (A → Parse B) → Parse B
◌>>=◌ p f input pos = Status.◌>>=◌ (p input pos) (λ (a, pos'). f a input pos')

abbrev pub ◌>>◌ : {B : Type 0} → Parse (Unit {0}) → Parse B → Parse B
p >> q = p >>= λ _. q

abbrev pub require : Bool → Result (Unit {0}) → Parse (Unit {0})
require b r = lift (if b then ok tt else r)

-- Past the end of the data `data_len - *pos` wraps around, and bytes outside them are read.
unfoldable pub read_uleb128 : Parse ℕ
read_uleb128 input pos =
    if ltb (length input) pos
    then stuck
    else Status.◌>>=◌ (uleb128_decode (some (drop pos input)))
        (λ (value, consumed). ok (value, (pos + consumed) % size_mod))

unfoldable pub read_sleb128 : Parse ℤ
read_sleb128 input pos =
    if ltb (length input) pos
    then stuck
    else Status.◌>>=◌ (sleb128_decode (some (drop pos input)))
        (λ (value, consumed). ok (value, (pos + consumed) % size_mod))

-- `*pos + len > data_len` adds in 64 bits. What is behind the end of the data is outside them.
unfoldable pub read_window : ℕ → Parse (List ℕ)
read_window len input pos =
    if ltb (length input) ((pos + len) % 2 ^ 64)
    then err truncated
    else if leb (len % size_mod) (length (drop pos input))
    then ok (take (len % size_mod) (drop pos input), (pos + len) % size_mod)
    else stuck

-- The bytes of an unknown type are passed over: they are not read.
unfoldable pub skip_window : ℕ → Parse (Unit {0})
skip_window len input pos =
    if ltb (length input) ((pos + len) % 2 ^ 64)
    then err truncated
    else ok (tt, (pos + len) % size_mod)

-- How many elements an array has whose size, `size * count`, is cut to a size_t.
abbrev pub room_of : ℕ → ℕ → ℕ
room_of size count = size * count % size_mod / size

-- Other allocations are granted; one of 0 bytes is NULL, which is refused where there are elements.
abbrev pub grant_array : ℕ → ℕ → Parse (Unit {0})
grant_array size count =
    require (not (size * count % size_mod == 0 && not (count == 0))) (err alloc)

-- sizeof on wasm32.
abbrev pub idl_field_size : ℕ
idl_field_size = 16

abbrev pub idl_method_size : ℕ
idl_method_size = 8

abbrev pub pointer_size : ℕ
pointer_size = 4

-- The write of the next element: outside the array where there is no room.
abbrev pub write_element : ℕ → Parse (Unit {0})
write_element room = require (not (room == 0)) stuck
