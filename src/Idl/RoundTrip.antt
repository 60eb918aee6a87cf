-- ===== src/Idl/RoundTrip.antt =====
-- The serializer and the deserializer together, and the bounds check of the reader.
use lucid.Base.{ℕ, ◌+◌, ◌^◌, ◌≤◌, ◌<◌, Bool, true, [], append-nil}
use lucid.Base.{Option, ◌∙◌, ◌≡◌, ap, length, arith, ◌↔◌}
use lucid.Base.Word.{size_mod, IsSize}
use lucid.Status.{ok, stuck}
use lucid.Idl.Types.{Name, IdlType}
use lucid.Idl.Value.{Value}
use lucid.Idl.Arena.{Arena}
use lucid.Idl.Serializer.{Serializer, write_value, idl_value_serializer_init}
use lucid.Idl.Serializer.Wire.{wire, InRange}
use lucid.Idl.Serializer.Refine.{write_value-wire}
use lucid.Idl.Deserializer.{Reader, read_bytes, read_value_by_type}
use lucid.Idl.Deserializer.Reads.{at}
use lucid.Idl.Deserializer.Typing.{depth, HasType}
use lucid.Idl.Deserializer.RoundTrip.{read_value_by_type-wire}

-- What a new serializer wrote for a value of a type, in at most 2 ^ 31 bytes, with lengths in range
-- and memory granted, the deserializer reads back as that value, up to the end of the bytes, when its
-- fuel is above the nesting of the value.
pub read-write_value :
    (malloc : ℕ → Bool) (find : Name → Option IdlType) (links fuel : ℕ) (a : Arena) (t : IdlType)
    (v : Value)
    → ((n : ℕ) → malloc n ≡ true)
    → HasType find links t v
    → InRange v
    → depth v < fuel
    → length (wire v) ≤ 2 ^ 31
    → (ser : Serializer) × (write_value malloc v (idl_value_serializer_init a) ≡ ok ser)
      × (read_value_by_type find links fuel t (at 0 (length ser.bytes) ser.bytes)
          ≡ ok (v, at (length ser.bytes) (length ser.bytes) []))
unfolding idl_value_serializer_init
read-write_value malloc find links fuel a t v granted has_type range deep short =
    let start = idl_value_serializer_init a in
    let room : 0 + length (wire v) ≤ 2 ^ 31 = omega arith in
    let (ser, e, same, ready) =
      write_value-wire malloc granted v start range (omega arith, omega arith) room in
    let read =
      read_value_by_type-wire find links fuel 0 (length (wire v)) t v [] has_type deep (omega arith)
        (omega arith) tt in
    let read' = rw (append-nil (wire v)) at read in
    (ser, e, rw same (read' ∙ ap (λ (n : ℕ). ok (v, at n (length (wire v)) [])) (omega arith)))

-- The bounds check lets a window through that lies outside the input exactly if its end wraps around:
-- a position and a length whose sum does not fit a size_t pass the comparison with the input's
-- length.
pub read_bytes-eq-stuck_iff :
    (len : ℕ) (r : Reader)
    → r.pos + length r.ahead ≡ r.input_len
    → IsSize r.input_len
    → IsSize len
    → (read_bytes len r ≡ stuck) ↔ (size_mod ≤ r.pos + len)
unfolding read_bytes
read_bytes-eq-stuck_iff len r e size small = ground arith
