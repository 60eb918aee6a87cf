-- ===== src/Idl/Serializer/Refine.antt =====
-- The serializer appends the wire form of a value, while memory is granted and the message stays
-- within half of a size_t's range.
use lucid.Base.{ℕ, zero, suc, ◌+◌, ◌*◌, ◌%◌, ◌^◌, ◌≤◌, ◌<◌, ◌≡◌, refl, subst, sym, ◌∙◌, ap, arith}
use lucid.Base.{
  Bool, true, false, List, [], ◌∷◌, ◌++◌, append_assoc, append-nil, Bool-cases, inl, inr,
}
use lucid.Base.{some, ltb, leb, ◌==◌, if◌then◌else◌, length, length-append}
use lucid.Base.Word.{size_mod, IsSize}
use lucid.Status.{Result, ok, ◌>>=◌}
use lucid.Idl.Arena.{Arena, Address, idl_arena_alloc, idl_arena_alloc_granted}
use lucid.Idl.Value.{Value, Values, no_values, value, ValueFields, no_fields, field}
use lucid.Idl.Serializer.{Serializer, double_until, rounds, count_values}
use lucid.Idl.Serializer.{
  ensure_capacity, copy_behind, write, write_byte, write_leb128, write_value,
}
use lucid.Idl.Serializer.{
  write_bool, write_nat16, write_nat32, write_nat64, write_int8, write_int16,
}
use lucid.Idl.Serializer.{write_int32, write_int64}
use lucid.Idl.Serializer.{
  write_text, write_principal, write_null, write_values, write_fields, write_first,
}
use lucid.Idl.Serializer.Wire.{
  uleb, uleb_encode, wire, wire_values, wire_fields, wire_first, InRange,
}
use lucid.Idl.Serializer.Wire.{blob_bytes, principal_bytes, InRangeValues, InRangeFields}
use native.Mathlib.Nat.{pow-suc}

-- Doubling ends with a capacity that is large enough, and that no size_t wraps around before.
double_until_enough :
    (fuel cap needed : ℕ)
    → needed ≤ 2 ^ 31
    → 1 ≤ cap
    → IsSize cap
    → needed ≤ cap * 2 ^ fuel
    → (c : ℕ) × (double_until (suc fuel) cap needed ≡ ok c) × (needed ≤ c) × (1 ≤ c) × IsSize c
unfolding double_until
double_until_enough zero cap needed hn hc hs h = (cap, ground arith, omega arith, hc, hs)
double_until_enough (suc fuel) cap needed hn hc hs h = elim (Bool-cases (ltb cap needed)) [
  | inl small ↦
      let (c, e, enough, pos, size) =
        double_until_enough fuel (cap * 2 % size_mod) needed hn (ground arith) (omega arith)
          (wide (ground arith)) in
      (c, rw small e, enough, pos, size)
  | inr large ↦ (cap, rw large, ground arith, hc, hs)
]
  where
    wide : cap < needed → needed ≤ cap * 2 % size_mod * 2 ^ fuel
    wide l =
        let plain : cap * 2 % size_mod ≡ cap * 2 = omega arith in
        rw plain (omega (arith, pow-suc 2 fuel, ap (λ (m : ℕ). cap * m) (pow-suc 2 fuel)))

-- The bytes lie within the buffer.
abbrev pub IsReady : Serializer → Type 0
IsReady ser = (length ser.bytes ≤ ser.capacity) × IsSize ser.capacity

-- The call succeeds and appends `bytes`.
abbrev pub Wrote : Serializer → List ℕ → Result Serializer → Type 0
Wrote ser bytes r =
    (ser' : Serializer) × (r ≡ ok ser') × (ser'.bytes ≡ ser.bytes ++ bytes) × IsReady ser'

-- Wherever there is room below 2 ^ 31, the writer appends `bytes`.
abbrev pub Writes : (Serializer → Result Serializer) → List ℕ → Type 0
Writes writer bytes =
    (ser : Serializer)
    → IsReady ser
    → length ser.bytes + length bytes ≤ 2 ^ 31
    → Wrote ser bytes (writer ser)

Writes-nothing : Writes ok []
Writes-nothing ser ready fits = (ser, refl, sym (append-nil ser.bytes), ready)

Writes-then :
    (p q : Serializer → Result Serializer) (a b : List ℕ)
    → Writes p a
    → Writes q b
    → Writes (λ ser. p ser >>= q) (a ++ b)
Writes-then p q a b hp hq ser ready fits =
    let (ser₁, e₁, b₁, r₁) = hp ser ready (omega (arith, length-append a b)) in
    let room : length ser₁.bytes + length b ≤ 2 ^ 31 =
      rw b₁ (omega (arith, length-append a b, length-append ser.bytes a)) in
    let (ser₂, e₂, b₂, r₂) = hq ser₁ r₁ room in
    (ser₂, rw e₁ e₂, b₂ ∙ ap (λ (l : List ℕ). l ++ b) b₁ ∙ append_assoc ser.bytes a b, r₂)

start_pos : (capacity : ℕ) → 1 ≤ (if capacity == 0 then 256 else capacity)
start_pos capacity = ground arith

start-IsSize : (capacity : ℕ) → IsSize capacity → IsSize (if capacity == 0 then 256 else capacity)
start-IsSize capacity h = ground arith

copy_within :
    (bytes : List ℕ) (ser ser' : Serializer)
    → ser'.bytes ≡ ser.bytes
    → length ser.bytes + length bytes ≤ ser'.capacity
    → IsSize ser'.capacity
    → Wrote ser bytes (copy_behind bytes ser')
copy_within bytes ser ser' same room size =
    let fits : length ser'.bytes + length bytes ≤ ser'.capacity = rw same room in
    (
      record ser' { bytes = ser'.bytes ++ bytes },
      ground arith,
      ap (λ (l : List ℕ). l ++ bytes) same,
      (omega (arith, length-append ser'.bytes bytes), size),
    )

module _ (malloc : ℕ → Bool) (granted : (n : ℕ) → malloc n ≡ true) where
  grows :
      (ser : Serializer) (n c : ℕ) (r : Address × Arena)
      → leb ((length ser.bytes + n) % size_mod) ser.capacity ≡ false
      → double_until rounds
          (if ser.capacity == 0 then 256 else ser.capacity)
          ((length ser.bytes + n) % size_mod)
        ≡ ok c
      → idl_arena_alloc malloc ser.arena c ≡ some r
      → ensure_capacity malloc n ser ≡ ok (record { arena = r.1; bytes = ser.bytes; capacity = c })
  unfolding ensure_capacity
  grows ser n c r small e got = rw (small, e) (rw (got, ◌>>=◌))

  ensure_capacity_enough :
      (ser : Serializer) (n : ℕ)
      → IsReady ser
      → length ser.bytes + n ≤ 2 ^ 31
      → (ser' : Serializer) × (ensure_capacity malloc n ser ≡ ok ser')
        × (ser'.bytes ≡ ser.bytes)
        × (length ser.bytes + n ≤ ser'.capacity)
        × IsSize ser'.capacity
  unfolding ensure_capacity
  ensure_capacity_enough ser n ready h =
      elim (Bool-cases (leb ((length ser.bytes + n) % size_mod) ser.capacity)) [
        | inl fits ↦ (ser, rw fits, refl, ground arith, ready.1)
        | inr small ↦
            let start : ℕ = if ser.capacity == 0 then 256 else ser.capacity in
            let (c, e, enough, pos, size) =
              double_until_enough 32 start ((length ser.bytes + n) % size_mod) (omega arith)
                (start_pos ser.capacity) (start-IsSize ser.capacity ready.1)
                (omega (arith, start_pos ser.capacity)) in
            let (r, got) = idl_arena_alloc_granted malloc granted ser.arena c (omega arith) in
            (
              record { arena = r.1; bytes = ser.bytes; capacity = c },
              grows ser n c r small e got,
              refl,
              omega arith,
              size,
            )
      ]

  write-Writes : (bytes : List ℕ) → Writes (write malloc bytes) bytes
  unfolding write
  write-Writes [] ser ready fits = Writes-nothing ser ready fits
  write-Writes (x ∷ bytes) ser ready fits =
      let (ser', e, same, room, size) =
        ensure_capacity_enough ser (length (x ∷ bytes)) ready fits in
      let run : write malloc (x ∷ bytes) ser ≡ copy_behind (x ∷ bytes) ser' = ground (arith, e) in
      subst (Wrote ser (x ∷ bytes)) (sym run) (copy_within (x ∷ bytes) ser ser' same room size)

  leb128-Writes : (v : ℕ) → v < 2 ^ 64 → Writes (write_leb128 malloc v) (uleb v)
  unfolding write_leb128
  leb128-Writes v h ser ready fits =
      subst (λ r. Wrote ser (uleb v) (r >>= λ bytes. write malloc bytes ser))
        (sym (uleb_encode v h)) (write-Writes (uleb v) ser ready fits)

  text-Writes : (s : List ℕ) → IsSize (length s) → Writes (write_text malloc s) (blob_bytes s)
  unfolding write_text
  text-Writes s h =
      Writes-then (write_leb128 malloc (length s)) (write malloc s) (uleb (length s)) s
        (leb128-Writes (length s) (omega arith)) (write-Writes s)

  byte-Writes : (b : ℕ) → Writes (write_byte malloc b) (b ∷ [])
  unfolding write_byte
  byte-Writes b = write-Writes (b ∷ [])

  principal-Writes :
      (s : List ℕ) → IsSize (length s) → Writes (write_principal malloc s) (principal_bytes s)
  unfolding write_principal write_text
  principal-Writes s h =
      Writes-then (write_byte malloc 1) (write_text malloc s) (1 ∷ []) (blob_bytes s)
        (byte-Writes 1) (text-Writes s h)

  func-Writes :
      (s method : List ℕ)
      → IsSize (length s)
      → IsSize (length method)
      → Writes (write_value malloc (Value.func s method)) (wire (Value.func s method))
  unfolding write_value wire
  func-Writes s method hs hm =
      Writes-then (write_byte malloc 1)
        (λ ser. write_principal malloc s ser >>= write_text malloc method) (1 ∷ [])
        (principal_bytes s ++ blob_bytes method) (byte-Writes 1)
        (Writes-then (write_principal malloc s) (write_text malloc method) (principal_bytes s)
          (blob_bytes method) (principal-Writes s hs) (text-Writes method hm))

  mutual
    unfolding write_value wire write_null write_bool write_nat16 write_nat32 write_nat64 write_int8
        write_int16 write_int32 write_int64

    value-Writes : (v : Value) → InRange v → Writes (write_value malloc v) (wire v)
    value-Writes Value.null h = Writes-nothing
    value-Writes (Value.bool v) h = byte-Writes _
    value-Writes (Value.nat8 v) h = byte-Writes v
    value-Writes (Value.nat16 v) h = write-Writes _
    value-Writes (Value.nat32 v) h = write-Writes _
    value-Writes (Value.nat64 v) h = write-Writes _
    value-Writes (Value.int8 v) h = byte-Writes _
    value-Writes (Value.int16 v) h = write-Writes _
    value-Writes (Value.int32 v) h = write-Writes _
    value-Writes (Value.int64 v) h = write-Writes _
    value-Writes (Value.float32 bits) h = write-Writes _
    value-Writes (Value.float64 bits) h = write-Writes _
    value-Writes (Value.text s) h = text-Writes s h
    value-Writes (Value.blob s) h = text-Writes s h
    value-Writes Value.reserved h = Writes-nothing
    value-Writes (Value.principal s) h = principal-Writes s h
    value-Writes (Value.service s) h = principal-Writes s h
    value-Writes (Value.func s method) (hs, hm) = func-Writes s method hs hm
    value-Writes (Value.nat bytes) h = write-Writes bytes
    value-Writes (Value.int bytes) h = write-Writes bytes
    value-Writes Value.opt_none h = leb128-Writes 0 (omega arith)
    value-Writes (Value.opt_some v) h =
        Writes-then (write_leb128 malloc 1) (write_value malloc v) (uleb 1) (wire v)
          (leb128-Writes 1 (omega arith)) (value-Writes v h)
    value-Writes (Value.vec vs) (n, h) =
        Writes-then (write_leb128 malloc (count_values vs)) (write_values malloc vs)
          (uleb (count_values vs)) (wire_values vs) (leb128-Writes (count_values vs) (omega arith))
          (values-Writes vs h)
    value-Writes (Value.record_of fs) h = fields-Writes fs h
    value-Writes (Value.variant index fs) (n, h) =
        Writes-then (write_leb128 malloc index) (write_first malloc fs) (uleb index) (wire_first fs)
          (leb128-Writes index n) (first-Writes fs h)

    values-Writes :
        (vs : Values) → InRangeValues vs → Writes (write_values malloc vs) (wire_values vs)
    values-Writes no_values h = Writes-nothing
    values-Writes (value v vs) (hv, h) =
        Writes-then (write_value malloc v) (write_values malloc vs) (wire v) (wire_values vs)
          (value-Writes v hv) (values-Writes vs h)

    fields-Writes :
        (fs : ValueFields) → InRangeFields fs → Writes (write_fields malloc fs) (wire_fields fs)
    fields-Writes no_fields h = Writes-nothing
    fields-Writes (field l v fs) (hv, h) =
        Writes-then (write_value malloc v) (write_fields malloc fs) (wire v) (wire_fields fs)
          (value-Writes v hv) (fields-Writes fs h)

    first-Writes :
        (fs : ValueFields) → InRangeFields fs → Writes (write_first malloc fs) (wire_first fs)
    first-Writes no_fields h = Writes-nothing
    first-Writes (field l v fs) (hv, h) = value-Writes v hv

  -- While memory is granted, a value whose lengths fit a size_t is appended to the buffer in its wire
  -- form, provided that the message stays within 2 ^ 31 bytes; the buffer, which held its content
  -- before, then holds it too.
  pub write_value-wire :
      (v : Value) (ser : Serializer)
      → InRange v
      → IsReady ser
      → length ser.bytes + length (wire v) ≤ 2 ^ 31
      → (ser' : Serializer) × (write_value malloc v ser ≡ ok ser')
        × (ser'.bytes ≡ ser.bytes ++ wire v)
        × IsReady ser'
  write_value-wire v ser h ready fits = value-Writes v h ser ready fits
