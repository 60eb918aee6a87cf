-- ===== src/Idl/Deserializer/Composite.antt =====
-- The readers of texts, principals, numbers and composite values, on the wire form of a value.
use lucid.Base.{ℕ, suc, ◌+◌, ◌-◌, ◌*◌, ◌/◌, ◌%◌, ◌^◌, ◌<◌, ◌==◌, not, ◌&&◌, Bool, true, false}
use lucid.Base.{List, [], ◌∷◌, ◌++◌, append-nil, ◌≡◌, refl, sym, subst, arith, All}
use lucid.Base.{Option, some, leb, if◌then◌else◌, length}
use lucid.Base.{take-length_append, drop-length_append, All-append}
use lucid.Base.Int.{ℤ}
use lucid.Base.Word.{size_mod, IsSize}
use lucid.Status.{ok, invalid_arg}
use lucid.Leb128.{IsByte, uleb128_decode, sleb128_decode}
use lucid.Leb128.Unsigned.{uleb128_number, number-append, uleb128_decode-number}
use lucid.Idl.Types.{Name, Label, IdlType, TypeFields}
use lucid.Idl.Value.{Value, Values, no_fields, field}
use lucid.Idl.Serializer.{to_unsigned, count_values}
use lucid.Idl.Serializer.Wire.{uleb, wire, wire_values}
use lucid.Idl.Serializer.Wire.{blob_bytes, principal_bytes}
use lucid.Idl.Deserializer.{Read, pure, ◌>>=◌, read_bytes, read_byte, read_leb128}
use lucid.Idl.Deserializer.{read_sleb128, to_signed, read_bool}
use lucid.Idl.Deserializer.{read_blob, read_text}
use lucid.Idl.Deserializer.{read_principal, read_value_text, read_value_func, read_value_nat}
use lucid.Idl.Deserializer.{
  read_value_int, read_value_opt, read_items, items_size, read_array, nth_field, read_chosen,
}
use lucid.Idl.Deserializer.{read_value_variant, trace, kind_is_nat8, read_value_vec, read_by_kind}
use lucid.Idl.Deserializer.{read_value_by_type}
use lucid.Idl.Deserializer.Utf8.{idl_utf8_validate}
use lucid.Idl.Deserializer.Reads.{Reads, Reads-pure, Reads-bind, Reads-map, Reads-require}
use lucid.Idl.Deserializer.Reads.{read_byte-Reads, read_bytes-Reads, read_leb128-Reads}
use lucid.Idl.Deserializer.Typing.{IsBlob, IsPrincipal, IsSleb}

-- To read something else that is the same.
Reads-to : {A : Type 0} (p : Read A) (xs : List ℕ) {a b : A} → a ≡ b → Reads p xs a → Reads p xs b
Reads-to p xs e r = subst (Reads p xs) e r

pub bool-Reads : (b : Bool) → Reads read_bool ((if b then 1 else 0) ∷ []) b
unfolding read_bool
bool-Reads true =
    Reads-bind read_byte _ (1 ∷ []) [] 1 true (read_byte-Reads 1 (omega arith)) (Reads-pure true)
bool-Reads false =
    Reads-bind read_byte _ (0 ∷ []) [] 0 false (read_byte-Reads 0 (omega arith)) (Reads-pure false)

module _ (w : ℕ) (p : Read ℕ) (xs : List ℕ) (z : ℤ) where
  pub signed-Reads :
      to_signed w (to_unsigned w z) ≡ z
      → Reads p xs (to_unsigned w z)
      → Reads (p >>= λ v. pure (to_signed w v)) xs z
  signed-Reads e r =
      Reads-to (p >>= λ v. pure (to_signed w v)) xs e
        (Reads-map p (to_signed w) xs (to_unsigned w z) r)

blob-Reads : (s : List ℕ) → IsBlob s → Reads read_blob (blob_bytes s) s
unfolding read_blob
blob-Reads s (are_bytes, size) =
    Reads-bind read_leb128 (λ len. read_bytes (len % size_mod)) (uleb (length s)) s (length s) s
      (read_leb128-Reads (length s) (omega arith))
      (subst (λ n. Reads (read_bytes n) s s) {x = length s} (omega arith)
        (read_bytes-Reads s are_bytes))

text-Reads : (s : List ℕ) → IsBlob s → idl_utf8_validate s ≡ true → Reads read_text (blob_bytes s) s
unfolding read_text
text-Reads s h valid =
    subst (λ xs. Reads read_text xs s) (append-nil (blob_bytes s))
      (Reads-bind read_blob _ (blob_bytes s) [] s s (blob-Reads s h)
        (Reads-require (idl_utf8_validate s) invalid_arg _ [] s valid (Reads-pure s)))

pub principal-Reads : (s : List ℕ) → IsPrincipal s → Reads read_principal (principal_bytes s) s
unfolding read_principal
principal-Reads s (are_bytes, short) =
    Reads-bind read_byte _ (1 ∷ []) (blob_bytes s) 1 s (read_byte-Reads 1 (omega arith)) (
      Reads-bind read_leb128 _ (uleb (length s)) s (length s) s
        (read_leb128-Reads (length s) (omega arith))
        (Reads-require (leb (length s) 29) invalid_arg _ s s (ground arith) (
          subst (λ n. Reads (read_bytes n) s s) {x = length s} (omega arith)
            (read_bytes-Reads s are_bytes))))

pub value_text-Reads :
    (s : List ℕ)
    → IsBlob s
    → idl_utf8_validate s ≡ true
    → Reads read_value_text (wire (Value.text s)) (Value.text s)
unfolding read_value_text wire
value_text-Reads s h valid =
    subst (λ xs. Reads read_value_text xs (Value.text s)) (append-nil (blob_bytes s))
      (Reads-bind read_text _ (blob_bytes s) [] s (Value.text s) (text-Reads s h valid) (
        Reads-require (idl_utf8_validate s) invalid_arg _ [] (Value.text s) valid
          (Reads-pure (Value.text s))))

pub value_func-Reads :
    (s name : List ℕ)
    → IsPrincipal s
    → IsBlob name
    → idl_utf8_validate name ≡ true
    → Reads read_value_func (wire (Value.func s name)) (Value.func s name)
unfolding read_value_func wire
value_func-Reads s name hs hn valid =
    Reads-bind read_byte _ (1 ∷ []) (principal_bytes s ++ blob_bytes name) 1 (Value.func s name)
      (read_byte-Reads 1 (omega arith))
      (Reads-bind read_principal _ (principal_bytes s) (blob_bytes name) s (Value.func s name)
        (principal-Reads s hs)
        (Reads-map read_text (Value.func s) (blob_bytes name) name (text-Reads name hn valid)))

pub value_nat-Reads :
    (bytes : List ℕ) (n : ℕ)
    → All IsByte bytes
    → uleb128_number bytes ≡ some (n, length bytes)
    → n < 2 ^ 64
    → 7 * length bytes < size_mod
    → Reads read_value_nat bytes (Value.nat bytes)
unfolding read_value_nat read_leb128
value_nat-Reads bytes n are_bytes number small few = (
  are_bytes,
  λ here total rest e size h.
      let decoded =
        uleb128_decode-number (bytes ++ rest) n (length bytes)
          (All-append IsByte bytes rest are_bytes h) few small
          (number-append bytes rest n (length bytes) number) in
      let span : here + length bytes - here ≡ length bytes = omega arith in
      rw decoded (rw (span, take-length_append bytes rest, drop-length_append bytes rest) refl),
)

pub value_int-Reads :
    (bytes : List ℕ) (z : ℤ) → IsSleb bytes z → Reads read_value_int bytes (Value.int bytes)
unfolding read_value_int read_sleb128
value_int-Reads bytes z (are_bytes, decodes) = (
  are_bytes,
  λ here total rest e size h.
      let span : here + length bytes - here ≡ length bytes = omega arith in
      rw (decodes rest h)
        (rw (span, take-length_append bytes rest, drop-length_append bytes rest) refl),
)

pub uleb_zero : uleb 0 ≡ 0 ∷ []
unfolding uleb lucid.Leb128.uleb128_encode lucid.Leb128.uleb128_emit
uleb_zero = refl

pub uleb_one : uleb 1 ≡ 1 ∷ []
unfolding uleb lucid.Leb128.uleb128_encode lucid.Leb128.uleb128_emit
uleb_one = refl

pub opt_none-Reads :
    (inner : Read Value) → Reads (read_value_opt inner) (wire Value.opt_none) Value.opt_none
unfolding read_value_opt wire
opt_none-Reads inner = rw uleb_zero (
    Reads-bind read_byte _ (0 ∷ []) [] 0 Value.opt_none (read_byte-Reads 0 (omega arith))
      (Reads-pure Value.opt_none))

pub opt_some-Reads :
    (inner : Read Value) (v : Value)
    → Reads inner (wire v) v
    → Reads (read_value_opt inner) (wire (Value.opt_some v)) (Value.opt_some v)
unfolding read_value_opt wire
opt_some-Reads inner v h = rw uleb_one (
    Reads-bind read_byte _ (1 ∷ []) (wire v) 1 (Value.opt_some v) (read_byte-Reads 1 (omega arith))
      (Reads-map inner Value.opt_some (wire v) v h))

pub variant-Reads :
    (by_type : IdlType → Read Value) (ts : TypeFields) (index : ℕ) (l : Label) (t : IdlType)
    (v : Value)
    → index < 2 ^ 64
    → nth_field ts index ≡ some (l, t)
    → Reads (by_type t) (wire v) v
    → Reads
        (read_value_variant by_type ts)
        (wire (Value.variant index (field l v no_fields)))
        (Value.variant index (field l v no_fields))
unfolding read_value_variant wire
variant-Reads by_type ts index l t v small chosen h =
    Reads-bind read_leb128 (λ i. read_chosen by_type i (nth_field ts i)) (uleb index) (wire v) index
      (Value.variant index (field l v no_fields)) (read_leb128-Reads index small)
      (subst
        (λ c.
          Reads (read_chosen by_type index c) (wire v) (Value.variant index (field l v no_fields)))
        (sym chosen)
        (Reads-map (by_type t) (λ w. Value.variant index (field l w no_fields)) (wire v) v h))

-- An array below 2 ^ 30 items has the size that is asked for.
items_size_fits :
    (n : ℕ) → n < 2 ^ 30 → (items_size n / 4 ≡ n) × ((items_size n == 0 && not (n == 0)) ≡ false)
unfolding items_size
items_size_fits n h = ground arith

array-Reads :
    (n : ℕ) (item : Read Value) (xs : List ℕ) (vs : Values)
    → n < 2 ^ 30
    → Reads (read_items n item) xs vs
    → Reads (read_array n item) xs vs
unfolding read_array
array-Reads n item xs vs small (hx, r) = (
  hx,
  λ here total rest le hs h.
      let (whole, given) = items_size_fits n small in
      let run = r here total rest le hs h in
      let same : (n == n) ≡ true = ground arith in rw given (rw whole (rw run (rw same refl))),
)

module _ (find : Name → Option IdlType) (links : ℕ) where
  pub blob_vec-Reads :
      (by_type : IdlType → Read Value) (t : IdlType) (bytes : List ℕ)
      → trace find links t ≡ ok (some IdlType.nat8)
      → IsBlob bytes
      → Reads (read_value_vec find links by_type t) (wire (Value.blob bytes)) (Value.blob bytes)
  unfolding read_value_vec wire
  blob_vec-Reads by_type t bytes e (are_bytes, size) =
      Reads-bind read_leb128 _ (uleb (length bytes)) bytes (length bytes) (Value.blob bytes)
        (read_leb128-Reads (length bytes) (omega arith))
        (
          are_bytes,
          λ here total rest le hs h. rw e (
              rw (low (length bytes) size) (
                (Reads-map (read_bytes (length bytes)) Value.blob bytes bytes
                    (read_bytes-Reads bytes are_bytes)).1
                  here total rest le hs h)),
        )
    where
      low : (n : ℕ) → IsSize n → n % size_mod ≡ n
      low n h = omega arith

  pub item_vec-Reads :
      (by_type : IdlType → Read Value) (t u : IdlType) (vs : Values)
      → trace find links t ≡ ok (some u)
      → kind_is_nat8 (some u) ≡ false
      → count_values vs < 2 ^ 30
      → Reads (read_items (count_values vs) (by_type t)) (wire_values vs) vs
      → Reads (read_value_vec find links by_type t) (wire (Value.vec vs)) (Value.vec vs)
  unfolding read_value_vec wire
  item_vec-Reads by_type t u vs e other small items =
      Reads-bind read_leb128 _ (uleb (count_values vs)) (wire_values vs) (count_values vs)
        (Value.vec vs) (read_leb128-Reads (count_values vs) (omega (arith, small)))
        (
          items.0,
          λ here total rest le hs h.
              rw (e, other)
                ((Reads-map (read_array (count_values vs) (by_type t)) Value.vec (wire_values vs) vs
                    (array-Reads (count_values vs) (by_type t) (wire_values vs) vs small items)).1
                  here total rest le hs h),
        )

  pub traced-Reads :
      (fuel : ℕ) (t u : IdlType) (xs : List ℕ) (v : Value)
      → trace find links t ≡ ok (some u)
      → Reads (read_by_kind find links (read_value_by_type find links fuel) (some u)) xs v
      → Reads (read_value_by_type find links (suc fuel) t) xs v
  unfolding read_value_by_type
  traced-Reads fuel t u xs v e (hx, r) =
      (hx, λ here total rest le hs h. rw e (r here total rest le hs h))
