-- ===== src/Idl/Skip/Wire.antt =====
-- idl_skip_value of coerce.c on the wire form of a value.
use lucid.Base.{ℕ, zero, suc, ◌+◌, ◌%◌, ◌^◌, ◌<◌, true, false}
use lucid.Base.{List, [], ◌∷◌, ◌++◌, ◌≡◌, sym, ◌∙◌, ap, subst, arith, All}
use lucid.Base.{Option, some, length, length-append, drop-length_append}
use lucid.Base.Word.{IsSize, size_mod}
use lucid.Status.{ok}
use lucid.Leb128.{IsByte}
use lucid.Idl.Types.{Name, Label, IdlType, TypeFields}
use lucid.Idl.Value.{Value, Values, ValueFields, no_fields, field}
use lucid.Idl.Serializer.{to_unsigned, little_endian, count_values}
use lucid.Idl.Serializer.Wire.{wire, wire_values, wire_fields, blob_bytes, principal_bytes}
use lucid.Idl.Deserializer.{trace, kind_is_nat8, nth_field, read_value_by_type}
use lucid.Idl.Deserializer.Reads.{at, length-little_endian, little_endian-IsByte}
use lucid.Idl.Deserializer.Composite.{uleb_zero, uleb_one}
use lucid.Idl.Deserializer.Typing.{depth, depth_values, depth_fields, IsBlob, IsPrincipal}
use lucid.Idl.Deserializer.Typing.{
  HasType, typed, HasShape, HasItems, no_items, item, HasFields, end, next,
}
use lucid.Idl.Deserializer.Typing.{
  is_null, is_bool, is_nat8, is_nat16, is_nat32, is_nat64, is_int8, is_int16,
}
use lucid.Idl.Deserializer.Typing.{is_int32, is_int64, is_float32, is_float64, is_text, is_reserved}
use lucid.Idl.Deserializer.Typing.{
  is_principal, is_service, is_func, is_nat, is_int, is_opt_none, is_opt_some,
}
use lucid.Idl.Deserializer.Typing.{is_blob, is_vec, is_record, is_variant}
use lucid.Idl.Deserializer.RoundTrip.{unsigned_8, read_value_by_type-wire}
use lucid.Idl.Skip.{Skip, ◌>>◌, skip_fixed_size, with_number, skip_counted}
use lucid.Idl.Skip.{skip_flag, skip_length_prefixed, skip_opt_value, skip_items, skip_record_value}
use lucid.Idl.Skip.{
  skip_chosen, skip_variant_value, skip_elements, skip_vec_value, skip_by_kind, idl_skip_value,
}
use lucid.Idl.Skip.Moves.{Moves, Moves-nil, Moves-seq, skip_fixed_size-Moves, skip_counted-Moves}
use lucid.Idl.Skip.Moves.{skip_flag-Moves, with_number-Moves, skip_nat-Moves, skip_int-Moves}

byte_Moves : (b : ℕ) → IsByte b → Moves (skip_fixed_size 1) (b ∷ [])
byte_Moves b h = skip_fixed_size-Moves (b ∷ []) (h, tt)

number_Moves : (k v : ℕ) → Moves (skip_fixed_size k) (little_endian k v)
number_Moves k v =
    subst (λ n. Moves (skip_fixed_size n) (little_endian k v)) (length-little_endian k v)
      (skip_fixed_size-Moves (little_endian k v) (little_endian-IsByte k v))

blob_Moves : (s : List ℕ) → IsBlob s → Moves (skip_length_prefixed false) (blob_bytes s)
unfolding skip_length_prefixed
blob_Moves s (h, size) =
    with_number-Moves skip_counted (length s) s (omega arith) (skip_counted-Moves s h)

principal_Moves :
    (s : List ℕ) → IsPrincipal s → Moves (skip_length_prefixed true) (principal_bytes s)
unfolding skip_length_prefixed
principal_Moves s (h, short) =
    Moves-seq skip_flag (with_number skip_counted) (1 ∷ []) (blob_bytes s)
      (skip_flag-Moves 1 (omega arith)) (blob_Moves s (h, omega arith))

func_Moves :
    (s name : List ℕ)
    → IsPrincipal s
    → IsBlob name
    → Moves
        (skip_fixed_size 1 >> skip_length_prefixed true >> skip_length_prefixed false)
        (wire (Value.func s name))
unfolding wire
func_Moves s name hs hn =
    Moves-seq (skip_fixed_size 1 >> skip_length_prefixed true) (skip_length_prefixed false)
      ((1 ∷ []) ++ principal_bytes s) (blob_bytes name)
      (Moves-seq (skip_fixed_size 1) (skip_length_prefixed true) (1 ∷ []) (principal_bytes s)
        (byte_Moves 1 (omega arith)) (principal_Moves s hs))
      (blob_Moves name hn)

opt_none_Moves : (inner : Skip) → Moves (skip_opt_value inner) (wire Value.opt_none)
unfolding skip_opt_value wire
opt_none_Moves inner = rw uleb_zero (
  (omega arith, tt),
  λ before rest size h.
      rw (drop-length_append before (0 ∷ rest)) (ground (arith, length-append before (0 ∷ rest))),
)

opt_some_Moves :
    (inner : Skip) (v : Value)
    → Moves inner (wire v)
    → Moves (skip_opt_value inner) (wire (Value.opt_some v))
unfolding skip_opt_value wire
opt_some_Moves inner v m = rw uleb_one (
  h,
  λ before rest size hr.
      rw (drop-length_append before (1 ∷ (wire v ++ rest))) (moves before rest size hr),
)
  where
    step : Moves (λ input pos. ok ((pos + 1) % size_mod)) (1 ∷ [])
    step =
        ((omega arith, tt), λ before rest size h. ground (arith, length-append before (1 ∷ rest)))

    both : Moves ((λ input pos. ok ((pos + 1) % size_mod)) >> inner) ((1 ∷ []) ++ wire v)
    both = Moves-seq (λ input pos. ok ((pos + 1) % size_mod)) inner (1 ∷ []) (wire v) step m

    h : All IsByte ((1 ∷ []) ++ wire v)
    h = both.0

    moves :
        (before rest : List ℕ)
        → IsSize (length (before ++ (((1 ∷ []) ++ wire v) ++ rest)))
        → All IsByte rest
        → inner (before ++ (((1 ∷ []) ++ wire v) ++ rest)) ((length before + 1) % size_mod)
          ≡ ok (length before + length ((1 ∷ []) ++ wire v))
    moves = both.1

items_Moves :
    (one : Skip) (n : ℕ) (v vs : List ℕ)
    → Moves one v
    → Moves (skip_items n one) vs
    → Moves (skip_items (suc n) one) (v ++ vs)
unfolding skip_items
items_Moves one n v vs m ms = Moves-seq one (skip_items n one) v vs m ms

fields_Moves :
    (by_type : IdlType → Skip) (l : Label) (t : IdlType) (ts : TypeFields) (v vs : List ℕ)
    → Moves (by_type t) v
    → Moves (skip_record_value by_type ts) vs
    → Moves (skip_record_value by_type (TypeFields.field l t ts)) (v ++ vs)
unfolding skip_record_value
fields_Moves by_type l t ts v vs m ms =
    Moves-seq (by_type t) (skip_record_value by_type ts) v vs m ms

variant_Moves :
    (by_type : IdlType → Skip) (ts : TypeFields) (index : ℕ) (l : Label) (t : IdlType) (v : Value)
    → index < 2 ^ 64
    → nth_field ts index ≡ some (l, t)
    → Moves (by_type t) (wire v)
    → Moves (skip_variant_value by_type ts) (wire (Value.variant index (field l v no_fields)))
unfolding skip_variant_value wire skip_chosen
variant_Moves by_type ts index l t v small chosen m =
    with_number-Moves (λ i. skip_chosen by_type (nth_field ts i)) index (wire v) small
      (subst (λ c. Moves (skip_chosen by_type c) (wire v)) (sym chosen) m)

module _ (find : Name → Option IdlType) (links : ℕ) where
  blob_vec_Moves :
      (by_type : IdlType → Skip) (t : IdlType) (bytes : List ℕ)
      → trace find links t ≡ ok (some IdlType.nat8)
      → IsBlob bytes
      → Moves (skip_vec_value find links by_type t) (wire (Value.blob bytes))
  unfolding skip_vec_value skip_elements wire
  blob_vec_Moves by_type t bytes e (h, size) =
      let (hb, m) = skip_counted-Moves bytes h in
      with_number-Moves (skip_elements find links by_type t) (length bytes) bytes (omega arith)
        (hb, λ before rest hs hr. rw e (m before rest hs hr))

  item_vec_Moves :
      (by_type : IdlType → Skip) (t u : IdlType) (vs : Values)
      → trace find links t ≡ ok (some u)
      → kind_is_nat8 (some u) ≡ false
      → count_values vs < 2 ^ 64
      → Moves (skip_items (count_values vs) (by_type t)) (wire_values vs)
      → Moves (skip_vec_value find links by_type t) (wire (Value.vec vs))
  unfolding skip_vec_value skip_elements wire
  item_vec_Moves by_type t u vs e other small (hb, m) =
      with_number-Moves (skip_elements find links by_type t) (count_values vs) (wire_values vs)
        small (hb, λ before rest hs hr. rw (e, other) (m before rest hs hr))

  traced_Moves :
      (fuel : ℕ) (t u : IdlType) (xs : List ℕ)
      → trace find links t ≡ ok (some u)
      → Moves (skip_by_kind find links (idl_skip_value find links fuel) u) xs
      → Moves (idl_skip_value find links (suc fuel) t) xs
  unfolding idl_skip_value
  traced_Moves fuel t u xs e (hx, m) = (hx, λ before rest hs hr. rw e (m before rest hs hr))

  mutual
    unfolding skip_by_kind wire skip_items skip_record_value

    type_Moves :
        (fuel : ℕ) {t : IdlType} {v : Value}
        → HasType find links t v
        → depth v < fuel
        → Moves (idl_skip_value find links fuel t) (wire v)
    type_Moves zero h d = absurd (omega arith)
    type_Moves (suc fuel) {t} {v} (typed {u = u} e shape) d =
        traced_Moves fuel t u (wire v) e (shape_Moves fuel shape d)

    shape_Moves :
        (fuel : ℕ) {u : IdlType} {v : Value}
        → HasShape find links u v
        → depth v < suc fuel
        → Moves (skip_by_kind find links (idl_skip_value find links fuel) u) (wire v)
    shape_Moves fuel is_null d = Moves-nil
    shape_Moves fuel (is_bool true) d = byte_Moves 1 (omega arith)
    shape_Moves fuel (is_bool false) d = byte_Moves 0 (omega arith)
    shape_Moves fuel (is_nat8 n h) d = byte_Moves n h
    shape_Moves fuel (is_nat16 n h) d = number_Moves 2 n
    shape_Moves fuel (is_nat32 n h) d = number_Moves 4 n
    shape_Moves fuel (is_nat64 n h) d = number_Moves 8 n
    shape_Moves fuel (is_int8 z h) d = byte_Moves (to_unsigned 8 z) (unsigned_8 z h)
    shape_Moves fuel (is_int16 z h) d = number_Moves 2 (to_unsigned 16 z)
    shape_Moves fuel (is_int32 z h) d = number_Moves 4 (to_unsigned 32 z)
    shape_Moves fuel (is_int64 z h) d = number_Moves 8 (to_unsigned 64 z)
    shape_Moves fuel (is_float32 n h) d = number_Moves 4 n
    shape_Moves fuel (is_float64 n h) d = number_Moves 8 n
    shape_Moves fuel (is_text s h valid) d = blob_Moves s h
    shape_Moves fuel is_reserved d = Moves-nil
    shape_Moves fuel (is_principal s h) d = principal_Moves s h
    shape_Moves fuel (is_service ms s h) d = principal_Moves s h
    shape_Moves fuel (is_func args rets modes s name hs hn valid) d = func_Moves s name hs hn
    shape_Moves fuel (is_nat bytes n hb number small few) d = skip_nat-Moves bytes n hb number
    shape_Moves fuel (is_int bytes z (hb, decodes)) d = skip_int-Moves bytes z hb decodes
    shape_Moves fuel (is_opt_none t) d = opt_none_Moves (idl_skip_value find links fuel t)
    shape_Moves fuel (is_opt_some {t = t} {v = v} h) d =
        opt_some_Moves (idl_skip_value find links fuel t) v (type_Moves fuel h (omega arith))
    shape_Moves fuel (is_blob t bytes e h) d =
        blob_vec_Moves (idl_skip_value find links fuel) t bytes e h
    shape_Moves fuel (is_vec {t = t} {vs = vs} u e other small items) d =
        item_vec_Moves (idl_skip_value find links fuel) t u vs e other (omega (arith, small))
          (values_Moves fuel items (omega arith))
    shape_Moves fuel (is_record {ts = ts} {fs = fs} fields) d =
        record_Moves fuel fields (omega arith)
    shape_Moves fuel (is_variant {ts = ts} {t = t} {v = v} index l small chosen h) d =
        variant_Moves (idl_skip_value find links fuel) ts index l t v small chosen
          (type_Moves fuel h (omega arith))

    values_Moves :
        (fuel : ℕ) {t : IdlType} {vs : Values}
        → HasItems find links t vs
        → depth_values vs < fuel
        → Moves (skip_items (count_values vs) (idl_skip_value find links fuel t)) (wire_values vs)
    values_Moves fuel no_items d = Moves-nil
    values_Moves fuel (item {t = t} {v = v} {vs = vs} h hs) d =
        items_Moves (idl_skip_value find links fuel t) (count_values vs) (wire v) (wire_values vs)
          (type_Moves fuel h (omega arith)) (values_Moves fuel hs (omega arith))

    record_Moves :
        (fuel : ℕ) {ts : TypeFields} {fs : ValueFields}
        → HasFields find links ts fs
        → depth_fields fs < fuel
        → Moves (skip_record_value (idl_skip_value find links fuel) ts) (wire_fields fs)
    record_Moves fuel end d = Moves-nil
    record_Moves fuel (next {l = l} {t = t} {ts = ts} {v = v} {fs = fs} h hs) d =
        fields_Moves (idl_skip_value find links fuel) l t ts (wire v) (wire_fields fs)
          (type_Moves fuel h (omega arith)) (record_Moves fuel hs (omega arith))

  -- A value of a type, of nesting below the fuel, is skipped: from the start of its wire form, between
  -- any bytes, in an input whose length fits a size_t, the position moves to the end of that form. The
  -- deserializer, which reads the value from there with the same fuel, then stands at that position.
  pub idl_skip_value-wire :
      (fuel : ℕ) (t : IdlType) (v : Value) (before rest : List ℕ)
      → HasType find links t v
      → depth v < fuel
      → IsSize (length (before ++ (wire v ++ rest)))
      → All IsByte rest
      → (idl_skip_value find links fuel t (before ++ (wire v ++ rest)) (length before)
          ≡ ok (length before + length (wire v)))
        × (read_value_by_type find links fuel t
              (at (length before) (length (before ++ (wire v ++ rest))) (wire v ++ rest))
            ≡ ok (
              v,
              at (length before + length (wire v)) (length (before ++ (wire v ++ rest))) rest,
            ))
  idl_skip_value-wire fuel t v before rest h d size are_bytes =
      let total : length (before ++ (wire v ++ rest))
          ≡ length before + (length (wire v) + length rest) =
        length-append before (wire v ++ rest)
        ∙ ap (λ n. length before + n) (length-append (wire v) rest) in
      (
        (type_Moves fuel h d).1 before rest size are_bytes,
        read_value_by_type-wire find links fuel (length before)
            (length (before ++ (wire v ++ rest))) t v rest h d total size are_bytes,
      )
