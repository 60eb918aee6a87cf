-- ===== src/Idl/Coerce.antt =====
-- c_candid/runtime/runtime/src/coerce.c, up to idl_coerce_value: a value of one type as one of another.
-- Allocations are taken to succeed. No pointer is NULL but a type that the environment does not know.
pub mod Kinds
pub mod Fits
pub mod Gives
pub mod Parts
pub mod ByKind
pub mod Preserve
pub mod Rules
pub mod Missing
pub mod Blob
use lucid.Base.{ℕ, zero, suc, ◌+◌, Bool, true, false, ◌&&◌, ◌||◌, List, [], ◌∷◌, Option, none, some}
use lucid.Base.{◌==◌, if◌then◌else◌}
use lucid.Status.{Result, ok, err, stuck, invalid_arg, ◌>>=◌, map_ok}
use lucid.Idl.Types.{Name, Label, id_of, IdlType, TypeFields, idl_type_is_primitive}
use lucid.Idl.Value.{Value, Values, no_values, value, ValueFields, no_fields, field}
use lucid.Idl.Deserializer.{trace}
use lucid.Idl.Deserializer.Utf8.{idl_utf8_validate}
use lucid.Idl.Subtype.{Kind, kind_code, ◌is◌}
use lucid.Idl.Coerce.Kinds.{
  kind, opt_inner, vec_inner, record_fields, variant_fields, number_bytes, text_bytes,
  coerce_nat_to_int, byte_values, find_wire_field_type, find_record_field_value, find_expected,
  default_of, some_or_none, coerce_same_kind, checked_text,
}

module _ (find : Name → Option IdlType) (links : ℕ) where
  -- `resolve_type`
  abbrev pub resolved : IdlType → Result (Option IdlType)
  resolved t = trace find links t

  abbrev pub optional_kind : Option IdlType → Bool
  optional_kind none = false
  optional_kind (some t) = kind t is Kind.null || kind t is Kind.reserved || kind t is Kind.opt

  -- `idl_type_is_optional_like` of subtype.c.
  unfoldable pub is_optional_like : IdlType → Result Bool
  unfolding trace kind
  is_optional_like t = map_ok optional_kind (resolved t)

  -- What is done for the inner type, expected to be known.
  abbrev pub to_opt_inner : Result Bool → Result Value → Result Value
  to_opt_inner like coerced = like >>= λ b. if b then ok Value.opt_none else some_or_none coerced

  unfoldable pub coerce_blob_to_vec : IdlType → List ℕ → Result Value
  unfolding trace byte_values kind
  coerce_blob_to_vec expected_inner bytes = resolved expected_inner >>= λ o. elim o [
    | none ↦ ok (Value.vec (byte_values bytes))
    | some t ↦
        if kind t is Kind.nat8 then ok (Value.blob bytes) else ok (Value.vec (byte_values bytes))
  ]

  unfoldable pub create_default_optional_field : IdlType → Result Value
  unfolding trace default_of
  create_default_optional_field t =
      resolved t >>= λ o. elim o [ none ↦ stuck | some u ↦ ok (default_of u) ]

  -- No field of the label: the default of a type that is like an option.
  unfoldable pub coerce_missing_field : IdlType → Result Value
  unfolding is_optional_like create_default_optional_field
  coerce_missing_field expected = is_optional_like expected >>= λ b.
      if b then create_default_optional_field expected else err invalid_arg

  -- `impl` is `coerce_impl`.
  module _ (impl : IdlType → IdlType → Value → Result Value) where
    unfoldable pub coerce_opt_to_opt : IdlType → IdlType → Value → Result Value
    coerce_opt_to_opt wire_inner expected_inner Value.opt_none = ok Value.opt_none
    coerce_opt_to_opt wire_inner expected_inner (Value.opt_some v) =
        map_ok Value.opt_some (impl wire_inner expected_inner v)
    coerce_opt_to_opt wire_inner expected_inner v = err invalid_arg

    unfoldable pub coerce_to_opt : IdlType → IdlType → Value → Result Value
    unfolding trace is_optional_like
    coerce_to_opt wire_type expected_inner v = resolved expected_inner >>= λ o. elim o [
      | none ↦ ok Value.opt_none
      | some t ↦ to_opt_inner (is_optional_like t) (impl wire_type expected_inner v)
    ]

    unfoldable pub coerce_items : IdlType → IdlType → Values → Result Values
    coerce_items wire_inner expected_inner no_values = ok no_values
    coerce_items wire_inner expected_inner (value v vs) = do
      w ← impl wire_inner expected_inner v
      ws ← coerce_items wire_inner expected_inner vs
      ok (value w ws)

    unfoldable pub coerce_vec_to_vec : IdlType → IdlType → Value → Result Value
    unfolding coerce_blob_to_vec coerce_items
    coerce_vec_to_vec wire_inner expected_inner (Value.blob bytes) =
        coerce_blob_to_vec expected_inner bytes
    coerce_vec_to_vec wire_inner expected_inner (Value.vec vs) =
        map_ok Value.vec (coerce_items wire_inner expected_inner vs)
    coerce_vec_to_vec wire_inner expected_inner v = err invalid_arg

    abbrev pub coerce_found_field : IdlType → Option Value → Option IdlType → Result Value
    coerce_found_field expected (some v) (some wire_field_type) = impl wire_field_type expected v
    coerce_found_field expected (some v) none = coerce_missing_field expected
    coerce_found_field expected none wire_field_type = coerce_missing_field expected

    unfoldable pub coerce_single_record_field :
        TypeFields → Label → IdlType → ValueFields → Result Value
    unfolding coerce_missing_field find_record_field_value find_wire_field_type
    coerce_single_record_field wire_fields l expected fs =
        coerce_found_field expected (find_record_field_value fs (id_of l))
          (find_wire_field_type wire_fields (id_of l))

    unfoldable pub coerce_fields : TypeFields → TypeFields → ValueFields → Result ValueFields
    unfolding coerce_single_record_field
    coerce_fields wire_fields TypeFields.no_fields fs = ok no_fields
    coerce_fields wire_fields (TypeFields.field l expected ts) fs = do
      w ← coerce_single_record_field wire_fields l expected fs
      ws ← coerce_fields wire_fields ts fs
      ok (field l w ws)

    unfoldable pub coerce_record_to_record : TypeFields → TypeFields → Value → Result Value
    unfolding coerce_fields
    coerce_record_to_record wire_fields expected_fields (Value.record_of fs) =
        map_ok Value.record_of (coerce_fields wire_fields expected_fields fs)
    coerce_record_to_record wire_fields expected_fields v = err invalid_arg

    unfoldable pub coerce_chosen :
        Option (ℕ × (Label × IdlType)) → Option IdlType → Value → Result Value
    coerce_chosen none wire_field_type v = err invalid_arg
    coerce_chosen (some (i, (l, expected))) none v = err invalid_arg
    coerce_chosen (some (i, (l, expected))) (some wire_field_type) v =
        map_ok (λ w. Value.variant i (field l w no_fields)) (impl wire_field_type expected v)

    -- A variant has its one field.
    unfoldable pub coerce_variant_to_variant : TypeFields → TypeFields → Value → Result Value
    unfolding coerce_chosen find_expected find_wire_field_type
    coerce_variant_to_variant wire_fields expected_fields (Value.variant index (field l v fs)) =
        coerce_chosen (find_expected expected_fields 0 (id_of l))
          (find_wire_field_type wire_fields (id_of l)) v
    coerce_variant_to_variant wire_fields expected_fields (Value.variant index no_fields) = stuck
    coerce_variant_to_variant wire_fields expected_fields v = err invalid_arg

    -- The rules in their order, sorted by the expected type. `subtype` is what idl_subtype answers.
    module _ (subtype : IdlType → IdlType → Bool) where
      unfoldable pub coerce_by_kind : IdlType → IdlType → Value → Result Value
      unfolding coerce_nat_to_int coerce_opt_to_opt coerce_to_opt coerce_vec_to_vec
          coerce_record_to_record coerce_variant_to_variant coerce_same_kind kind idl_utf8_validate
      coerce_by_kind wt IdlType.reserved v = ok Value.reserved
      coerce_by_kind wt IdlType.int v =
          if kind wt is Kind.nat then coerce_nat_to_int v else coerce_same_kind wt IdlType.int v
      coerce_by_kind wt (IdlType.opt t) v =
          if kind wt is Kind.null then ok Value.opt_none else elim (opt_inner wt) [
            | some s ↦ coerce_opt_to_opt s t v
            | none ↦ coerce_to_opt wt t v
          ]
      coerce_by_kind wt (IdlType.vec t) v = elim (vec_inner wt) [
        | some s ↦ coerce_vec_to_vec s t v
        | none ↦ coerce_same_kind wt (IdlType.vec t) v
      ]
      coerce_by_kind wt (IdlType.record_of ts) v = elim (record_fields wt) [
        | some ws ↦ coerce_record_to_record ws ts v
        | none ↦ coerce_same_kind wt (IdlType.record_of ts) v
      ]
      coerce_by_kind wt (IdlType.variant ts) v = elim (variant_fields wt) [
        | some ws ↦ coerce_variant_to_variant ws ts v
        | none ↦ coerce_same_kind wt (IdlType.variant ts) v
      ]
      coerce_by_kind wt IdlType.text v =
          if kind wt is Kind.text then checked_text v else coerce_same_kind wt IdlType.text v
      coerce_by_kind wt (IdlType.func args rets modes) v =
          if kind wt is Kind.func
          then (if subtype wt (IdlType.func args rets modes) then ok v else err invalid_arg)
          else coerce_same_kind wt (IdlType.func args rets modes) v
      coerce_by_kind wt (IdlType.service ms) v =
          if kind wt is Kind.service
          then (if subtype wt (IdlType.service ms) then ok v else err invalid_arg)
          else coerce_same_kind wt (IdlType.service ms) v
      coerce_by_kind wt et v = coerce_same_kind wt et v

      -- `same` is the comparison of two pointers.
      unfoldable pub coerce_resolved :
          (IdlType → IdlType → Bool) → Option IdlType → Option IdlType → Value → Result Value
      unfolding coerce_by_kind kind idl_type_is_primitive
      coerce_resolved same none et v = err invalid_arg
      coerce_resolved same (some wt) none v = err invalid_arg
      coerce_resolved same (some wt) (some et) v =
          if same wt et
          then ok v
          else if kind wt is kind et && idl_type_is_primitive wt
          then ok v
          else coerce_by_kind wt et v

  -- On fuel for the nesting of the value and of the options.
  unfoldable pub idl_coerce_value :
      (IdlType → IdlType → Bool)
      → (IdlType → IdlType → Bool)
      → ℕ
      → IdlType
      → IdlType
      → Value
      → Result Value
  unfolding coerce_resolved trace
  idl_coerce_value same subtype zero wire_type expected_type v = stuck
  idl_coerce_value same subtype (suc fuel) wire_type expected_type v = resolved wire_type >>= λ wt.
      resolved expected_type >>= λ et.
      coerce_resolved (idl_coerce_value same subtype fuel) subtype same wt et v
