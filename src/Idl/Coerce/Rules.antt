-- ===== src/Idl/Coerce/Rules.antt =====
-- What the rules of coerce.c for values with parts return, where coerce_impl returns.
use lucid.Base.{
  ℕ, suc, ◌*◌, ◌≤◌, ◌<◌, Bool, true, false, List, Option, none, some, ap, sym, ◌∙◌, subst,
}
use lucid.Base.{◌≡◌, refl, arith, if◌then◌else◌, ◌==◌, Bool-cases, inl, inr}
use lucid.Status.{Result, ok, err, stuck, map_ok}
use lucid.Idl.Types.{Name, Label, id_of, IdlType, TypeFields}
use lucid.Idl.Value.{Value, Values, ValueFields, no_fields, field}
use lucid.Idl.Deserializer.{trace, nth_field}
use lucid.Idl.Deserializer.Typing.{depth, depth_values, depth_fields}
use lucid.Idl.Subtype.{Kind, ◌is◌}
use lucid.Idl.Coerce.Kinds.{kind}
use lucid.Idl.Coerce.Kinds.{
  byte_values, find_wire_field_type, find_record_field_value, find_expected, some_or_none,
}
use lucid.Idl.Coerce.{
  resolved, optional_kind, is_optional_like, to_opt_inner, coerce_blob_to_vec, coerce_opt_to_opt,
  coerce_to_opt, coerce_items, coerce_vec_to_vec, coerce_found_field, coerce_single_record_field,
  coerce_fields, coerce_record_to_record, coerce_chosen, coerce_variant_to_variant,
}
use lucid.Idl.Coerce.Fits.{plain_fits, plain, opt_none_fits, opt_some_fits}
use lucid.Idl.Coerce.Fits.{
  blob_fits, vec_fits, bytes_fit, record_fits, variant_fits, FitsItems, no_item, next_item,
  FitsFields, no_field, next_field,
}
use lucid.Idl.Coerce.Gives.{Gives, Gives-bind, Gives-after, Gives-map, Gives-if, map_ok-ne-stuck}
use lucid.Idl.Coerce.Parts.{nat8_kind, trace_again, BothFit, found-BothFit, IsAt}
use lucid.Idl.Coerce.Parts.{find_expected-IsAt}
use lucid.Idl.Coerce.Missing.{
  Of, OfKind, From, FromKind, wraps, need, need-le, wraps-unlike, missing-Gives,
}

module _ (find : Name → Option IdlType) (links : ℕ) where
  module _ (follows : (t : IdlType) → trace find links t ≡ stuck → ⊥) where
    -- `fuel` bounds the calls that `impl` may make one in another.
    module _ (impl : IdlType → IdlType → Value → Result Value) (fuel : ℕ)
        (gives : (wt et : IdlType) (v : Value)
          → need find links et v < fuel
          → From find links wt v
          → Gives (Of find links et) (impl wt et v)) where
      part-Gives :
          (wt et : IdlType) (v : Value)
          → 2 * suc (depth v) ≤ fuel
          → From find links wt v
          → Gives (Of find links et) (impl wt et v)
      part-Gives wt et v small = gives wt et v (omega (arith, need-le find links et v))

      pub opt_to_opt-Gives :
          (s t : IdlType) (v : Value)
          → 2 * depth v ≤ fuel
          → FromKind find links (IdlType.opt s) v
          → Gives (OfKind find links (IdlType.opt t)) (coerce_opt_to_opt find links impl s t v)
      unfolding coerce_opt_to_opt kind plain_fits
      opt_to_opt-Gives s t v small (plain h) = absurd (grind (arith, h))
      opt_to_opt-Gives s t _ small opt_none_fits = opt_none_fits
      opt_to_opt-Gives s t _ small (opt_some_fits {v = v} h) =
          Gives-map (Of find links t) (OfKind find links (IdlType.opt t)) (impl s t v)
            Value.opt_some (part-Gives s t v small h) (λ w fit. opt_some_fits fit)

      pub to_opt-Gives :
          (wt t : IdlType) (v : Value)
          → 2 * depth v < fuel
          → From find links wt v
          → Gives (OfKind find links (IdlType.opt t)) (coerce_to_opt find links impl wt t v)
      unfolding coerce_to_opt is_optional_like
      to_opt-Gives wt t v small h =
          Gives-after P (resolved find links t) _ (follows t) λ o run. by_inner o run
        where
          P : Value → Type 0
          P = OfKind find links (IdlType.opt t)

          tried : (r : Result Value) → Gives (Of find links t) r → Gives P (some_or_none r)
          tried (ok w) g = opt_some_fits g
          tried (err e) g = opt_none_fits
          tried stuck g = g

          -- The inner type is no option, so that it is not followed once more.
          plainly :
              (u : IdlType) (b : Bool)
              → resolved find links t ≡ ok (some u)
              → is_optional_like find links u ≡ ok b
              → b ≡ false
              → wraps find links (trace find links t) ≡ 0
          plainly u b run like e =
              let known : ok (optional_kind find links (some u)) ≡ ok b =
                sym (ap (map_ok (optional_kind find links)) (trace_again find links t u run))
                ∙ like in
              let same : optional_kind find links (some u) ≡ b = cc in
              ap (wraps find links) run ∙ wraps-unlike find links u (same ∙ e)

          by_inner :
              (o : Option IdlType)
              → resolved find links t ≡ ok o
              → Gives P (elim o [
                | none ↦ ok Value.opt_none
                | some u ↦ to_opt_inner find links (is_optional_like find links u) (impl wt t v)
              ])
          by_inner none run = opt_none_fits
          by_inner (some u) run =
              Gives-after P (is_optional_like find links u) _
                (map_ok-ne-stuck (optional_kind find links) (trace find links u) (follows u))
                λ b like.
                  Gives-if P b _ _ (λ e. opt_none_fits)
                    (λ e.
                      tried (impl wt t v)
                        (gives wt t v (omega (arith, small, plainly u b run like e)) h))

      items-Gives :
          (s t : IdlType) (vs : Values)
          → 2 * suc (depth_values vs) ≤ fuel
          → FitsItems find links false s vs
          → Gives (FitsItems find links true t) (coerce_items find links impl s t vs)
      unfolding coerce_items
      items-Gives s t _ small no_item = no_item
      items-Gives s t _ small (next_item {v = v} {vs = vs} h hs) =
          Gives-bind (Of find links t) (FitsItems find links true t) (impl s t v) _
            (part-Gives s t v (omega (arith, small)) h)
            λ w fit.
              Gives-bind (FitsItems find links true t) (FitsItems find links true t)
                (coerce_items find links impl s t vs) _
                (items-Gives s t vs (omega (arith, small)) hs) λ ws fits. next_item fit fits

      blob_to_vec-Gives :
          (t : IdlType) (bytes : List ℕ)
          → Gives (OfKind find links (IdlType.vec t)) (coerce_blob_to_vec find links t bytes)
      unfolding coerce_blob_to_vec kind
      blob_to_vec-Gives t bytes =
          Gives-after P (resolved find links t) _ (follows t) λ o run. by_inner o run
        where
          P : Value → Type 0
          P = OfKind find links (IdlType.vec t)

          by_inner :
              (o : Option IdlType)
              → resolved find links t ≡ ok o
              → Gives P (elim o [
                | none ↦ ok (Value.vec (byte_values bytes))
                | some u ↦
                    if kind u is Kind.nat8
                    then ok (Value.blob bytes)
                    else ok (Value.vec (byte_values bytes))
              ])
          by_inner none run = bytes_fit bytes refl
          by_inner (some u) run =
              Gives-if P (kind u is Kind.nat8) _ _
                (λ h. blob_fits (run ∙ ap (λ w. ok (some w)) (nat8_kind u h)))
                (λ h. bytes_fit bytes refl)

      pub vec_to_vec-Gives :
          (s t : IdlType) (v : Value)
          → 2 * depth v ≤ fuel
          → FromKind find links (IdlType.vec s) v
          → Gives (OfKind find links (IdlType.vec t)) (coerce_vec_to_vec find links impl s t v)
      unfolding coerce_vec_to_vec kind plain_fits
      vec_to_vec-Gives s t v small (plain h) = absurd (grind (arith, h))
      vec_to_vec-Gives s t _ small (blob_fits {bytes = bytes} e) = blob_to_vec-Gives t bytes
      vec_to_vec-Gives s t _ small (vec_fits {vs = vs} h) =
          Gives-map (FitsItems find links true t) (OfKind find links (IdlType.vec t))
            (coerce_items find links impl s t vs) Value.vec (items-Gives s t vs small h)
            (λ ws fits. vec_fits fits)
      vec_to_vec-Gives s t _ small (bytes_fit bytes e) = absurd (grind (arith, e))

      abbrev SmallPart : Option Value → Type 0
      SmallPart none = Unit {0}
      SmallPart (some v) = 2 * suc (depth v) ≤ fuel

      found-SmallPart :
          (fs : ValueFields) (label_id : ℕ)
          → 2 * suc (depth_fields fs) ≤ fuel
          → SmallPart (find_record_field_value fs label_id)
      unfolding find_record_field_value
      found-SmallPart no_fields label_id small = tt
      found-SmallPart (field l v fs) label_id small = elim (Bool-cases (id_of l == label_id)) [
        | inl here ↦ rw here (omega (arith, small))
        | inr other ↦ rw other (found-SmallPart fs label_id (omega (arith, small)))
      ]

      found-Gives :
          (t : IdlType) (o : Option Value) (w : Option IdlType)
          → SmallPart o
          → BothFit find links o w
          → Gives (Of find links t) (coerce_found_field find links impl t o w)
      found-Gives t (some v) (some s) small h = part-Gives s t v small h
      found-Gives t (some v) none small h = missing-Gives find links follows t
      found-Gives t none w small h = missing-Gives find links follows t

      fields-Gives :
          (ws ts : TypeFields) (fs : ValueFields)
          → 2 * suc (depth_fields fs) ≤ fuel
          → FitsFields find links false ws fs
          → Gives (FitsFields find links true ts) (coerce_fields find links impl ws ts fs)
      unfolding coerce_fields coerce_single_record_field
      fields-Gives ws TypeFields.no_fields fs small h = no_field
      fields-Gives ws (TypeFields.field l t ts) fs small h =
          Gives-bind (Of find links t) P (coerce_single_record_field find links impl ws l t fs) _
            (found-Gives t (find_record_field_value fs (id_of l))
              (find_wire_field_type ws (id_of l)) (found-SmallPart fs (id_of l) small)
              (found-BothFit find links ws fs (id_of l) h))
            λ w fit.
              Gives-bind (FitsFields find links true ts) P (coerce_fields find links impl ws ts fs)
                _ (fields-Gives ws ts fs small h) λ rest fits. next_field fit fits
        where
          P : ValueFields → Type 0
          P = FitsFields find links true (TypeFields.field l t ts)

      pub record-Gives :
          (ws ts : TypeFields) (v : Value)
          → 2 * depth v ≤ fuel
          → FromKind find links (IdlType.record_of ws) v
          → Gives
              (OfKind find links (IdlType.record_of ts))
              (coerce_record_to_record find links impl ws ts v)
      unfolding coerce_record_to_record kind plain_fits
      record-Gives ws ts v small (plain h) = absurd (grind (arith, h))
      record-Gives ws ts _ small (record_fits {fs = fs} h) =
          Gives-map (FitsFields find links true ts) (OfKind find links (IdlType.record_of ts))
            (coerce_fields find links impl ws ts fs) Value.record_of (fields-Gives ws ts fs small h)
            (λ gs fits. record_fits fits)

      chosen-Gives :
          (ts : TypeFields) (label_id : ℕ) (o : Option (ℕ × (Label × IdlType))) (w : Option IdlType)
          (v : Value)
          → 2 * suc (depth v) ≤ fuel
          → ((p : ℕ × (Label × IdlType)) → o ≡ some p → IsAt ts 0 label_id p)
          → ((s : IdlType) → w ≡ some s → From find links s v)
          → Gives (OfKind find links (IdlType.variant ts)) (coerce_chosen find links impl o w v)
      unfolding coerce_chosen
      chosen-Gives ts label_id none w v small at h = tt
      chosen-Gives ts label_id (some (i, (l, t))) none v small at h = tt
      chosen-Gives ts label_id (some (i, (l, t))) (some s) v small at h =
          let (k, index, nth, first, same) = at (i, (l, t)) refl in
          let here : nth_field ts i ≡ some (l, t) =
            ap (nth_field ts) {x = i} {y = k} (omega (arith, index)) ∙ nth in
          Gives-map (Of find links t) (OfKind find links (IdlType.variant ts)) (impl s t v)
            (λ w. Value.variant i (field l w no_fields)) (part-Gives s t v small (h s refl))
            (λ w fit. variant_fits i l here first fit)

      pub variant-Gives :
          (ws ts : TypeFields) (v : Value)
          → 2 * depth v ≤ fuel
          → FromKind find links (IdlType.variant ws) v
          → Gives
              (OfKind find links (IdlType.variant ts))
              (coerce_variant_to_variant find links impl ws ts v)
      unfolding coerce_variant_to_variant kind plain_fits
      variant-Gives ws ts v small (plain h) = absurd (grind (arith, h))
      variant-Gives ws ts _ small (variant_fits {t = t} {v = v} index l nth first h) =
          chosen-Gives ts (id_of l) (find_expected ts 0 (id_of l))
            (find_wire_field_type ws (id_of l)) v (omega (arith, small))
            (λ p e. find_expected-IsAt ts 0 (id_of l) p e)
            (λ s e. subst (λ w. From find links w v) (unwrap (sym first ∙ e)) h)
        where
          unwrap : {a b : IdlType} → some a ≡ some b → a ≡ b
          unwrap e = cc
