-- ===== src/Idl/Coerce/ByKind.antt =====
-- The rules of coerce_impl of coerce.c, by the expected type.
use lucid.Base.{ℕ, ◌*◌, ◌≤◌, ◌<◌, true, false, Option, none, some, ◌∙◌, subst}
use lucid.Base.{◌≡◌, refl, arith}
use lucid.Status.{Result, stuck}
use lucid.Idl.Types.{Name, IdlType, TypeFields}
use lucid.Idl.Value.{Value}
use lucid.Idl.Deserializer.{trace}
use lucid.Idl.Deserializer.Typing.{depth}
use lucid.Idl.Deserializer.Utf8.{idl_utf8_validate}
use lucid.Idl.Subtype.{Kind, ◌is◌}
use lucid.Idl.Subtype.Kinds.{is_eq}
use lucid.Idl.Coerce.Kinds.{
  kind, opt_inner, vec_inner, record_fields, variant_fields, coerce_nat_to_int, coerce_same_kind,
  checked_text,
}
use lucid.Idl.Coerce.{
  coerce_opt_to_opt, coerce_to_opt, coerce_vec_to_vec, coerce_record_to_record,
  coerce_variant_to_variant,
}
use lucid.Idl.Coerce.Fits.{
  plain_fits, plain, opt_none_fits, opt_some_fits, blob_fits, vec_fits, bytes_fit, record_fits,
  variant_fits,
}
use lucid.Idl.Coerce.Gives.{Gives, Gives-if}
use lucid.Idl.Coerce.Parts.{is_some, has_parts, parts_of_kind, plain_no_parts}
use lucid.Idl.Coerce.Missing.{Of, OfKind, From, FromKind, need}
use lucid.Idl.Coerce.Rules.{
  opt_to_opt-Gives, to_opt-Gives, vec_to_vec-Gives, record-Gives, variant-Gives,
}

-- Kinds of which one has parts and the other has none.
differ : (a b : Kind) → has_parts a ≡ true → has_parts b ≡ false → (a is b) ≡ true → ⊥
differ a b h k e = ground (arith, h, k, e)

differ' : (a b : Kind) → has_parts a ≡ false → has_parts b ≡ true → (a is b) ≡ true → ⊥
differ' a b h k e = ground (arith, h, k, e)

none_only :
    {A B : Type 0} (P : B → Type 0) (o : Option A) (r : Result B) (f : A → Result B)
    → is_some o ≡ false
    → Gives P r
    → Gives P (elim o [ some a ↦ f a | none ↦ r ])
none_only P none r f h g = g
none_only P (some a) r f h g = absurd (grind (arith, h))

-- A type whose values have no parts has none itself.
no_parts :
    (t : IdlType) (v : Value)
    → plain_fits (kind t) v ≡ true
    → (is_some (opt_inner t) ≡ false)
      × (is_some (vec_inner t) ≡ false)
      × (is_some (record_fields t) ≡ false)
      × (is_some (variant_fields t) ≡ false)
no_parts t v h =
    let plain_kind = plain_no_parts (kind t) v h in
    let (o, w, r, c) = parts_of_kind t in
    (
      o ∙ ground (arith, plain_kind),
      w ∙ ground (arith, plain_kind),
      r ∙ ground (arith, plain_kind),
      c ∙ ground (arith, plain_kind),
    )

module _ (find : Name → Option IdlType) (links : ℕ) where
  -- A value of a wire type whose kind is one without parts.
  pub plain_kind :
      (wt : IdlType) (v : Value) (k : Kind)
      → has_parts k ≡ false
      → FromKind find links wt v
      → (kind wt is k) ≡ true
      → plain_fits k v ≡ true
  unfolding kind
  plain_kind wt v k h (plain p) e = subst (λ j. plain_fits j v ≡ true) (is_eq (kind wt) k e) p
  plain_kind _ _ k h (opt_none_fits {t = t}) e = absurd (differ Kind.opt k refl h e)
  plain_kind _ _ k h (opt_some_fits f) e = absurd (differ Kind.opt k refl h e)
  plain_kind _ _ k h (blob_fits f) e = absurd (differ Kind.vec k refl h e)
  plain_kind _ _ k h (vec_fits f) e = absurd (differ Kind.vec k refl h e)
  plain_kind _ _ k h (bytes_fit bytes f) e = absurd (differ Kind.vec k refl h e)
  plain_kind _ _ k h (record_fits f) e = absurd (differ Kind.record_of k refl h e)
  plain_kind _ _ k h (variant_fits i l n g f) e = absurd (differ Kind.variant k refl h e)

  -- Of the same kind, where the expected values have no parts.
  pub same_kind-Gives :
      (wt et : IdlType) (v : Value)
      → has_parts (kind et) ≡ false
      → FromKind find links wt v
      → Gives (OfKind find links et) (coerce_same_kind wt et v)
  unfolding coerce_same_kind
  same_kind-Gives wt et v h fit =
      Gives-if (OfKind find links et) (kind wt is kind et) _ _
        (λ e. plain (plain_kind wt v (kind et) h fit e)) (λ e. tt)

  -- Where the expected values have parts, and the others none.
  no_kind-Gives :
      (wt et : IdlType) (v : Value)
      → has_parts (kind et) ≡ true
      → plain_fits (kind wt) v ≡ true
      → Gives (OfKind find links et) (coerce_same_kind wt et v)
  unfolding coerce_same_kind
  no_kind-Gives wt et v h p =
      Gives-if (OfKind find links et) (kind wt is kind et) _ _
        (λ e. absurd (differ' (kind wt) (kind et) (plain_no_parts (kind wt) v p) h e)) (λ e. tt)

  text_of :
      (v : Value)
      → plain_fits Kind.text v ≡ true
      → Gives (OfKind find links IdlType.text) (checked_text v)
  unfolding plain_fits kind
  text_of (Value.text s) h =
      Gives-if (OfKind find links IdlType.text) (idl_utf8_validate s) _ _ (λ e. plain refl)
        (λ e. tt)
  text_of Value.null h = absurd (grind (arith, h))
  text_of _ h = absurd (grind (arith, h))

  pub text-Gives :
      (wt : IdlType) (v : Value)
      → FromKind find links wt v
      → (kind wt is Kind.text) ≡ true
      → Gives (OfKind find links IdlType.text) (checked_text v)
  text-Gives wt v fit e = text_of v (plain_kind wt v Kind.text refl fit e)

  int_of :
      (v : Value)
      → plain_fits Kind.nat v ≡ true
      → Gives (OfKind find links IdlType.int) (coerce_nat_to_int v)
  unfolding coerce_nat_to_int plain_fits kind
  int_of (Value.nat bytes) h = plain refl
  int_of Value.null h = absurd (grind (arith, h))
  int_of _ h = absurd (grind (arith, h))

  pub nat_to_int-Gives :
      (wt : IdlType) (v : Value)
      → FromKind find links wt v
      → (kind wt is Kind.nat) ≡ true
      → Gives (OfKind find links IdlType.int) (coerce_nat_to_int v)
  nat_to_int-Gives wt v fit e = int_of v (plain_kind wt v Kind.nat refl fit e)

  module _ (follows : (t : IdlType) → trace find links t ≡ stuck → ⊥)
      (impl : IdlType → IdlType → Value → Result Value) (fuel : ℕ)
      (gives : (wt et : IdlType) (v : Value)
        → need find links et v < fuel
        → From find links wt v
        → Gives (Of find links et) (impl wt et v)) where
    pub opt_rule :
        (wt t : IdlType) (v : Value)
        → 2 * depth v < fuel
        → FromKind find links wt v
        → From find links wt v
        → Gives (OfKind find links (IdlType.opt t)) (elim (opt_inner wt) [
          | some s ↦ coerce_opt_to_opt find links impl s t v
          | none ↦ coerce_to_opt find links impl wt t v
        ])
    opt_rule wt t v small (plain p) h =
        none_only (OfKind find links (IdlType.opt t)) (opt_inner wt)
          (coerce_to_opt find links impl wt t v) (λ s. coerce_opt_to_opt find links impl s t v)
          (no_parts wt v p).0 (to_opt-Gives find links follows impl fuel gives wt t v small h)
    opt_rule _ t _ small (opt_none_fits {t = s}) h =
        opt_to_opt-Gives find links follows impl fuel gives s t Value.opt_none
          (omega (arith, small)) opt_none_fits
    opt_rule _ t _ small (opt_some_fits {t = s} {v = v} k) h =
        opt_to_opt-Gives find links follows impl fuel gives s t (Value.opt_some v)
          (omega (arith, small)) (opt_some_fits k)
    opt_rule wt t v small (blob_fits k) h =
        to_opt-Gives find links follows impl fuel gives wt t v small h
    opt_rule wt t v small (vec_fits k) h =
        to_opt-Gives find links follows impl fuel gives wt t v small h
    opt_rule wt t v small (bytes_fit bytes k) h =
        to_opt-Gives find links follows impl fuel gives wt t v small h
    opt_rule wt t v small (record_fits k) h =
        to_opt-Gives find links follows impl fuel gives wt t v small h
    opt_rule wt t v small (variant_fits i l n f k) h =
        to_opt-Gives find links follows impl fuel gives wt t v small h

    pub vec_rule :
        (wt t : IdlType) (v : Value)
        → 2 * depth v ≤ fuel
        → FromKind find links wt v
        → Gives (OfKind find links (IdlType.vec t)) (elim (vec_inner wt) [
          | some s ↦ coerce_vec_to_vec find links impl s t v
          | none ↦ coerce_same_kind wt (IdlType.vec t) v
        ])
    unfolding coerce_same_kind kind
    vec_rule wt t v small (plain p) =
        none_only (OfKind find links (IdlType.vec t)) (vec_inner wt)
          (coerce_same_kind wt (IdlType.vec t) v) (λ s. coerce_vec_to_vec find links impl s t v)
          (no_parts wt v p).1 (no_kind-Gives wt (IdlType.vec t) v refl p)
    vec_rule _ t _ small (blob_fits {t = s} {bytes = bytes} k) =
        vec_to_vec-Gives find links follows impl fuel gives s t (Value.blob bytes) small
          (blob_fits k)
    vec_rule _ t _ small (vec_fits {t = s} {vs = vs} k) =
        vec_to_vec-Gives find links follows impl fuel gives s t (Value.vec vs) small (vec_fits k)
    vec_rule _ t _ small (bytes_fit bytes k) = absurd (grind (arith, k))
    vec_rule _ t _ small _ = tt

    pub record_rule :
        (wt : IdlType) (ts : TypeFields) (v : Value)
        → 2 * depth v ≤ fuel
        → FromKind find links wt v
        → Gives (OfKind find links (IdlType.record_of ts)) (elim (record_fields wt) [
          | some ws ↦ coerce_record_to_record find links impl ws ts v
          | none ↦ coerce_same_kind wt (IdlType.record_of ts) v
        ])
    unfolding coerce_same_kind kind
    record_rule wt ts v small (plain p) =
        none_only (OfKind find links (IdlType.record_of ts)) (record_fields wt)
          (coerce_same_kind wt (IdlType.record_of ts) v)
          (λ ws. coerce_record_to_record find links impl ws ts v) (no_parts wt v p).2
          (no_kind-Gives wt (IdlType.record_of ts) v refl p)
    record_rule _ ts _ small (record_fits {ts = ws} {fs = fs} k) =
        record-Gives find links follows impl fuel gives ws ts (Value.record_of fs) small
          (record_fits k)
    record_rule _ ts _ small _ = tt

    pub variant_rule :
        (wt : IdlType) (ts : TypeFields) (v : Value)
        → 2 * depth v ≤ fuel
        → FromKind find links wt v
        → Gives (OfKind find links (IdlType.variant ts)) (elim (variant_fields wt) [
          | some ws ↦ coerce_variant_to_variant find links impl ws ts v
          | none ↦ coerce_same_kind wt (IdlType.variant ts) v
        ])
    unfolding coerce_same_kind kind
    variant_rule wt ts v small (plain p) =
        none_only (OfKind find links (IdlType.variant ts)) (variant_fields wt)
          (coerce_same_kind wt (IdlType.variant ts) v)
          (λ ws. coerce_variant_to_variant find links impl ws ts v) (no_parts wt v p).3
          (no_kind-Gives wt (IdlType.variant ts) v refl p)
    variant_rule _ ts v small (variant_fits {ts = ws} i l n f k) =
        variant-Gives find links follows impl fuel gives ws ts v small (variant_fits i l n f k)
    variant_rule _ ts _ small _ = tt
