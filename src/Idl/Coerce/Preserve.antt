-- ===== src/Idl/Coerce/Preserve.antt =====
-- The rules of coerce_impl of coerce.c together.
use lucid.Base.{
  ℕ, zero, suc, ◌+◌, ◌*◌, ◌≤◌, ◌<◌, Bool, true, false, Option, none, some, subst, ◌&&◌,
}
use lucid.Base.{◌≡◌, refl, arith, if◌then◌else◌}
use lucid.Status.{Result, ok, err, stuck, invalid_arg, ◌>>=◌}
use lucid.Idl.Types.{Name, IdlType, idl_type_is_primitive}
use lucid.Idl.Value.{Value}
use lucid.Idl.Deserializer.{trace}
use lucid.Idl.Deserializer.Typing.{depth}
use lucid.Idl.Subtype.{Kind, ◌is◌}
use lucid.Idl.Subtype.Kinds.{is_eq}
use lucid.Idl.Coerce.Kinds.{kind, coerce_same_kind}
use lucid.Idl.Coerce.{resolved, coerce_by_kind, coerce_resolved, idl_coerce_value}
use lucid.Idl.Coerce.Fits.{
  plain_fits, Fits, traced, FitsKind, plain, opt_none_fits, opt_some_fits, blob_fits, vec_fits,
  bytes_fit, record_fits, variant_fits, loosen_kind,
}
use lucid.Idl.Coerce.Gives.{Gives, Gives-after, Gives-if}
use lucid.Idl.Coerce.Parts.{has_parts, trace_again}
use lucid.Idl.Coerce.Missing.{Of, OfKind, From, FromKind, need, need-opt, need-le}
use lucid.Idl.Coerce.ByKind.{
  same_kind-Gives, plain_kind, text-Gives, nat_to_int-Gives, opt_rule, vec_rule, record_rule,
  variant_rule,
}

composite :
    (wt et : IdlType)
    → idl_type_is_primitive wt ≡ false
    → (kind wt is kind et && idl_type_is_primitive wt) ≡ true
    → ⊥
composite wt et h q = ground (arith, h, q)

module _ (find : Name → Option IdlType) (links : ℕ)
    (follows : (t : IdlType) → trace find links t ≡ stuck → ⊥) where
  module _ (impl : IdlType → IdlType → Value → Result Value) (fuel : ℕ)
      (gives : (wt et : IdlType) (v : Value)
        → need find links et v < fuel
        → From find links wt v
        → Gives (Of find links et) (impl wt et v)) where
    module _ (subtype : IdlType → IdlType → Bool) where
      -- Functions and services: kept where the types are subtypes.
      reference_rule :
          (wt et : IdlType) (v : Value) (k : Kind)
          → has_parts (kind et) ≡ false
          → k ≡ kind et
          → FromKind find links wt v
          → Gives (OfKind find links et) (
              if kind wt is k
              then (if subtype wt et then ok v else err invalid_arg)
              else coerce_same_kind wt et v)
      reference_rule wt et v k h same fit =
          Gives-if (OfKind find links et) (kind wt is k) _ _
            (λ e.
              Gives-if (OfKind find links et) (subtype wt et) (ok v) (err invalid_arg)
                (λ s. plain (
                  plain_kind find links wt v (kind et) h fit
                    (subst (λ j. (kind wt is j) ≡ true) same e)))
                (λ s. tt))
            (λ e. same_kind-Gives find links wt et v h fit)

      -- `t` is the expected type before it was followed.
      by_kind-Gives :
          (wt et t : IdlType) (v : Value)
          → need find links t v ≤ fuel
          → trace find links t ≡ ok (some et)
          → FromKind find links wt v
          → From find links wt v
          → Gives (OfKind find links et) (coerce_by_kind find links impl subtype wt et v)
      unfolding coerce_by_kind kind plain_fits
      by_kind-Gives wt IdlType.reserved t v small run fit h = plain refl
      by_kind-Gives wt IdlType.int t v small run fit h =
          Gives-if (OfKind find links IdlType.int) (kind wt is Kind.nat) _ _
            (λ e. nat_to_int-Gives find links wt v fit e)
            (λ e. same_kind-Gives find links wt IdlType.int v refl fit)
      by_kind-Gives wt IdlType.text t v small run fit h =
          Gives-if (OfKind find links IdlType.text) (kind wt is Kind.text) _ _
            (λ e. text-Gives find links wt v fit e)
            (λ e. same_kind-Gives find links wt IdlType.text v refl fit)
      by_kind-Gives wt (IdlType.opt s) t v small run fit h =
          Gives-if (OfKind find links (IdlType.opt s)) (kind wt is Kind.null) _ _
            (λ e. opt_none_fits)
            (λ e.
              opt_rule find links follows impl fuel gives wt s v
                (omega (arith, small, need-opt find links t s v run)) fit h)
      by_kind-Gives wt (IdlType.vec s) t v small run fit h =
          vec_rule find links follows impl fuel gives wt s v (omega (arith, small)) fit
      by_kind-Gives wt (IdlType.record_of ts) t v small run fit h =
          record_rule find links follows impl fuel gives wt ts v (omega (arith, small)) fit
      by_kind-Gives wt (IdlType.variant ts) t v small run fit h =
          variant_rule find links follows impl fuel gives wt ts v (omega (arith, small)) fit
      by_kind-Gives wt (IdlType.func args rets modes) t v small run fit h =
          reference_rule wt (IdlType.func args rets modes) v Kind.func refl refl fit
      by_kind-Gives wt (IdlType.service ms) t v small run fit h =
          reference_rule wt (IdlType.service ms) v Kind.service refl refl fit
      by_kind-Gives wt et t v small run fit h = same_kind-Gives find links wt et v refl fit

      module _ (same : IdlType → IdlType → Bool)
          (same_eq : (a b : IdlType) → same a b ≡ true → a ≡ b) where
        resolved-Gives :
            (wt et t : IdlType) (v : Value)
            → need find links t v ≤ fuel
            → trace find links t ≡ ok (some et)
            → FromKind find links wt v
            → From find links wt v
            → Gives
                (OfKind find links et)
                (coerce_resolved find links impl subtype same (some wt) (some et) v)
        unfolding coerce_resolved
        resolved-Gives wt et t v small run fit h =
            Gives-if P (same wt et) _ _
              (λ e.
                subst (λ t. FitsKind find links true t v) (same_eq wt et e)
                  (loosen_kind find links fit))
              (λ e.
                Gives-if P (kind wt is kind et && idl_type_is_primitive wt) _ _
                  (primitive wt et v fit) (λ q. by_kind-Gives wt et t v small run fit h))
          where
            P : Value → Type 0
            P = OfKind find links et

            primitive :
                (wt et : IdlType) (v : Value)
                → FromKind find links wt v
                → (kind wt is kind et && idl_type_is_primitive wt) ≡ true
                → OfKind find links et v
            primitive wt et v (plain p) q = plain (
                subst (λ k. plain_fits k v ≡ true) (is_eq (kind wt) (kind et) (ground (arith, q)))
                  p)
            primitive _ et v (opt_none_fits {t = t}) q =
                absurd (composite (IdlType.opt t) et refl q)
            primitive _ et v (opt_some_fits {t = t} k) q =
                absurd (composite (IdlType.opt t) et refl q)
            primitive _ et v (blob_fits {t = t} k) q = absurd (composite (IdlType.vec t) et refl q)
            primitive _ et v (vec_fits {t = t} k) q = absurd (composite (IdlType.vec t) et refl q)
            primitive _ et v (bytes_fit {t = t} bytes k) q =
                absurd (composite (IdlType.vec t) et refl q)
            primitive _ et v (record_fits {ts = ts} k) q =
                absurd (composite (IdlType.record_of ts) et refl q)
            primitive _ et v (variant_fits {ts = ts} i l n f k) q =
                absurd (composite (IdlType.variant ts) et refl q)

        -- One call, where the recursive calls return.
        step-Gives :
            (wt et u : IdlType) (v : Value)
            → need find links et v ≤ fuel
            → trace find links wt ≡ ok (some u)
            → FromKind find links u v
            → Gives (Of find links et) (
                resolved find links wt >>= λ w.
                resolved find links et >>= λ x. coerce_resolved find links impl subtype same w x v)
        unfolding coerce_resolved
        step-Gives wt et u v small t k =
            rw t
              (Gives-after (Of find links et) (resolved find links et) _ (follows et) with_expected)
          where
            followed :
                (x : IdlType)
                → resolved find links et ≡ ok (some x)
                → (r : Result Value) → Gives (OfKind find links x) r
                → Gives (Of find links et) r
            followed x run (ok w) g = traced run g
            followed x run (err e) g = tt
            followed x run stuck g = g

            with_expected :
                (o : Option IdlType)
                → resolved find links et ≡ ok o
                → Gives
                    (Of find links et)
                    (coerce_resolved find links impl subtype same (some u) o v)
            with_expected none run = tt
            with_expected (some x) run =
                followed x run (coerce_resolved find links impl subtype same (some u) (some x) v)
                  (resolved-Gives u x et v small run k (traced (trace_again find links wt u t) k))

  module _ (same subtype : IdlType → IdlType → Bool)
      (same_eq : (a b : IdlType) → same a b ≡ true → a ≡ b) where
    coerce-Gives :
        (fuel : ℕ) (wt et : IdlType) (v : Value)
        → need find links et v < fuel
        → Fits find links false wt v
        → Gives (Fits find links true et) (idl_coerce_value find links same subtype fuel wt et v)
    unfolding idl_coerce_value
    coerce-Gives zero wt et v small h = elim small [ ]
    coerce-Gives (suc fuel) wt et v small (traced {u = u} t k) =
        step-Gives (idl_coerce_value find links same subtype fuel) fuel
          (λ a b c less fit. coerce-Gives fuel a b c less fit) subtype same same_eq wt et u v
          (omega (arith, small)) t k

    -- Where types at the same address are the same type, and the number of links is enough to follow any
    -- type: the coercion of a value of the wire type, with fuel above twice its nesting and one, returns.
    -- It gives an error, or a value of the expected type, up to vectors of bytes, which count as vectors
    -- of any type.
    pub idl_coerce_value-Fits :
        (fuel : ℕ) (wt et : IdlType) (v : Value)
        → 2 * depth v + 1 < fuel
        → Fits find links false wt v
        → Gives (Fits find links true et) (idl_coerce_value find links same subtype fuel wt et v)
    idl_coerce_value-Fits fuel wt et v enough h =
        coerce-Gives fuel wt et v (omega (arith, enough, need-le find links et v)) h
