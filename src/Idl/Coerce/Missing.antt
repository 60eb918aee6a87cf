-- ===== src/Idl/Coerce/Missing.antt =====
-- What the fuel of coerce_impl of coerce.c is compared with, and what a field of coerce.c is where none has
-- its label.
use lucid.Base.{ℕ, ◌+◌, ◌*◌, ◌≤◌, Bool, true, false, Option, none, some, ap, sym, ◌∙◌}
use lucid.Base.{◌≡◌, refl, arith}
use lucid.Status.{Result, ok, err, stuck, map_ok}
use lucid.Idl.Types.{Name, IdlType}
use lucid.Idl.Value.{Value}
use lucid.Idl.Deserializer.{trace}
use lucid.Idl.Deserializer.Typing.{depth}
use lucid.Idl.Coerce.Kinds.{kind}
use lucid.Idl.Coerce.Kinds.{default_of}
use lucid.Idl.Coerce.{
  resolved, optional_kind, is_optional_like, create_default_optional_field, coerce_missing_field,
}
use lucid.Idl.Coerce.Fits.{plain_fits, Fits, traced, FitsKind, plain, opt_none_fits}
use lucid.Idl.Coerce.Gives.{Gives, Gives-after, Gives-if, map_ok-ne-stuck}

module _ (find : Name → Option IdlType) (links : ℕ) where
  -- Of the type, up to vectors of bytes.
  abbrev pub Of : IdlType → Value → Type 0
  Of = Fits find links true

  abbrev pub OfKind : IdlType → Value → Type 0
  OfKind = FitsKind find links true

  -- What a value of the wire type fits.
  abbrev pub From : IdlType → Value → Type 0
  From = Fits find links false

  abbrev pub FromKind : IdlType → Value → Type 0
  FromKind = FitsKind find links false

  default_of-FitsKind :
      (t : IdlType) → optional_kind find links (some t) ≡ true → OfKind t (default_of t)
  unfolding default_of kind plain_fits
  default_of-FitsKind IdlType.null h = plain refl
  default_of-FitsKind IdlType.reserved h = plain refl
  default_of-FitsKind (IdlType.opt t) h = opt_none_fits
  default_of-FitsKind _ h = absurd (grind (arith, h))

  -- An expected type that is an option may be followed once more for the same value.
  abbrev pub wraps : Result (Option IdlType) → ℕ
  wraps (ok (some (IdlType.opt t))) = 1
  wraps _ = 0

  -- The calls one in another that the coercion of a value to a type takes, less one.
  abbrev pub need : IdlType → Value → ℕ
  need et v = 2 * depth v + wraps (trace find links et)

  wraps-le : (r : Result (Option IdlType)) → wraps r ≤ 1
  wraps-le stuck = omega arith
  wraps-le (err e) = omega arith
  wraps-le (ok none) = omega arith
  wraps-le (ok (some IdlType.null)) = omega arith
  wraps-le (ok (some _)) = omega arith

  pub need-le : (et : IdlType) (v : Value) → need et v ≤ 2 * depth v + 1
  need-le et v = omega (arith, wraps-le (trace find links et))

  pub need-opt :
      (et t : IdlType) (v : Value)
      → trace find links et ≡ ok (some (IdlType.opt t))
      → need et v ≡ 2 * depth v + 1
  need-opt et t v run = ap (λ r. 2 * depth v + wraps r) run

  pub wraps-unlike :
      (u : IdlType) → optional_kind find links (some u) ≡ false → wraps (ok (some u)) ≡ 0
  unfolding kind
  wraps-unlike IdlType.null h = refl
  wraps-unlike (IdlType.opt t) h = absurd (grind (arith, h))
  wraps-unlike _ h = refl

  module _ (follows : (t : IdlType) → trace find links t ≡ stuck → ⊥) where
    pub missing-Gives : (t : IdlType) → Gives (Of t) (coerce_missing_field find links t)
    unfolding coerce_missing_field is_optional_like create_default_optional_field
    missing-Gives t =
        Gives-after (Of t) (is_optional_like find links t) _
          (map_ok-ne-stuck (optional_kind find links) (trace find links t) (follows t))
          λ b like.
            Gives-if (Of t) b _ _
              (λ yes_like.
                Gives-after (Of t) (resolved find links t) _ (follows t)
                  λ o run. of_option o run (liked o b like run yes_like))
              (λ no_like. tt)
      where
        likeness :
            (o : Option IdlType)
            → resolved find links t ≡ ok o
            → is_optional_like find links t ≡ ok (optional_kind find links o)
        likeness o run = ap (map_ok (optional_kind find links)) run

        liked :
            (o : Option IdlType) (b : Bool)
            → is_optional_like find links t ≡ ok b
            → resolved find links t ≡ ok o
            → b ≡ true
            → optional_kind find links o ≡ true
        liked o b like run h =
            let known : ok (optional_kind find links o) ≡ ok b = sym (likeness o run) ∙ like in
            let same : optional_kind find links o ≡ b = cc in same ∙ h

        of_option :
            (o : Option IdlType)
            → resolved find links t ≡ ok o
            → optional_kind find links o ≡ true
            → Gives (Of t) (elim o [ none ↦ stuck | some u ↦ ok (default_of u) ])
        of_option none run h = cc
        of_option (some u) run h = traced run (default_of-FitsKind u h)
