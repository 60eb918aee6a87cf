-- ===== src/Idl/Coerce/Parts.antt =====
-- The kinds of types, the parts that they have, and where the parts are found.
use lucid.Base.{ℕ, zero, suc, ◌+◌, Bool, true, false, ◌&&◌, Option, none, some, ap, sym, ◌∙◌, subst}
use lucid.Base.{
  ◌==◌, ==_iff, leb, ◌≡◌, refl, arith, Option-cases, Bool-cases, inl, inr, if◌then◌else◌,
}
use lucid.Status.{ok}
use lucid.Idl.Types.{Name, Label, id_of, IdlType, TypeFields}
use lucid.Idl.Value.{Value, ValueFields}
use lucid.Idl.Deserializer.{trace, nth_field}
use lucid.Idl.Subtype.{Kind, kind_code, ◌is◌}
use lucid.Idl.Coerce.Kinds.{kind, opt_inner, vec_inner, record_fields, variant_fields}
use lucid.Idl.Coerce.Kinds.{find_wire_field_type, find_record_field_value, find_expected}
use lucid.Idl.Coerce.Fits.{plain_fits, Fits, FitsFields, no_field, next_field}

abbrev pub is_some : {A : Type 0} → Option A → Bool
is_some none = false
is_some (some a) = true

-- A kind whose values have parts.
abbrev pub has_parts : Kind → Bool
has_parts k = leb 18 (kind_code k) && leb (kind_code k) 21

-- A type has the parts that its kind says.
pub parts_of_kind :
    (t : IdlType)
    → (is_some (opt_inner t) ≡ (kind t is Kind.opt))
      × (is_some (vec_inner t) ≡ (kind t is Kind.vec))
      × (is_some (record_fields t) ≡ (kind t is Kind.record_of))
      × (is_some (variant_fields t) ≡ (kind t is Kind.variant))
unfolding kind
parts_of_kind IdlType.null = (refl, refl, refl, refl)
parts_of_kind _ = (refl, refl, refl, refl)

pub plain_no_parts : (k : Kind) (v : Value) → plain_fits k v ≡ true → has_parts k ≡ false
unfolding plain_fits
plain_no_parts Kind.null v h = refl
plain_no_parts Kind.opt v h = absurd (grind (arith, h))
plain_no_parts Kind.vec v h = absurd (grind (arith, h))
plain_no_parts Kind.record_of v h = absurd (grind (arith, h))
plain_no_parts Kind.variant v h = absurd (grind (arith, h))
plain_no_parts _ v h = refl

pub nat8_kind : (t : IdlType) → (kind t is Kind.nat8) ≡ true → t ≡ IdlType.nat8
unfolding kind
nat8_kind IdlType.null h = absurd (grind (arith, h))
nat8_kind IdlType.nat8 h = refl
nat8_kind _ h = absurd (grind (arith, h))

pub some-is_some : {A : Type 0} (o : Option A) (a : A) → o ≡ some a → is_some o ≡ true
some-is_some o a e = ground (arith, e)

unwrap : {t u : IdlType} → ok (some t) ≡ ok (some u) → t ≡ u
unwrap e = cc

module _ (find : Name → Option IdlType) where
  -- A type that is no name is traced to itself.
  abbrev Stays : ℕ → IdlType → Type 0
  Stays m t = trace find (suc m) t ≡ ok (some t)

  -- What a type was traced to is traced to itself.
  again : (links : ℕ) (t u : IdlType) (m : ℕ) → trace find links t ≡ ok (some u) → Stays m u
  unfolding trace
  again zero t u m e = absurd (grind (arith, e))
  again (suc links) (IdlType.var name) u m e = elim (Option-cases (find name)) [
    | inl unknown ↦ absurd (ground (arith, e, unknown))
    | inr (t, known) ↦ again links t u m (sym (bound_run t known) ∙ e)
  ]
    where
      bound_run :
          (t : IdlType)
          → find name ≡ some t
          → trace find (suc links) (IdlType.var name) ≡ trace find links t
      bound_run t known = ground (arith, known)
  again (suc links) IdlType.null u m e = subst (Stays m) (unwrap e) refl
  again (suc links) _ u m e = subst (Stays m) (unwrap e) refl

  pub trace_again :
      (links : ℕ) (t u : IdlType)
      → trace find links t ≡ ok (some u)
      → trace find links u ≡ ok (some u)
  unfolding trace
  trace_again zero t u e = absurd (grind (arith, e))
  trace_again (suc links) t u e = again (suc links) t u links e

-- The first field of a label's id, in the types and in the values.
module _ (find : Name → Option IdlType) (links : ℕ) where
  abbrev pub BothFit : Option Value → Option IdlType → Type 0
  BothFit (some v) (some t) = Fits find links false t v
  BothFit _ _ = Unit {0}

  pub found-BothFit :
      (ts : TypeFields) (fs : ValueFields) (label_id : ℕ)
      → FitsFields find links false ts fs
      → BothFit (find_record_field_value fs label_id) (find_wire_field_type ts label_id)
  unfolding find_record_field_value find_wire_field_type
  found-BothFit _ _ label_id no_field = tt
  found-BothFit _ _ label_id (next_field {l = l} {t = t} {ts = ts} {v = v} {fs = fs} h hs) =
      elim (Bool-cases (id_of l == label_id)) [
        | inl here ↦ rw here h
        | inr other ↦ rw other (found-BothFit ts fs label_id hs)
      ]

-- Where the first expected field of an id is.
abbrev pub IsAt : TypeFields → ℕ → ℕ → ℕ × (Label × IdlType) → Type 0
IsAt ts offset label_id (i, (l, t)) =
    (k : ℕ) × (i ≡ offset + k)
    × (nth_field ts k ≡ some (l, t))
    × (find_wire_field_type ts (id_of l) ≡ some t)
    × (id_of l ≡ label_id)

pub find_expected-IsAt :
    (ts : TypeFields) (offset label_id : ℕ) (p : ℕ × (Label × IdlType))
    → find_expected ts offset label_id ≡ some p
    → IsAt ts offset label_id p
unfolding find_expected find_wire_field_type
find_expected-IsAt TypeFields.no_fields offset label_id p e = absurd (grind (arith, e))
find_expected-IsAt (TypeFields.field l t ts) offset label_id (i, (l', t')) e =
    elim (Bool-cases (id_of l == label_id)) [
      | inl here ↦
          subst (IsAt (TypeFields.field l t ts) offset label_id) (first here)
            (0, omega arith, refl, ground arith, (==_iff (id_of l) label_id).0 here)
      | inr other ↦
          let (k, index, nth, found, same) =
            find_expected-IsAt ts (offset + 1) label_id (i, (l', t')) (behind other) in
          (suc k, omega (arith, index), nth, skipped other same found, same)
    ]
  where
    unwrap_pair : {p q : ℕ × (Label × IdlType)} → some p ≡ some q → p ≡ q
    unwrap_pair e = cc

    first :
        id_of l == label_id ≡ true → ◌≡◌ {A = ℕ × (Label × IdlType)} (offset, (l, t)) (i, (l', t'))
    first here = unwrap_pair (
        sym (
          ap (λ b. if b then some (offset, (l, t)) else find_expected ts (offset + 1) label_id)
            here)
        ∙ e)

    behind :
        id_of l == label_id ≡ false → find_expected ts (offset + 1) label_id ≡ some (i, (l', t'))
    behind other =
        sym (
          ap (λ b. if b then some (offset, (l, t)) else find_expected ts (offset + 1) label_id)
            other)
        ∙ e

    skipped :
        id_of l == label_id ≡ false
        → id_of l' ≡ label_id
        → find_wire_field_type ts (id_of l') ≡ some t'
        → find_wire_field_type (TypeFields.field l t ts) (id_of l') ≡ some t'
    skipped other same found = ground (arith, other, same, found)
