-- ===== src/Idl/Coerce/Blob.antt =====
-- A blob that coerce.c makes a vector of another element type than nat8.
use lucid.Base.{ℕ, suc, Bool, true, false, List, ◌∷◌, Option, some, ap, sym, ◌∙◌, subst}
use lucid.Base.{◌≡◌, refl, arith, if◌then◌else◌}
use lucid.Status.{ok}
use lucid.Idl.Types.{Name, IdlType, idl_type_is_primitive}
use lucid.Idl.Value.{Value, Values, value}
use lucid.Idl.Deserializer.{trace}
use lucid.Idl.Subtype.{Kind, ◌is◌}
use lucid.Idl.Coerce.Kinds.{kind, byte_values}
use lucid.Idl.Coerce.{
  coerce_blob_to_vec, coerce_vec_to_vec, coerce_by_kind, coerce_resolved, idl_coerce_value,
}
use lucid.Idl.Coerce.Fits.{
  plain_fits, Fits, traced, FitsKind, plain, blob_fits, vec_fits, bytes_fit, FitsItems, next_item,
}

byte_kind : (k : Kind) (b : ℕ) → plain_fits k (Value.nat8 b) ≡ true → k is Kind.nat8 ≡ true
unfolding plain_fits
byte_kind Kind.null b h = absurd (grind (arith, h))
byte_kind Kind.nat8 b h = refl
byte_kind _ b h = absurd (grind (arith, h))

module _ (find : Name → Option IdlType) (links : ℕ) (same subtype : IdlType → IdlType → Bool) where
  -- The first byte is of the element type only if that is nat8.
  first_is_byte :
      (t u : IdlType) (b : ℕ)
      → trace find (suc links) t ≡ ok (some u)
      → Fits find (suc links) false t (Value.nat8 b)
      → (kind u is Kind.nat8) ≡ true
  first_is_byte t u b e (traced {u = u'} e' (plain p)) =
      let same_type : u' ≡ u = unwrap (sym e' ∙ e) in
      byte_kind (kind u) b (subst (λ x. plain_fits (kind x) (Value.nat8 b) ≡ true) same_type p)
    where
      unwrap : {a c : IdlType} → ok (some a) ≡ ok (some c) → a ≡ c
      unwrap q = cc

  head-Fits :
      {t : IdlType} {v : Value} {vs : Values}
      → FitsItems find (suc links) false t (value v vs)
      → Fits find (suc links) false t v
  head-Fits (next_item h hs) = h

  kind_not_of_type :
      (t u : IdlType) (b : ℕ) (rest : Values) (v : Value)
      → trace find (suc links) t ≡ ok (some u)
      → (kind u is Kind.nat8) ≡ false
      → v ≡ Value.vec (value (Value.nat8 b) rest)
      → FitsKind find (suc links) false (IdlType.vec t) v
      → ⊥
  unfolding plain_fits kind
  kind_not_of_type t u b rest v e other q (plain p) = absurd (grind (arith, p))
  kind_not_of_type t u b rest _ e other q (vec_fits {vs = vs} k) =
      let items : vs ≡ value (Value.nat8 b) rest = cc in
      let byte =
        first_is_byte t u b e (head-Fits (subst (FitsItems find (suc links) false t) items k)) in
      absurd (grind (arith, byte, other))
  kind_not_of_type t u b rest _ e other q (bytes_fit bytes k) = absurd (grind (arith, k))
  kind_not_of_type t u b rest _ e other q (blob_fits k) = absurd (clash q)
    where
      clash : {s : List ℕ} {vs : Values} → Value.blob s ≡ Value.vec vs → ⊥
      clash r = cc

  not_of_type :
      (t u : IdlType) (b : ℕ) (bytes : List ℕ)
      → trace find (suc links) t ≡ ok (some u)
      → (kind u is Kind.nat8) ≡ false
      → Fits find (suc links) false (IdlType.vec t) (Value.vec (byte_values (b ∷ bytes)))
      → ⊥
  unfolding trace byte_values
  not_of_type t u b bytes e other (traced {u = u'} q k) =
      kind_not_of_type t u b (byte_values bytes) (Value.vec (byte_values (b ∷ bytes))) e other refl
        (subst (λ x. FitsKind find (suc links) false x (Value.vec (byte_values (b ∷ bytes))))
          (sym (unwrap q)) k)
    where
      unwrap : {a c : IdlType} → ok (some a) ≡ ok (some c) → a ≡ c
      unwrap r = cc

  blob_run :
      (t u : IdlType) (bytes : List ℕ)
      → trace find (suc links) t ≡ ok (some u)
      → (kind u is Kind.nat8) ≡ false
      → coerce_blob_to_vec find (suc links) t bytes ≡ ok (Value.vec (byte_values bytes))
  unfolding coerce_blob_to_vec
  blob_run t u bytes e other = ground (arith, e, other)

  run :
      (fuel : ℕ) (t u : IdlType) (bytes : List ℕ)
      → same (IdlType.vec IdlType.nat8) (IdlType.vec t) ≡ false
      → trace find (suc links) t ≡ ok (some u)
      → (kind u is Kind.nat8) ≡ false
      → idl_coerce_value find
          (suc links)
          same
          subtype
          (suc fuel)
          (IdlType.vec IdlType.nat8)
          (IdlType.vec t)
          (Value.blob bytes)
        ≡ ok (Value.vec (byte_values bytes))
  unfolding idl_coerce_value coerce_resolved coerce_by_kind coerce_vec_to_vec trace kind
      idl_type_is_primitive
  run fuel t u bytes apart e other =
      ap (λ b. if b then ok (Value.blob bytes) else coerce_blob_to_vec find (suc links) t bytes)
        apart
      ∙ blob_run t u bytes e other

  -- A blob with a byte or more, coerced to a vector whose element type, followed through its names, is
  -- known and is not nat8, gives a value that is not of the expected type.
  pub idl_coerce_value-blob :
      (fuel : ℕ) (t u : IdlType) (b : ℕ) (bytes : List ℕ)
      → same (IdlType.vec IdlType.nat8) (IdlType.vec t) ≡ false
      → trace find (suc links) t ≡ ok (some u)
      → (kind u is Kind.nat8) ≡ false
      → (w : Value) × (idl_coerce_value find
            (suc links)
            same
            subtype
            (suc fuel)
            (IdlType.vec IdlType.nat8)
            (IdlType.vec t)
            (Value.blob (b ∷ bytes))
          ≡ ok w)
        × (Fits find (suc links) false (IdlType.vec t) w → ⊥)
  idl_coerce_value-blob fuel t u b bytes apart e other = (
    Value.vec (byte_values (b ∷ bytes)),
    run fuel t u (b ∷ bytes) apart e other,
    not_of_type t u b bytes e other,
  )
