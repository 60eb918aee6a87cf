-- ===== src/Idl/Subtype/Layers.antt =====
-- Checks of subtype.c that end, and types that are built from types below them.
use lucid.Base.{
  ℕ, ◌<◌, ◌≡◌, refl, ap, sym, ◌∙◌, subst, arith, Bool, true, false, Bool-cases, ◌||◌, inl, inr, All,
}
use lucid.Base.{List, [], ◌∷◌, Option, none, some, ◌==◌, if◌then◌else◌}
use lucid.Idl.Types.{Name}
use lucid.Idl.TypeEnv.{name_equal}
use lucid.Idl.Subtype.{Ref, Kind, ◌is◌, Node, Gamma}
use lucid.Idl.Subtype.Check.{Check, ◌>>=◌, pure, find_field, find_service_method}
use lucid.Idl.Subtype.Check.{}

unfoldable pub Ends : {A : Type 0} → Check A → Type 0
Ends {A = A} m = (g : Gamma) → (a : A) × (g' : Gamma) × (m g ≡ some (a, g'))

pub pure-Ends : {A : Type 0} (a : A) → Ends (pure a)
unfolding Ends
pure-Ends a g = (a, g, refl)

pub bind-Ends :
    {A B : Type 0} (m : Check A) (f : A → Check B)
    → Ends m
    → ((a : A) → Ends (f a))
    → Ends (m >>= f)
unfolding Ends ◌>>=◌
bind-Ends {A = A} m f hm hf g =
    let (a, g₁, run) = hm g in let (b, g', run') = hf a g₁ in (b, g', went a g₁ run ∙ run')
  where
    went : (a : A) (g₁ : Gamma) → m g ≡ some (a, g₁) → (m >>= f) g ≡ f a g₁
    went a g₁ e = ground (arith, e)

pub if-Ends :
    {A : Type 0} (b : Bool) (x y : Check A)
    → (b ≡ true → Ends x)
    → (b ≡ false → Ends y)
    → Ends (if b then x else y)
if-Ends true x y hx hy = hx refl
if-Ends false x y hx hy = hy refl

pub either-Ends :
    {A : Type 0} (b : Bool) (x y : Check A) → Ends x → Ends y → Ends (if b then x else y)
either-Ends true x y hx hy = hx
either-Ends false x y hx hy = hy

pub option-Ends :
    {A B : Type 0} (o : Option A) (x : Check B) (f : A → Check B)
    → Ends x
    → ((a : A) → o ≡ some a → Ends (f a))
    → Ends (elim o [ none ↦ x | some a ↦ f a ])
option-Ends none x f hx hf = hx
option-Ends (some a) x f hx hf = hf a refl

-- A field or a method that is found has a type of the list.
pub find_field-All :
    (P : Ref → Type 0) (fields : List (ℕ × Ref)) (id t : ℕ)
    → All (λ f. P f.1) fields
    → find_field fields id ≡ some t
    → P t
find_field-All P [] id t h e = absurd (nothing e)
  where
    nothing : ◌≡◌ {A = Option Ref} none (some t) → ⊥
    nothing e = cc
find_field-All P ((i, u) ∷ fields) id t (p, h) e = elim (Bool-cases (i == id)) [
  | inl here ↦
      subst P (same (sym (ap (λ c. if c then some u else find_field fields id) here) ∙ e)) p
  | inr further ↦
      find_field-All P fields id t h
        (sym (ap (λ c. if c then some u else find_field fields id) further) ∙ e)
]
  where
    same : ◌≡◌ {A = Option Ref} (some u) (some t) → u ≡ t
    same e = cc

pub find_method-All :
    (P : Ref → Type 0) (methods : List (Name × Ref)) (name : Name) (t : ℕ)
    → All (λ m. P m.1) methods
    → find_service_method methods name ≡ some t
    → P t
find_method-All P [] name t h e = absurd (nothing e)
  where
    nothing : ◌≡◌ {A = Option Ref} none (some t) → ⊥
    nothing e = cc
find_method-All P ((n, u) ∷ methods) name t (p, h) e = elim (Bool-cases (name_equal n name)) [
  | inl here ↦
      subst P
        (same (sym (ap (λ c. if c then some u else find_service_method methods name) here) ∙ e)) p
  | inr further ↦
      find_method-All P methods name t h
        (sym (ap (λ c. if c then some u else find_service_method methods name) further) ∙ e)
]
  where
    same : ◌≡◌ {A = Option Ref} (some u) (some t) → u ≡ t
    same e = cc

-- What the parts of a node are below.
abbrev pub Below : (Ref → ℕ) → ℕ → Ref → Type 0
Below rank n t = rank t < n

-- No type is a name, and the types in a type have a lower rank than it.
pub record IsLayered (type_at : Ref → Node) (rank : Ref → ℕ) : Type 0 where
  pub no_name : (t : Ref) → (type_at t).kind is Kind.var ≡ false
  pub inner :
      (t : Ref)
      → (type_at t).kind is Kind.opt || (type_at t).kind is Kind.vec ≡ true
      → rank (type_at t).inner < rank t
  pub fields : (t : Ref) → All (λ (f : ℕ × Ref). Below rank (rank t) f.1) (type_at t).fields
  pub args : (t : Ref) → All (Below rank (rank t)) (type_at t).args
  pub rets : (t : Ref) → All (Below rank (rank t)) (type_at t).rets
  pub methods : (t : Ref) → All (λ (m : Name × Ref). Below rank (rank t) m.1) (type_at t).methods
