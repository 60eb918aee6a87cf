-- ===== src/Idl/Header/Yields.antt =====
-- What the parser of header.c yields: only names of the table stand in the types.
use lucid.Base.{
  ℕ, zero, suc, ◌-◌, ◌%◌, ◌^◌, ◌<◌, Bool, true, false, not, ◌&&◌, ◌==◌, ltb, leb, leb→le,
}
use lucid.Base.{
  List, [], ◌∷◌, Option, none, some, Option-cases, if◌then◌else◌, ◌≡◌, refl, arith, inl, inr,
}
use lucid.Base.{Bool-cases}
use lucid.Status.{Result, ok, err, stuck, Result-cases}
use lucid.Idl.Types.{
  Name, IdlType, TypeFields, no_fields, field, TypeList, no_types, type_of, Methods, no_methods,
  method,
}
use lucid.Idl.Header.Read.{Parse, pure, lift, ◌>>=◌}

-- Each name in a type has the property.
module _ (P : Name → Type 0) where
  unfoldable mutual
    pub EachName : IdlType → Type 0
    EachName (IdlType.opt t) = EachName t
    EachName (IdlType.vec t) = EachName t
    EachName (IdlType.record_of ts) = EachNameFields ts
    EachName (IdlType.variant ts) = EachNameFields ts
    EachName (IdlType.func args rets modes) = EachNameList args × EachNameList rets
    EachName (IdlType.service ms) = EachNameMethods ms
    EachName (IdlType.var name) = P name
    EachName _ = Unit {0}

    pub EachNameFields : TypeFields → Type 0
    EachNameFields no_fields = Unit {0}
    EachNameFields (field l t ts) = EachName t × EachNameFields ts

    pub EachNameList : TypeList → Type 0
    EachNameList no_types = Unit {0}
    EachNameList (type_of t ts) = EachName t × EachNameList ts

    pub EachNameMethods : Methods → Type 0
    EachNameMethods no_methods = Unit {0}
    EachNameMethods (method n t ms) = EachName t × EachNameMethods ms

module _ (P Q : Name → Type 0) (f : (name : Name) → P name → Q name) where
  mutual
    unfolding EachName EachNameFields EachNameList EachNameMethods

    pub EachName_map : (t : IdlType) → EachName P t → EachName Q t
    EachName_map (IdlType.opt t) h = EachName_map t h
    EachName_map (IdlType.vec t) h = EachName_map t h
    EachName_map (IdlType.record_of ts) h = EachNameFields-map ts h
    EachName_map (IdlType.variant ts) h = EachNameFields-map ts h
    EachName_map (IdlType.func args rets modes) (h, k) =
        (EachNameList-map args h, EachNameList-map rets k)
    EachName_map (IdlType.service ms) h = EachNameMethods-map ms h
    EachName_map (IdlType.var name) h = f name h
    EachName_map _ h = tt

    EachNameFields-map : (ts : TypeFields) → EachNameFields P ts → EachNameFields Q ts
    EachNameFields-map no_fields h = tt
    EachNameFields-map (field l t ts) (h, k) = (EachName_map t h, EachNameFields-map ts k)

    pub EachNameList-map : (ts : TypeList) → EachNameList P ts → EachNameList Q ts
    EachNameList-map no_types h = tt
    EachNameList-map (type_of t ts) (h, k) = (EachName_map t h, EachNameList-map ts k)

    EachNameMethods-map : (ms : Methods) → EachNameMethods P ms → EachNameMethods Q ms
    EachNameMethods-map no_methods h = tt
    EachNameMethods-map (method n t ms) (h, k) = (EachName_map t h, EachNameMethods-map ms k)

-- Whatever the parser returns has the property.
abbrev pub Yields : {A : Type 0} → (A → Type 0) → Parse A → Type 0
Yields {A} P p = (input : List ℕ) (here there : ℕ) (a : A) → p input here ≡ ok (a, there) → P a

abbrev Anything : {A : Type 0} → A → Type 0
Anything a = Unit {0}

pub Yields-Anything : {A : Type 0} (p : Parse A) → Yields Anything p
Yields-Anything p input here there a e = tt

pub Yields-pure : {A : Type 0} (P : A → Type 0) (a : A) → P a → Yields P (pure a)
Yields-pure {A} P a h input here there b e = subst_along (same e)
  where
    same : ◌≡◌ {A = Result (A × ℕ)} (ok (a, here)) (ok (b, there)) → a ≡ b
    same e = cc

    subst_along : a ≡ b → P b
    subst_along q = lucid.Base.subst P q h

pub Yields-bind :
    {A B : Type 0} (Q : A → Type 0) (P : B → Type 0) (p : Parse A) (f : A → Parse B)
    → Yields Q p
    → ((a : A) → Q a → Yields P (f a))
    → Yields P (p >>= f)
Yields-bind Q P p f y k input here there b e = elim (Result-cases (p input here)) [
  | inl ((a, mid), run) ↦ k a (y input here mid a run) input mid there b (rw run at e)
  | inr (inl (x, stops)) ↦ absurd (grind (arith, e, stops))
  | inr (inr stops) ↦ absurd (grind (arith, e, stops))
]

-- A step of which nothing is needed.
pub Yields-then :
    {A B : Type 0} (P : B → Type 0) (p : Parse A) (f : A → Parse B)
    → ((a : A) → Yields P (f a))
    → Yields P (p >>= f)
Yields-then P p f k = Yields-bind Anything P p f (Yields-Anything p) (λ a h. k a)

pub Yields-lift :
    {A : Type 0} (P : A → Type 0) (r : Result A) → ((a : A) → r ≡ ok a → P a) → Yields P (lift r)
Yields-lift P (ok a) h input here there b e = Yields-pure P a (h a refl) input here there b e
Yields-lift P (err x) h input here there b e = absurd (grind (arith, e))
Yields-lift P stuck h input here there b e = absurd (grind (arith, e))

pub Yields-if :
    {A : Type 0} (P : A → Type 0) (c : Bool) (p q : Parse A)
    → Yields P p
    → Yields P q
    → Yields P (if c then p else q)
Yields-if P true p q y z = y
Yields-if P false p q y z = z
