-- ===== src/Idl/Coerce/Gives.antt =====
-- Results that are values with a property, or errors.
use lucid.Base.{Bool, true, false, Option, none, some}
use lucid.Base.{◌≡◌, refl, if◌then◌else◌}
use lucid.Status.{Result, ok, err, stuck, ◌>>=◌, map_ok}

-- The code returns: an error, or a value that has the property.
abbrev pub Gives : {A : Type 0} → (A → Type 0) → Result A → Type 0
Gives P (ok a) = P a
Gives P (err e) = Unit {0}
Gives P stuck = ⊥

pub Gives-bind :
    {A B : Type 0} (Q : A → Type 0) (P : B → Type 0) (r : Result A) (f : A → Result B)
    → Gives Q r
    → ((a : A) → Q a → Gives P (f a))
    → Gives P (r >>= f)
Gives-bind Q P (ok a) f g k = k a g
Gives-bind Q P (err e) f g k = tt
Gives-bind Q P stuck f g k = g

-- With the equation of what came first.
pub Gives-after :
    {A B : Type 0} (P : B → Type 0) (r : Result A) (f : A → Result B)
    → (r ≡ stuck → ⊥)
    → ((a : A) → r ≡ ok a → Gives P (f a))
    → Gives P (r >>= f)
Gives-after P (ok a) f g k = k a refl
Gives-after P (err e) f g k = tt
Gives-after P stuck f g k = g refl

pub Gives-map :
    {A B : Type 0} (Q : A → Type 0) (P : B → Type 0) (r : Result A) (f : A → B)
    → Gives Q r
    → ((a : A) → Q a → P (f a))
    → Gives P (map_ok f r)
Gives-map Q P (ok a) f g k = k a g
Gives-map Q P (err e) f g k = tt
Gives-map Q P stuck f g k = g

pub Gives-if :
    {A : Type 0} (P : A → Type 0) (b : Bool) (r s : Result A)
    → (b ≡ true → Gives P r)
    → (b ≡ false → Gives P s)
    → Gives P (if b then r else s)
Gives-if P true r s g h = g refl
Gives-if P false r s g h = h refl

pub Gives-option :
    {A B : Type 0} (P : B → Type 0) (o : Option A) (r : Result B) (f : A → Result B)
    → (o ≡ none → Gives P r)
    → ((a : A) → o ≡ some a → Gives P (f a))
    → Gives P (elim o [ none ↦ r | some a ↦ f a ])
Gives-option P none r f g h = g refl
Gives-option P (some a) r f g h = h a refl

-- A result that is mapped is stuck only if it was.
pub map_ok-ne-stuck :
    {A B : Type 0} (f : A → B) (r : Result A) → (r ≡ stuck → ⊥) → map_ok f r ≡ stuck → ⊥
map_ok-ne-stuck f (ok a) h e = cc
map_ok-ne-stuck f (err x) h e = cc
map_ok-ne-stuck f stuck h e = h refl
