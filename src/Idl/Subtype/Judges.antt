-- ===== src/Idl/Subtype/Judges.antt =====
-- What a check of subtype.c, whenever it returns, says by its result.
use lucid.Base.{
  Bool, true, false, Option, none, some, ◌≡◌, refl, sym, ap, ◌∙◌, arith, ◌⊎◌, inl, inr,
  if◌then◌else◌, ◌↔◌,
}
use lucid.Idl.Subtype.{SubtypeResult, subtype_ok, subtype_fail, opt_special, Gamma}
use lucid.Idl.Subtype.Check.{Check, ◌>>=◌, pure, is_fail}

-- Where the check returns, its result is no failure exactly if `P` holds.
abbrev pub Judges : Check SubtypeResult → Type 0 → Type 0
Judges m P =
    (g : Gamma) (r : SubtypeResult) (g' : Gamma) → m g ≡ some (r, g') → (is_fail r ≡ false) ↔ P

-- Where the check returns, its result is no failure.
abbrev pub Passes : Check SubtypeResult → Type 0
Passes m = (g : Gamma) (r : SubtypeResult) (g' : Gamma) → m g ≡ some (r, g') → is_fail r ≡ false

pub >>=-eq-some :
    {A B : Type 0} (m : Check A) (f : A → Check B) (g g' : Gamma) (b : B)
    → (m >>= f) g ≡ some (b, g')
    → (a : A) × (g₁ : Gamma) × (m g ≡ some (a, g₁)) × (f a g₁ ≡ some (b, g'))
unfolding ◌>>=◌
>>=-eq-some {A} {B} m f g g' b e = by_first (m g) refl
  where
    by_first :
        (o : Option (A × Gamma))
        → m g ≡ o
        → (a : A) × (g₁ : Gamma) × (m g ≡ some (a, g₁)) × (f a g₁ ≡ some (b, g'))
    by_first none run = absurd (ground (arith, run, e))
    by_first (some (a, g₁)) run = (a, g₁, run, sym (stepped a g₁ run) ∙ e)
      where
        stepped : (a : A) (g₁ : Gamma) → m g ≡ some (a, g₁) → (m >>= f) g ≡ f a g₁
        stepped a g₁ run = ground (arith, run)

pure_result : (s r : SubtypeResult) (g g' : Gamma) → pure s g ≡ some (r, g') → s ≡ r
pure_result s r g g' e = cc

pub Judges-pure : (s : SubtypeResult) (P : Type 0) → (is_fail s ≡ false) ↔ P → Judges (pure s) P
Judges-pure s P h g r g' e =
    let same = pure_result s r g g' e in
    (λ q. h.0 (ap is_fail same ∙ q), λ p. ap is_fail (sym same) ∙ h.1 p)

pub Judges-ok : (P : Type 0) → P → Judges (pure subtype_ok) P
Judges-ok P p = Judges-pure subtype_ok P (λ e. p, λ q. refl)

pub Judges-fail : (P : Type 0) → (P → ⊥) → Judges (pure subtype_fail) P
Judges-fail P h = Judges-pure subtype_fail P (λ e. absurd (ground (arith, e)), λ p. absurd (h p))

pub Judges-iff :
    (m : Check SubtypeResult) (P Q : Type 0) → (P → Q) → (Q → P) → Judges m P → Judges m Q
Judges-iff m P Q f f' h g r g' e = let (to, from) = h g r g' e in (λ q. f (to q), λ p. from (f' p))

pub Judges-Passes : (m : Check SubtypeResult) (P : Type 0) → P → Passes m → Judges m P
Judges-Passes m P p h g r g' e = (λ q. p, λ q. h g r g' e)

pub Judges-if :
    (b : Bool) (x y : Check SubtypeResult) (P : Type 0)
    → (b ≡ true → Judges x P)
    → (b ≡ false → Judges y P)
    → Judges (if b then x else y) P
Judges-if true x y P h k = h refl
Judges-if false x y P h k = k refl

fail_or_not : (r : SubtypeResult) → (is_fail r ≡ true) ⊎ (is_fail r ≡ false)
fail_or_not subtype_ok = inr refl
fail_or_not subtype_fail = inl refl
fail_or_not opt_special = inr refl

-- A check, and the rest where it does not fail.
pub Judges-and :
    (m rest : Check SubtypeResult) (P Q : Type 0)
    → Judges m P
    → Judges rest Q
    → Judges (m >>= λ r. if is_fail r then pure subtype_fail else rest) (P × Q)
Judges-and m rest P Q h k g r g' e =
    let (r₁, g₁, first, second) = >>=-eq-some m _ g g' r e in
    by_result r₁ g₁ first (fail_or_not r₁) second
  where
    by_result :
        (r₁ : SubtypeResult) (g₁ : Gamma)
        → m g ≡ some (r₁, g₁)
        → (is_fail r₁ ≡ true) ⊎ (is_fail r₁ ≡ false)
        → (if is_fail r₁ then pure subtype_fail else rest) g₁ ≡ some (r, g')
        → (is_fail r ≡ false) ↔ (P × Q)
    by_result r₁ g₁ first (inl failed) second =
        let failing = ap (λ b. (if b then pure subtype_fail else rest) g₁) failed in
        let same = pure_result subtype_fail r g₁ g' (sym failing ∙ second) in
        (
          λ q. absurd (ground (arith, same, q)),
          λ (p, q). absurd (ground (arith, failed, (h g r₁ g₁ first).1 p)),
        )
    by_result r₁ g₁ first (inr passed) second =
        let going = ap (λ b. (if b then pure subtype_fail else rest) g₁) passed in
        let (to, from) = k g₁ r g' (sym going ∙ second) in
        (λ q. ((h g r₁ g₁ first).0 passed, to q), λ (p, q). from q)

-- A check, and the rest where it fails.
pub Judges-or :
    (m rest : Check SubtypeResult) (P Q : Type 0)
    → Judges m P
    → Judges rest Q
    → Judges (m >>= λ r. if is_fail r then rest else pure r) (P ⊎ Q)
Judges-or m rest P Q h k g r g' e =
    let (r₁, g₁, first, second) = >>=-eq-some m _ g g' r e in
    by_result r₁ g₁ first (fail_or_not r₁) second
  where
    by_result :
        (r₁ : SubtypeResult) (g₁ : Gamma)
        → m g ≡ some (r₁, g₁)
        → (is_fail r₁ ≡ true) ⊎ (is_fail r₁ ≡ false)
        → (if is_fail r₁ then rest else pure r₁) g₁ ≡ some (r, g')
        → (is_fail r ≡ false) ↔ (P ⊎ Q)
    by_result r₁ g₁ first (inl failed) second =
        let going = ap (λ b. (if b then rest else pure r₁) g₁) failed in
        let (to, from) = k g₁ r g' (sym going ∙ second) in
        (
          λ q. inr (to q),
          λ c. elim c [
            | inl p ↦ absurd (ground (arith, failed, (h g r₁ g₁ first).1 p))
            | inr q ↦ from q
          ],
        )
    by_result r₁ g₁ first (inr passed) second =
        let stopping = ap (λ b. (if b then rest else pure r₁) g₁) passed in
        let same = pure_result r₁ r g₁ g' (sym stopping ∙ second) in
        (λ q. inl ((h g r₁ g₁ first).0 passed), λ c. ap is_fail (sym same) ∙ passed)

pub Passes-pure : (s : SubtypeResult) → is_fail s ≡ false → Passes (pure s)
Passes-pure s h g r g' e = ap is_fail (sym (pure_result s r g g' e)) ∙ h

pub Passes-bind :
    {A : Type 0} (m : Check A) (f : A → Check SubtypeResult)
    → ((a : A) → Passes (f a))
    → Passes (m >>= f)
Passes-bind m f h g r g' e =
    let (a, g₁, first, second) = >>=-eq-some m f g g' r e in h a g₁ r g' second

pub Passes-if :
    (b : Bool) (x y : Check SubtypeResult)
    → (b ≡ true → Passes x)
    → (b ≡ false → Passes y)
    → Passes (if b then x else y)
Passes-if true x y h k = h refl
Passes-if false x y h k = k refl
