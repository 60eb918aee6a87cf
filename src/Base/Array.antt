-- ===== src/Base/Array.antt =====
-- Lists as arrays under native indices, with a value `d` that stands for what is out of range; and
-- how many entries pass a test.
use Prim.Native.Nat.{ℕ, zero, suc, ◌+◌, ◌≤◌, ◌<◌}
use mathlib.Core.Path.{◌≡◌, refl, ap}
use mathlib.Core.Bool.{Bool, true, false, ◌&&◌}
use mathlib.Core.List.{List, [], ◌∷◌, ◌++◌}
use mathlib.Core.Option.{some}
use native.Mathlib.Omega.{arith}
use lucid.Base.Tests.{◌==◌, if◌then◌else◌}
use lucid.Base.Lists.{length, get_elem?, set, take, length-set}

abbrev pub one_if : Bool → ℕ
one_if b = if b then 1 else 0

module _ {ℓ} {A : Type ℓ} where
  unfoldable pub count : (A → Bool) → List A → ℕ
  count p [] = 0
  count p (x ∷ xs) = one_if (p x) + count p xs

  pub count-append : (p : A → Bool) (xs ys : List A) → count p (xs ++ ys) ≡ count p xs + count p ys
  unfolding count
  count-append p [] ys = omega arith
  count-append p (x ∷ xs) ys = omega (arith, count-append p xs ys)

  pub count-and : (p q : A → Bool) (xs : List A) → count (λ x. p x && q x) xs ≤ count q xs
  unfolding count
  count-and p q [] = omega arith
  count-and p q (x ∷ xs) = ground (arith, count-and p q xs)

module _ {ℓ} {A : Type ℓ} (d : A) where
  unfoldable pub get_at : List A → ℕ → A
  get_at [] i = d
  get_at (x ∷ xs) zero = x
  get_at (x ∷ xs) (suc i) = get_at xs i

  unfoldable pub swap_at : List A → ℕ → ℕ → List A
  swap_at xs i j = set (set xs i (get_at xs j)) j (get_at xs i)

  pub get_elem?-get_at : (xs : List A) (i : ℕ) → i < length xs → get_elem? xs i ≡ some (get_at xs i)
  unfolding get_at
  get_elem?-get_at [] i h = absurd (omega arith)
  get_elem?-get_at (x ∷ xs) zero h = refl
  get_elem?-get_at (x ∷ xs) (suc i) h = get_elem?-get_at xs i (omega arith)

  pub get_at-set :
      (xs : List A) (i c : ℕ) (v : A)
      → i < length xs
      → get_at (set xs i v) c ≡ (if i == c then v else get_at xs c)
  unfolding get_at
  get_at-set [] i c v h = absurd (omega arith)
  get_at-set (x ∷ xs) zero zero v h = refl
  get_at-set (x ∷ xs) zero (suc c) v h = ground arith
  get_at-set (x ∷ xs) (suc i) zero v h = ground arith
  get_at-set (x ∷ xs) (suc i) (suc c) v h = ground (arith, get_at-set xs i c v)

  pub get_at-append : (xs ys : List A) (c : ℕ) → c < length xs → get_at (xs ++ ys) c ≡ get_at xs c
  unfolding get_at
  get_at-append [] ys c h = absurd (omega arith)
  get_at-append (x ∷ xs) ys zero h = refl
  get_at-append (x ∷ xs) ys (suc c) h = get_at-append xs ys c (omega arith)

  pub get_at-take : (n : ℕ) (xs : List A) (c : ℕ) → c < n → get_at (take n xs) c ≡ get_at xs c
  unfolding get_at
  get_at-take zero xs c h = absurd (omega arith)
  get_at-take (suc n) [] c h = refl
  get_at-take (suc n) (x ∷ xs) zero h = refl
  get_at-take (suc n) (x ∷ xs) (suc c) h = get_at-take n xs c (omega arith)

  pub count-set :
      (p : A → Bool) (xs : List A) (i : ℕ) (v : A)
      → i < length xs
      → count p (set xs i v) + one_if (p (get_at xs i)) ≡ count p xs + one_if (p v)
  unfolding get_at count
  count-set p [] i v h = absurd (omega arith)
  count-set p (x ∷ xs) zero v h = omega arith
  count-set p (x ∷ xs) (suc i) v h = omega (arith, count-set p xs i v (omega arith))

  pub count-take :
      (p : A → Bool) (n : ℕ) (xs : List A)
      → length xs ≡ suc n
      → count p (take n xs) + one_if (p (get_at xs n)) ≡ count p xs
  unfolding get_at count
  count-take p n [] h = absurd (omega (arith, h))
  count-take p zero (x ∷ []) h = omega arith
  count-take p zero (x ∷ y ∷ xs) h = absurd (omega (arith, h))
  count-take p (suc n) (x ∷ xs) h = omega (arith, count-take p n xs (omega (arith, h)))

  pub count-get_at :
      (p : A → Bool) (xs : List A) (i : ℕ) → i < length xs → p (get_at xs i) ≡ true → 1 ≤ count p xs
  unfolding get_at count
  count-get_at p [] i h e = absurd (omega arith)
  count-get_at p (x ∷ xs) zero h e = ground (arith, e)
  count-get_at p (x ∷ xs) (suc i) h e = omega (arith, count-get_at p xs i (omega arith) e)

  pub length-swap : (xs : List A) (i j : ℕ) → length (swap_at xs i j) ≡ length xs
  unfolding swap_at
  length-swap xs i j =
      omega
        (arith, length-set xs i (get_at xs j), length-set (set xs i (get_at xs j)) j (get_at xs i))

  module _ (xs : List A) (i j : ℕ) (hi : i < length xs) (hj : j < length xs) where
    pub get_at-swap :
        (c : ℕ)
        → get_at (swap_at xs i j) c
          ≡ (if j == c then get_at xs i else if i == c then get_at xs j else get_at xs c)
    unfolding swap_at
    get_at-swap c =
        let inner : j < length (set xs i (get_at xs j)) =
          omega (arith, length-set xs i (get_at xs j)) in
        rw
          (
            get_at-set (set xs i (get_at xs j)) j c (get_at xs i) inner,
            get_at-set xs i c (get_at xs j) hi,
          )
          refl

    pub count-swap : (p : A → Bool) → count p (swap_at xs i j) ≡ count p xs
    unfolding swap_at
    count-swap p =
        let inner : j < length (set xs i (get_at xs j)) =
          omega (arith, length-set xs i (get_at xs j)) in
        let kept : get_at (set xs i (get_at xs j)) j ≡ get_at xs j =
          ground (arith, get_at-set xs i j (get_at xs j)) in
        omega (
          arith,
          count-set p xs i (get_at xs j) hi,
          count-set p (set xs i (get_at xs j)) j (get_at xs i) inner,
          ap (λ (x : A). one_if (p x)) kept,
        )

  pub count_none :
      (p : A → Bool) (xs : List A)
      → ((i : ℕ) → i < length xs → p (get_at xs i) ≡ false)
      → count p xs ≡ 0
  unfolding get_at count
  count_none p [] h = refl
  count_none p (x ∷ xs) h =
      let first : p x ≡ false = h 0 (omega arith) in
      let rest = count_none p xs (λ i l. h (suc i) (omega arith)) in ground (arith, first, rest)
