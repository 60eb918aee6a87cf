-- ===== src/Buffer/Growth.antt =====
-- The capacities of a buffer are 0 and the powers of two from 64 to 2 ^ 31; what a reservation and
-- an append do on each of them.
use lucid.Base.{ℕ, zero, suc, ◌*◌, ◌%◌, ◌^◌, ◌≤◌, ◌<◌, ◌≡◌, refl, sym, ap, subst, arith}
use lucid.Base.{ltb}
use lucid.Base.{Bool-cases, inl, inr, ◌⊎◌, ltb→le}
use lucid.Base.Word.{size_mod}
use lucid.Buffer.{done, failed, diverges, out_of_memory, double_until}
use native.Mathlib.Nat.{pow-suc, mul-le-mul_left}
use lucid.Base.Bits.{pow-pos}

-- A power of two that `d` doublings take to 2 ^ 31.
abbrev pub Reaches : ℕ → ℕ → Type 0
Reaches d v = (d ≤ 25) × (v * 2 ^ d ≡ 2 ^ 31)

abbrev pub IsCapacity : ℕ → Type 0
IsCapacity c = (c ≡ 0) ⊎ ((d : ℕ) × Reaches d c)

pub Reaches-le : (d v : ℕ) → Reaches d v → (1 ≤ v) × (v ≤ 2 ^ 31)
Reaches-le d zero (h, e) = absurd (omega (arith, e))
Reaches-le d (suc v) (h, e) = (omega arith, omega (arith, e, mul-le-mul_left (suc v) (pow-pos d)))

Reaches-double :
    (d v : ℕ)
    → Reaches (suc d) v
    → Reaches d (v * 2 % size_mod) × (v * 2 % size_mod ≡ v * 2) × (v * 2 ≤ 2 ^ 31)
Reaches-double d v (h, e) =
    let twice : v * 2 * 2 ^ d ≡ 2 ^ 31 = omega (arith, e, ap (λ (k : ℕ). v * k) (pow-suc 2 d)) in
    let small : v * 2 ≤ 2 ^ 31 = (Reaches-le d (v * 2) (omega (arith, h), twice)).1 in
    let plain : v * 2 % size_mod ≡ v * 2 = omega (arith, small) in
    (subst (Reaches d) (sym plain) (omega (arith, h), twice), plain, small)

-- A request within 2 ^ 31 ends in a capacity for it.
pub double_until_enough :
    (fuel d old v request : ℕ)
    → d < fuel
    → Reaches d v
    → old ≤ v
    → request ≤ 2 ^ 31
    → (c : ℕ) × (double_until fuel old v request ≡ done c)
      × (request ≤ c)
      × ((d' : ℕ) × Reaches d' c)
unfolding double_until
double_until_enough zero d old v request f r le h = absurd (omega arith)
double_until_enough (suc fuel) zero old v request f (_, e) le h =
    (v, ground (arith, e), omega (arith, e), (0, (omega arith, e)))
double_until_enough (suc fuel) (suc d) old v request f r le h = elim (Bool-cases (ltb v request)) [
  | inr large ↦ (v, rw large refl, ltb→le v request large, (suc d, r))
  | inl small ↦
      let (next, plain, _) = Reaches-double d v r in
      let (c, run, enough, reaches) =
        double_until_enough fuel d old (v * 2 % size_mod) request (omega arith) next
          (omega (arith, plain)) h in
      (c, ground (arith, small, plain, run), enough, reaches)
]

-- A request above 2 ^ 31 is refused where there was a capacity.
pub double_until_refused :
    (fuel d old v request : ℕ)
    → d < fuel
    → Reaches d v
    → 1 ≤ old
    → old ≤ v
    → 2 ^ 31 < request
    → double_until fuel old v request ≡ failed out_of_memory
unfolding double_until
double_until_refused zero d old v request f r pos le h = absurd (omega arith)
double_until_refused (suc fuel) zero old v request f r pos le h = ground (arith, r.1)
double_until_refused (suc fuel) (suc d) old v request f r pos le h =
    let (next, plain, below) = Reaches-double d v r in
    let run =
      double_until_refused fuel d old (v * 2 % size_mod) request (omega arith) next pos
        (omega (arith, plain)) h in
    ground (arith, plain, below, run)

stays_zero : (fuel request : ℕ) → 0 < request → double_until fuel 0 0 request ≡ diverges
unfolding double_until
stays_zero zero request h = refl
stays_zero (suc fuel) request h = ground (arith, stays_zero fuel request h)

pub double_until_diverges :
    (fuel d v request : ℕ)
    → Reaches d v
    → 2 ^ 31 < request
    → double_until fuel 0 v request ≡ diverges
unfolding double_until
double_until_diverges zero d v request r h = refl
double_until_diverges (suc fuel) zero v request r h =
    let full : v * 2 % size_mod ≡ 0 = omega (arith, r.1) in
    let zero_run = stays_zero fuel request (omega arith) in
    ground (arith, r.1, rw (sym full) at zero_run)
double_until_diverges (suc fuel) (suc d) v request r h =
    let (next, plain, below) = Reaches-double d v r in
    let run = double_until_diverges fuel d (v * 2 % size_mod) request next h in
    ground (arith, plain, below, run)
