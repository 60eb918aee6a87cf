-- ===== src/Timer/Heap/Order.antt =====
-- The order of tasks and the heap order.
use lucid.Base.{
  ℕ, zero, suc, ◌≤◌, ◌<◌, ◌≡◌, refl, ◌∙◌, subst, arith, Bool, true, false, List, length, ◌≢◌,
}
use lucid.Base.{some}
use lucid.Base.Array.{get_at, swap_at, count, get_elem?-get_at}
use lucid.Timer.Heap.{once, Task, compare_timers, before, load, is_before, heap_swap, parent}

-- `y` is not before `x`.
infix 50 ◌⊑◌
abbrev pub ◌⊑◌ : Task → Task → Type 0
x ⊑ y = before y x ≡ false

pub ⊑-refl : (x : Task) → x ⊑ x
unfolding before compare_timers
⊑-refl x = ground arith

pub ⊑-trans : (x y z : Task) → x ⊑ y → y ⊑ z → x ⊑ z
unfolding before compare_timers
⊑-trans x y z h k = ground (arith, h, k)

pub before-⊑ : (x y : Task) → before x y ≡ true → x ⊑ y
unfolding before compare_timers
before-⊑ x y h = ground (arith, h)

-- What stands for an index out of range.
abbrev pub no_task : Task
no_task = record {
  id = 0;
  type = once;
  scheduled_time = 0;
  interval_ns = 0;
  callback = 0;
  counter = 0;
}

abbrev pub at : List Task → ℕ → Task
at tasks i = get_at no_task tasks i

-- No task is before the one at its parent.
abbrev pub IsHeap : List Task → Type 0
IsHeap tasks = (c : ℕ) → 0 < c → c < length tasks → at tasks (parent c) ⊑ at tasks c

-- The same tasks: as many pass any test.
abbrev pub Same : List Task → List Task → Type 0
Same a b = (p : Task → Bool) → count p a ≡ count p b

-- A heap of the same number of the same tasks.
abbrev pub Sifted : List Task → List Task → Type 0
Sifted a b = IsHeap b × (length b ≡ length a) × Same b a

root_least_below :
    (k : ℕ) (tasks : List Task) (i : ℕ)
    → IsHeap tasks
    → i < k
    → i < length tasks
    → at tasks 0 ⊑ at tasks i
root_least_below zero tasks i h f l = absurd (omega arith)
root_least_below (suc k) tasks zero h f l = ⊑-refl (at tasks 0)
root_least_below (suc k) tasks (suc i) h f l =
    ⊑-trans (at tasks 0) (at tasks (parent (suc i))) (at tasks (suc i))
      (root_least_below k tasks (parent (suc i)) h (omega arith) (omega arith))
      (h (suc i) (omega arith) l)

-- No task of a heap is before the first.
pub root_least :
    (tasks : List Task) (i : ℕ) → IsHeap tasks → i < length tasks → at tasks 0 ⊑ at tasks i
root_least tasks i h l = root_least_below (suc i) tasks i h (omega arith) l

pub load-at : (tasks : List Task) (i : ℕ) → i < length tasks → load tasks i ≡ some (at tasks i)
unfolding load
load-at tasks i h = get_elem?-get_at no_task tasks i h

module _ (tasks : List Task) (i j : ℕ) (hi : i < length tasks) (hj : j < length tasks) where
  pub is_before-at : is_before tasks i j ≡ some (before (at tasks i) (at tasks j))
  unfolding is_before
  is_before-at = rw (load-at tasks i hi, load-at tasks j hj) refl

  pub heap_swap-at : heap_swap tasks i j ≡ some (swap_at no_task tasks i j)
  unfolding heap_swap swap_at
  heap_swap-at = rw (load-at tasks i hi, load-at tasks j hj) refl

-- The heap order, but for the edge above `i`, and across `i`.
pub record UpInv (tasks : List Task) (i : ℕ) : Type 0 where
  pub inside : i < length tasks
  pub edges : (c : ℕ) → 0 < c → c < length tasks → c ≢ i → at tasks (parent c) ⊑ at tasks c
  pub across :
      (c : ℕ) → 0 < c → c < length tasks → parent c ≡ i → 0 < i → at tasks (parent i) ⊑ at tasks c

-- The heap order, but for the edges at `i`, and across `i`.
pub record Hole (tasks : List Task) (i : ℕ) : Type 0 where
  pub inside : i < length tasks
  pub edges :
      (c : ℕ) → 0 < c → c < length tasks → c ≢ i → parent c ≢ i → at tasks (parent c) ⊑ at tasks c
  pub across :
      (c : ℕ) → 0 < c → c < length tasks → parent c ≡ i → 0 < i → at tasks (parent i) ⊑ at tasks c

-- The heap order, but for the edges below `i`, and across `i`.
pub record DownInv (tasks : List Task) (i : ℕ) : Type 0 where
  pub inside : i < length tasks
  pub edges : (c : ℕ) → 0 < c → c < length tasks → parent c ≢ i → at tasks (parent c) ⊑ at tasks c
  pub across :
      (c : ℕ) → 0 < c → c < length tasks → parent c ≡ i → 0 < i → at tasks (parent i) ⊑ at tasks c

pub IsHeap-UpInv : (tasks : List Task) (i : ℕ) → i < length tasks → IsHeap tasks → UpInv tasks i
IsHeap-UpInv tasks i h heap = record {
  inside = h;
  edges = λ c p l _. heap c p l;
  across = λ c p l e q.
      let above : at tasks (parent i) ⊑ at tasks i = heap i q h in
      let below : at tasks i ⊑ at tasks c =
        subst (λ (k : ℕ). at tasks k ⊑ at tasks c) e (heap c p l) in
      ⊑-trans (at tasks (parent i)) (at tasks i) (at tasks c) above below;
}

pub Same-trans : (a b c : List Task) → Same a b → Same b c → Same a c
Same-trans a b c h k p = h p ∙ k p

pub ⊑-time : (x y : Task) → x ⊑ y → x.scheduled_time ≤ y.scheduled_time
unfolding before compare_timers
⊑-time x y h = ground (arith, h)
