-- ===== src/Timer/Heap/Remove.antt =====
-- Removal of the first task or of one by its id: the heap order is kept, and exactly that task is
-- removed.
use lucid.Base.{
  ℕ, suc, ◌+◌, ◌-◌, ◌<◌, ◌≡◌, refl, ap, sym, ◌∙◌, ◌==◌, arith, Bool, length, Bool-cases,
}
use lucid.Base.{
  List, [], ◌∷◌, some, none, inl, inr, if◌then◌else◌, ◌⊎◌, take, set, length-set, length-take,
}
use lucid.Base.Array.{get_at-set, get_at-take, count, count-set, count-take, one_if, get_at}
use lucid.Timer.Heap.{
  Task, TimerHeap, parent, heap_up, heap_down, heap_pop, find_id, heap_remove_by_id,
}
use lucid.Timer.Heap.Order.{◌⊑◌, ⊑-trans, no_task, at, IsHeap, Hole, root_least, load-at}
use lucid.Timer.Heap.Up.{heap_up-Sifted}
use lucid.Timer.Heap.Down.{heap_down-UpInv}
use lucid.Timer.Heap.Insert.{Without}

-- The task at the end, `n`, takes the place of the one at `idx`.
abbrev cut : List Task → ℕ → ℕ → List Task
cut tasks n idx = take n (set tasks idx (at tasks n))

module _ (tasks : List Task) (n idx : ℕ) (size : length tasks ≡ suc n) (h : idx < n) where
  length-cut : length (cut tasks n idx) ≡ n
  length-cut =
      omega
        (arith, size, length-take n (set tasks idx (at tasks n)), length-set tasks idx (at tasks n))

  at-cut : (c : ℕ) → c < n → at (cut tasks n idx) c ≡ (if idx == c then at tasks n else at tasks c)
  at-cut c l =
      get_at-take no_task n (set tasks idx (at tasks n)) c l
      ∙ get_at-set no_task tasks idx c (at tasks n) (omega (arith, size, h))

  cut-Hole : IsHeap tasks → Hole (cut tasks n idx) idx
  cut-Hole heap = record {
    inside = omega (arith, length-cut, h);
    edges = λ c p l m q. ground (arith, length-cut, size, h, heap c, at-cut c, at-cut (parent c));
    across = λ c p l e q. ground (
      arith,
      length-cut,
      size,
      h,
      e,
      heap c,
      heap idx,
      at-cut c,
      at-cut (parent idx),
      ⊑-trans (at tasks (parent idx)) (at tasks idx) (at tasks c),
    );
  }

  cut-count :
      (p : Task → Bool) → count p (cut tasks n idx) + one_if (p (at tasks idx)) ≡ count p tasks
  cut-count p =
      let changed = set tasks idx (at tasks n) in
      let inside : idx < length tasks = omega (arith, size, h) in
      let last : at changed n ≡ at tasks n =
        ground (arith, h, get_at-set no_task tasks idx n (at tasks n) inside) in
      omega (
        arith,
        count-set no_task p tasks idx (at tasks n) inside,
        count-take no_task p n changed (length-set tasks idx (at tasks n) ∙ size),
        ap (λ (t : Task). one_if (p t)) last,
      )

pop_one :
    (heap : TimerHeap)
    → length heap.tasks ≡ 1
    → heap_pop heap ≡ some (some (at heap.tasks 0, record heap { tasks = [] }))
unfolding heap_pop
pop_one heap e = let first = load-at heap.tasks 0 (omega (arith, e)) in ground (arith, e, first)

pop_more :
    (heap : TimerHeap) (n : ℕ) (tasks' : List Task)
    → length heap.tasks ≡ suc (suc n)
    → heap_down (cut heap.tasks (suc n) 0) 0 ≡ some tasks'
    → heap_pop heap ≡ some (some (at heap.tasks 0, record heap { tasks = tasks' }))
unfolding heap_pop
pop_more heap n tasks' e run =
    let first = load-at heap.tasks 0 (omega (arith, e)) in
    let last = load-at heap.tasks (suc n) (omega (arith, e)) in ground (arith, e, first, last, run)

-- A pop from a heap that is not empty returns its first task, which no task is before, and leaves a
-- heap of the others, of the same capacity.
pub heap_pop-IsHeap :
    (heap : TimerHeap)
    → IsHeap heap.tasks
    → 0 < length heap.tasks
    → (heap' : TimerHeap) × (heap_pop heap ≡ some (some (at heap.tasks 0, heap')))
      × IsHeap heap'.tasks
      × Without heap.tasks (at heap.tasks 0) heap'.tasks
      × (heap'.capacity ≡ heap.capacity)
      × ((i : ℕ) → i < length heap.tasks → at heap.tasks 0 ⊑ at heap.tasks i)
heap_pop-IsHeap heap v pos = elim (Bool-cases (length heap.tasks == 1)) [
  | inl single ↦
      let e : length heap.tasks ≡ 1 = ground (arith, single) in
      (
        record heap { tasks = [] },
        pop_one heap e,
        (λ c p l. absurd (omega (arith, l))),
        (omega (arith, e), λ p. one_left heap.tasks e p),
        refl,
        λ i l. root_least heap.tasks i v l,
      )
  | inr several ↦
      let n = length heap.tasks - 2 in
      let e : length heap.tasks ≡ suc (suc n) = ground (arith, several, pos) in
      let zero_in : 0 < suc n = omega arith in
      let (tasks', run, up, size, same) =
        heap_down-UpInv (cut heap.tasks (suc n) 0) 0 (cut-Hole heap.tasks (suc n) 0 e zero_in v) in
      (
        record heap { tasks = tasks' },
        pop_more heap n tasks' e run,
        (λ c p l. up.edges c p l (λ z. absurd (omega (arith, p, z)))),
        (
          omega (arith, size, length-cut heap.tasks (suc n) 0 e zero_in, e),
          λ p. omega (arith, same p, cut-count heap.tasks (suc n) 0 e zero_in p),
        ),
        refl,
        λ i l. root_least heap.tasks i v l,
      )
]
  where
    one_left :
        (tasks : List Task)
        → length tasks ≡ 1
        → (p : Task → Bool) → count p [] + one_if (p (at tasks 0)) ≡ count p tasks
    one_left [] e p = absurd (omega (arith, e))
    one_left (t ∷ []) e p = unfold count get_at in omega arith
    one_left (t ∷ u ∷ tasks) e p = absurd (omega (arith, e))

abbrev pub has_id : ℕ → Task → Bool
has_id id task = task.id == id

-- What a search from index `i` on finds.
find_id-cases :
    (tasks : List Task) (id i : ℕ)
    → ((find_id tasks id i ≡ none) × (count (has_id id) tasks ≡ 0))
      ⊎ ((k : ℕ) × (find_id tasks id i ≡ some (i + k))
          × (k < length tasks)
          × ((at tasks k).id ≡ id))
unfolding find_id count get_at
find_id-cases [] id i = inl (refl, refl)
find_id-cases (t ∷ tasks) id i = elim (Bool-cases (t.id == id)) [
  | inl here ↦ inr (0, ground (arith, here), omega arith, ground (arith, here))
  | inr other ↦ elim (find_id-cases tasks id (suc i)) [
    | inl (missing, no_one) ↦ inl (ground (arith, other, missing), ground (arith, other, no_one))
    | inr (k, found, l, same) ↦ inr (suc k, ground (arith, other, found), omega arith, same)
  ]
]

remove_last :
    (heap : TimerHeap) (id n : ℕ)
    → length heap.tasks ≡ suc n
    → find_id heap.tasks id 0 ≡ some n
    → heap_remove_by_id heap id
      ≡ some (some (at heap.tasks n, record heap { tasks = take n heap.tasks }))
unfolding heap_remove_by_id
remove_last heap id n e found =
    let last = load-at heap.tasks n (omega (arith, e)) in ground (arith, e, found, last)

remove_inner :
    (heap : TimerHeap) (id n k : ℕ) (sunk tasks' : List Task)
    → length heap.tasks ≡ suc n
    → k < n
    → find_id heap.tasks id 0 ≡ some k
    → heap_down (cut heap.tasks n k) k ≡ some sunk
    → heap_up sunk k ≡ some tasks'
    → heap_remove_by_id heap id ≡ some (some (at heap.tasks k, record heap { tasks = tasks' }))
unfolding heap_remove_by_id
remove_inner heap id n k sunk tasks' e l found down up =
    let last = load-at heap.tasks n (omega (arith, e)) in
    let there = load-at heap.tasks k (omega (arith, e, l)) in
    ground (arith, e, l, found, last, there, down, up)

take-IsHeap :
    (tasks : List Task) (n : ℕ) → length tasks ≡ suc n → IsHeap tasks → IsHeap (take n tasks)
take-IsHeap tasks n e v c p l =
    let size = length-take n tasks in
    let kept = get_at-take no_task n tasks in
    ground (arith, e, size, p, l, v c, kept c, kept (parent c))

-- Removal by id from a heap: where no task has the id, nothing is found; else a task with that id is
-- returned, and a heap of the others is left, of the same capacity.
pub heap_remove_by_id-IsHeap :
    (heap : TimerHeap) (id : ℕ)
    → IsHeap heap.tasks
    → ((heap_remove_by_id heap id ≡ some none) × (count (has_id id) heap.tasks ≡ 0))
      ⊎ ((task : Task) × (heap' : TimerHeap) × (heap_remove_by_id heap id
            ≡ some (some (task, heap')))
          × (task.id ≡ id)
          × IsHeap heap'.tasks
          × Without heap.tasks task heap'.tasks
          × (heap'.capacity ≡ heap.capacity))
heap_remove_by_id-IsHeap heap id v = elim (find_id-cases heap.tasks id 0) [
  | inl (missing, no_one) ↦ inl (nothing missing, no_one)
  | inr (k, found, l, same) ↦
      let n = length heap.tasks - 1 in
      let e : length heap.tasks ≡ suc n = omega (arith, l) in
      let at_k : find_id heap.tasks id 0 ≡ some k = found ∙ ap some (omega arith) in
      elim (Bool-cases (k == n)) [
        | inl last ↦
            let is : k ≡ n = ground (arith, last) in
            inr (
              at heap.tasks n,
              record heap { tasks = take n heap.tasks },
              remove_last heap id n e (at_k ∙ ap some is),
              ap (λ (i : ℕ). (at heap.tasks i).id) (sym is) ∙ same,
              take-IsHeap heap.tasks n e v,
              (
                omega (arith, e, length-take n heap.tasks),
                λ p. count-take no_task p n heap.tasks e,
              ),
              refl,
            )
        | inr inner ↦
            let less : k < n = ground (arith, inner, l) in
            let (sunk, down, up, size, kept) =
              heap_down-UpInv (cut heap.tasks n k) k (cut-Hole heap.tasks n k e less v) in
            let (tasks', rise, (heap', size', kept')) = heap_up-Sifted sunk k up in
            inr (
              at heap.tasks k,
              record heap { tasks = tasks' },
              remove_inner heap id n k sunk tasks' e less at_k down rise,
              same,
              heap',
              (
                omega (arith, size, size', length-cut heap.tasks n k e less, e),
                λ p. omega (arith, kept p, kept' p, cut-count heap.tasks n k e less p),
              ),
              refl,
            )
      ]
]
  where
    nothing : find_id heap.tasks id 0 ≡ none → heap_remove_by_id heap id ≡ some none
    nothing missing = unfold heap_remove_by_id in ground (arith, missing)
