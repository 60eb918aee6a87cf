-- ===== src/Timer/Heap/Down.antt =====
-- `heap_down` restores the heap order below an index.
use lucid.Base.{
  ℕ, zero, suc, ◌+◌, ◌-◌, ◌*◌, ◌<◌, ◌≡◌, refl, ap, sym, ◌∙◌, subst, ◌==◌, arith, List, length,
  Bool-cases,
}
use lucid.Base.{Option, some, inl, inr, ltb, if◌then◌else◌, ◌≢◌}
use lucid.Base.Array.{get_at-swap, count-swap, length-swap, swap_at}
use lucid.Timer.Heap.{Task, before, parent, pick, down_loop, heap_down}
use lucid.Timer.Heap.Order.{
  ◌⊑◌, ⊑-refl, before-⊑, no_task, at, IsHeap, Same, Same-trans, UpInv, Hole, DownInv, IsHeap-UpInv,
  is_before-at, heap_swap-at, ⊑-trans,
}

abbrev chosen : List Task → ℕ → ℕ → ℕ
chosen tasks candidate smallest =
    if ltb candidate (length tasks)
    then (if before (at tasks candidate) (at tasks smallest) then candidate else smallest)
    else smallest

pick-chosen :
    (tasks : List Task) (candidate s : ℕ)
    → s < length tasks
    → pick tasks candidate s ≡ some (chosen tasks candidate s)
unfolding pick
pick-chosen tasks candidate s h = ground (arith, is_before-at tasks candidate s)

chosen-inside :
    (tasks : List Task) (candidate s : ℕ)
    → s < length tasks
    → chosen tasks candidate s < length tasks
chosen-inside tasks candidate s h = ground (arith, h)

chosen-⊑ : (tasks : List Task) (candidate s : ℕ) → at tasks (chosen tasks candidate s) ⊑ at tasks s
chosen-⊑ tasks candidate s =
    ground (arith, ⊑-refl (at tasks s), before-⊑ (at tasks candidate) (at tasks s))

chosen-⊑_candidate :
    (tasks : List Task) (candidate s : ℕ)
    → candidate < length tasks
    → at tasks (chosen tasks candidate s) ⊑ at tasks candidate
chosen-⊑_candidate tasks candidate s h = ground (arith, h, ⊑-refl (at tasks candidate))

-- The index that the loop goes on at.
abbrev smallest : List Task → ℕ → ℕ
smallest tasks i = chosen tasks (2 * i + 2) (chosen tasks (2 * i + 1) i)

-- `m` is `i` or a child of it that is before it, and no child of `i` is before `m`.
record IsSmallest (tasks : List Task) (i m : ℕ) : Type 0 where
  inside : m < length tasks
  child : m ≢ i → parent m ≡ i
  deeper : m ≢ i → i < m
  low : at tasks m ⊑ at tasks i
  least : (c : ℕ) → 0 < c → c < length tasks → parent c ≡ i → at tasks m ⊑ at tasks c

smallest-IsSmallest :
    (tasks : List Task) (i : ℕ) → i < length tasks → IsSmallest tasks i (smallest tasks i)
smallest-IsSmallest tasks i h =
    let left = chosen tasks (2 * i + 1) i in
    let left_inside : left < length tasks = chosen-inside tasks (2 * i + 1) i h in
    let m = chosen tasks (2 * i + 2) left in
    let low =
      ⊑-trans (at tasks m) (at tasks left) (at tasks i) (chosen-⊑ tasks (2 * i + 2) left)
        (chosen-⊑ tasks (2 * i + 1) i) in
    record {
      inside = chosen-inside tasks (2 * i + 2) left left_inside;
      child = λ n. ground (arith, n);
      deeper = λ n. ground (arith, n);
      low = low;
      least = λ c p l e. elim (Bool-cases (c == 2 * i + 1)) [
        | inl first ↦
            let here : 2 * i + 1 ≡ c = ground (arith, first) in
            let below = chosen-⊑_candidate tasks (2 * i + 1) i (omega (arith, here, l)) in
            subst (λ (k : ℕ). at tasks m ⊑ at tasks k) here
              (⊑-trans (at tasks m) (at tasks left) (at tasks (2 * i + 1))
                (chosen-⊑ tasks (2 * i + 2) left) below)
        | inr other ↦
            let here : 2 * i + 2 ≡ c = ground (arith, other, e, p) in
            subst (λ (k : ℕ). at tasks m ⊑ at tasks k) here
              (chosen-⊑_candidate tasks (2 * i + 2) left (omega (arith, here, l)))
      ];
    }

module _ (tasks : List Task) (i m : ℕ) (hi : i < length tasks) (s : IsSmallest tasks i m) where
  -- Where the smallest is a child, the order is broken only below it after the swap.
  Hole-DownInv : Hole tasks i → m ≢ i → DownInv (swap_at no_task tasks i m) m
  Hole-DownInv v n =
      let size = length-swap no_task tasks i m in
      let look = get_at-swap no_task tasks i m hi s.inside in
      let above : parent m ≡ i = s.child n in
      let deep : i < m = s.deeper n in
      record {
        inside = omega (arith, s.inside, size);
        edges = λ c p l q. ground (
          arith,
          size,
          above,
          deep,
          s.low,
          look c,
          look (parent c),
          v.edges c,
          v.across m,
          s.least c,
        );
        across = λ c p l e q. ground (arith, size, above, deep, look c, look (parent m), v.edges c);
      }

  settled-UpInv : Hole tasks i → m ≡ i → UpInv tasks i
  settled-UpInv v same = record {
    inside = hi;
    edges = λ c p l n. elim (Bool-cases (parent c == i)) [
      | inl child ↦
          let e : parent c ≡ i = ground (arith, child) in
          subst (λ (k : ℕ). at tasks k ⊑ at tasks c) (same ∙ sym e) (s.least c p l e)
      | inr other ↦ v.edges c p l n (λ e. ground (arith, e, other))
    ];
    across = v.across;
  }

  down_step :
      (fuel : ℕ)
      → m ≡ smallest tasks i
      → down_loop (suc fuel) tasks i
        ≡ (if m == i then some tasks else down_loop fuel (swap_at no_task tasks i m) m)
  unfolding down_loop
  down_step fuel e =
      let first = pick-chosen tasks (2 * i + 1) i hi in
      let inside = chosen-inside tasks (2 * i + 1) i hi in
      let second = pick-chosen tasks (2 * i + 2) (chosen tasks (2 * i + 1) i) inside in
      let moved = heap_swap-at tasks i m hi s.inside in
      rw first (rw second (rw (sym e) (rw moved refl)))

DownInv-Hole : (tasks : List Task) (i : ℕ) → DownInv tasks i → Hole tasks i
DownInv-Hole tasks i v = record {
  inside = v.inside;
  edges = λ c p l _ n. v.edges c p l n;
  across = v.across;
}

-- The invariant of the loop at its first index, and from the second on.
abbrev pub Ends : (List Task → Type 0) → List Task → Option (List Task) → Type 0
Ends P tasks r =
    (tasks' : List Task) × (r ≡ some tasks')
    × P tasks'
    × (length tasks' ≡ length tasks)
    × Same tasks' tasks

Ends-swap :
    (P : List Task → Type 0) (tasks : List Task) (i m : ℕ) (r : Option (List Task))
    → i < length tasks
    → m < length tasks
    → Ends P (swap_at no_task tasks i m) r
    → Ends P tasks r
Ends-swap P tasks i m r hi hm (tasks', run, p, size, same) = (
  tasks',
  run,
  p,
  size ∙ length-swap no_task tasks i m,
  Same-trans tasks' _ tasks same (count-swap no_task tasks i m hi hm),
)

down_loop-IsHeap :
    (fuel : ℕ) (tasks : List Task) (i : ℕ)
    → length tasks - i < fuel
    → DownInv tasks i
    → Ends IsHeap tasks (down_loop fuel tasks i)
down_loop-IsHeap zero tasks i f v = absurd (omega arith)
down_loop-IsHeap (suc fuel) tasks i f v =
    let m = smallest tasks i in
    let s = smallest-IsSmallest tasks i v.inside in
    let hole = DownInv-Hole tasks i v in
    let step = down_step tasks i m v.inside s fuel refl in
    elim (Bool-cases (m == i)) [
      | inl stop ↦ (
        tasks,
        step ∙ rw stop refl,
        (λ c p l. stays c p l (ground (arith, stop))),
        refl,
        λ p. refl,
      )
      | inr more ↦
          let n : m ≢ i = λ e. ground (arith, e, more) in
          let rest =
            down_loop-IsHeap fuel (swap_at no_task tasks i m) m
              (omega (arith, s.deeper n, v.inside, length-swap no_task tasks i m))
              (Hole-DownInv tasks i m v.inside s hole n) in
          Ends-swap IsHeap tasks i m _ v.inside s.inside
            (subst (Ends IsHeap (swap_at no_task tasks i m)) (sym (step ∙ rw more refl)) rest)
    ]
  where
    stays :
        (c : ℕ) → 0 < c → c < length tasks → smallest tasks i ≡ i → at tasks (parent c) ⊑ at tasks c
    stays c p l e = elim (Bool-cases (parent c == i)) [
      | inl child ↦
          let is : parent c ≡ i = ground (arith, child) in
          subst (λ (k : ℕ). at tasks k ⊑ at tasks c) (e ∙ sym is)
            ((smallest-IsSmallest tasks i v.inside).least c p l is)
      | inr other ↦ v.edges c p l (λ is. ground (arith, is, other))
    ]

down_loop_first :
    (tasks : List Task) (i : ℕ)
    → i < length tasks
    → down_loop (length tasks + 1) tasks i ≡ down_loop (suc (length tasks)) tasks i
down_loop_first tasks i h = ap (λ (k : ℕ). down_loop k tasks i) (omega arith)

-- Where the order may be broken at one index, it is broken at most above that index afterwards.
pub heap_down-UpInv :
    (tasks : List Task) (i : ℕ)
    → Hole tasks i
    → Ends (λ tasks'. UpInv tasks' i) tasks (heap_down tasks i)
unfolding heap_down
heap_down-UpInv tasks i v =
    let m = smallest tasks i in
    let s = smallest-IsSmallest tasks i v.inside in
    let step = down_step tasks i m v.inside s (length tasks) refl in
    let start = down_loop_first tasks i v.inside in
    elim (Bool-cases (m == i)) [
      | inl stop ↦ (
        tasks,
        start ∙ step ∙ rw stop refl,
        settled-UpInv tasks i m v.inside s v (ground (arith, stop)),
        refl,
        λ p. refl,
      )
      | inr more ↦
          let n : m ≢ i = λ e. ground (arith, e, more) in
          let (tasks', run, heap, size, same) = Ends-swap IsHeap tasks i m _ v.inside s.inside (
            down_loop-IsHeap (length tasks) (swap_at no_task tasks i m) m
              (omega (arith, s.deeper n, v.inside, length-swap no_task tasks i m))
              (Hole-DownInv tasks i m v.inside s v n)) in
          (
            tasks',
            start ∙ step ∙ rw more run,
            IsHeap-UpInv tasks' i (omega (arith, size, v.inside)) heap,
            size,
            same,
          )
    ]
