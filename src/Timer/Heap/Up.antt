-- ===== src/Timer/Heap/Up.antt =====
-- `heap_up` restores the heap order.
use lucid.Base.{
  ℕ, zero, suc, ◌+◌, ◌<◌, ◌≡◌, refl, ◌∙◌, subst, ◌==◌, arith, true, false, List, length, Bool-cases,
}
use lucid.Base.{some, inl, inr, if◌then◌else◌}
use lucid.Base.Array.{get_at-swap, count-swap, length-swap, swap_at}
use lucid.Timer.Heap.{Task, before, parent, up_loop, heap_up}
use lucid.Timer.Heap.Order.{
  ◌⊑◌, before-⊑, no_task, at, Sifted, IsHeap, Same-trans, UpInv, is_before-at, heap_swap-at,
  ⊑-trans,
}

module _ (tasks : List Task) (i : ℕ) (v : UpInv tasks i) (pos : 0 < i) where
  above : parent i < length tasks
  above = omega (arith, v.inside)

  abbrev swapped : List Task
  swapped = swap_at no_task tasks i (parent i)

  swap-UpInv : before (at tasks i) (at tasks (parent i)) ≡ true → UpInv swapped (parent i)
  swap-UpInv less =
      let size = length-swap no_task tasks i (parent i) in
      let look = get_at-swap no_task tasks i (parent i) v.inside above in
      let low = before-⊑ (at tasks i) (at tasks (parent i)) less in
      record {
        inside = omega (arith, above, size);
        edges = λ c p l n. ground (
          arith,
          size,
          look c,
          look (parent c),
          v.edges c,
          v.across c,
          low,
          ⊑-trans (at tasks i) (at tasks (parent i)) (at tasks c),
        );
        across = λ c p l e q. ground (
          arith,
          size,
          look c,
          look (parent (parent i)),
          v.edges c,
          v.edges (parent i),
          v.across c,
          low,
          ⊑-trans (at tasks (parent (parent i))) (at tasks (parent i)) (at tasks c),
        );
      }

  up_step :
      (fuel : ℕ)
      → up_loop (suc fuel) tasks i ≡ (
          if before (at tasks i) (at tasks (parent i))
          then up_loop fuel swapped (parent i)
          else some tasks)
  unfolding up_loop
  up_step fuel =
      let test = is_before-at tasks i (parent i) v.inside above in
      let moved = heap_swap-at tasks i (parent i) v.inside above in ground (arith, pos, test, moved)

settled-IsHeap :
    (tasks : List Task) (i : ℕ)
    → UpInv tasks i
    → before (at tasks i) (at tasks (parent i)) ≡ false
    → IsHeap tasks
settled-IsHeap tasks i v settled c p l = elim (Bool-cases (c == i)) [
  | inl here ↦ subst (λ (k : ℕ). at tasks (parent k) ⊑ at tasks k) (ground (arith, here)) settled
  | inr elsewhere ↦ v.edges c p l (λ e. ground (arith, e, elsewhere))
]

up_loop-Sifted :
    (fuel : ℕ) (tasks : List Task) (i : ℕ)
    → i < fuel
    → UpInv tasks i
    → (tasks' : List Task) × (up_loop fuel tasks i ≡ some tasks') × Sifted tasks tasks'
unfolding up_loop
up_loop-Sifted zero tasks i f v = absurd (omega arith)
up_loop-Sifted (suc fuel) tasks zero f v =
    (tasks, refl, ((λ c p l. v.edges c p l (ground (arith, p))), refl, λ p. refl))
up_loop-Sifted (suc fuel) tasks (suc j) f v =
    let pos : 0 < suc j = omega arith in
    elim (Bool-cases (before (at tasks (suc j)) (at tasks (parent (suc j))))) [
      | inl less ↦
          let (tasks', run, (heap, size, same)) =
            up_loop-Sifted fuel (swapped tasks (suc j) v pos) (parent (suc j)) (omega arith)
              (swap-UpInv tasks (suc j) v pos less) in
          (
            tasks',
            up_step tasks (suc j) v pos fuel ∙ rw less run,
            (
              heap,
              size ∙ length-swap no_task tasks (suc j) (parent (suc j)),
              Same-trans tasks' _ tasks same (
                  count-swap no_task tasks (suc j) (parent (suc j)) v.inside
                    (above tasks (suc j) v pos)),
            ),
          )
      | inr settled ↦ (
        tasks,
        up_step tasks (suc j) v pos fuel ∙ rw settled refl,
        (settled-IsHeap tasks (suc j) v settled, refl, λ p. refl),
      )
    ]

-- A heap in which one task may stand too low becomes a heap of the same tasks.
pub heap_up-Sifted :
    (tasks : List Task) (i : ℕ)
    → UpInv tasks i
    → (tasks' : List Task) × (heap_up tasks i ≡ some tasks') × Sifted tasks tasks'
unfolding heap_up
heap_up-Sifted tasks i v = up_loop-Sifted (i + 1) tasks i (omega arith) v
