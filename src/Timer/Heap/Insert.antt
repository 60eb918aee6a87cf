-- ===== src/Timer/Heap/Insert.antt =====
-- Insertion: the heap order is kept, and exactly the task given is added.
use lucid.Base.{ℕ, suc, ◌+◌, ◌*◌, ◌≤◌, ◌≡◌, arith, Bool, true, false, length, Bool-cases}
use lucid.Base.{List, [], ◌∷◌, ◌++◌, some, none, inl, inr, leb, ◌⊎◌, length-append}
use lucid.Base.Array.{get_at-append, count, count-append, one_if}
use lucid.Timer.Heap.{Task, TimerHeap, parent, heap_up, heap_push, pointer_size}
use lucid.Timer.Heap.Order.{no_task, IsHeap, UpInv}
use lucid.Timer.Heap.Up.{heap_up-Sifted}

-- `rest` and the task are the tasks `all`.
abbrev pub Without : List Task → Task → List Task → Type 0
Without all task rest =
    (suc (length rest) ≡ length all)
    × ((p : Task → Bool) → count p rest + one_if (p task) ≡ count p all)

append-UpInv :
    (tasks : List Task) (task : Task) → IsHeap tasks → UpInv (tasks ++ task ∷ []) (length tasks)
append-UpInv tasks task heap =
    let size = length-append tasks (task ∷ []) in
    let kept = get_at-append no_task tasks (task ∷ []) in
    record {
      inside = omega (arith, size);
      edges = λ c p l n. ground (arith, size, n, heap c, kept c, kept (parent c));
      across = λ c p l e q. absurd (omega (arith, size, e, l));
    }

-- A push onto a heap fails only where the array is full and `realloc` refuses one more entry; else
-- the result is a heap of the old tasks and the new one, with room for them.
pub heap_push-IsHeap :
    (realloc : ℕ → Bool) (heap : TimerHeap) (task : Task)
    → IsHeap heap.tasks
    → ((heap_push realloc heap task ≡ some none)
        × (heap.capacity ≤ length heap.tasks)
        × (realloc ((length heap.tasks + 1) * pointer_size) ≡ false))
      ⊎ ((heap' : TimerHeap) × (heap_push realloc heap task ≡ some (some heap'))
          × IsHeap heap'.tasks
          × Without heap'.tasks task heap.tasks
          × (length heap'.tasks ≤ heap'.capacity))
unfolding heap_push
heap_push-IsHeap realloc heap task v =
    let grown = heap.tasks ++ task ∷ [] in
    let (tasks', run, (heap', size, same)) =
      heap_up-Sifted grown (length heap.tasks) (append-UpInv heap.tasks task v) in
    let without : Without tasks' task heap.tasks = (
      omega (arith, size, length-append heap.tasks (task ∷ [])),
      λ p. unfold count in omega (arith, same p, count-append p heap.tasks (task ∷ [])),
    ) in
    elim (Bool-cases (leb (length heap.tasks + 1) heap.capacity)) [
      | inl roomy ↦ inr (
        record heap { tasks = tasks' },
        pushed_roomy roomy run,
        heap',
        without,
        ground (arith, roomy, without.0),
      )
      | inr full ↦ elim (Bool-cases (realloc ((length heap.tasks + 1) * pointer_size))) [
        | inl granted ↦ inr (
          record { tasks = tasks'; capacity = length heap.tasks + 1 },
          pushed_grown full granted run,
          heap',
          without,
          omega (arith, without.0),
        )
        | inr refused ↦ inl (pushed_refused full refused, ground (arith, full), refused)
      ]
    ]
  where
    pushed_roomy :
        {tasks' : List Task}
        → leb (length heap.tasks + 1) heap.capacity ≡ true
        → heap_up (heap.tasks ++ task ∷ []) (length heap.tasks) ≡ some tasks'
        → heap_push realloc heap task ≡ some (some (record heap { tasks = tasks' }))
    pushed_roomy roomy run = ground (arith, roomy, run)

    pushed_grown :
        {tasks' : List Task}
        → leb (length heap.tasks + 1) heap.capacity ≡ false
        → realloc ((length heap.tasks + 1) * pointer_size) ≡ true
        → heap_up (heap.tasks ++ task ∷ []) (length heap.tasks) ≡ some tasks'
        → heap_push realloc heap task
          ≡ some (some (record { tasks = tasks'; capacity = length heap.tasks + 1 }))
    pushed_grown full granted run = ground (arith, full, granted, run)

    pushed_refused :
        leb (length heap.tasks + 1) heap.capacity ≡ false
        → realloc ((length heap.tasks + 1) * pointer_size) ≡ false
        → heap_push realloc heap task ≡ some none
    pushed_refused full refused = ground (arith, full, refused)
