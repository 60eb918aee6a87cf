-- ===== src/Timer/Heap.antt =====
-- The tasks of ic_timer.c and their binary heap, the earliest task first. The list is the first `size`
-- entries of the array of pointers; each entry points to a task of its own. An index outside of it,
-- which C would read past the entries, is none, and so is a loop that runs out of fuel.
pub mod Order
pub mod Up
pub mod Down
pub mod Insert
pub mod Remove
use lucid.Base.{ℕ, zero, suc, ◌+◌, ◌-◌, ◌*◌, ◌/◌, Bool, true, false, List, [], ◌∷◌, ◌++◌}
use lucid.Base.{Option, none, some, ltb, leb, ◌==◌, if◌then◌else◌, length, get_elem?, set, take}
use lucid.Base.Int.{ℤ, pos, negsuc, ltb_ℤ}

pub data TaskType : Type 0 where
  once interval : TaskType

-- `callback` names a function with its user data; no task in the heap has a NULL callback. Times are
-- int64_t and not negative.
pub record Task : Type 0 where
  pub id : ℕ
  pub type : TaskType
  pub scheduled_time : ℕ
  pub interval_ns : ℕ
  pub callback : ℕ
  pub counter : ℕ

compare_timers : Task → Task → ℤ
compare_timers a b =
    if ltb a.scheduled_time b.scheduled_time
    then negsuc 0
    else if ltb b.scheduled_time a.scheduled_time
    then pos 1
    else if ltb a.counter b.counter
    then negsuc 0
    else if ltb b.counter a.counter
    then pos 1
    else pos 0

-- `compare_timers(a, b) < 0`
unfoldable pub before : Task → Task → Bool
unfolding compare_timers
before a b = ltb_ℤ (compare_timers a b) (pos 0)

infixl 5 ◌>>=◌
abbrev pub ◌>>=◌ : {A B : Type 0} → Option A → (A → Option B) → Option B
none >>= f = none
some a >>= f = f a

unfoldable pub load : List Task → ℕ → Option Task
load tasks i = get_elem? tasks i

unfoldable pub is_before : List Task → ℕ → ℕ → Option Bool
unfolding load
is_before tasks i j = do x ← load tasks i; y ← load tasks j; some (before x y)

unfoldable pub heap_swap : List Task → ℕ → ℕ → Option (List Task)
unfolding load
heap_swap tasks i j = do tmp ← load tasks i; y ← load tasks j; some (set (set tasks i y) j tmp)

abbrev pub parent : ℕ → ℕ
parent idx = (idx - 1) / 2

-- An index falls in each round, so that `idx + 1` rounds are enough.
unfoldable pub up_loop : ℕ → List Task → ℕ → Option (List Task)
unfolding is_before heap_swap
up_loop zero tasks idx = none
up_loop (suc fuel) tasks idx =
    let climb = heap_swap tasks idx (parent idx) >>= λ tasks'. up_loop fuel tasks' (parent idx) in
    if ltb 0 idx
    then (is_before tasks idx (parent idx) >>= λ less. if less then climb else some tasks)
    else some tasks

unfoldable pub heap_up : List Task → ℕ → Option (List Task)
unfolding up_loop
heap_up tasks idx = up_loop (idx + 1) tasks idx

-- `candidate` if it is in the heap and before the task at `smallest`.
unfoldable pub pick : List Task → ℕ → ℕ → Option ℕ
unfolding is_before
pick tasks candidate smallest =
    if ltb candidate (length tasks)
    then (is_before tasks candidate smallest >>= λ less.
        some (if less then candidate else smallest))
    else some smallest

-- An index grows in each round and stays within the heap.
unfoldable pub down_loop : ℕ → List Task → ℕ → Option (List Task)
unfolding pick heap_swap
down_loop zero tasks idx = none
down_loop (suc fuel) tasks idx = do
  left ← pick tasks (2 * idx + 1) idx
  smallest ← pick tasks (2 * idx + 2) left
  let sink = heap_swap tasks idx smallest >>= λ tasks'. down_loop fuel tasks' smallest
  if smallest == idx then some tasks else sink

unfoldable pub heap_down : List Task → ℕ → Option (List Task)
unfolding down_loop
heap_down tasks idx = down_loop (length tasks + 1) tasks idx

-- The tasks and the capacity of the array.
pub record TimerHeap : Type 0 where
  pub tasks : List Task
  pub capacity : ℕ

-- sizeof(ic_timer_task_t *) on wasm32.
abbrev pub pointer_size : ℕ
pointer_size = 4

-- `realloc n` says whether `cdk_realloc(tasks, n)` is not NULL. none is the failure, -1, which leaves
-- the heap as it was.
unfoldable pub heap_reserve : (ℕ → Bool) → TimerHeap → ℕ → Option TimerHeap
heap_reserve realloc heap new_capacity =
    if leb new_capacity heap.capacity
    then some heap
    else if realloc (new_capacity * pointer_size)
    then some (record heap { capacity = new_capacity })
    else none

-- The outer none is no result, the inner none the failure.
unfoldable pub heap_push : (ℕ → Bool) → TimerHeap → Task → Option (Option TimerHeap)
unfolding heap_reserve heap_up
heap_push realloc heap task = elim (heap_reserve realloc heap (length heap.tasks + 1)) [
  | none ↦ some none
  | some heap' ↦ do
    tasks ← heap_up (heap'.tasks ++ task ∷ []) (length heap'.tasks)
    some (some (record heap' { tasks = tasks }))
]

unfoldable pub heap_peek : TimerHeap → Option Task
heap_peek heap = get_elem? heap.tasks 0

-- The entries that are left when the last of them takes the place of the first.
unfoldable pub heap_pop : TimerHeap → Option (Option (Task × TimerHeap))
unfolding heap_down load
heap_pop heap =
    let size = length heap.tasks - 1 in
    if length heap.tasks == 0 then some none else do
      top ← load heap.tasks 0
      last ← load heap.tasks size
      tasks ← (if ltb 0 size then heap_down (take size (set heap.tasks 0 last)) 0 else some [])
      some (some (top, record heap { tasks = tasks }))

-- The index of the first task with the id, counted from `i`; none is SIZE_MAX.
unfoldable pub find_id : List Task → ℕ → ℕ → Option ℕ
find_id [] id i = none
find_id (task ∷ tasks) id i = if task.id == id then some i else find_id tasks id (suc i)

unfoldable pub heap_remove_by_id : TimerHeap → ℕ → Option (Option (Task × TimerHeap))
unfolding heap_down heap_up load
heap_remove_by_id heap id = elim (find_id heap.tasks id 0) [
  | none ↦ some none
  | some idx ↦
      let size = length heap.tasks - 1 in
      do
        task ← load heap.tasks idx
        last ← load heap.tasks size
        tasks ←
            (if ltb idx size
              then (heap_down (take size (set heap.tasks idx last)) idx >>= λ sunk.
                  heap_up sunk idx)
              else some (take size heap.tasks))
        some (some (task, record heap { tasks = tasks }))
]
