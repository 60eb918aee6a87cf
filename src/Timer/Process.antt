-- ===== src/Timer/Process.antt =====
-- `ic_timer_process_expired` with callbacks that leave the timers alone: it ends, and calls what is
-- due, the earliest first.
use lucid.Base.{
  ℕ, zero, suc, ◌+◌, ◌%◌, ◌^◌, ◌≤◌, ◌<◌, ◌≡◌, refl, ap, sym, ◌∙◌, subst, arith, Bool, true, false,
  Bool-cases, ◌&&◌,
}
use lucid.Base.{
  List, [], ◌∷◌, ◌++◌, append_assoc, append-nil, Option, some, inl, inr, ltb, leb, length,
}
use lucid.Base.Array.{count, count_none, count-and, one_if, get_elem?-get_at}
use lucid.Timer.Heap.{Task, TaskType, once, interval, TimerHeap, heap_peek, heap_pop, before}
use lucid.Timer.Heap.Order.{◌⊑◌, no_task, at, IsHeap, root_least, ⊑-time}
use lucid.Timer.Heap.Insert.{Without, heap_push-IsHeap}
use lucid.Timer.Heap.Remove.{has_id, heap_pop-IsHeap}
use lucid.Timer.{Timers, reschedule, process_loop}

abbrev pub is_due : ℕ → Task → Bool
is_due now t = leb t.scheduled_time now

-- No task of the list is before an earlier one.
abbrev pub IsAscending : List Task → Type 0
IsAscending [] = Unit {0}
IsAscending (t ∷ ts) = (count (λ u. before u t) ts ≡ 0) × IsAscending ts

-- A heap within its array.
abbrev pub IsSound : Timers → Type 0
IsSound s = IsHeap s.heap.tasks × (length s.heap.tasks ≤ s.heap.capacity)

-- The test passes due tasks only.
abbrev pub OnDue : ℕ → (Task → Bool) → Type 0
OnDue now p = (t : Task) → is_due now t ≡ false → p t ≡ false

-- What is left when a task was put back: as many due tasks pass any test as before.
abbrev Rescheduled : ℕ → Task → Timers → Option Timers → Type 0
Rescheduled now task s r =
    (s' : Timers) × (r ≡ some s')
    × IsSound s'
    × ((p : Task → Bool) → OnDue now p → count p s'.heap.tasks ≡ count p s.heap.tasks)
    × (s'.next_id ≡ s.next_id)
    × ((id : ℕ)
        → count (has_id id) s'.heap.tasks
          ≤ count (has_id id) s.heap.tasks + one_if (has_id id task))

put_back :
    (realloc : ℕ → Bool) (now : ℕ) (task : Task) (s : Timers)
    → task.type ≡ interval
    → IsHeap s.heap.tasks
    → length s.heap.tasks < s.heap.capacity
    → now < now + task.interval_ns
    → now + task.interval_ns < 2 ^ 63
    → task.scheduled_time ≤ now
    → Rescheduled now task s (reschedule realloc now task s)
unfolding reschedule
put_back realloc now task s kind v roomy later small due =
    let task' : Task = record task {
      scheduled_time = now + task.interval_ns;
      counter = s.counter;
    } in
    elim (heap_push-IsHeap realloc s.heap task' v) [
      | inl (_, full, _) ↦ absurd (omega (arith, roomy, full))
      | inr (heap, run, v', without, room) ↦ (
        record s { heap = heap; counter = (s.counter + 1) % 2 ^ 64 },
        ground (arith, kind, run, later, small, due),
        (v', room),
        λ p q. omega (arith, without.1 p, ap one_if (q task' (ground (arith, later)))),
        refl,
        λ id. omega (arith, without.1 (has_id id)),
      )
    ]

reschedule-Rescheduled :
    (realloc : ℕ → Bool) (now : ℕ) (task : Task) (s : Timers)
    → IsHeap s.heap.tasks
    → length s.heap.tasks < s.heap.capacity
    → task.scheduled_time ≤ now
    → Rescheduled now task s (reschedule realloc now task s)
unfolding reschedule
reschedule-Rescheduled realloc now task s v roomy due = by_type task.type refl
  where
    by_type :
        (k : TaskType) → task.type ≡ k → Rescheduled now task s (reschedule realloc now task s)
    by_type once e =
        (s, ground (arith, e), (v, omega (arith, roomy)), (λ p q. refl), refl, λ id. omega arith)
    by_type interval e =
        elim (Bool-cases
          (ltb now (now + task.interval_ns) && ltb (now + task.interval_ns) (2 ^ 63))) [
            | inl fits ↦
                put_back realloc now task s e v roomy (ground (arith, fits)) (ground (arith, fits))
                  due
            | inr wraps ↦ (
              s,
              ground (arith, e, wraps),
              (v, omega (arith, roomy)),
              (λ p q. refl),
              refl,
              λ id. omega arith,
            )
          ]

-- A callback that leaves the timers alone, and is noted down.
abbrev pub note : Task → List Task × Timers → Option (List Task × Timers)
note task (log, s) = some (log ++ task ∷ [], s)

-- The ids in use are ids that were in use.
abbrev pub Fewer : Timers → Timers → Type 0
Fewer s s' =
    (s'.next_id ≡ s.next_id)
    × ((id : ℕ) → count (has_id id) s'.heap.tasks ≤ count (has_id id) s.heap.tasks)

-- What the loop does from `s` on, beyond the log.
abbrev pub Processed : ℕ → List Task → Timers → Option (List Task × Timers) → Type 0
Processed now log s r =
    (calls : List Task) × (s' : Timers) × (r ≡ some (log ++ calls, s'))
    × IsAscending calls
    × ((p : Task → Bool) → count p calls ≡ count (λ t. is_due now t && p t) s.heap.tasks)
    × (count (is_due now) s'.heap.tasks ≡ 0)
    × IsSound s'
    × Fewer s s'

nothing_due :
    (now : ℕ) (tasks : List Task)
    → IsHeap tasks
    → (0 < length tasks → now < (at tasks 0).scheduled_time)
    → (p : Task → Bool) → OnDue now p
    → count p tasks ≡ 0
nothing_due now tasks v late p q = count_none no_task p tasks λ i l.
    let order = ⊑-time (at tasks 0) (at tasks i) (root_least tasks i v l) in
    let first = late (omega (arith, l)) in q (at tasks i) (ground (arith, order, first))

due_and : (now : ℕ) (p : Task → Bool) → OnDue now (λ t. is_due now t && p t)
due_and now p t e = ground (arith, e)

stops :
    (now : ℕ) (log : List Task) (s : Timers) (r : Option (List Task × Timers))
    → IsSound s
    → (0 < length s.heap.tasks → now < (at s.heap.tasks 0).scheduled_time)
    → r ≡ some (log, s)
    → Processed now log s r
unfolding count
stops now log s r v late run = (
  [],
  s,
  run ∙ ap (λ l. some (l, s)) (sym (append-nil log)),
  tt,
  (λ p. sym (nothing_due now s.heap.tasks v.0 late (λ t. is_due now t && p t) (due_and now p))),
  nothing_due now s.heap.tasks v.0 late (is_due now) (λ t e. e),
  v,
  (refl, λ id. omega arith),
)

pub peek_at : (heap : TimerHeap) → 0 < length heap.tasks → heap_peek heap ≡ some (at heap.tasks 0)
unfolding heap_peek
peek_at heap h = get_elem?-get_at no_task heap.tasks 0 h

-- A round on a heap whose first task is due.
round_run :
    (realloc : ℕ → Bool) (fuel now : ℕ) (log : List Task) (s s' : Timers) (heap : TimerHeap)
    → 0 < length s.heap.tasks
    → (at s.heap.tasks 0).scheduled_time ≤ now
    → heap_pop s.heap ≡ some (some (at s.heap.tasks 0, heap))
    → reschedule realloc now (at s.heap.tasks 0) (record s { heap = heap }) ≡ some s'
    → process_loop realloc note (suc fuel) now (log, s)
      ≡ process_loop realloc note fuel now (log ++ at s.heap.tasks 0 ∷ [], s')
unfolding process_loop
round_run realloc fuel now log s s' heap h due popped put =
    let first = peek_at s.heap h in ground (arith, first, due, popped, put)

wait_run :
    (realloc : ℕ → Bool) (fuel now : ℕ) (log : List Task) (s : Timers)
    → (0 < length s.heap.tasks → now < (at s.heap.tasks 0).scheduled_time)
    → process_loop realloc note (suc fuel) now (log, s) ≡ some (log, s)
unfolding process_loop heap_peek
wait_run realloc fuel now log s late = by_tasks s.heap.tasks refl
  where
    by_tasks :
        (tasks : List Task)
        → s.heap.tasks ≡ tasks
        → process_loop realloc note (suc fuel) now (log, s) ≡ some (log, s)
    by_tasks [] e = ground (arith, e)
    by_tasks (t ∷ ts) e =
        let inside : 0 < length s.heap.tasks = ground (arith, e) in
        let first = peek_at s.heap inside in let after = late inside in ground (arith, first, after)

-- One call more, of the first task.
Processed-next :
    (now : ℕ) (log : List Task) (s s₂ : Timers) (heap : TimerHeap) (r : Option (List Task × Timers))
    → is_due now (at s.heap.tasks 0) ≡ true
    → Without s.heap.tasks (at s.heap.tasks 0) heap.tasks
    → ((p : Task → Bool) → OnDue now p → count p s₂.heap.tasks ≡ count p heap.tasks)
    → s₂.next_id ≡ s.next_id
    → ((id : ℕ)
        → count (has_id id) s₂.heap.tasks
          ≤ count (has_id id) heap.tasks + one_if (has_id id (at s.heap.tasks 0)))
    → ((i : ℕ) → i < length s.heap.tasks → at s.heap.tasks 0 ⊑ at s.heap.tasks i)
    → Processed now (log ++ at s.heap.tasks 0 ∷ []) s₂ r
    → Processed now log s r
unfolding count
Processed-next now log s s₂ heap r due without kept next ids least
      (calls, s', run, up, all, none_left, v', fewer) =
    let top = at s.heap.tasks 0 in
    let earlier = λ (u : Task). before u top in
    let both = λ (p : Task → Bool) (t : Task). is_due now t && p t in
    let none_earlier = count_none no_task earlier s.heap.tasks least in
    let fewer_earlier = without.1 earlier in
    let bound = count-and (is_due now) earlier heap.tasks in
    (
      top ∷ calls,
      s',
      run ∙ ap (λ l. some (l, s')) (append_assoc log (top ∷ []) calls),
      (
        omega (
          arith,
          all earlier,
          kept (both earlier) (due_and now earlier),
          bound,
          fewer_earlier,
          none_earlier,
        ),
        up,
      ),
      (λ p. omega (
        arith,
        all p,
        kept (both p) (due_and now p),
        without.1 (both p),
        ap one_if {x = is_due now top && p top} {y = p top} (ground (arith, due)),
      )),
      none_left,
      v',
      (fewer.0 ∙ next, λ id. omega (arith, fewer.1 id, ids id, without.1 (has_id id))),
    )

pub process_loop-Processed :
    (realloc : ℕ → Bool) (fuel now : ℕ) (log : List Task) (s : Timers)
    → IsSound s
    → count (is_due now) s.heap.tasks < fuel
    → Processed now log s (process_loop realloc note fuel now (log, s))
process_loop-Processed realloc zero now log s v f = absurd (omega arith)
process_loop-Processed realloc (suc fuel) now log s v f =
    let tasks = s.heap.tasks in
    let top = at tasks 0 in
    elim (Bool-cases (ltb 0 (length tasks) && leb top.scheduled_time now)) [
      | inr waits ↦
          let late : 0 < length tasks → now < top.scheduled_time = λ h. ground (arith, waits, h) in
          stops now log s _ v late (wait_run realloc fuel now log s late)
      | inl due ↦
          let inside : 0 < length tasks = ground (arith, due) in
          let is : top.scheduled_time ≤ now = ground (arith, due) in
          let (heap, popped, v₁, without, capacity, least) = heap_pop-IsHeap s.heap v.0 inside in
          let (s₂, put, v₂, kept, next, ids) =
            reschedule-Rescheduled realloc now top (record s { heap = heap }) v₁
              (omega (arith, v.1, capacity, without.0)) is in
          let fuel_left : count (is_due now) s₂.heap.tasks < fuel = omega (
            arith,
            f,
            kept (is_due now) (λ t e. e),
            without.1 (is_due now),
            ap one_if {x = is_due now top} {y = true} (ground (arith, is)),
          ) in
          let rest = process_loop-Processed realloc fuel now (log ++ top ∷ []) s₂ v₂ fuel_left in
          subst (Processed now log s)
            (sym (round_run realloc fuel now log s s₂ heap inside is popped put))
            (Processed-next now log s s₂ heap _ (ground (arith, is)) without kept next ids least
              rest)
    ]
