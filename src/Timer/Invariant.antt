-- ===== src/Timer/Invariant.antt =====
-- The invariant of the timers under the calls of the API, and what a call changes.
use lucid.Base.{
  ℕ, ◌+◌, ◌*◌, ◌%◌, ◌^◌, ◌≤◌, ◌<◌, ◌≡◌, refl, ap, sym, ◌∙◌, subst, arith, Bool, true, false,
  Bool-cases,
}
use lucid.Base.{List, Option, some, none, inl, inr, length, ◌⊎◌, ◌==◌}
use lucid.Base.Array.{count, one_if}
use lucid.Timer.Heap.{TimerHeap, Task, TaskType, heap_push, pointer_size}
use lucid.Timer.Heap.Order.{IsHeap}
use lucid.Timer.Heap.Insert.{Without, heap_push-IsHeap}
use lucid.Timer.Heap.Remove.{has_id}
use lucid.Timer.{Timers, id_invalid, after_add, task_size}
use lucid.Timer.{add_task, update_ic0_timer}
use lucid.Timer.Process.{IsSound}
use lucid.Timer.Armed.{IsArmed, ArmedFrom, update_ic0_timer-ArmedFrom}

-- Ids are in use once at most, none is 0, and all are below the next one.
pub record HasIds (next_id : ℕ) (tasks : List Task) : Type 0 where
  pub started : 0 < next_id
  pub once_each : (id : ℕ) → count (has_id id) tasks ≤ 1
  pub below_next : (id : ℕ) → next_id ≤ id → count (has_id id) tasks ≡ 0

pub record IsValid (s : Timers) : Type 0 where
  pub sound : IsSound s
  pub armed : IsArmed s
  pub ids : HasIds s.next_id s.heap.tasks
  pub not_zero : count (has_id 0) s.heap.tasks ≡ 0

-- The global timer may have to be set.
abbrev pub IsAlmost : Timers → Type 0
IsAlmost s = IsSound s × HasIds s.next_id s.heap.tasks × (count (has_id 0) s.heap.tasks ≡ 0)

pub ArmedFrom-IsValid : (s u : Timers) → IsAlmost s → ArmedFrom s u → IsValid u
ArmedFrom-IsValid s u (sound, ids, not_zero) (armed, heap, next) = record {
  sound = subst (λ h. IsHeap h.tasks × (length h.tasks ≤ h.capacity)) (sym heap) sound;
  armed = armed;
  ids =
      subst (λ h. HasIds u.next_id h.tasks) (sym heap)
        (subst (λ n. HasIds n s.heap.tasks) (sym next) ids);
  not_zero = ap (λ h. count (has_id 0) h.tasks) heap ∙ not_zero;
}

-- Why no task is added: no time is due, or memory is refused, for the task or for a place in a full
-- heap.
abbrev pub Refused : (ℕ → Bool) → (ℕ → Bool) → (ℕ → Type 0) → Timers → Type 0
Refused malloc realloc Due s =
    ((time : ℕ) → Due time → ⊥)
    ⊎ ((malloc task_size ≡ false)
        ⊎ ((s.heap.capacity ≤ length s.heap.tasks)
            × (realloc ((length s.heap.tasks + 1) * pointer_size) ≡ false)))

-- No task, or one task more, of the next id and at a time that is due.
abbrev pub Added :
    (ℕ → Bool) → (ℕ → Bool) → (ℕ → Type 0) → TaskType → ℕ → ℕ → Timers → ℕ × Timers → Type 0
Added malloc realloc Due type interval_ns callback s (id, s') =
    ((id ≡ id_invalid) × (s'.heap ≡ s.heap) × Refused malloc realloc Due s)
    ⊎ ((id ≡ s.next_id)
        × ((time : ℕ) × Due time
            × Without s'.heap.tasks
                (record {
                  id = s.next_id;
                  type = type;
                  scheduled_time = time;
                  interval_ns = interval_ns;
                  callback = callback;
                  counter = s.counter;
                })
                s.heap.tasks))

abbrev pub Adds :
    (ℕ → Bool)
    → (ℕ → Bool)
    → (ℕ → Type 0)
    → TaskType
    → ℕ
    → ℕ
    → Timers
    → Option (ℕ × Timers)
    → Type 0
Adds malloc realloc Due type interval_ns callback s r =
    (id : ℕ) × (s' : Timers) × (r ≡ some (id, s'))
    × IsValid s'
    × Added malloc realloc Due type interval_ns callback s (id, s')

module _ (malloc realloc : ℕ → Bool) (s : Timers) (v : IsValid s)
    (room : s.next_id + 1 < 2 ^ 64) where
  next_id-wraps_not : (s.next_id + 1) % 2 ^ 64 ≡ s.next_id + 1
  next_id-wraps_not = omega (arith, room)

  after_add-IsValid : IsValid (after_add s)
  after_add-IsValid = record {
    sound = v.sound;
    armed = v.armed;
    ids = record {
      started = omega (arith, room);
      once_each = v.ids.once_each;
      below_next = λ id h. v.ids.below_next id (omega (arith, h, room));
    };
    not_zero = v.not_zero;
  }

  -- Another task, with the next id.
  module _ (task : Task) (is_next : task.id ≡ s.next_id) (heap : TimerHeap)
      (order : IsHeap heap.tasks) (without : Without heap.tasks task s.heap.tasks)
      (roomy : length heap.tasks ≤ heap.capacity) where
    abbrev grown : Timers
    grown = record (after_add s) { heap = heap }

    id_count :
        (id : ℕ)
        → count (has_id id) heap.tasks ≡ count (has_id id) s.heap.tasks + one_if (s.next_id == id)
    id_count id = omega (arith, without.1 (has_id id), ap (λ (k : ℕ). one_if (k == id)) is_next)

    grown-IsAlmost : IsAlmost grown
    grown-IsAlmost = (
      (order, roomy),
      record {
        started = omega (arith, room);
        once_each = λ id. ground (arith, id_count id, v.ids.once_each id, v.ids.below_next id);
        below_next =
            λ id h. ground (arith, id_count id, v.ids.below_next id, h, room, next_id-wraps_not);
      },
      ground (arith, id_count 0, v.not_zero, v.ids.started),
    )

    grown-IsValid : IsValid (update_ic0_timer grown)
    grown-IsValid =
        ArmedFrom-IsValid grown (update_ic0_timer grown) grown-IsAlmost
          (update_ic0_timer-ArmedFrom grown v.armed.0)

  abbrev new_task : TaskType → ℕ → ℕ → ℕ → Task
  new_task type interval_ns time callback = record {
    id = s.next_id;
    type = type;
    scheduled_time = time;
    interval_ns = interval_ns;
    callback = callback;
    counter = s.counter;
  }

  pub add_task-Adds :
      (Due : ℕ → Type 0) (type : TaskType) (interval_ns time callback : ℕ)
      → Due time
      → Adds malloc realloc Due type interval_ns callback s
          (add_task malloc realloc type interval_ns time callback s)
  add_task-Adds Due type interval_ns time callback due = elim (Bool-cases (malloc task_size)) [
    | inr refused ↦ (id_invalid, s, refused_run refused, v, inl (refl, refl, inr (inl refused)))
    | inl granted ↦
        elim (heap_push-IsHeap realloc s.heap (new_task type interval_ns time callback) v.sound.0) [
          | inl (run, full, refused) ↦ (
            id_invalid,
            after_add s,
            failed_run granted run,
            after_add-IsValid,
            inl (refl, refl, inr (inr (full, refused))),
          )
          | inr (heap, run, order, without, roomy) ↦
              let task = new_task type interval_ns time callback in
              let u = update_ic0_timer (record (after_add s) { heap = heap }) in
              let (_, same, _) =
                update_ic0_timer-ArmedFrom (record (after_add s) { heap = heap }) v.armed.0 in
              (
                s.next_id,
                u,
                added_run granted heap run,
                grown-IsValid task refl heap order without roomy,
                inr (
                  refl,
                  (time, due, subst (λ h. Without h.tasks task s.heap.tasks) (sym same) without),
                ),
              )
        ]
  ]
    where
      refused_run :
          malloc task_size ≡ false
          → add_task malloc realloc type interval_ns time callback s ≡ some (id_invalid, s)
      refused_run e = unfold add_task in ground (arith, e)

      failed_run :
          malloc task_size ≡ true
          → heap_push realloc s.heap (new_task type interval_ns time callback) ≡ some none
          → add_task malloc realloc type interval_ns time callback s
            ≡ some (id_invalid, after_add s)
      failed_run e run = unfold add_task in ground (arith, e, run)

      added_run :
          malloc task_size ≡ true
          → (heap : TimerHeap)
          → heap_push realloc s.heap (new_task type interval_ns time callback) ≡ some (some heap)
          → add_task malloc realloc type interval_ns time callback s
            ≡ some (s.next_id, update_ic0_timer (record (after_add s) { heap = heap }))
      added_run e heap run = unfold add_task in ground (arith, e, run)

  pub refuses :
      (Due : ℕ → Type 0) (type : TaskType) (interval_ns callback : ℕ)
      → ((time : ℕ) → Due time → ⊥)
      → Adds malloc realloc Due type interval_ns callback s (some (id_invalid, s))
  refuses Due type interval_ns callback never =
      (id_invalid, s, refl, v, inl (refl, refl, inl never))
