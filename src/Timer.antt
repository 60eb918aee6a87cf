-- ===== src/Timer.antt =====
-- cdk-c/src/ic_timer.c: one-time and interval timers on a binary heap. `now` is `ic0_time()`, which is
-- not negative; `malloc` and `realloc` say which requests are granted. An outer `Option` is none where
-- the code has no result: an index outside the heap, or a loop on fuel that does not end.
pub mod Heap
pub mod Process
pub mod Armed
pub mod Invariant
pub mod Calls
pub mod Reach
use lucid.Base.{ℕ, zero, suc, ◌+◌, ◌-◌, ◌%◌, ◌^◌, Bool, true, false, ◌&&◌, List, Option, none, some}
use lucid.Base.{ltb, leb, ◌==◌, if◌then◌else◌}
use lucid.Base.Int.{ℤ, pos, negsuc}
use lucid.Timer.Heap.{
  TaskType, once, interval, Task, TimerHeap, heap_push, heap_peek, heap_pop, heap_remove_by_id,
  ◌>>=◌,
}

-- The static variables, and what the last call of `ic0_global_timer_set` asked the host for.
-- `most_recent_set` is none at -1.
pub record Timers : Type 0 where
  pub heap : TimerHeap
  pub next_id : ℕ
  pub counter : ℕ
  pub most_recent_set : Option ℕ
  pub global_timer : Option ℕ

pub data TimerResult : Type 0 where
  timer_ok invalid_arg out_of_memory not_found : TimerResult

abbrev pub id_invalid : ℕ
id_invalid = 0

abbrev is_sooner : ℕ → Option ℕ → Bool
is_sooner time none = true
is_sooner time (some recent) = ltb time recent

unfoldable pub update_ic0_timer : Timers → Timers
unfolding heap_peek
update_ic0_timer s = elim (heap_peek s.heap) [
  | none ↦ record s { most_recent_set = none }
  | some soonest ↦
      if is_sooner soonest.scheduled_time s.most_recent_set
      then record s {
        most_recent_set = some soonest.scheduled_time;
        global_timer = some soonest.scheduled_time;
      }
      else s
]

unfoldable pub update_ic0_timer_clean : Timers → Timers
unfolding update_ic0_timer
update_ic0_timer_clean s = update_ic0_timer (record s { most_recent_set = none })

-- none is -1.
unfoldable pub get_scheduled_time : ℕ → ℕ → Option ℕ
get_scheduled_time now delay_ns =
    if ltb (2 ^ 63 - 1 - now) delay_ns then none else some (now + delay_ns)

-- sizeof(ic_timer_task_t) on wasm32.
abbrev pub task_size : ℕ
task_size = 48

abbrev pub after_add : Timers → Timers
after_add s = record s { next_id = (s.next_id + 1) % 2 ^ 64; counter = (s.counter + 1) % 2 ^ 64 }

module _ (malloc realloc : ℕ → Bool) where
  -- What `ic_timer_set` and `ic_timer_set_interval` do from their `cdk_malloc` on.
  unfoldable pub add_task : TaskType → ℕ → ℕ → ℕ → Timers → Option (ℕ × Timers)
  unfolding heap_push update_ic0_timer
  add_task type interval_ns scheduled_time callback s =
      let task : Task = record {
        id = s.next_id;
        type = type;
        scheduled_time = scheduled_time;
        interval_ns = interval_ns;
        callback = callback;
        counter = s.counter;
      } in
      if malloc task_size
      then (heap_push realloc s.heap task >>= λ pushed. elim pushed [
        | none ↦ some (id_invalid, after_add s)
        | some heap ↦ some (s.next_id, update_ic0_timer (record (after_add s) { heap = heap }))
      ])
      else some (id_invalid, s)

  unfoldable pub ic_timer_set : ℕ → ℤ → Option ℕ → Timers → Option (ℕ × Timers)
  unfolding get_scheduled_time add_task
  ic_timer_set now delay_ns none s = some (id_invalid, s)
  ic_timer_set now (negsuc delay) (some callback) s = some (id_invalid, s)
  ic_timer_set now (pos delay) (some callback) s = elim (get_scheduled_time now delay) [
    | none ↦ some (id_invalid, s)
    | some time ↦ add_task once 0 time callback s
  ]

  unfoldable pub ic_timer_set_interval : ℕ → ℤ → Option ℕ → Timers → Option (ℕ × Timers)
  unfolding get_scheduled_time add_task
  ic_timer_set_interval now interval_ns none s = some (id_invalid, s)
  ic_timer_set_interval now (negsuc delay) (some callback) s = some (id_invalid, s)
  ic_timer_set_interval now (pos zero) (some callback) s = some (id_invalid, s)
  ic_timer_set_interval now (pos (suc n)) (some callback) s =
      elim (get_scheduled_time now (suc n)) [
        | none ↦ some (id_invalid, s)
        | some time ↦ add_task interval (suc n) time callback s
      ]

unfoldable pub ic_timer_clear : ℕ → Timers → Option (TimerResult × Timers)
unfolding heap_remove_by_id update_ic0_timer_clean
ic_timer_clear timer_id s =
    if timer_id == id_invalid
    then some (invalid_arg, s)
    else (heap_remove_by_id s.heap timer_id >>= λ removed. elim removed [
      | none ↦ some (not_found, s)
      | some (task, heap) ↦ some (timer_ok, update_ic0_timer_clean (record s { heap = heap }))
    ])

module _ (realloc : ℕ → Bool) where
  -- A task after its callback. The sum overflows in C where it is past INT64_MAX; it is taken to wrap
  -- around there, to a negative number, which the test is for. A push that fails loses the task.
  unfoldable pub reschedule : ℕ → Task → Timers → Option Timers
  unfolding heap_push
  reschedule now task s =
      let next_time = now + task.interval_ns in
      let task' : Task = record task { scheduled_time = next_time; counter = s.counter } in
      let s' : Timers = record s { counter = (s.counter + 1) % 2 ^ 64 } in
      let push : Option Timers =
        (heap_push realloc s.heap task' >>= λ pushed. elim pushed [
          | none ↦ some s'
          | some heap ↦ some (record s' { heap = heap })
        ]) in
      let valid =
        ltb next_time (2 ^ 63) && (ltb now next_time && leb task.scheduled_time next_time) in
      elim task.type [ once ↦ some s | interval ↦ if valid then push else some s ]

  -- `call` runs the callback of a task on the world outside, which may use the timers in turn.
  module _ {W : Type 0} (call : Task → W × Timers → Option (W × Timers)) where
    unfoldable pub process_loop : ℕ → ℕ → W × Timers → Option (W × Timers)
    unfolding heap_peek heap_pop reschedule
    process_loop zero now ws = none
    process_loop (suc fuel) now (w, s) = elim (heap_peek s.heap) [
      | none ↦ some (w, s)
      | some first ↦
          let round : Option (W × Timers) =
            (heap_pop s.heap >>= λ popped. elim popped [
              | none ↦ none
              | some (task, heap) ↦ do
                ws' ← call task (w, record s { heap = heap })
                s'' ← reschedule now task ws'.1
                process_loop fuel now (ws'.0, s'')
            ]) in
          if ltb now first.scheduled_time then some (w, s) else round
    ]

    -- The number of rounds is not bounded in C: a callback may add a timer that is due.
    unfoldable pub ic_timer_process_expired : ℕ → ℕ → W × Timers → Option (W × Timers)
    unfolding process_loop update_ic0_timer_clean
    ic_timer_process_expired fuel now ws =
        process_loop fuel now ws >>= λ (w, s). some (w, update_ic0_timer_clean s)
