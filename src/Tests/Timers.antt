-- ===== src/Tests/Timers.antt =====
-- The theorems on the timers at a heap of two tasks.
use lucid.Base.{
  ℕ, zero, suc, ◌<◌, ◌≡◌, refl, arith, Bool, true, List, [], ◌∷◌, ◌++◌, some, none, ◌⊎◌, ◌&&◌,
}
use lucid.Base.Int.{pos}
use lucid.Base.Array.{count, get_at}
use lucid.Timer.Heap.{before, TimerHeap, Task, once, interval, heap_remove_by_id}
use lucid.Timer.Heap.Order.{IsHeap}
use lucid.Timer.Heap.Insert.{Without}
use lucid.Timer.Heap.Remove.{has_id, heap_remove_by_id-IsHeap}
use lucid.Timer.{Timers, ic_timer_set, ic_timer_clear, ic_timer_process_expired}
use lucid.Timer.Process.{is_due, IsAscending, IsSound, Fewer, note}
use lucid.Timer.Armed.{IsArmed, ic_timer_process_expired-calls}
use lucid.Timer.Invariant.{IsValid, Adds}
use lucid.Timer.Calls.{IsDue, Clears, ic_timer_set-Adds, ic_timer_clear-Clears}
use lucid.Timer.Reach.{start, Step, set, here, next, Reach-IsValid}

abbrev grants : ℕ → Bool
grants n = true

abbrev early : Task
early = record {
  id = 2;
  type = interval;
  scheduled_time = 10;
  interval_ns = 7;
  callback = 0;
  counter = 1;
}

abbrev middle : Task
middle = record {
  id = 1;
  type = once;
  scheduled_time = 20;
  interval_ns = 0;
  callback = 4;
  counter = 0;
}

abbrev late : Task
late = record {
  id = 3;
  type = once;
  scheduled_time = 30;
  interval_ns = 0;
  callback = 5;
  counter = 2;
}

abbrev two_tasks : TimerHeap
two_tasks = record { tasks = early ∷ middle ∷ []; capacity = 2 }

two_tasks-IsHeap : IsHeap two_tasks.tasks
unfolding before get_at
two_tasks-IsHeap zero p l = absurd (omega (arith, p))
two_tasks-IsHeap (suc zero) p l = refl
two_tasks-IsHeap (suc (suc c)) p l = absurd (omega (arith, l))

abbrev two_timers : Timers
two_timers = record {
  heap = two_tasks;
  next_id = 3;
  counter = 2;
  most_recent_set = some 10;
  global_timer = some 10;
}

two_timers-IsValid : IsValid two_timers
unfolding count get_at
two_timers-IsValid = record {
  sound = (two_tasks-IsHeap, omega arith);
  armed = ((λ r e. e), λ l. (10, refl, omega arith));
  ids = record {
    started = omega arith;
    once_each = λ id. ground arith;
    below_next = λ id h. ground (arith, h);
  };
  not_zero = refl;
}

heap_remove_by_id-IsHeap_example :
    ((heap_remove_by_id two_tasks 2 ≡ some none) × (count (has_id 2) two_tasks.tasks ≡ 0))
    ⊎ ((task : Task) × (heap' : TimerHeap) × (heap_remove_by_id two_tasks 2
          ≡ some (some (task, heap')))
        × (task.id ≡ 2)
        × IsHeap heap'.tasks
        × Without two_tasks.tasks task heap'.tasks
        × (heap'.capacity ≡ 2))
heap_remove_by_id-IsHeap_example = heap_remove_by_id-IsHeap two_tasks 2 two_tasks-IsHeap

two_due : count (is_due 25) two_tasks.tasks < 3
unfolding count
two_due = omega arith

ic_timer_process_expired-calls_example :
    (calls : List Task) × (s' : Timers) × (ic_timer_process_expired grants note 3 25
        ([], two_timers)
      ≡ some ([] ++ calls, s'))
    × IsAscending calls
    × ((p : Task → Bool) → count p calls ≡ count (λ t. is_due 25 t && p t) two_tasks.tasks)
    × (count (is_due 25) s'.heap.tasks ≡ 0)
    × IsSound s'
    × Fewer two_timers s'
    × IsArmed s'
ic_timer_process_expired-calls_example =
    ic_timer_process_expired-calls grants 3 25 [] two_timers two_timers-IsValid.sound two_due

ic_timer_set-Adds_example :
    Adds grants grants
      (IsDue 5 (pos 40))
      once
      0
      9
      two_timers
      (ic_timer_set grants grants 5 (pos 40) (some 9) two_timers)
ic_timer_set-Adds_example =
    ic_timer_set-Adds grants grants two_timers two_timers-IsValid (omega arith) 5 (pos 40) 9

ic_timer_clear-Clears_example : Clears 1 two_timers (ic_timer_clear 1 two_timers)
ic_timer_clear-Clears_example = ic_timer_clear-Clears 1 two_timers two_timers-IsValid

abbrev one_timer : Timers
one_timer = record {
  heap = record { tasks = record middle { id = 1 } ∷ []; capacity = 1 };
  next_id = 2;
  counter = 1;
  most_recent_set = some 20;
  global_timer = some 20;
}

one_step : Step start one_timer
unfolding ic_timer_set
one_step = set grants grants 5 (pos 15) (some 4) 1 (omega arith) refl

Reach-IsValid_example : IsValid one_timer
Reach-IsValid_example = Reach-IsValid (next here one_step)
