-- ===== src/Timer/Calls.antt =====
-- The calls of the API keep the invariant of the timers, in any order.
use lucid.Base.{
  ℕ, zero, suc, ◌+◌, ◌-◌, ◌^◌, ltb, ◌≤◌, ◌<◌, ◌≡◌, refl, ap, sym, ◌∙◌, subst, arith, Bool, true,
  false, Bool-cases,
}
use lucid.Base.{Option, some, none, inl, inr, length, ◌⊎◌, ◌==◌}
use lucid.Base.Int.{ℤ, pos, negsuc}
use lucid.Base.Array.{count, one_if}
use lucid.Timer.Heap.{TimerHeap, Task, once, interval, heap_remove_by_id}
use lucid.Timer.Heap.Order.{IsHeap}
use lucid.Timer.Heap.Insert.{Without}
use lucid.Timer.Heap.Remove.{has_id, heap_remove_by_id-IsHeap}
use lucid.Timer.{
  Timers, TimerResult, timer_ok, not_found, invalid_arg, id_invalid, get_scheduled_time,
}
use lucid.Timer.{
  add_task, ic_timer_set, ic_timer_set_interval, ic_timer_clear, update_ic0_timer_clean,
}
use lucid.Timer.Process.{IsSound, Fewer}
use lucid.Timer.Armed.{IsArmed, update_ic0_timer_clean-ArmedFrom}
use lucid.Timer.Invariant.{IsValid, Adds, add_task-Adds, refuses}

abbrev Callback : Type 0
Callback = Option ℕ

-- The time that is `delay` after now, where the delay is not negative and the sum does not pass
-- INT64_MAX.
abbrev pub IsDue : ℕ → ℤ → ℕ → Type 0
IsDue now (pos delay) time = (time ≡ now + delay) × (delay ≤ 2 ^ 63 - 1 - now)
IsDue now (negsuc delay) time = ⊥

-- An interval of 0 is refused.
abbrev IsDueIn : ℕ → ℕ → ℕ → Type 0
IsDueIn now interval_ns time = (0 < interval_ns) × IsDue now (pos interval_ns) time

scheduled :
    (now delay : ℕ)
    → ((get_scheduled_time now delay ≡ none) × ((time : ℕ) → IsDue now (pos delay) time → ⊥))
      ⊎ ((get_scheduled_time now delay ≡ some (now + delay)) × IsDue now (pos delay) (now + delay))
unfolding get_scheduled_time
scheduled now delay = elim (Bool-cases (ltb (2 ^ 63 - 1 - now) delay)) [
  | inl late ↦ inl (ground (arith, late), λ time (e, h). ground (arith, late, h))
  | inr soon ↦ inr (ground (arith, soon), (refl, ground (arith, soon)))
]

module _ (malloc realloc : ℕ → Bool) (s : Timers) (v : IsValid s)
    (room : s.next_id + 1 < 2 ^ 64) where
  -- In a valid state with an id left, whatever the time, the delay and the callback are and whatever the
  -- allocator grants, `ic_timer_set` returns and leaves a valid state. Either it returns the next id, and
  -- one one-time task of that id is added, whose time is now plus the delay, where the delay is not
  -- negative and the sum does not pass INT64_MAX; or it returns the invalid id and the heap is as
  -- before, and there is no such time, or memory for the task or for its place in a full heap is refused.
  pub ic_timer_set-Adds :
      (now : ℕ) (delay_ns : ℤ) (callback : ℕ)
      → Adds malloc realloc
          (IsDue now delay_ns)
          once
          0
          callback
          s
          (ic_timer_set malloc realloc now delay_ns (some callback) s)
  ic_timer_set-Adds now (negsuc delay) callback =
      subst (Adds malloc realloc (IsDue now (negsuc delay)) once 0 callback s) refused
        (refuses malloc realloc s v room (IsDue now (negsuc delay)) once 0 callback (λ time h. h))
    where
      refused :
          some (id_invalid, s) ≡ ic_timer_set malloc realloc now (negsuc delay) (some callback) s
      refused = unfold ic_timer_set in refl
  ic_timer_set-Adds now (pos delay) callback = elim (scheduled now delay) [
    | inl (e, never) ↦
        subst (Adds malloc realloc (IsDue now (pos delay)) once 0 callback s) (refused_run e)
          (refuses malloc realloc s v room (IsDue now (pos delay)) once 0 callback never)
    | inr (e, due) ↦
        subst (Adds malloc realloc (IsDue now (pos delay)) once 0 callback s) (run (now + delay) e)
          (add_task-Adds malloc realloc s v room (IsDue now (pos delay)) once 0 (now + delay)
            callback due)
  ]
    where
      refused_run :
          get_scheduled_time now delay ≡ none
          → some (id_invalid, s) ≡ ic_timer_set malloc realloc now (pos delay) (some callback) s
      refused_run e = unfold ic_timer_set get_scheduled_time in ground (arith, e)

      run :
          (time : ℕ)
          → get_scheduled_time now delay ≡ some time
          → add_task malloc realloc once 0 time callback s
            ≡ ic_timer_set malloc realloc now (pos delay) (some callback) s
      run time e = unfold ic_timer_set get_scheduled_time in ground (arith, e)

  pub ic_timer_set_interval-Adds :
      (now : ℕ) (interval_ns : ℕ) (callback : ℕ)
      → Adds malloc realloc
          (IsDueIn now interval_ns)
          interval
          interval_ns
          callback
          s
          (ic_timer_set_interval malloc realloc now (pos interval_ns) (some callback) s)
  ic_timer_set_interval-Adds now zero callback =
      subst (Adds malloc realloc (IsDueIn now 0) interval 0 callback s) refused (
        refuses malloc realloc s v room (IsDueIn now 0) interval 0 callback
          (λ time h. omega (arith, h.0)))
    where
      refused :
          some (id_invalid, s)
          ≡ ic_timer_set_interval malloc realloc now (pos zero) (some callback) s
      refused = unfold ic_timer_set_interval in refl
  ic_timer_set_interval-Adds now (suc n) callback = elim (scheduled now (suc n)) [
    | inl (e, never) ↦
        subst (Adds malloc realloc (IsDueIn now (suc n)) interval (suc n) callback s)
          (refused_run e)
          (refuses malloc realloc s v room (IsDueIn now (suc n)) interval (suc n) callback
            (λ time h. never time h.1))
    | inr (e, due) ↦
        subst (Adds malloc realloc (IsDueIn now (suc n)) interval (suc n) callback s)
          (run (now + suc n) e)
          (add_task-Adds malloc realloc s v room (IsDueIn now (suc n)) interval (suc n)
            (now + suc n) callback (omega arith, due))
  ]
    where
      refused_run :
          get_scheduled_time now (suc n) ≡ none
          → some (id_invalid, s)
            ≡ ic_timer_set_interval malloc realloc now (pos (suc n)) (some callback) s
      refused_run e = unfold ic_timer_set_interval get_scheduled_time in ground (arith, e)

      run :
          (time : ℕ)
          → get_scheduled_time now (suc n) ≡ some time
          → add_task malloc realloc interval (suc n) time callback s
            ≡ ic_timer_set_interval malloc realloc now (pos (suc n)) (some callback) s
      run time e = unfold ic_timer_set_interval get_scheduled_time in ground (arith, e)

-- Every id is in use at most as often as before.
pub Fewer-IsValid : (s s' : Timers) → IsValid s → Fewer s s' → IsSound s' → IsArmed s' → IsValid s'
Fewer-IsValid s s' v (next, ids) sound armed = record {
  sound = sound;
  armed = armed;
  ids = record {
    started = omega (arith, v.ids.started, next);
    once_each = λ id. omega (arith, ids id, v.ids.once_each id);
    below_next = λ id h. omega (arith, ids id, v.ids.below_next id (omega (arith, h, next)));
  };
  not_zero = omega (arith, ids 0, v.not_zero);
}

-- What a call of `ic_timer_clear` does.
abbrev pub Clears : ℕ → Timers → Option (TimerResult × Timers) → Type 0
Clears id s r =
    (result : TimerResult) × (s' : Timers) × (r ≡ some (result, s'))
    × IsValid s'
    × (((result ≡ invalid_arg) × (id ≡ id_invalid) × (s' ≡ s))
        ⊎ (((result ≡ not_found) × (count (has_id id) s.heap.tasks ≡ 0) × (s' ≡ s))
            ⊎ ((result ≡ timer_ok)
                × (count (has_id id) s'.heap.tasks ≡ 0)
                × ((task : Task) × (task.id ≡ id) × Without s.heap.tasks task s'.heap.tasks))))

-- In a valid state `ic_timer_clear` returns and leaves a valid state. It refuses the invalid id; it
-- reports an id of no task as not found, with nothing changed; else it takes the one task of that id
-- out, and leaves the others.
pub ic_timer_clear-Clears : (id : ℕ) (s : Timers) → IsValid s → Clears id s (ic_timer_clear id s)
ic_timer_clear-Clears id s v = elim (Bool-cases (id == id_invalid)) [
  | inl zero_id ↦
      (invalid_arg, s, invalid_run zero_id, v, inl (refl, ground (arith, zero_id), refl))
  | inr given ↦ elim (heap_remove_by_id-IsHeap s.heap id v.sound.0) [
    | inl (run, none_there) ↦
        (not_found, s, missing_run given run, v, inr (inl (refl, none_there, refl)))
    | inr (task, heap, run, same, order, without, capacity) ↦
        let s₁ : Timers = record s { heap = heap } in
        let (armed, kept, next) = update_ic0_timer_clean-ArmedFrom s₁ in
        let fewer : Fewer s s₁ = (refl, λ k. omega (arith, without.1 (has_id k))) in
        let sound : IsSound s₁ = (order, omega (arith, v.sound.1, capacity, without.0)) in
        let gone : count (has_id id) heap.tasks ≡ 0 =
          omega (arith, without.1 (has_id id), v.ids.once_each id, is_it task same) in
        let u = update_ic0_timer_clean s₁ in
        (
          timer_ok,
          u,
          found_run given task heap run,
          Fewer-IsValid s u v
              (
                next,
                λ k.
                    subst (λ h. count (has_id k) h.tasks ≤ count (has_id k) s.heap.tasks) (sym kept)
                      (fewer.1 k),
              )
              (subst (λ h. IsHeap h.tasks × (length h.tasks ≤ h.capacity)) (sym kept) sound) armed,
          inr (
              inr (
                refl,
                ap (λ h. count (has_id id) h.tasks) kept ∙ gone,
                (task, same, subst (λ h. Without s.heap.tasks task h.tasks) (sym kept) without),
              )),
        )
  ]
]
  where
    invalid_run : id == id_invalid ≡ true → ic_timer_clear id s ≡ some (invalid_arg, s)
    invalid_run e = unfold ic_timer_clear in ground (arith, e)

    missing_run :
        id == id_invalid ≡ false
        → heap_remove_by_id s.heap id ≡ some none
        → ic_timer_clear id s ≡ some (not_found, s)
    missing_run e run = unfold ic_timer_clear in ground (arith, e, run)

    found_run :
        id == id_invalid ≡ false
        → (task : Task) (heap : TimerHeap) → heap_remove_by_id s.heap id ≡ some (some (task, heap))
        → ic_timer_clear id s ≡ some (timer_ok, update_ic0_timer_clean (record s { heap = heap }))
    found_run e task heap run = unfold ic_timer_clear in ground (arith, e, run)

    is_it : (task : Task) → task.id ≡ id → one_if (has_id id task) ≡ 1
    is_it task e = ground (arith, e)
