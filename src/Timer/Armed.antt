-- ===== src/Timer/Armed.antt =====
-- What the host's global timer is set to, and what `ic_timer_process_expired` leaves.
use lucid.Base.{ℕ, ◌≤◌, ◌<◌, ◌≡◌, refl, ap, sym, ◌∙◌, subst, arith, Bool, Bool-cases, ◌&&◌}
use lucid.Base.{List, [], ◌∷◌, ◌++◌, Option, some, none, inl, inr, ltb, length, if◌then◌else◌}
use lucid.Base.Array.{count}
use lucid.Timer.Heap.{Task, heap_peek}
use lucid.Timer.Heap.Order.{at, IsHeap}
use lucid.Timer.Heap.Remove.{has_id}
use lucid.Timer.{
  Timers, update_ic0_timer, update_ic0_timer_clean, process_loop, ic_timer_process_expired,
}
use lucid.Timer.Process.{is_due, IsSound, IsAscending, Fewer, peek_at, note, process_loop-Processed}

abbrev first_time : Timers → ℕ
first_time s = (at s.heap.tasks 0).scheduled_time

-- What was set last is what the host holds.
abbrev pub IsSynced : Timers → Type 0
IsSynced s = (r : ℕ) → s.most_recent_set ≡ some r → s.global_timer ≡ some r

-- So it is, and no task is scheduled before it.
abbrev pub IsArmed : Timers → Type 0
IsArmed s =
    IsSynced s
    × (0 < length s.heap.tasks → (r : ℕ) × (s.most_recent_set ≡ some r) × (r ≤ first_time s))

-- The timers of `s` under a global timer that serves them.
abbrev pub ArmedFrom : Timers → Timers → Type 0
ArmedFrom s u = IsArmed u × (u.heap ≡ s.heap) × (u.next_id ≡ s.next_id)

abbrev set_to : Timers → ℕ → Timers
set_to s time = record s { most_recent_set = some time; global_timer = some time }

update_empty :
    (s : Timers) → s.heap.tasks ≡ [] → update_ic0_timer s ≡ record s { most_recent_set = none }
unfolding update_ic0_timer heap_peek
update_empty s e = ground (arith, e)

update_unset :
    (s : Timers)
    → 0 < length s.heap.tasks
    → s.most_recent_set ≡ none
    → update_ic0_timer s ≡ set_to s (first_time s)
unfolding update_ic0_timer
update_unset s h e = let first = peek_at s.heap h in ground (arith, first, e)

update_set :
    (s : Timers) (r : ℕ)
    → 0 < length s.heap.tasks
    → s.most_recent_set ≡ some r
    → update_ic0_timer s ≡ (if ltb (first_time s) r then set_to s (first_time s) else s)
unfolding update_ic0_timer
update_set s r h e = let first = peek_at s.heap h in ground (arith, first, e)

set_to-ArmedFrom : (s : Timers) → ArmedFrom s (set_to s (first_time s))
set_to-ArmedFrom s = (((λ r e. e), λ h. (first_time s, refl, omega arith)), refl, refl)

some≢none : (r : ℕ) → ◌≡◌ {A = Option ℕ} none (some r) → ⊥
some≢none r e = cc

pub update_ic0_timer-ArmedFrom : (s : Timers) → IsSynced s → ArmedFrom s (update_ic0_timer s)
update_ic0_timer-ArmedFrom s h = by_tasks s.heap.tasks refl
  where
    by_recent :
        0 < length s.heap.tasks
        → (o : Option ℕ) → s.most_recent_set ≡ o
        → ArmedFrom s (update_ic0_timer s)
    by_recent l none e = subst (ArmedFrom s) (sym (update_unset s l e)) (set_to-ArmedFrom s)
    by_recent l (some r) e = elim (Bool-cases (ltb (first_time s) r)) [
      | inl sooner ↦
          let run : update_ic0_timer s ≡ set_to s (first_time s) =
            update_set s r l e ∙ rw sooner refl in
          subst (ArmedFrom s) (sym run) (set_to-ArmedFrom s)
      | inr later ↦
          let low : r ≤ first_time s = ground (arith, later) in
          let run : update_ic0_timer s ≡ s = update_set s r l e ∙ rw later refl in
          subst (ArmedFrom s) (sym run) ((h, λ _. (r, e, low)), refl, refl)
    ]

    by_tasks : (tasks : List Task) → s.heap.tasks ≡ tasks → ArmedFrom s (update_ic0_timer s)
    by_tasks [] e =
        subst (ArmedFrom s) (sym (update_empty s e)) (
          ((λ r n. absurd (some≢none r n)), λ l. absurd (omega (arith, l, ap length e))),
          refl,
          refl,
        )
    by_tasks (t ∷ ts) e = by_recent (omega (arith, ap length e)) s.most_recent_set refl

pub update_ic0_timer_clean-ArmedFrom : (s : Timers) → ArmedFrom s (update_ic0_timer_clean s)
unfolding update_ic0_timer_clean
update_ic0_timer_clean-ArmedFrom s =
    update_ic0_timer-ArmedFrom (record s { most_recent_set = none }) (λ r n. absurd (some≢none r n))

expired_run :
    (realloc : ℕ → Bool) (fuel now : ℕ) (log log' : List Task) (s s' : Timers)
    → process_loop realloc note fuel now (log, s) ≡ some (log', s')
    → ic_timer_process_expired realloc note fuel now (log, s)
      ≡ some (log', update_ic0_timer_clean s')
unfolding ic_timer_process_expired
expired_run realloc fuel now log log' s s' run = ground (arith, run)

-- Where the callbacks leave the timers alone, the heap is in order and within its array, and the fuel
-- is above the number of tasks that are due: the processing ends; it calls the tasks that are due and
-- no other, each as often as it is there, none before an earlier one; afterwards no task is due, the
-- heap is in order and within its array, every id is in use at most as often as before, and the
-- global timer is set for the tasks that are left.
pub ic_timer_process_expired-calls :
    (realloc : ℕ → Bool) (fuel now : ℕ) (log : List Task) (s : Timers)
    → IsSound s
    → count (is_due now) s.heap.tasks < fuel
    → (calls : List Task) × (s' : Timers) × (ic_timer_process_expired realloc note fuel now (log, s)
        ≡ some (log ++ calls, s'))
      × IsAscending calls
      × ((p : Task → Bool) → count p calls ≡ count (λ t. is_due now t && p t) s.heap.tasks)
      × (count (is_due now) s'.heap.tasks ≡ 0)
      × IsSound s'
      × Fewer s s'
      × IsArmed s'
ic_timer_process_expired-calls realloc fuel now log s v f =
    let (calls, s₁, run, up, all, none_left, v₁, fewer) =
      process_loop-Processed realloc fuel now log s v f in
    let (armed, heap, next) = update_ic0_timer_clean-ArmedFrom s₁ in
    (
      calls,
      update_ic0_timer_clean s₁,
      expired_run realloc fuel now log (log ++ calls) s s₁ run,
      up,
      all,
      ap (λ h. count (is_due now) h.tasks) heap ∙ none_left,
      subst (λ h. IsHeap h.tasks × (length h.tasks ≤ h.capacity)) (sym heap) v₁,
      (
        next ∙ fewer.0,
        λ id.
            subst (λ h. count (has_id id) h.tasks ≤ count (has_id id) s.heap.tasks) (sym heap)
              (fewer.1 id),
      ),
      armed,
    )
