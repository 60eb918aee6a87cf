-- ===== src/Timer/Reach.antt =====
-- Calls of the API one after another, from the state the program starts in.
use lucid.Base.{ℕ, suc, ◌+◌, ◌^◌, ◌<◌, ◌≡◌, refl, sym, subst, arith, Bool}
use lucid.Base.{List, [], Option, some, none}
use lucid.Base.Int.{ℤ, pos, negsuc}
use lucid.Base.Array.{count}
use lucid.Timer.Heap.{Task}
use lucid.Timer.{
  Timers, TimerResult, id_invalid, ic_timer_set, ic_timer_set_interval, ic_timer_clear,
  ic_timer_process_expired,
}
use lucid.Timer.Process.{is_due, note}
use lucid.Timer.Armed.{ic_timer_process_expired-calls}
use lucid.Timer.Invariant.{IsValid}
use lucid.Timer.Calls.{
  ic_timer_set-Adds, ic_timer_set_interval-Adds, ic_timer_clear-Clears, Fewer-IsValid,
}

-- The static variables as they are initialized.
abbrev pub start : Timers
start = record {
  heap = record { tasks = []; capacity = 0 };
  next_id = 1;
  counter = 0;
  most_recent_set = none;
  global_timer = none;
}

-- One call. The allocator answers as it likes; callbacks leave the timers alone; there is an id left.
pub data Step : Timers → Timers → Type 0 where
  set :
      {s s' : Timers} (malloc realloc : ℕ → Bool) (now : ℕ) (delay_ns : ℤ) (callback : Option ℕ)
      (id : ℕ)
      → s.next_id + 1 < 2 ^ 64
      → ic_timer_set malloc realloc now delay_ns callback s ≡ some (id, s')
      → Step s s'
  set_interval :
      {s s' : Timers} (malloc realloc : ℕ → Bool) (now : ℕ) (interval_ns : ℤ) (callback : Option ℕ)
      (id : ℕ)
      → s.next_id + 1 < 2 ^ 64
      → ic_timer_set_interval malloc realloc now interval_ns callback s ≡ some (id, s')
      → Step s s'
  clear :
      {s s' : Timers} (id : ℕ) (result : TimerResult)
      → ic_timer_clear id s ≡ some (result, s')
      → Step s s'
  process :
      {s s' : Timers} (realloc : ℕ → Bool) (now : ℕ) (log : List Task)
      → ic_timer_process_expired realloc note (suc (count (is_due now) s.heap.tasks)) now ([], s)
        ≡ some (log, s')
      → Step s s'

pub data Reach (s : Timers) : Timers → Type 0 where
  here : Reach s s
  next : {t u : Timers} → Reach s t → Step t u → Reach s u

start-IsValid : IsValid start
unfolding count
start-IsValid = record {
  sound = ((λ c p l. absurd (omega (arith, l))), omega arith);
  armed = ((λ r e. absurd (no_time r e)), λ l. absurd (omega (arith, l)));
  ids = record { started = omega arith; once_each = λ id. omega arith; below_next = λ id h. refl };
  not_zero = refl;
}
  where
    no_time : (r : ℕ) → ◌≡◌ {A = Option ℕ} none (some r) → ⊥
    no_time r e = cc

-- What a call returns is what it is known to return.
second {ℓ} :
    {A : Type ℓ} (a b : A) (s t : Timers) (r : Option (A × Timers))
    → r ≡ some (a, s)
    → r ≡ some (b, t)
    → IsValid t
    → IsValid s
second a b s t r e f v = subst IsValid (sym same) v
  where
    same : s ≡ t
    same = cc

set-IsValid :
    (malloc realloc : ℕ → Bool) (now : ℕ) (delay_ns : ℤ) (callback : Option ℕ) (id : ℕ)
    (s s' : Timers)
    → IsValid s
    → s.next_id + 1 < 2 ^ 64
    → ic_timer_set malloc realloc now delay_ns callback s ≡ some (id, s')
    → IsValid s'
set-IsValid malloc realloc now delay_ns none id s s' v room run =
    second id id_invalid s' s _ run unset v
  where
    unset : ic_timer_set malloc realloc now delay_ns none s ≡ some (id_invalid, s)
    unset = unfold ic_timer_set in refl
set-IsValid malloc realloc now delay_ns (some callback) id s s' v room run =
    let (id', t, known, w, _) = ic_timer_set-Adds malloc realloc s v room now delay_ns callback in
    second id id' s' t _ run known w

set_interval-IsValid :
    (malloc realloc : ℕ → Bool) (now : ℕ) (interval_ns : ℤ) (callback : Option ℕ) (id : ℕ)
    (s s' : Timers)
    → IsValid s
    → s.next_id + 1 < 2 ^ 64
    → ic_timer_set_interval malloc realloc now interval_ns callback s ≡ some (id, s')
    → IsValid s'
set_interval-IsValid malloc realloc now interval_ns none id s s' v room run =
    second id id_invalid s' s _ run unset v
  where
    unset : ic_timer_set_interval malloc realloc now interval_ns none s ≡ some (id_invalid, s)
    unset = unfold ic_timer_set_interval in refl
set_interval-IsValid malloc realloc now (negsuc n) (some callback) id s s' v room run =
    second id id_invalid s' s _ run unset v
  where
    unset :
        ic_timer_set_interval malloc realloc now (negsuc n) (some callback) s ≡ some (id_invalid, s)
    unset = unfold ic_timer_set_interval in refl
set_interval-IsValid malloc realloc now (pos n) (some callback) id s s' v room run =
    let (id', t, known, w, _) = ic_timer_set_interval-Adds malloc realloc s v room now n callback in
    second id id' s' t _ run known w

Step-IsValid : {s s' : Timers} → Step s s' → IsValid s → IsValid s'
Step-IsValid {s = s} {s' = s'} (set malloc realloc now delay_ns callback id room run) v =
    set-IsValid malloc realloc now delay_ns callback id s s' v room run
Step-IsValid {s = s} {s' = s'} (set_interval malloc realloc now interval_ns callback id room run)
      v =
    set_interval-IsValid malloc realloc now interval_ns callback id s s' v room run
Step-IsValid {s = s} {s' = s'} (clear id result run) v =
    let (result', t, known, w, _) = ic_timer_clear-Clears id s v in
    second result result' s' t _ run known w
Step-IsValid {s = s} {s' = s'} (process realloc now log run) v =
    let (calls, t, known, _, _, _, sound, fewer, armed) =
      ic_timer_process_expired-calls realloc (suc (count (is_due now) s.heap.tasks)) now [] s
        v.sound (omega arith) in
    second log calls s' t _ run known (Fewer-IsValid s t v fewer sound armed)

-- Every state that calls of the API lead to, from the one the program starts in, is valid: the heap is
-- in order and within its array, the ids in use are unique, not 0 and below the next one, and the
-- host's global timer is set for the first task or an earlier time.
pub Reach-IsValid : {s : Timers} → Reach start s → IsValid s
Reach-IsValid here = start-IsValid
Reach-IsValid (next r step) = Step-IsValid step (Reach-IsValid r)
