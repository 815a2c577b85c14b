-- ===== src/Timer/Tickle.antt =====
-- When onTimerInsertedAtFront() is called.
use doroutine.Prelude.{ℕ, ◌≤◌, ◌≡◌, refl, Bool, true, false, List, [], ◌∷◌, if◌then◌else◌, arith}
use doroutine.Outcome.{Outcome, done, undefined, system_error, ◌>>=◌}
use doroutine.Timer.{
  TimerManager, new_manager, add_timer_locked, add_timer, cancel, refresh, reset, expire_one,
  expire_all, list_expired_func, detect_clock_rollover, expired_range,
}
use doroutine.Timer.Runs.{
  Call, adds, cancels, refreshes, resets, expires, perform, Reach, at_start, after_call,
}

-- The flag tells whether the hook was called, and is never taken back.
abbrev pub Counts : TimerManager → Type 0
Counts m = m.front_calls ≡ (if m.is_tickled then 1 else 0)

abbrev Keeps {ℓ} : {A : Type ℓ} → (A → TimerManager) → Outcome A → Type 0
Keeps f (done r) = Counts (f r)
Keeps f undefined = Unit {0}
Keeps f system_error = Unit {0}

add_timer_locked-Counts :
    (m : TimerManager) (a : ℕ) (lck : Bool) → Counts m → Keeps (λ r. r.0) (add_timer_locked m a lck)
unfolding add_timer_locked
add_timer_locked-Counts m a true h = ground arith
add_timer_locked-Counts m a false h = tt

expire_one-Counts :
    (now a : ℕ) (m : TimerManager) (lck : Bool)
    → Counts m
    → Keeps (λ r. r.0) (expire_one now a m lck)
unfolding expire_one
expire_one-Counts now a m true h = ground arith
expire_one-Counts now a m false h = ground arith

Keeps-bind {ℓ κ} :
    {A : Type ℓ} {B : Type κ} (f : A → TimerManager) (f' : B → TimerManager) (x : Outcome A)
    (g : A → Outcome B)
    → Keeps f x
    → ((a : A) → Counts (f a) → Keeps f' (g a))
    → Keeps f' (x >>= g)
Keeps-bind f f' (done a) g h k = k a h
Keeps-bind f f' undefined g h k = tt
Keeps-bind f f' system_error g h k = tt

expire_all-Counts :
    (now : ℕ) (xs : List ℕ) (m : TimerManager) (lck : Bool)
    → Counts m
    → Keeps (λ r. r.0) (expire_all now xs m lck)
unfolding expire_all
expire_all-Counts now [] m lck h = h
expire_all-Counts now (a ∷ bs) m lck h =
    Keeps-bind (λ r. r.0) (λ r. r.0) (expire_one now a m lck) _ (expire_one-Counts now a m lck h)
      λ r k.
        Keeps-bind (λ q. q.0) (λ q. q.0) (expire_all now bs r.0 r.1) _
          (expire_all-Counts now bs r.0 r.1 k) (λ q l. l)

list_expired_func-Counts :
    (m : TimerManager) (probe now : ℕ) → Counts m → Keeps (λ r. r.0) (list_expired_func m probe now)
unfolding list_expired_func
list_expired_func-Counts m probe now h =
    let rollover = detect_clock_rollover m now in
    let range = expired_range m probe now rollover in
    let rest = record m { previouse_time = now; timers = range.1 } in
    ground (arith, expire_all-Counts now range.0 rest true h)

perform-Counts : (m : TimerManager) (c : Call) → Counts m → Keeps (λ r. r) (perform m c)
unfolding perform
perform-Counts m (adds a now ms func repeat) h = unfold add_timer in ground arith
perform-Counts m (cancels a) h = unfold cancel in ground arith
perform-Counts m (refreshes now a) h = unfold refresh in ground arith
perform-Counts m (resets now a ms from_now) h = unfold reset in ground arith
perform-Counts m (expires probe now) h =
    Keeps-bind (λ r. r.0) (λ r. r) (list_expired_func m probe now) _
      (list_expired_func-Counts m probe now h) (λ r k. k)

Reach-Counts : (start m : TimerManager) → Counts start → Reach start m → Counts m
Reach-Counts start _ h at_start = h
Reach-Counts start _ h (after_call {m = m} c r f e) =
    rw e at (perform-Counts m c (Reach-Counts start m h r))

-- Over the whole life of a manager onTimerInsertedAtFront() is called once at most, however many
-- timers come to stand at the front.
pub front_calls_once : (now : ℕ) (m : TimerManager) → Reach (new_manager now) m → m.front_calls ≤ 1
front_calls_once now m r =
    let h = Reach-Counts (new_manager now) m (unfold new_manager in refl) r in ground arith
