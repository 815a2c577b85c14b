-- ===== src/Timer/Runs.antt =====
-- Whole histories of a timer manager: any calls of its clients, in any order, that do not overlap.
use doroutine.Prelude.{ℕ, ◌≡◌, ◌≢◌, Bool, false, Option, contains, dec_le, arith}
use doroutine.Func.{Func}
use doroutine.Outcome.{Outcome, done, undefined, system_error, ◌>>=◌}
use doroutine.Timer.{
  TimerManager, new_manager, add_timer, cancel, refresh, reset, list_expired_func,
}
use doroutine.Timer.Invariant.{IsValid, new_manager-IsValid}
use doroutine.Timer.Calls.{add_timer-Returns, cancel-Returns, refresh-Returns, reset-Returns}
use doroutine.Timer.Expiry.{repeating}
use doroutine.Timer.Expired.{gone, list_expired_func-Returns, list_expired_func-throws}

pub data Call : Type 0 where
  adds : (a now ms : ℕ) → Option Func → Bool → Call
  cancels : (a : ℕ) → Call
  refreshes : (now a : ℕ) → Call
  resets : (now a ms : ℕ) → Bool → Call
  expires : (probe now : ℕ) → Call

unfoldable pub perform : TimerManager → Call → Outcome TimerManager
perform m (adds a now ms func repeat) = add_timer m a now ms func repeat
perform m (cancels a) = cancel m a >>= λ r. done r.0
perform m (refreshes now a) = refresh m now a >>= λ r. done r.0
perform m (resets now a ms from_now) = reset m now a ms from_now >>= λ r. done r.0
perform m (expires probe now) = list_expired_func m probe now >>= λ r. done r.0

-- The allocator gives a new timer an address that no timer of the set has.
abbrev pub IsFresh : TimerManager → Call → Type 0
IsFresh m (adds a now ms func repeat) = contains a m.timers ≡ false
IsFresh m (expires probe now) = contains probe m.timers ≡ false
IsFresh m _ = Unit {0}

pub data Reach (start : TimerManager) : TimerManager → Type 0 where
  at_start : Reach start start
  after_call :
      {m m' : TimerManager} (c : Call)
      → Reach start m
      → IsFresh m c
      → perform m c ≡ done m'
      → Reach start m'

-- A call ends with a valid manager, or with std::system_error.
abbrev pub IsSafe : Outcome TimerManager → Type 0
IsSafe (done m) = IsValid m
IsSafe undefined = ⊥
IsSafe system_error = Unit {0}

-- On a valid manager every call keeps the invariant or throws, and none is undefined.
pub perform-IsSafe : (m : TimerManager) (c : Call) → IsValid m → IsFresh m c → IsSafe (perform m c)
unfolding perform
perform-IsSafe m (adds a now ms func repeat) v f =
    let r = add_timer-Returns m a now ms func repeat v f in rw (r.1) r.2
perform-IsSafe m (cancels a) v f = let r = cancel-Returns m a v in rw (r.1) r.2
perform-IsSafe m (refreshes now a) v f = let r = refresh-Returns m now a v in rw (r.1) r.2
perform-IsSafe m (resets now a ms from_now) v f =
    let r = reset-Returns m now a ms from_now v in rw (r.1) r.2
perform-IsSafe m (expires probe now) v f = elim (dec_le (repeating m.store (gone m now)) 1) [
  | yes h ↦ (let r = list_expired_func-Returns m probe now v f h in rw (r.1) r.2)
  | no h ↦ rw (list_expired_func-throws m probe now v f (omega arith)) tt
]

pub Reach-IsValid : (start m : TimerManager) → IsValid start → Reach start m → IsValid m
Reach-IsValid start _ v at_start = v
Reach-IsValid start _ v (after_call {m = m} c r f e) =
    rw e at (perform-IsSafe m c (Reach-IsValid start m v r) f)

-- Whatever calls were made of a new manager, one after the other and none while another runs, that
-- are not undefined and did not throw, at addresses that were free where a timer was added, the
-- manager is valid and the next such call, made while no other runs, is never undefined.
pub perform_never_undefined :
    (now : ℕ) (m : TimerManager) (c : Call)
    → Reach (new_manager now) m
    → IsFresh m c
    → IsValid m × (perform m c ≢ undefined)
perform_never_undefined now m c r f =
    let v = Reach-IsValid (new_manager now) m (new_manager-IsValid now) r in
    (v, λ e. rw e at (perform-IsSafe m c v f))
