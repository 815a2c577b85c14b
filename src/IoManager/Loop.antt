-- ===== src/IoManager/Loop.antt =====
-- IOManager::idle as a loop: the wait in epoll with its retries, and one turn of the idle doroutine,
-- from where it is resumed to its yield or its end.
pub mod Waits
pub mod Rounds
pub mod Turns
use doroutine.Prelude.{
  ℕ, zero, suc, ◌-◌, ◌^◌, Bool, true, false, Option, none, some, List, [], ◌∷◌, ℤ, pos, negsuc,
  ◌==◌, if◌then◌else◌, u64_max,
}
use doroutine.Func.{Func}
use doroutine.Outcome.{Outcome, done, ◌>>=◌}
use doroutine.Epoll.{Epoll}
use doroutine.Timer.{TimerManager, get_next_timer}
use doroutine.IoManager.{Thread, IoManager}
use doroutine.IoManager.Idle.{to_int, min_int, max_timeout, Report, idle_round, io_stopping}

-- An int that is assigned to the uint64_t.
abbrev pub of_int : ℤ → ℕ
of_int (pos n) = n
of_int (negsuc n) = 2 ^ 64 - 1 - n

-- nextTimeout behind the `if` of the inner loop.
pub clamped : ℕ → ℕ
clamped next_timeout =
    if next_timeout == u64_max
    then max_timeout
    else of_int (min_int (to_int next_timeout) max_timeout)

-- The timeouts of the calls of epoll_wait, of which the first ones were interrupted.
pub waits : ℕ → (interruptions : ℕ) → List ℤ
unfolding clamped
waits next_timeout zero = to_int (clamped next_timeout) ∷ []
waits next_timeout (suc n) = let next = clamped next_timeout in to_int next ∷ waits next n

module _ (epoll : Epoll) where
  -- What a turn comes to.
  pub data Turn : Type 0 where
    -- The loop is left, and the idle doroutine ends.
    ended : Turn
    yielded : IoManager epoll → TimerManager → Turn

  -- A turn that looks at the timers at the time `asked`; epoll_wait gives the reports, and the
  -- expired timers are listed at `now`. The Boolean is the answer of Scheduler::stopping.
  pub idle_turn :
      ℕ
      → IoManager epoll
      → TimerManager
      → Thread
      → Bool
      → (asked probe now : ℕ) → List Report
      → Outcome Turn
  unfolding idle_round
  idle_turn self m timers th scheduler_stopping asked probe now reports =
      if io_stopping epoll m timers asked scheduler_stopping
      then done ended
      else idle_round epoll self m timers th probe now reports >>= λ r. done (yielded r.0 r.1)
