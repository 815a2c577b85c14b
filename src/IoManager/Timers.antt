-- ===== src/IoManager/Timers.antt =====
-- The timers that are added to an IOManager: onTimerInsertedAtFront() is a tickle.
use doroutine.Prelude.{
  ℕ, suc, ◌+◌, ◌^◌, ◌<◌, ◌≡◌, ap, Bool, true, false, Option, contains, ◌==◌, if◌then◌else◌, if_true,
  arith,
}
use doroutine.Func.{Func}
use doroutine.Outcome.{Outcome, done, ◌>>=◌}
use doroutine.Timer.{TimerManager, add_timer, get_next_timer}
use doroutine.Timer.Invariant.{IsValid}
use doroutine.Timer.Front.{add_timer_first}
use doroutine.IoManager.Tickle.{Reactor, io_tickle}

-- IOManager::onTimerInsertedAtFront, where the timers say that it is called.
pub on_timer_inserted_at_front : Reactor → (before after : TimerManager) → Reactor
on_timer_inserted_at_front r before after =
    if after.front_calls == before.front_calls
    then r
    else record r { pipe = io_tickle r.scheduler.idle_thread_count r.pipe }

-- addTimer() of an IOManager.
pub io_add_timer :
    Reactor
    → TimerManager
    → ℕ
    → (now ms : ℕ) → Option Func
    → Bool
    → Outcome (Reactor × TimerManager)
unfolding on_timer_inserted_at_front
io_add_timer r m a now ms func repeat =
    add_timer m a now ms func repeat >>= λ m'. done (on_timer_inserted_at_front r m m', m')

-- A timer is added to a valid manager, at an address that is not in the set, due below 2 ^ 64 and
-- before all others. The call returns, the manager is valid, and its next timer is that one. If the
-- manager has not called onTimerInsertedAtFront() before and a thread is idle, a byte is written to
-- the pipe, which wakes epoll_wait; if it has called it before nothing is written, whatever threads
-- are idle.
pub io_add_timer-wakes :
    (r : Reactor) (m : TimerManager) (a now ms : ℕ) (func : Option Func) (repeat : Bool)
    → IsValid m
    → contains a m.timers ≡ false
    → now + ms < 2 ^ 64
    → ((b : ℕ) → contains b m.timers ≡ true → now + ms < (m.store b).next)
    → (r' : Reactor) × (m' : TimerManager) × (io_add_timer r m a now ms func repeat ≡ done (r', m'))
      × IsValid m'
      × (get_next_timer m' now ≡ ms)
      × (m.is_tickled ≡ false → 0 < r.scheduler.idle_thread_count → r'.pipe ≡ suc r.pipe)
      × (m.is_tickled ≡ true → r' ≡ r)
unfolding io_add_timer on_timer_inserted_at_front
io_add_timer-wakes r m a now ms func repeat v out fits sooner =
    let (m', e, v', next, calls) = add_timer_first m a now ms func repeat v out fits sooner in
    (
      on_timer_inserted_at_front r m m',
      m',
      ap (λ o. o >>= λ m'. done (on_timer_inserted_at_front r m m', m')) e,
      v',
      next,
      λ fresh idle. ground (arith, calls, fresh, idle),
      λ stale.
          if_true {b = m'.front_calls == m.front_calls} r
            (record r { pipe = io_tickle r.scheduler.idle_thread_count r.pipe })
            (ground (arith, calls, stale)),
    )
