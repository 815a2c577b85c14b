-- ===== src/Hook/Waiting.antt =====
-- A doroutine that waits in do_io, behind its addEvent: what else can happen to the event until the
-- doroutine is resumed.
pub mod Parked
pub mod Once
pub mod Wakes
use doroutine.Prelude.{ℕ, Bool, List, [], ◌∷◌, pos, ◌==◌, if◌then◌else◌}
use doroutine.Outcome.{Outcome, done, ◌>>=◌}
use doroutine.Epoll.{Epoll}
use doroutine.IoManager.{Event, Thread, IoManager, cancel_event, cancel_all}
use doroutine.IoManager.Idle.{ready, handle_report}
use doroutine.Hook.{etimedout}

-- epoll reports the descriptor, the timer of the wait expires and its function is run, or another
-- doroutine closes the descriptor, which cancels its events.
pub data Step : Type 0 where
  reported : (readable writable failed : Bool) → Step
  timer_runs : Step
  closed : Step

module _ (epoll : Epoll) where
  -- The manager, and `tinfo->cancelled`.
  pub record Waiting : Type 0 where
    pub manager : IoManager epoll
    pub cancelled : ℕ

  module _ (th : Thread) (fd : ℕ) (event : Event) where
    -- The function of the timer, while the doroutine keeps tinfo alive.
    unfoldable pub on_timeout : Waiting → Outcome Waiting
    on_timeout w =
        if w.cancelled == 0
        then (cancel_event epoll w.manager th (pos fd) event >>= λ r.
            done (record { manager = r.0; cancelled = etimedout }))
        else done w

    unfoldable pub step : Waiting → Step → Outcome Waiting
    unfolding on_timeout
    step w (reported readable writable failed) =
        handle_report epoll w.manager th (ready fd readable writable failed) >>= λ m.
        done (record w { manager = m })
    step w timer_runs = on_timeout w
    step w closed =
        cancel_all epoll w.manager th (pos fd) >>= λ r. done (record w { manager = r.0 })

    unfoldable pub run : Waiting → List Step → Outcome Waiting
    unfolding step
    run w [] = done w
    run w (s ∷ ss) = step w s >>= λ w'. run w' ss
