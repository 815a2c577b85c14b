-- ===== src/Hook/WaitingExamples.antt =====
-- Doroutine 6 waits to read from descriptor 5 of a fresh manager.
use doroutine.Prelude.{
  ℕ, ◌+◌, ◌≡◌, ◌⊎◌, refl, true, false, none, List, [], ◌∷◌, pos, if◌then◌else◌, exceeds, arith,
}
use doroutine.Outcome.{Outcome, done, undefined, system_error}
use doroutine.IoManager.{
  read, has, IoManager, add_event, cancel_event, cancel_from, cancel_all, cancel_all_from,
  trigger_event, context_resize,
}
use doroutine.IoManager.Context.{IsValid}
use doroutine.IoManager.Idle.{handle_report, handle_context}
use doroutine.IoManager.Growth.{events_at}
use doroutine.IoManager.Examples.{table, fresh, fresh-IsValid, inside, one_event}
use doroutine.Hook.{etimedout}
use doroutine.Hook.Waiting.{Step, reported, timer_runs, closed, Waiting, on_timeout, step, run}
use doroutine.Hook.Waiting.Parked.{wakeups}
use doroutine.Hook.Waiting.Once.{ArePossible, runs_out}
use doroutine.Hook.Waiting.Wakes.{waiting, wait-Wakes}

wait-Wakes_example :
    ((m0 : IoManager table) × (add_event table fresh inside (pos 5) read none false
        ≡ done (m0, false)))
    ⊎ ((m0 : IoManager table) × (add_event table fresh inside (pos 5) read none false
          ≡ done (m0, true))
        × ((steps : List Step)
            → ArePossible table inside 5 read (waiting table m0) steps
            → (w : Waiting table) × (run table inside 5 read (waiting table m0) steps ≡ done w)
              × IsValid table w.manager
              × (wakeups 6 w.manager.scheduled
                  ≡ wakeups 6 fresh.scheduled
                    + (if has (events_at w.manager.fd_contexts 5) read then 0 else 1))
              × (w.cancelled ≡ (if runs_out steps then etimedout else 0))))
unfolding context_resize
wait-Wakes_example =
    wait-Wakes table fresh inside inside 5 6 read fresh-IsValid (omega arith) refl refl refl refl
      (λ c h. ground arith)

abbrev outcome : Outcome (Waiting table) → ℕ × ℕ
outcome (done w) = (wakeups 6 w.manager.scheduled, w.cancelled)
outcome undefined = (0, 0)
outcome system_error = (0, 0)

-- The event comes, and the timer runs before the doroutine does: it is queued once, and told that
-- its time was out.
late_timer :
    outcome (
      run table inside 5 read
        (waiting table one_event)
        (reported true false false ∷ timer_runs ∷ closed ∷ []))
    ≡ (1, etimedout)
unfolding run step on_timeout handle_report handle_context trigger_event cancel_event cancel_from
    cancel_all cancel_all_from context_resize exceeds
late_timer = refl
