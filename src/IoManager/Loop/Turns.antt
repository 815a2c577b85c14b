-- ===== src/IoManager/Loop/Turns.antt =====
-- A turn of the idle doroutine: the timers and the descriptors together.
use doroutine.Prelude.{
  ℕ, ◌≤◌, ◌≡◌, refl, ap, ◌∙◌, Bool, true, false, List, ◌++◌, All, map, contains, u64_max, if_true,
  if_false,
}
use doroutine.Outcome.{done, ◌>>=◌}
use doroutine.Epoll.{Epoll}
use doroutine.Timer.{TimerManager, get_next_timer}
use doroutine.Timer.Invariant.{IsValid as AreTimersValid}
use doroutine.Timer.Expiry.{repeating}
use doroutine.Timer.Expired.{gone, list_expired_func-Returns}
use doroutine.IoManager.{Thread, IoManager, Scheduled}
use doroutine.IoManager.Context.{IsValid, total}
use doroutine.IoManager.Idle.{Report, schedule_funcs, handle_reports, idle_round, io_stopping}
use doroutine.IoManager.Stopping.{io_stopping_lem}
use doroutine.IoManager.Reported.{IsCurrentReport}
use doroutine.IoManager.Loop.{ended, yielded, idle_turn}
use doroutine.IoManager.Loop.Rounds.{AreApart, calls_of, still_there, reports_taken}

not_true : (b : Bool) → ¬ (b ≡ true) → b ≡ false
not_true true h = absurd (h refl)
not_true false h = refl

-- The calls of the timers that expire at a time.
abbrev pub expired_calls : Epoll → ℕ → TimerManager → ℕ → List Scheduled
expired_calls epoll self timers now =
    schedule_funcs epoll self (map (λ a. (timers.store a).func) (gone timers now))

module _ (epoll : Epoll) (self : ℕ) (m : IoManager epoll) (timers : TimerManager) (th : Thread)
    (asked probe now : ℕ) (reports : List Report) (v : IsValid epoll m)
    (tv : AreTimersValid timers) where
  -- The manager once they are made.
  abbrev queued : IoManager epoll
  queued = record m { scheduled = m.scheduled ++ expired_calls epoll self timers now }

  queued-IsValid : IsValid epoll queued
  queued-IsValid = record {
    size = v.size;
    size_max = v.size_max;
    good = v.good;
    pending = v.pending;
    mirrored = v.mirrored;
  }

  round :
      contains probe timers.timers ≡ false
      → repeating timers.store (gone timers now) ≤ 1
      → AreApart reports
      → All (IsCurrentReport epoll m th) reports
      → (m' : IoManager epoll) × (timers' : TimerManager) × (idle_round epoll self m timers th probe
            now reports
          ≡ done (m', timers'))
        × IsValid epoll m'
        × AreTimersValid timers'
        × (m'.scheduled
            ≡ m.scheduled
              ++ expired_calls epoll self timers now
              ++ calls_of epoll m.epfd m.fd_contexts reports)
  unfolding idle_round
  round out few apart current =
      let (timers', e, tv', stores, members) =
        list_expired_func-Returns timers probe now tv out few in
      let (m', r, v', more) =
        reports_taken epoll th reports queued queued-IsValid apart
          (still_there epoll th m queued.scheduled reports current) in
      (
        m',
        timers',
        ap
              (λ o. o >>= λ r.
                handle_reports epoll
                  (record m { scheduled = m.scheduled ++ schedule_funcs epoll self r.1 }) th reports
                >>= λ m'. done (m', r.0))
              e
            ∙ ap (λ o. o >>= λ m'. done (m', timers')) r,
        v',
        tv',
        more,
      )

  -- On a valid manager and valid timers, a turn of the idle doroutine ends it just where no timer is
  -- waited for, no event is on and the scheduler is stopping. Else, where epoll_wait reports
  -- descriptors with contexts, each once at most and only events that are on, in a thread of this
  -- manager, and of the timers that expire one repeats at most, the turn queues the callbacks of those
  -- timers in the order of their times, and behind them the callbacks of the reported events in the
  -- order of the reports, READ first, those of the reports left out for which epoll_ctl, asked in
  -- that order to take out the reported events that do not repeat, fails, or in which no event that
  -- is on is reported; then it yields, with the manager and the timers valid.
  pub idle_turn-Returns :
      (scheduler_stopping : Bool)
      → contains probe timers.timers ≡ false
      → repeating timers.store (gone timers now) ≤ 1
      → AreApart reports
      → All (IsCurrentReport epoll m th) reports
      → ((get_next_timer timers asked ≡ u64_max)
            × (total m.fd_contexts ≡ 0)
            × (scheduler_stopping ≡ true)
          → idle_turn epoll self m timers th scheduler_stopping asked probe now reports
            ≡ done ended)
        × (¬ (
              (get_next_timer timers asked ≡ u64_max)
              × (total m.fd_contexts ≡ 0)
              × (scheduler_stopping ≡ true))
            → (m' : IoManager epoll) × (timers' : TimerManager) × (idle_turn epoll self m timers th
                  scheduler_stopping asked probe now reports
                ≡ done (yielded m' timers'))
              × IsValid epoll m'
              × AreTimersValid timers'
              × (m'.scheduled
                  ≡ m.scheduled
                    ++ expired_calls epoll self timers now
                    ++ calls_of epoll m.epfd m.fd_contexts reports))
  unfolding idle_turn
  idle_turn-Returns stopping out few apart current =
      let says = io_stopping_lem epoll m timers asked stopping v in
      (
        λ h. if_true _ _ (says.1 h),
        λ h.
            let goes : io_stopping epoll m timers asked stopping ≡ false =
              not_true _ (λ e. h (says.0 e)) in
            let (m', timers', e, v', tv', more) = round out few apart current in
            (
              m',
              timers',
              if_false _ _ goes ∙ ap (λ o. o >>= λ r. done (yielded r.0 r.1)) e,
              v',
              tv',
              more,
            ),
      )
