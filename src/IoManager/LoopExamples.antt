-- ===== src/IoManager/LoopExamples.antt =====
-- A turn at the time 80, with two timers due and READ of descriptor 5 reported.
use doroutine.Prelude.{◌≡◌, refl, true, false, List, [], ◌∷◌, ◌++◌, u64_max, arith, dec_le}
use doroutine.Outcome.{done}
use doroutine.Timer.{TimerManager, get_next_timer, detect_clock_rollover}
use doroutine.Timer.Invariant.{IsValid as AreTimersValid}
use doroutine.Timer.Examples.{two_timers, two_timers-IsValid}
use doroutine.IoManager.{IoManager, context_resize}
use doroutine.IoManager.Context.{IsValid, total}
use doroutine.IoManager.Idle.{Report, ready, tickled}
use doroutine.IoManager.Loop.{ended, yielded, idle_turn}
use doroutine.IoManager.Loop.Rounds.{calls_of}
use doroutine.IoManager.Loop.Turns.{expired_calls, idle_turn-Returns}
use doroutine.IoManager.Examples.{table, inside, one_event, one_event-IsValid}

abbrev two_reports : List Report
two_reports = tickled ∷ ready 5 true false false ∷ []

idle_turn-Returns_example :
    ((get_next_timer two_timers 40 ≡ u64_max) × (total one_event.fd_contexts ≡ 0) × (false ≡ true)
      → idle_turn table 1 one_event two_timers inside false 40 6 80 two_reports ≡ done ended)
    × (¬ (
          (get_next_timer two_timers 40 ≡ u64_max)
          × (total one_event.fd_contexts ≡ 0)
          × (false ≡ true))
        → (m' : IoManager table) × (timers' : TimerManager) × (idle_turn table 1 one_event
              two_timers inside false 40 6 80 two_reports
            ≡ done (yielded m' timers'))
          × IsValid table m'
          × AreTimersValid timers'
          × (m'.scheduled
              ≡ one_event.scheduled
                ++ expired_calls table 1 two_timers 80
                ++ calls_of table one_event.epfd one_event.fd_contexts two_reports))
unfolding context_resize detect_clock_rollover dec_le
idle_turn-Returns_example =
    idle_turn-Returns table 1 one_event two_timers inside 40 6 80 two_reports one_event-IsValid
      two_timers-IsValid false refl (omega arith) (tt, tt)
      (tt, ((refl, omega arith, λ h. refl, λ h. h), tt))
