-- ===== src/IoManager/TimerExamples.antt =====
-- A third timer for the reactor of one thread, due at 30 where the others are due at 50 and 70.
use doroutine.Prelude.{suc, ◌<◌, ◌≡◌, refl, true, false, some, arith}
use doroutine.Func.{closure}
use doroutine.Outcome.{done}
use doroutine.Timer.{TimerManager, get_next_timer}
use doroutine.Timer.Invariant.{IsValid}
use doroutine.Timer.Examples.{two_timers, two_timers-IsValid}
use doroutine.IoManager.RunExamples.{one_thread}
use doroutine.IoManager.Tickle.{Reactor}
use doroutine.IoManager.Timers.{io_add_timer, io_add_timer-wakes}

io_add_timer-wakes_example :
    (r' : Reactor) × (m' : TimerManager) × (io_add_timer one_thread two_timers 6 20 10
        (some (closure 3))
        false
      ≡ done (r', m'))
    × IsValid m'
    × (get_next_timer m' 20 ≡ 10)
    × (two_timers.is_tickled ≡ false
        → 0 < one_thread.scheduler.idle_thread_count
        → r'.pipe ≡ suc one_thread.pipe)
    × (two_timers.is_tickled ≡ true → r' ≡ one_thread)
io_add_timer-wakes_example =
    io_add_timer-wakes one_thread two_timers 6 20 10 (some (closure 3)) false two_timers-IsValid
      refl (omega arith) (λ b h. ground arith)
