-- ===== src/Hook/SleepExamples.antt =====
-- sleep(2) at the time 10, with the timer at 6, beside two others.
use doroutine.Prelude.{
  ℕ, ◌+◌, ◌*◌, ◌≤◌, ◌<◌, ◌≡◌, refl, false, true, none, some, List, [], ◌∷◌, ◌++◌, contains, arith,
}
use doroutine.Func.{closure}
use doroutine.Outcome.{done}
use doroutine.Epoll.{Epoll}
use doroutine.Timer.{TimerManager, detect_clock_rollover}
use doroutine.Timer.Invariant.{IsValid}
use doroutine.Timer.Examples.{two_timers, two_timers-IsValid}
use doroutine.Timer.Expired.{gone}
use doroutine.Timer.Expiry.{repeating}
use doroutine.IoManager.Idle.{idle_round}
use doroutine.IoManager.{Thread, IoManager, Scheduled}
use doroutine.Hook.Sleep.{sleep}
use doroutine.Hook.Sleep.Wake.{sleep-wakes}

sleep-wakes_example :
    (m' : TimerManager) × (sleep two_timers 6 10 2 (closure 1) ≡ done m')
    × IsValid m'
    × ((epoll : Epoll) (self : ℕ) (io : IoManager epoll) (th : Thread) (probe later : ℕ)
        → contains probe m'.timers ≡ false
        → repeating m'.store (gone m' later) ≤ 1
        → (io' : IoManager epoll) × (m'' : TimerManager) × (idle_round epoll self io m' th probe
              later []
            ≡ done (io', m''))
          × IsValid m''
          × (10 + 2 * 1000 ≤ later
              → (contains 6 m''.timers ≡ false)
                × ((before : List Scheduled) × (after : List Scheduled) × (io'.scheduled
                      ≡ io.scheduled
                        ++ (before
                            ++ record {
                              scheduler = self;
                              doroutine = none;
                              func = some (closure 1);
                            }
                              ∷ after))))
          × (later < 10 + 2 * 1000
              → detect_clock_rollover m' later ≡ false
              → (contains 6 m''.timers ≡ true) × (m''.store 6 ≡ m'.store 6)))
sleep-wakes_example =
    sleep-wakes two_timers 6 10 2 (closure 1) two_timers-IsValid refl (omega arith) (omega arith)
