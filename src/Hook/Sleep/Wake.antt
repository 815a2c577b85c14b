-- ===== src/Hook/Sleep/Wake.antt =====
-- How a doroutine that sleeps comes back: sleep(), the timers, and a turn of the idle doroutine.
use mathlib.Core.List.{map-append}
use doroutine.Prelude.{
  ℕ, ◌+◌, ◌*◌, ◌^◌, ◌≤◌, ◌<◌, ◌≡◌, refl, ap, ◌∙◌, inl, inr, true, false, Option, none, some, List,
  [], ◌∷◌, ◌++◌, map, contains, ◌==◌, ==_refl, if_true, if_false, Bool-cases, add64, arith,
}
use doroutine.Func.{Func}
use doroutine.Outcome.{done, ◌>>=◌}
use doroutine.Epoll.{Epoll}
use doroutine.Timer.{TimerManager, new_timer, detect_clock_rollover}
use doroutine.Timer.Invariant.{IsValid}
use doroutine.Timer.Calls.{add_timer-Returns}
use doroutine.Timer.Expired.{gone, contains-due, list_expired_func-Returns}
use doroutine.Timer.Expiry.{repeating}
use doroutine.IoManager.{Thread, IoManager, Scheduled}
use doroutine.IoManager.Idle.{schedule_funcs, handle_reports, idle_round}
use doroutine.IoManager.Loop.Turns.{expired_calls}
use doroutine.Hook.{sleep_ms}
use doroutine.Hook.Sleep.{sleep}

contains-split :
    (a : ℕ) (xs : List ℕ)
    → contains a xs ≡ true
    → (before : List ℕ) × (after : List ℕ) × (xs ≡ before ++ a ∷ after)
contains-split a [] h = cc
contains-split a (x ∷ xs) h = elim (Bool-cases (a == x)) [
  | inl e ↦ ([], xs, ap (λ y. y ∷ xs) (ground arith))
  | inr e ↦
      (let (before, after, p) = contains-split a xs (ground arith) in
        (x ∷ before, after, ap (◌∷◌ x) p))
]

schedule_funcs-append :
    (epoll : Epoll) (self : ℕ) (fs gs : List (Option Func))
    → schedule_funcs epoll self (fs ++ gs)
      ≡ schedule_funcs epoll self fs ++ schedule_funcs epoll self gs
unfolding schedule_funcs
schedule_funcs-append epoll self [] gs = refl
schedule_funcs-append epoll self (none ∷ fs) gs = schedule_funcs-append epoll self fs gs
schedule_funcs-append epoll self (some f ∷ fs) gs =
    ap (◌∷◌ (record { scheduler = self; doroutine = none; func = some f }))
      (schedule_funcs-append epoll self fs gs)

-- A timer that expires has its function called.
expired_called :
    (epoll : Epoll) (self : ℕ) (m : TimerManager) (now a : ℕ) (f : Func)
    → contains a (gone m now) ≡ true
    → (m.store a).func ≡ some f
    → (before : List Scheduled) × (after : List Scheduled) × (expired_calls epoll self m now
        ≡ before ++ record { scheduler = self; doroutine = none; func = some f } ∷ after)
unfolding schedule_funcs
expired_called epoll self m now a f h e =
    let fn : ℕ → Option Func = λ b. (m.store b).func in
    let (before, after, p) = contains-split a (gone m now) h in
    (
      schedule_funcs epoll self (map fn before),
      schedule_funcs epoll self (map fn after),
      ap (λ l. schedule_funcs epoll self (map fn l)) p
          ∙ ap (schedule_funcs epoll self) (map-append fn before (a ∷ after))
          ∙ schedule_funcs-append epoll self (map fn before) (fn a ∷ map fn after)
          ∙ ap
              (λ o.
                schedule_funcs epoll self (map fn before)
                ++ schedule_funcs epoll self (o ∷ map fn after))
              e,
    )

gone_when_due :
    (m : TimerManager) (now a : ℕ)
    → contains a m.timers ≡ true
    → (m.store a).next ≤ now
    → contains a (gone m now) ≡ true
gone_when_due m now a h l = ground (arith, contains-due m.store now a m.timers)

kept_until_due :
    (m : TimerManager) (now a : ℕ)
    → detect_clock_rollover m now ≡ false
    → now < (m.store a).next
    → contains a (gone m now) ≡ false
kept_until_due m now a r l = ground (arith, contains-due m.store now a m.timers)

-- The round of idle() that lists a timer which does not repeat, when epoll reports nothing.
listed :
    (epoll : Epoll) (self : ℕ) (io : IoManager epoll) (th : Thread) (m : TimerManager)
    (probe now a : ℕ) (f : Func) (next : ℕ)
    → IsValid m
    → contains probe m.timers ≡ false
    → repeating m.store (gone m now) ≤ 1
    → contains a m.timers ≡ true
    → (m.store a).next ≡ next
    → (m.store a).func ≡ some f
    → (m.store a).repeat ≡ false
    → (io' : IoManager epoll) × (m' : TimerManager) × (idle_round epoll self io m th probe now []
        ≡ done (io', m'))
      × IsValid m'
      × (next ≤ now
          → (contains a m'.timers ≡ false)
            × ((before : List Scheduled) × (after : List Scheduled) × (io'.scheduled
                  ≡ io.scheduled
                    ++ (before
                        ++ record { scheduler = self; doroutine = none; func = some f } ∷ after))))
      × (now < next
          → detect_clock_rollover m now ≡ false
          → (contains a m'.timers ≡ true) × (m'.store a ≡ m.store a))
unfolding idle_round handle_reports
listed epoll self io th m probe now a f next v free few there at fn once =
    let (m', e, v', stores, members) = list_expired_func-Returns m probe now v free few in
    (
      record io { scheduled = io.scheduled ++ expired_calls epoll self m now },
      m',
      ap
          (λ o. o >>= λ r.
            handle_reports epoll
              (record io { scheduled = io.scheduled ++ schedule_funcs epoll self r.1 }) th []
            >>= λ io'. done (io', r.0))
          e,
      v',
      λ due.
          let out = gone_when_due m now a there (rw at due) in
          let (before, after, called) = expired_called epoll self m now a f out fn in
          (
            members a ∙ ground (arith, out, once, there),
            (before, after, ap (λ l. io.scheduled ++ l) called),
          ),
      λ early clock.
          let kept = kept_until_due m now a clock (rw at early) in
          (members a ∙ ground (arith, kept, there), stores a ∙ if_false _ _ kept),
    )

-- sleep(), on valid timers and at an address that is not in the set, of 4294967 seconds at most and
-- so that the time of its end is below 2 ^ 64, returns with the timers valid. Take any time at
-- which one repeating timer expires at most, and an idle doroutine whose epoll_wait reports nothing
-- and whose now_timer is at an address that is not in the set. Listing the expired timers returns and
-- leaves the timers valid. If sleep()'s time is over, the round of idle() queues the function that
-- sleep() gave the timer among the calls that it adds, and the timer is out of the set; if it is not
-- over, and the clock is not taken for rolled over, the timer stays in the set as it is.
pub sleep-wakes :
    (m : TimerManager) (a now seconds : ℕ) (func : Func)
    → IsValid m
    → contains a m.timers ≡ false
    → seconds ≤ 4294967
    → now + seconds * 1000 < 2 ^ 64
    → (m' : TimerManager) × (sleep m a now seconds func ≡ done m')
      × IsValid m'
      × ((epoll : Epoll) (self : ℕ) (io : IoManager epoll) (th : Thread) (probe later : ℕ)
          → contains probe m'.timers ≡ false
          → repeating m'.store (gone m' later) ≤ 1
          → (io' : IoManager epoll) × (m'' : TimerManager) × (idle_round epoll self io m' th probe
                later []
              ≡ done (io', m''))
            × IsValid m''
            × (now + seconds * 1000 ≤ later
                → (contains a m''.timers ≡ false)
                  × ((before : List Scheduled) × (after : List Scheduled) × (io'.scheduled
                        ≡ io.scheduled
                          ++ (before
                              ++ record { scheduler = self; doroutine = none; func = some func }
                                ∷ after))))
            × (later < now + seconds * 1000
                → detect_clock_rollover m' later ≡ false
                → (contains a m''.timers ≡ true) × (m''.store a ≡ m'.store a)))
unfolding sleep new_timer
sleep-wakes m a now seconds func v out small fits =
    let (m', e, v', stores, members) =
      add_timer-Returns m a now (sleep_ms seconds) (some func) false v out in
    let stored : m'.store a ≡ new_timer now (sleep_ms seconds) (some func) false =
      ap (λ s. s a) stores ∙ if_true _ _ (==_refl a) in
    let ms : sleep_ms seconds ≡ seconds * 1000 = unfold sleep_ms in omega arith in
    let next : (m'.store a).next ≡ now + seconds * 1000 =
      ap (λ t. t.next) stored ∙ ap (add64 now) ms ∙ omega arith in
    let there : contains a m'.timers ≡ true = ground (arith, members a, ==_refl a) in
    (
      m',
      e,
      v',
      λ epoll self io th probe later free few.
          listed epoll self io th m' probe later a func (now + seconds * 1000) v' free few there
            next (ap (λ t. t.func) stored) (ap (λ t. t.repeat) stored),
    )
