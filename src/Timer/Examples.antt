-- ===== src/Timer/Examples.antt =====
-- The timer theorems at concrete managers.
use doroutine.Prelude.{
  ℕ, ◌+◌, ◌<◌, ◌≤◌, ◌≡◌, refl, ◌≢◌, ◌⊎◌, ◌↔◌, true, false, some, [], ◌∷◌, dec_le, arith, update,
}
use doroutine.Func.{closure}
use doroutine.Outcome.{done, undefined, system_error}
use doroutine.Timer.{
  Timer, TimerManager, lt, now_timer, new_manager, insert, add_timer, cancel, detect_clock_rollover,
  list_expired_func, expire_one,
}
use doroutine.Timer.Invariant.{IsValid}
use doroutine.Timer.Expired.{
  remaining, list_expired_func-Returns, list_expired_func-throws, detect_clock_rollover_lem,
}
use doroutine.Timer.Runs.{
  Reach, at_start, after_call, adds, cancels, perform, perform_never_undefined,
}
use doroutine.Timer.Race.{expire_one-cancel}
use doroutine.Timer.Tickle.{front_calls_once}

abbrev pub ticking : ℕ → Timer
ticking next = record { repeat = true; period_in_ms = 50; next = next; func = some (closure 1) }

abbrev pub alarm : ℕ → Timer
alarm next = record { repeat = false; period_in_ms = 30; next = next; func = some (closure 2) }

-- A repeating timer at 8, due at 50, before an alarm at 9, due at 70.
abbrev pub two_timers : TimerManager
two_timers = record {
  store = update (update (λ a. now_timer 0) 8 (ticking 50)) 9 (alarm 70);
  timers = 8 ∷ 9 ∷ [];
  is_tickled = true;
  previouse_time = 10;
  front_calls = 1;
}

-- Two repeating timers that are due at the same time.
abbrev two_repeating : TimerManager
two_repeating = record two_timers {
  store = update (update (λ a. now_timer 0) 8 (ticking 50)) 9 (ticking 50);
}

pub two_timers-IsValid : IsValid two_timers
unfolding lt now_timer
two_timers-IsValid = record { sorted = ground arith; live = λ b h. ground arith }

two_repeating-IsValid : IsValid two_repeating
unfolding lt now_timer
two_repeating-IsValid = record { sorted = ground arith; live = λ b h. ground arith }

list_expired_func-Returns_example :
    (m' : TimerManager) × (list_expired_func two_timers 5 80
      ≡ done (m', some (closure 1) ∷ some (closure 2) ∷ []))
    × IsValid m'
unfolding detect_clock_rollover dec_le
list_expired_func-Returns_example =
    let r = list_expired_func-Returns two_timers 5 80 two_timers-IsValid refl (omega arith) in
    (r.0, r.1, r.2)

list_expired_func-throws_example : list_expired_func two_repeating 5 80 ≡ system_error
unfolding detect_clock_rollover dec_le
list_expired_func-throws_example =
    list_expired_func-throws two_repeating 5 80 two_repeating-IsValid refl (omega arith)

detect_clock_rollover_lem_example :
    (detect_clock_rollover two_timers 9 ≡ true) ↔ ((9 < 10) × ((10 < 3600000) ⊎ (9 + 3600000 < 10)))
detect_clock_rollover_lem_example = detect_clock_rollover_lem two_timers 9 (omega arith)

-- One timer is added to a new manager.
abbrev one_timer : TimerManager
one_timer = record {
  store = update (λ a. now_timer 0) 8 (ticking 50);
  timers = 8 ∷ [];
  is_tickled = true;
  previouse_time = 0;
  front_calls = 1;
}

reaches_one : Reach (new_manager 0) one_timer
unfolding perform add_timer new_manager insert
reaches_one = after_call (adds 8 0 50 (some (closure 1)) true) at_start refl refl

perform_never_undefined_example : IsValid one_timer × (perform one_timer (cancels 8) ≢ undefined)
perform_never_undefined_example = perform_never_undefined 0 one_timer (cancels 8) reaches_one tt

front_calls_once_example : one_timer.front_calls ≤ 1
front_calls_once_example = front_calls_once 0 one_timer reaches_one

-- The timer at 8 repeats, and the one at 9 expires with it.
expire_one-cancel_example :
    (m' : TimerManager) × (expire_one 80 8 (remaining two_timers 80) true ≡ done (m', false))
    × (cancel m' 9 ≡ undefined)
unfolding detect_clock_rollover dec_le
expire_one-cancel_example =
    expire_one-cancel two_timers 80 8 9 (9 ∷ []) two_timers-IsValid refl refl refl refl
