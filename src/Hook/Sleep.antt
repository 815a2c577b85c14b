-- ===== src/Hook/Sleep.antt =====
-- sleep(), usleep() and nanosleep(): a timer that schedules the doroutine, and a yield.
pub mod Wake
use doroutine.Prelude.{
  ℕ, ◌+◌, ◌-◌, ◌*◌, ◌/◌, ◌^◌, ◌≤◌, ◌<◌, ◌≡◌, false, some, ℤ, pos, negsuc, add64, arith,
}
use doroutine.Func.{Func}
use doroutine.Outcome.{Outcome}
use doroutine.IoManager.Idle.{to_int}
use doroutine.Timer.{TimerManager, add_timer}
use doroutine.Hook.{sleep_ms, usleep_ms}

-- An int as the uint64_t that addTimer takes.
abbrev pub to_u64 : ℤ → ℕ
to_u64 (pos n) = n
to_u64 (negsuc n) = 2 ^ 64 - 1 - n

-- `int timeoutMs` of nanosleep, for times that a long holds.
pub nanosleep_ms : ℕ → ℕ → ℕ
nanosleep_ms sec nsec = to_u64 (to_int (sec * 1000 + nsec / 1000 / 1000))

-- `func` is the bound IOManager::schedule of the doroutine that sleeps.
pub sleep : TimerManager → (a now seconds : ℕ) → Func → Outcome TimerManager
unfolding sleep_ms
sleep m a now seconds func = add_timer m a now (sleep_ms seconds) (some func) false

pub usleep : TimerManager → (a now usec : ℕ) → Func → Outcome TimerManager
unfolding usleep_ms
usleep m a now usec func = add_timer m a now (usleep_ms usec) (some func) false

pub nanosleep : TimerManager → (a now sec nsec : ℕ) → Func → Outcome TimerManager
unfolding nanosleep_ms
nanosleep m a now sec nsec func = add_timer m a now (nanosleep_ms sec nsec) (some func) false

-- The int of nanosleep() is the period asked for, rounded down to milliseconds, if that is less than
-- 2 ^ 31 ms. From there to 2 ^ 32 ms it is negative, and at a time of the clock at least 2 ^ 32 the
-- timer is then due before it is added.
nanosleep_ms_lem :
    (sec nsec now : ℕ)
    → sec * 1000 + nsec / 1000 / 1000 < 2 ^ 32
    → 2 ^ 32 ≤ now
    → now < 2 ^ 63
    → (sec * 1000 + nsec / 1000 / 1000 < 2 ^ 31
        → nanosleep_ms sec nsec ≡ sec * 1000 + nsec / 1000 / 1000)
      × (2 ^ 31 ≤ sec * 1000 + nsec / 1000 / 1000 → add64 now (nanosleep_ms sec nsec) < now)
unfolding nanosleep_ms
nanosleep_ms_lem sec nsec now h n b = (λ l. ground arith, λ l. ground arith)
