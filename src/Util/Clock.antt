-- ===== src/Util/Clock.antt =====
-- The clock in milliseconds, against the readings of the operating system.
use doroutine.Prelude.{ℕ, suc, ◌-◌, ◌+◌, ◌*◌, ◌/◌, ◌^◌, ◌≤◌, ◌<◌, ◌≡◌, arith}
use doroutine.Util.{get_elapsed_ms}

-- The time of a reading in nanoseconds.
abbrev pub nanoseconds : ℕ → ℕ → ℕ
nanoseconds sec nsec = sec * 1000000000 + nsec

-- For two readings of a clock that does not go back, of less than 2 ^ 54 seconds and with less than
-- a second of nanoseconds each, the elapsed times do not go back either, and their difference is the
-- time between the readings to within a millisecond.
pub get_elapsed_ms_lem :
    (sec nsec sec' nsec' : ℕ)
    → nsec < 1000000000
    → nsec' < 1000000000
    → sec' < 2 ^ 54
    → nanoseconds sec nsec ≤ nanoseconds sec' nsec'
    → let t = get_elapsed_ms sec nsec in
      let t' = get_elapsed_ms sec' nsec' in
      (t ≤ t')
      × (nanoseconds sec' nsec' < nanoseconds sec nsec + suc (t' - t) * 1000000)
      × ((t' - t) * 1000000 < nanoseconds sec' nsec' + 1000000 - nanoseconds sec nsec)
unfolding get_elapsed_ms
get_elapsed_ms_lem sec nsec sec' nsec' h h' fits le =
    let e : get_elapsed_ms sec nsec ≡ sec * 1000 + nsec / 1000000 = omega arith in
    let e' : get_elapsed_ms sec' nsec' ≡ sec' * 1000 + nsec' / 1000000 = omega arith in
    (omega (arith, e, e'), omega (arith, e, e'), omega (arith, e, e'))
