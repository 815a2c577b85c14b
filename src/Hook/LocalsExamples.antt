-- ===== src/Hook/LocalsExamples.antt =====
-- A thread whose IOManager, at 1, is destroyed, and that then sleeps for 3 seconds.
use doroutine.Prelude.{ℕ, ◌≡◌, Bool, true, none, some, [], ◌∷◌, ◌==◌}
use doroutine.Func.{closure}
use doroutine.Outcome.{done, undefined, ◌>>=◌}
use doroutine.Timer.Examples.{two_timers}
use doroutine.Hook.Sleep.{sleep}
use doroutine.Hook.Locals.{
  new_locals, enter_run, constructs, enters, destroys, run, get_this, sleep_call,
}
use doroutine.Hook.Locals.Stays.{enter_run-Stays}

abbrev is_first : ℕ → Bool
is_first s = s == 1

enter_run-Stays_example :
    let l' = run (enter_run 1 2 true new_locals) (destroys 1 ∷ []) in
    (l'.hook_enable ≡ true)
    × ((s : ℕ)
        → get_this is_first l' ≡ some s
        → sleep_call is_first l' (λ s. two_timers) 6 20 3 (closure 3)
          ≡ (sleep two_timers 6 20 3 (closure 3) >>= λ m. done (some m)))
    × (get_this is_first l' ≡ none
        → sleep_call is_first l' (λ s. two_timers) 6 20 3 (closure 3) ≡ undefined)
    × ((root : ℕ)
        → sleep_call is_first
            (run new_locals (constructs 1 root true ∷ enters 1 2 true ∷ destroys 1 ∷ []))
            (λ s. two_timers)
            6
            20
            3
            (closure 3)
          ≡ undefined)
enter_run-Stays_example =
    enter_run-Stays is_first new_locals 1 2 true (destroys 1 ∷ []) (λ s. two_timers) 6 20 3
      (closure 3)
