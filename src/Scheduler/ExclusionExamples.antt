-- ===== src/Scheduler/ExclusionExamples.antt =====
-- Doroutine 7 and two threads.
use doroutine.Prelude.{
  ℕ, ◌≡◌, refl, true, false, some, List, [], ◌∷◌, get_elem?, pos, ℤ-discrete, ℕ_discrete, arith,
}
use doroutine.Doroutine.{ready, is_running}
use doroutine.Scheduler.{
  fetching, executing, Worker, Scheduler, pick, fetch, schedule, schedule_no_lock, fetches, resumes,
  yields, returns, act, Event, schedules, worker, step, run, started,
}
use doroutine.Scheduler.Invariant.{fresh_workers}
use doroutine.Scheduler.Exclusion.{resumed, works}
use doroutine.Scheduler.Exclusion.Runs.{never_resumed_twice}
use doroutine.Scheduler.Exclusion.Race.{resumed_by_both}
use doroutine.Scheduler.Examples.{runs_doroutine, two_threads}

-- It is scheduled again once it came back.
abbrev again : List Event
again =
    schedules runs_doroutine
    ∷ worker 0 fetches
    ∷ worker 0 resumes
    ∷ worker 0 (yields ready)
    ∷ worker 0 returns
    ∷ schedules runs_doroutine
    ∷ worker 1 fetches
    ∷ worker 1 resumes
    ∷ []

never_resumed_twice_example :
    let s = run (started (fresh_workers two_threads)) again in
    ((i j : ℕ) (w u : Worker)
      → get_elem? s.workers i ≡ some w
      → get_elem? s.workers j ≡ some u
      → resumed 7 w.phase ≡ 1
      → resumed 7 u.phase ≡ 1
      → i ≡ j)
    × ((i : ℕ) (w : Worker)
        → get_elem? s.workers i ≡ some w
        → works 7 w.phase ≡ 1
        → is_running (s.states 7) ≡ true)
unfolding step act fetch pick schedule schedule_no_lock started ℤ-discrete ℕ_discrete
never_resumed_twice_example =
    never_resumed_twice 7 two_threads again
      (λ h. refl, (tt, (tt, (tt, (tt, (λ h. refl, (tt, (tt, tt))))))))

abbrev twice_queued : Scheduler
twice_queued =
    run (started (fresh_workers two_threads))
      (schedules runs_doroutine ∷ schedules runs_doroutine ∷ [])

abbrev first : Worker
first = record { tid = pos 1; phase = fetching; idle_term = false }

abbrev second : Worker
second = record { tid = pos 2; phase = fetching; idle_term = false }

resumed_by_both_example :
    let s' =
      run twice_queued
        (worker 0 fetches ∷ worker 1 fetches ∷ worker 0 resumes ∷ worker 1 resumes ∷ []) in
    (get_elem? s'.workers 0 ≡ some (record first { phase = executing runs_doroutine }))
    × (get_elem? s'.workers 1 ≡ some (record second { phase = executing runs_doroutine }))
unfolding run step schedule schedule_no_lock started
resumed_by_both_example =
    resumed_by_both twice_queued 0 1 first second 7 runs_doroutine runs_doroutine []
      (λ e. omega (arith, e)) refl refl refl refl refl refl refl refl refl refl
