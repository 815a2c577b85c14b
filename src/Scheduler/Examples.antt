-- ===== src/Scheduler/Examples.antt =====
-- The scheduler theorems at one and two threads.
use doroutine.Doroutine.{State, term}
use doroutine.Prelude.{
  ℤ-discrete, ℕ_discrete, ◌+◌, ◌≡◌, refl, true, Bool, none, some, List, [], ◌∷◌, ℤ, pos, negsuc,
}
use doroutine.Func.{closure}
use doroutine.Scheduler.Serving.{serve, advance}
use doroutine.Scheduler.{
  Scheduler, schedule, schedule_no_lock, SchedulerTask, pick, fetch, is_stopping, exited, fetches,
  resumes, yields, returns, idles, wakes, act, Event, schedules, stops, worker, Worker, step, run,
  started,
}
use doroutine.Scheduler.Counting.{count, sum}
use doroutine.Scheduler.Invariant.{held, idling, fresh_workers, run-conserves, exited_after_stop}

abbrev pub runs_doroutine : SchedulerTask
runs_doroutine = record { doroutine = some 7; func = none; thread = negsuc 0 }

abbrev anyone : SchedulerTask
anyone = record { doroutine = none; func = some (closure 2); thread = negsuc 0 }

-- Two threads: one takes a task and runs it while the other finds nothing.
abbrev pub two_threads : List ℤ
two_threads = pos 1 ∷ pos 2 ∷ []

abbrev busy : List Event
busy =
    schedules runs_doroutine
    ∷ worker 0 fetches
    ∷ worker 1 fetches
    ∷ worker 0 resumes
    ∷ worker 1 idles
    ∷ schedules anyone
    ∷ worker 0 (yields term)
    ∷ worker 0 returns
    ∷ []

run-conserves_example :
    let s = run (started (fresh_workers two_threads)) busy in
    (s.active_thread_count ≡ sum (λ w. held (λ t. true) w.phase) s.workers)
    × (s.idle_thread_count ≡ sum (λ w. idling w.phase) s.workers)
    × ((p : SchedulerTask → Bool)
        → count p s.queued
          ≡ count p s.tasks + sum (λ w. held p w.phase) s.workers + count p s.finished)
run-conserves_example = run-conserves two_threads busy

-- One thread idles, is woken by stop() and leaves.
abbrev stopped : List Event
stopped =
    worker 0 fetches
    ∷ worker 0 idles
    ∷ stops
    ∷ worker 0 wakes
    ∷ worker 0 fetches
    ∷ worker 0 idles
    ∷ []

abbrev left_worker : Worker
left_worker = record { tid = pos 1; phase = exited; idle_term = true }

exited_after_stop_example : (run (started (fresh_workers (pos 1 ∷ []))) stopped).stopping ≡ true
unfolding run step act fetch pick is_stopping started
exited_after_stop_example = exited_after_stop (pos 1 ∷ []) stopped 0 left_worker refl refl

-- stop() is called with two tasks in the queue of two threads.
abbrev two_queued : Scheduler
two_queued =
    run (started (fresh_workers two_threads))
      (schedules runs_doroutine ∷ schedules anyone ∷ stops ∷ [])

abbrev all_end : SchedulerTask → State
all_end t = term

-- The tasks are run in the order of the queue.
drained : (serve all_end 1 13 two_queued).finished ≡ runs_doroutine ∷ anyone ∷ []
unfolding serve advance run step started schedule schedule_no_lock act fetch pick is_stopping
    ℤ-discrete ℕ_discrete
drained = refl
