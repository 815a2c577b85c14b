-- ===== src/Doroutine/Examples.antt =====
-- A worker thread whose main doroutine is at 1.
use doroutine.Prelude.{ℕ, ◌≡◌, refl, true, none, some, List, [], ◌∷◌, update, replicate}
use doroutine.Func.{closure}
use doroutine.Outcome.{done}
use doroutine.Doroutine.{
  ready, running, term, entry, midway, over, Doroutine, Thread, Event, resumes, yields, finishes,
  creates, run, worker_start,
}
use doroutine.Doroutine.Machine.{main_runs, runs, Machine, Implements, replay}
use doroutine.Doroutine.Coroutines.{worker_start-refines}
use doroutine.Doroutine.Nested.{nested_resume-never_returns}

-- No doroutine is there yet.
abbrev no_doroutine : ℕ → Doroutine
no_doroutine a = record {
  id = 0;
  state = term;
  stack_size = 0;
  has_stack = true;
  run_in_scheduler = true;
  func = none;
  ctx = record { stack = a; point = over };
}

abbrev blank : Thread
blank = record {
  doroutines = no_doroutine;
  next_id = 0;
  count = 0;
  current = none;
  main = none;
  scheduler = none;
  on = none;
}

abbrev whole_life : List Event
whole_life = creates 7 (closure 1) 0 true ∷ resumes 7 ∷ yields ∷ resumes 7 ∷ finishes ∷ []

abbrev at_end : Machine
at_end = record {
  states =
      update (update (update (update (update (λ a. term) 7 ready) 7 running) 7 ready) 7 running) 7
        term;
  points = update (update (update (λ a. over) 7 entry) 7 midway) 7 over;
  active = main_runs;
}

worker_start-refines_example :
    (t' : Thread) × (run (worker_start blank 1) whole_life ≡ done t') × Implements 1 t' at_end
unfolding replay
worker_start-refines_example = worker_start-refines blank 1 whole_life at_end (λ a. refl) refl

-- The doroutine at 7 executes, and there is one at 8.
abbrev inside_seven : Machine
inside_seven = record {
  states = update (update (update (λ a. term) 7 ready) 8 ready) 7 running;
  points = update (update (λ a. over) 7 entry) 8 entry;
  active = runs 7;
}

inside_one :
    (t' : Thread) × (run
        (worker_start blank 1)
        (creates 7 (closure 1) 0 true ∷ creates 8 (closure 2) 0 true ∷ resumes 7 ∷ [])
      ≡ done t')
    × Implements 1 t' inside_seven
unfolding replay
inside_one = worker_start-refines blank 1 _ inside_seven (λ a. refl) refl

nested_resume-never_returns_example :
    (t' : Thread) × (run inside_one.0 (resumes 8 ∷ yields ∷ replicate 3 yields) ≡ done t')
    × (t'.on ≡ some 7)
    × (t'.current ≡ some 1)
nested_resume-never_returns_example =
    nested_resume-never_returns 1 7 8 inside_one.0 inside_seven inside_one.2 refl refl refl 3
