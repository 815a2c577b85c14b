-- ===== src/Scheduler/Exclusion/Runs.antt =====
-- Two threads and one doroutine, over runs of the scheduler.
use doroutine.Prelude.{
  ℕ, zero, suc, ◌+◌, ◌≤◌, ◌≡◌, ◌≢◌, refl, ap, inl, inr, true, some, List, [], ◌∷◌, ℤ, get_elem?,
  Bool-cases, Option-cases, ◌==◌, arith,
}
use doroutine.Doroutine.{is_running}
use doroutine.Scheduler.{
  SchedulerTask, Worker, Scheduler, schedule_no_lock, schedule, Event, schedules, stops, worker,
  step, run, started,
}
use doroutine.Scheduler.Counting.{count, sum, count-append}
use doroutine.Scheduler.Invariant.{fresh_workers}
use doroutine.Scheduler.Exclusion.{
  names, taken, resumed, works, taken_by, resumed_by, IsExclusive, act-IsExclusive,
}

-- The doroutine is scheduled only while no task of it is in the queue and no thread has taken one
-- from which it has not come back.
abbrev pub IsPatient : ℕ → Scheduler → Event → Type 0
IsPatient d s (schedules t) =
    names d t ≡ true → taken_by d s + resumed_by d s + count (names d) s.tasks ≡ 0
IsPatient d s stops = Unit {0}
IsPatient d s (worker i a) = Unit {0}

abbrev pub ArePatient : ℕ → Scheduler → List Event → Type 0
ArePatient d s [] = Unit {0}
ArePatient d s (e ∷ es) = IsPatient d s e × ArePatient d (step s e) es

schedule-IsExclusive :
    (d : ℕ) (s : Scheduler) (t : SchedulerTask)
    → IsExclusive d s
    → IsPatient d s (schedules t)
    → IsExclusive d (schedule s t)
unfolding schedule schedule_no_lock
schedule-IsExclusive d s t v p =
    let more = count-append (names d) s.tasks (t ∷ []) in
    record { one = ground (arith, v.one, more, p); state = ground (arith, v.state) }

step-IsExclusive :
    (d : ℕ) (s : Scheduler) (e : Event)
    → IsExclusive d s
    → IsPatient d s e
    → IsExclusive d (step s e)
unfolding step
step-IsExclusive d s (schedules t) v p = schedule-IsExclusive d s t v p
step-IsExclusive d s stops v p = record { one = v.one; state = v.state }
step-IsExclusive d s (worker i a) v p = elim (Option-cases (get_elem? s.workers i)) [
  | inl e ↦ rw (e, step) v
  | inr (w, e) ↦ rw (e, step) (act-IsExclusive d w.phase a s i w v e refl)
]

run-IsExclusive :
    (d : ℕ) (es : List Event) (s : Scheduler)
    → IsExclusive d s
    → ArePatient d s es
    → IsExclusive d (run s es)
unfolding run
run-IsExclusive d [] s v p = v
run-IsExclusive d (e ∷ es) s v p =
    run-IsExclusive d es (step s e) (step-IsExclusive d s e v p.0) p.1

idle_hands :
    (d : ℕ) (tids : List ℤ)
    → (sum (λ w. taken d w.phase) (fresh_workers tids) ≡ 0)
      × (sum (λ w. resumed d w.phase) (fresh_workers tids) ≡ 0)
      × (sum (λ w. works d w.phase) (fresh_workers tids) ≡ 0)
idle_hands d [] = (refl, refl, refl)
idle_hands d (tid ∷ tids) =
    let (a, b, c) = idle_hands d tids in (omega (arith, a), omega (arith, b), omega (arith, c))

started-IsExclusive : (d : ℕ) (tids : List ℤ) → IsExclusive d (started (fresh_workers tids))
unfolding started
started-IsExclusive d tids =
    let (a, b, c) = idle_hands d tids in
    record { one = omega (arith, a, b); state = λ h. absurd (omega (arith, c)) }

sum_one :
    (f : Worker → ℕ) (ws : List Worker) (i : ℕ) (w : Worker)
    → get_elem? ws i ≡ some w
    → f w ≤ sum f ws
sum_one f [] i w h = cc
sum_one f (x ∷ xs) zero w h = ground arith
sum_one f (x ∷ xs) (suc i) w h = omega (arith, sum_one f xs i w h)

sum_two :
    (f : Worker → ℕ) (ws : List Worker) (i j : ℕ) (w u : Worker)
    → get_elem? ws i ≡ some w
    → get_elem? ws j ≡ some u
    → i ≢ j
    → f w + f u ≤ sum f ws
sum_two f [] i j w u h k n = cc
sum_two f (x ∷ xs) zero zero w u h k n = absurd (n refl)
sum_two f (x ∷ xs) zero (suc j) w u h k n = ground (arith, sum_one f xs j u k)
sum_two f (x ∷ xs) (suc i) zero w u h k n = ground (arith, sum_one f xs i w h)
sum_two f (x ∷ xs) (suc i) (suc j) w u h k n =
    omega (arith, sum_two f xs i j w u h k (λ e. n (ap suc e)))

-- In any interleaving of any number of threads in which a doroutine is scheduled only while no task
-- of it is in the queue, and no thread has taken one and not come back from it, no two threads have
-- resumed it and not come back, and while one executes it, up to the yield() that sets its state,
-- that state is RUNNING.
pub never_resumed_twice :
    (d : ℕ) (tids : List ℤ) (es : List Event)
    → ArePatient d (started (fresh_workers tids)) es
    → let s = run (started (fresh_workers tids)) es in
      ((i j : ℕ) (w u : Worker)
        → get_elem? s.workers i ≡ some w
        → get_elem? s.workers j ≡ some u
        → resumed d w.phase ≡ 1
        → resumed d u.phase ≡ 1
        → i ≡ j)
      × ((i : ℕ) (w : Worker)
          → get_elem? s.workers i ≡ some w
          → works d w.phase ≡ 1
          → is_running (s.states d) ≡ true)
never_resumed_twice d tids es p =
    let s = run (started (fresh_workers tids)) es in
    let v = run-IsExclusive d es _ (started-IsExclusive d tids) p in
    let f : Worker → ℕ = λ w. resumed d w.phase in
    (
      λ i j w u at bt a b. elim (Bool-cases (i == j)) [
        | inl e ↦ ground arith
        | inr e ↦
            absurd
              (omega (arith, sum_two f s.workers i j w u at bt (λ h. ground arith), v.one, a, b))
      ],
      λ i w at a. v.state (omega (arith, sum_one (λ w. works d w.phase) s.workers i w at, a)),
    )
