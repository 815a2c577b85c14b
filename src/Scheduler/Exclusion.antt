-- ===== src/Scheduler/Exclusion.antt =====
-- One doroutine in the hands of the threads: that it is not resumed by two at once.
pub mod Runs
pub mod Race
use doroutine.Prelude.{
  ℕ, zero, suc, ◌+◌, ◌-◌, ◌≤◌, ◌<◌, ◌≡◌, ◌≢◌, ◌⊎◌, refl, ap, subst, ◌∙◌, inl, inr, Bool, true,
  false, Option, none, some, List, [], ◌∷◌, ◌++◌, ℤ, get_elem?, set, if◌then◌else◌, if_true,
  if_false, Bool-cases, Option-cases, ◌==◌, arith,
}
use doroutine.Doroutine.{State, running, is_running}
use doroutine.Scheduler.{
  SchedulerTask, Phase, fetching, fetched, no_task, executing, leaving, lost, in_idle, exited,
  Worker, Scheduler, schedule_no_lock, schedule, pick, fetch, is_ended, set_state, set_worker,
  is_stopping, Action, fetches, resumes, yields, returns, idles, wakes, act, Event, schedules,
  stops, worker, step, run, started,
}
use doroutine.Scheduler.Counting.{count, sum, count-append, sum-set, count-pick}
use doroutine.Scheduler.Invariant.{fresh_workers}

-- Whether a task is of the doroutine `d`.
abbrev pub names : ℕ → SchedulerTask → Bool
names d t = elim t.doroutine [ none ↦ false | some e ↦ e == d ]

-- 1 in a thread that has taken such a task and not resumed it yet, and in one that has and has not
-- switched back.
abbrev pub taken : ℕ → Phase → ℕ
taken d (fetched t) = if names d t then 1 else 0
taken d _ = 0

abbrev pub resumed : ℕ → Phase → ℕ
resumed d (executing t) = if names d t then 1 else 0
resumed d (leaving t) = if names d t then 1 else 0
resumed d (lost t) = if names d t then 1 else 0
resumed d _ = 0

-- 1 in one of the latter whose doroutine has not set its state in yield() yet.
abbrev pub works : ℕ → Phase → ℕ
works d (executing t) = if names d t then 1 else 0
works d (lost t) = if names d t then 1 else 0
works d _ = 0

abbrev pub taken_by : ℕ → Scheduler → ℕ
taken_by d s = sum (λ w. taken d w.phase) s.workers

abbrev pub resumed_by : ℕ → Scheduler → ℕ
resumed_by d s = sum (λ w. resumed d w.phase) s.workers

abbrev pub works_by : ℕ → Scheduler → ℕ
works_by d s = sum (λ w. works d w.phase) s.workers

pub record IsExclusive (d : ℕ) (s : Scheduler) : Type 0 where
  pub one : taken_by d s + resumed_by d s + count (names d) s.tasks ≤ 1
  pub state : 0 < works_by d s → is_running (s.states d) ≡ true

works_least : (d : ℕ) (ph : Phase) → works d ph ≤ resumed d ph
works_least d (executing t) = omega arith
works_least d (lost t) = omega arith
works_least d (leaving t) = omega arith
works_least d _ = omega arith

works_fewer :
    (d : ℕ) (ws : List Worker) → sum (λ w. works d w.phase) ws ≤ sum (λ w. resumed d w.phase) ws
works_fewer d [] = omega arith
works_fewer d (w ∷ ws) = omega (arith, works_fewer d ws, works_least d w.phase)

-- A step of one worker, from a phase to a phase.
module _ (d : ℕ) (s s' : Scheduler) (i : ℕ) (w w' : Worker) (v : IsExclusive d s)
    (at : get_elem? s.workers i ≡ some w) (ws : s'.workers ≡ set s.workers i w') where
  taken_moves : taken_by d s' + taken d w.phase ≡ taken_by d s + taken d w'.phase
  taken_moves = rw ws (sum-set (λ w. taken d w.phase) s.workers i w w' at)

  resumed_moves : resumed_by d s' + resumed d w.phase ≡ resumed_by d s + resumed d w'.phase
  resumed_moves = rw ws (sum-set (λ w. resumed d w.phase) s.workers i w w' at)

  works_moves : works_by d s' + works d w.phase ≡ works_by d s + works d w'.phase
  works_moves = rw ws (sum-set (λ w. works d w.phase) s.workers i w w' at)

  -- No hand changes.
  still-IsExclusive :
      taken d w'.phase ≡ taken d w.phase
      → resumed d w'.phase ≡ resumed d w.phase
      → works d w'.phase ≡ works d w.phase
      → count (names d) s'.tasks ≡ count (names d) s.tasks
      → s'.states d ≡ s.states d
      → IsExclusive d s'
  still-IsExclusive a b g c e = record {
    one = omega (arith, taken_moves, resumed_moves, v.one);
    state = λ h. ap is_running e ∙ v.state (omega (arith, works_moves));
  }

  -- The doroutine goes from the queue to a hand, or leaves the hands, and is in no hand whose
  -- doroutine is RUNNING.
  rests-IsExclusive :
      (taken d w'.phase + resumed d w'.phase + count (names d) s'.tasks
          ≡ taken d w.phase + resumed d w.phase + count (names d) s.tasks)
        ⊎ ((taken d w'.phase + resumed d w'.phase ≡ 0)
            × (count (names d) s'.tasks ≡ count (names d) s.tasks))
      → works_by d s' ≡ 0
      → IsExclusive d s'
  rests-IsExclusive (inl a) b = record {
    one = omega (arith, taken_moves, resumed_moves, v.one);
    state = λ h. absurd (omega arith);
  }
  rests-IsExclusive (inr (a, c)) b = record {
    one = omega (arith, taken_moves, resumed_moves, v.one);
    state = λ h. absurd (omega arith);
  }

  -- It is resumed.
  resume-IsExclusive :
      taken d w.phase ≡ 1
      → resumed d w.phase ≡ 0
      → taken d w'.phase ≡ 0
      → resumed d w'.phase ≡ 1
      → s'.tasks ≡ s.tasks
      → is_running (s'.states d) ≡ true
      → IsExclusive d s'
  resume-IsExclusive a b a' b' c e = record {
    one = rw c (omega (arith, taken_moves, resumed_moves, v.one));
    state = λ h. e;
  }

-- The states that the others have.
other_state :
    (d : ℕ) (states : ℕ → State) (t : SchedulerTask) (st : State)
    → names d t ≡ false
    → set_state states t.doroutine st d ≡ states d
other_state d states t st h = elim (Option-cases t.doroutine) [
  | inl e ↦ rw e refl
  | inr (e, f) ↦ rw f (if_false {b = e == d} st (states d) (ground (arith, f)))
]

own_state :
    (d : ℕ) (states : ℕ → State) (t : SchedulerTask) (st : State)
    → names d t ≡ true
    → set_state states t.doroutine st d ≡ st
own_state d states t st h = elim (Option-cases t.doroutine) [
  | inl e ↦ absurd (ground (arith, e))
  | inr (e, f) ↦ rw f (if_true {b = e == d} st (states d) (ground (arith, f)))
]

fetch-IsExclusive :
    (d : ℕ) (s : Scheduler) (i : ℕ) (w : Worker)
    → IsExclusive d s
    → get_elem? s.workers i ≡ some w
    → w.phase ≡ fetching
    → IsExclusive d (fetch s i w)
unfolding fetch
fetch-IsExclusive d s i w v at ph =
    let counted = count-pick s.states w.tid (names d) s.tasks in
    elim (Option-cases (pick s.states w.tid s.tasks).task) [
      | inl e ↦
          still-IsExclusive d s _ i w (record w { phase = no_task }) v at (ground arith)
            (ground arith) (ground arith) (ground arith) (ground (arith, counted)) (ground arith)
      | inr (t, e) ↦ elim (Bool-cases (names d t)) [
        | inl n ↦
            (let w' : Worker = record w { phase = fetched t } in
              let s' = fetch s i w in
              let ws : s'.workers ≡ set s.workers i w' = ground arith in
              let moved : suc (count (names d) s'.tasks) ≡ count (names d) s.tasks =
                ground (arith, counted) in
              let before : resumed d w.phase ≡ 0 = ground arith in
              let none_works : works_by d s' ≡ 0 =
                omega
                  (arith, v.one, works_fewer d s'.workers, resumed_moves d s s' i w w' v at ws) in
              rests-IsExclusive d s s' i w w' v at ws (inl (ground (arith, moved))) none_works)
        | inr n ↦
            still-IsExclusive d s _ i w (record w { phase = fetched t }) v at (ground arith)
              (ground arith) (ground arith) (ground arith) (ground (arith, counted)) (ground arith)
      ]
    ]

-- yield() sets the state; the switch back is still to come.
yield-IsExclusive :
    (d : ℕ) (st : State) (t : SchedulerTask) (s : Scheduler) (i : ℕ) (w : Worker)
    → IsExclusive d s
    → get_elem? s.workers i ≡ some w
    → w.phase ≡ executing t
    → IsExclusive d (act (executing t) (yields st) s i w)
unfolding act
yield-IsExclusive d st t s i w v at ph =
    let w' : Worker = record w { phase = leaving t } in
    let s' = act (executing t) (yields st) s i w in
    elim (Bool-cases (names d t)) [
      | inl n ↦
          (let one : works_by d s ≤ 1 = omega (arith, v.one, works_fewer d s.workers) in
            let here : works d w.phase ≡ 1 = ground arith in
            rests-IsExclusive d s s' i w w' v at refl (inl (ground arith))
              (omega (arith, one, here, works_moves d s s' i w w' v at refl)))
      | inr n ↦
          still-IsExclusive d s s' i w w' v at refl (ground arith) (ground arith) (ground arith)
            refl (other_state d s.states t st n)
    ]

return-IsExclusive :
    (d : ℕ) (t : SchedulerTask) (s : Scheduler) (i : ℕ) (w : Worker)
    → IsExclusive d s
    → get_elem? s.workers i ≡ some w
    → w.phase ≡ leaving t
    → IsExclusive d (act (leaving t) returns s i w)
unfolding act
return-IsExclusive d t s i w v at ph =
    let w' : Worker = record w { phase = fetching } in
    let s' = act (leaving t) returns s i w in
    elim (Bool-cases (names d t)) [
      | inl n ↦
          (let here : resumed d w.phase ≡ 1 = ground arith in
            rests-IsExclusive d s s' i w w' v at refl (inr (refl, refl)) (
              omega (
                arith,
                v.one,
                here,
                resumed_moves d s s' i w w' v at refl,
                works_fewer d s'.workers,
              )))
      | inr n ↦
          still-IsExclusive d s s' i w w' v at refl (ground arith) (ground arith) (ground arith)
            refl refl
    ]

-- resume(), of a doroutine that has ended too.
resume_to-IsExclusive :
    (d : ℕ) (ph' : Phase) (t : SchedulerTask) (s : Scheduler) (i : ℕ) (w : Worker)
    → IsExclusive d s
    → get_elem? s.workers i ≡ some w
    → w.phase ≡ fetched t
    → (ph' ≡ executing t) ⊎ (ph' ≡ lost t)
    → IsExclusive d
        (set_worker (record s { states = set_state s.states t.doroutine running }) i w ph')
resume_to-IsExclusive d ph' t s i w v at ph to =
    let to_resumed : resumed d ph' ≡ (if names d t then 1 else 0) = elim to [
      | inl e ↦ ap (resumed d) e
      | inr e ↦ ap (resumed d) e
    ] in
    let to_works : works d ph' ≡ (if names d t then 1 else 0) = elim to [
      | inl e ↦ ap (works d) e
      | inr e ↦ ap (works d) e
    ] in
    let to_taken : taken d ph' ≡ 0 = elim to [ inl e ↦ ap (taken d) e | inr e ↦ ap (taken d) e ] in
    elim (Bool-cases (names d t)) [
      | inl n ↦
          resume-IsExclusive d s _ i w (record w { phase = ph' }) v at refl (ground arith)
            (ground arith) to_taken (ground arith) refl
            (ap is_running (own_state d s.states t running n))
      | inr n ↦
          still-IsExclusive d s _ i w (record w { phase = ph' }) v at refl (ground arith)
            (ground arith) (ground arith) refl (other_state d s.states t running n)
    ]

pub act-IsExclusive :
    (d : ℕ) (ph : Phase) (a : Action) (s : Scheduler) (i : ℕ) (w : Worker)
    → IsExclusive d s
    → get_elem? s.workers i ≡ some w
    → w.phase ≡ ph
    → IsExclusive d (act ph a s i w)
unfolding act
act-IsExclusive d fetching fetches s i w v at ph = fetch-IsExclusive d s i w v at ph
act-IsExclusive d (fetched t) resumes s i w v at ph =
    resume_to-IsExclusive d (if is_ended s.states t then lost t else executing t) t s i w v at ph
      (elim (Bool-cases (is_ended s.states t)) [
        | inl e ↦ inr (if_true _ _ e)
        | inr e ↦ inl (if_false _ _ e)
      ])
act-IsExclusive d (executing t) (yields st) s i w v at ph = yield-IsExclusive d st t s i w v at ph
act-IsExclusive d (leaving t) returns s i w v at ph = return-IsExclusive d t s i w v at ph
act-IsExclusive d no_task idles s i w v at ph = elim (Bool-cases w.idle_term) [
  | inl e ↦ rw (if_true _ _ e) (
      still-IsExclusive d s _ i w (record w { phase = exited }) v at refl (ground arith)
        (ground arith) (ground arith) refl refl)
  | inr e ↦ rw (if_false _ _ e) (
      still-IsExclusive d s _ i w (record w { phase = in_idle }) v at refl (ground arith)
        (ground arith) (ground arith) refl refl)
]
act-IsExclusive d in_idle wakes s i w v at ph =
    still-IsExclusive d s _ i w (record w { idle_term = is_stopping s; phase = fetching }) v at refl
      (ground arith) (ground arith) (ground arith) refl refl
act-IsExclusive d _ _ s i w v at ph = v
