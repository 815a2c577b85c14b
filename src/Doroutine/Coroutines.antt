-- ===== src/Doroutine/Coroutines.antt =====
-- The doroutines of a worker thread implement asymmetric coroutines.
use doroutine.Prelude.{
  ℕ, ◌≡◌, refl, ap, subst, ◌∙◌, inl, inr, false, none, some, List, [], ◌∷◌, ◌==◌, if◌then◌else◌,
  update, Bool-cases, Option-cases, arith,
}
use doroutine.Outcome.{done, ◌>>=◌}
use doroutine.Doroutine.{
  State, ready, running, term, is_term, midway, over, Doroutine, Thread, put, new_doroutine, reset,
  finish, Event, resumes, yields, finishes, resets, creates, step_on, step_from, step, run,
  worker_start,
}
use doroutine.Doroutine.Machine.{
  Active, main_runs, runs, gone, Machine, stops, prepares, starts, spec_on, spec, place, Rests,
  Executes, Implements, Rests-congr, replay,
}
use doroutine.Doroutine.Swaps.{
  entered, resume_runs, entered-Implements, left, yield_runs, left-Implements, prepared-Implements,
  entered_gone-Implements,
}

module _ (mn : ℕ) (t : Thread) (m : Machine) (i : Implements mn t m) where
  step_at : (here : ℕ) (e : Event) → t.on ≡ some here → step t e ≡ step_on here t e
  unfolding step
  step_at here e h = ap (λ o. step_from o t e) h

  -- The step of the code that answers one of the machine.
  abbrev Answers : Event → Machine → Type 0
  Answers e m' = (t' : Thread) × (step t e ≡ done t') × Implements mn t' m'

  resume-Answers :
      (a : ℕ) (m' : Machine) (st : State)
      → m.active ≡ main_runs
      → (a == mn) ≡ false
      → m.states a ≡ st
      → starts a st m ≡ some m'
      → Answers (resumes a) m'
  resume-Answers a m' ready act other st e =
      let same : record m { states = update m.states a running; active = runs a } ≡ m' = cc in
      (
        entered mn t m i a,
        step_at mn (resumes a) (i.on ∙ ap (place mn) act) ∙ resume_runs mn t m i a,
        subst (Implements mn (entered mn t m i a)) same (entered-Implements mn t m i a other st),
      )
  resume-Answers a m' running act other st e = cc
  resume-Answers a m' term act other st e =
      let same : record m { states = update m.states a running; active = gone } ≡ m' = cc in
      (
        entered mn t m i a,
        step_at mn (resumes a) (i.on ∙ ap (place mn) act) ∙ resume_runs mn t m i a,
        subst (Implements mn (entered mn t m i a)) same
            (entered_gone-Implements mn t m i a other st),
      )

  -- The end of WorkFunc, before its yield.
  abbrev ended : ℕ → Doroutine
  ended a = record (t.doroutines a) { func = none; state = term }

  running-Answers :
      (a : ℕ) (e : Event) (m' : Machine)
      → m.active ≡ runs a
      → spec_on mn (runs a) m e ≡ some m'
      → Answers e m'
  unfolding spec_on finish
  running-Answers a yields m' act e =
      let same : stops a ready midway m ≡ m' = cc in
      let (cur, other, run, ctx) = subst (Executes mn t m) act i.executes in
      let next : (if is_term (t.doroutines a).state then term else ready) ≡ ready =
        ground (arith, i.same a other) in
      let u =
        left mn t m i a ready midway t act i.main i.scheduler (λ b h. refl) next (refl, refl) in
      (
        u,
        step_at a yields (i.on ∙ ap (place mn) act)
            ∙ rw cur (
                yield_runs mn t m i a ready midway t act i.main i.scheduler (λ b h. refl) next
                  (refl, refl)),
        subst (Implements mn u) same (
            left-Implements mn t m i a ready midway t act i.main i.scheduler (λ b h. refl) next
              (refl, refl)),
      )
  running-Answers a finishes m' act e =
      let same : stops a term over m ≡ m' = cc in
      let (cur, other, run, ctx) = subst (Executes mn t m) act i.executes in
      let w = put t a (ended a) in
      let others : (b : ℕ) → (a == b) ≡ false → w.doroutines b ≡ t.doroutines b =
        λ b h. ground arith in
      let next : (if is_term (w.doroutines a).state then term else ready) ≡ term = ground arith in
      let u = left mn t m i a term over w act i.main i.scheduler others next refl in
      (
        u,
        step_at a finishes (i.on ∙ ap (place mn) act)
            ∙ yield_runs mn t m i a term over w act i.main i.scheduler others next refl,
        subst (Implements mn u) same
            (left-Implements mn t m i a term over w act i.main i.scheduler others next refl),
      )
  running-Answers a (resumes b) m' act e = cc
  running-Answers a (resets b f) m' act e = cc
  running-Answers a (creates b f size c) m' act e = cc

  main-Answers :
      (e : Event) (m' : Machine)
      → m.active ≡ main_runs
      → spec_on mn main_runs m e ≡ some m'
      → Answers e m'
  unfolding spec_on reset new_doroutine
  main-Answers (resumes a) m' act e = elim (Bool-cases (a == mn)) [
    | inl f ↦ absurd (ground arith)
    | inr f ↦ resume-Answers a m' (m.states a) act f refl (ground arith)
  ]
  main-Answers yields m' act e = cc
  main-Answers finishes m' act e = cc
  main-Answers (resets a f) m' act e =
      let u = reset t a f in
      let same : prepares a m ≡ m' = ground arith in
      let other : (a == mn) ≡ false = ground arith in
      (
        u,
        step_at mn (resets a f) (i.on ∙ ap (place mn) act),
        subst (Implements mn u) same
            (prepared-Implements mn t m i a _ u act other refl refl refl refl refl refl refl),
      )
  main-Answers (creates a f size b) m' act e =
      let u = new_doroutine t a f size b in
      let same : prepares a m ≡ m' = ground arith in
      let other : (a == mn) ≡ false = ground arith in
      (
        u,
        step_at mn (creates a f size b) (i.on ∙ ap (place mn) act),
        subst (Implements mn u) same
            (prepared-Implements mn t m i a _ u act other refl refl refl refl refl refl refl),
      )

  answers :
      (act : Active) (e : Event) (m' : Machine)
      → m.active ≡ act
      → spec_on mn act m e ≡ some m'
      → Answers e m'
  unfolding spec_on step
  answers main_runs e m' act s = main-Answers e m' act s
  answers (runs a) e m' act s = running-Answers a e m' act s
  answers gone e m' act s =
      let same : m ≡ m' = cc in
      (t, ap (λ o. step_from o t e) (i.on ∙ ap (place mn) act), subst (Implements mn t) same i)

run_refines :
    (mn : ℕ) (es : List Event) (t : Thread) (m m' : Machine)
    → Implements mn t m
    → replay mn m es ≡ some m'
    → (t' : Thread) × (run t es ≡ done t') × Implements mn t' m'
unfolding run replay
run_refines mn [] t m m' i e = let same : m ≡ m' = cc in (t, refl, subst (Implements mn t) same i)
run_refines mn (e ∷ es) t m m' i h = elim (Option-cases (spec mn m e)) [
  | inl f ↦ absurd (ground arith)
  | inr (m1, f) ↦
      (let (t1, r, i1) = answers mn t m i m.active e m1 refl (unfold spec in f) in
        let (t', rs, i') = run_refines mn es t1 m1 m' i1 (ground arith) in
        (t', ap (λ o. o >>= λ u. run u es) r ∙ rs, i'))
]

-- What the doroutines of a thread are before its worker starts.
abbrev pub states_of : Thread → Machine
states_of t = record {
  states = λ a. (t.doroutines a).state;
  points = λ a. (t.doroutines a).ctx.point;
  active = main_runs;
}

worker_start-Implements :
    (t : Thread) (mn : ℕ)
    → ((a : ℕ) → Rests a (t.doroutines a).state (t.doroutines a).ctx.point (t.doroutines a).ctx)
    → Implements mn (worker_start t mn) (states_of t)
unfolding worker_start
worker_start-Implements t mn h = record {
  main = refl;
  scheduler = refl;
  on = refl;
  executes = refl;
  same = λ a e. ground arith;
  rests = λ a e.
      Rests-congr a (t.doroutines a).state (t.doroutines a).ctx.point (t.doroutines a).ctx refl refl
        (ground arith) (h a);
}

-- The doroutines of a worker thread are asymmetric coroutines, from the start of its run() on and
-- for any list of events that the machine allows, where at the start those that are READY go on on
-- their own stacks before their ends and those that are TERM behind their ends: the main doroutine
-- resumes one that is READY, that one yields or ends, and a doroutine is made, or reset when it is
-- TERM. The code returns, it executes the coroutine that the machine says, and GetThis() is that
-- one; every doroutine has the state that the machine says, and the context of one that is READY is
-- on its own stack at the point where it is to go on: the start of WorkFunc after it was made or
-- reset, and behind the swapcontext of its yield after it yielded. A doroutine that is resumed after
-- its end ends the thread.
pub worker_start-refines :
    (t : Thread) (mn : ℕ) (es : List Event) (m' : Machine)
    → ((a : ℕ) → Rests a (t.doroutines a).state (t.doroutines a).ctx.point (t.doroutines a).ctx)
    → replay mn (states_of t) es ≡ some m'
    → (t' : Thread) × (run (worker_start t mn) es ≡ done t') × Implements mn t' m'
worker_start-refines t mn es m' h e =
    run_refines mn es (worker_start t mn) (states_of t) m' (worker_start-Implements t mn h) e
