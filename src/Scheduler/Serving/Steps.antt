-- ===== src/Scheduler/Serving/Steps.antt =====
-- The actions of a thread that serves alone.
use doroutine.Prelude.{
  ℕ, suc, ◌-◌, ◌≡◌, ◌∙◌, refl, sym, ap, subst, not, Bool, true, false, none, some, List, [], ◌∷◌,
  ◌++◌, ℤ, if_false, arith,
}
use doroutine.Doroutine.{State, running, is_running}
use doroutine.Scheduler.{
  SchedulerTask, Phase, fetching, fetched, no_task, executing, leaving, lost, in_idle, Worker,
  Scheduler, pick, elsewhere, is_busy, is_ended, is_empty, fetch, is_stopping, fetches, resumes,
  yields, returns, wakes, act, step,
}
use doroutine.Scheduler.Serving.{
  next_action, advance, AreLive, Serves, set_state-set_state, get-set_self, only_running, not_busy,
  none_running,
}

module _ (ends : SchedulerTask → State) (i : ℕ) (tid : ℤ) (b : Bool) where
  abbrev pub at_phase : Phase → Worker
  at_phase ph = record { tid = tid; phase = ph; idle_term = b }

  pub advances :
      (ph : Phase) (ts ran : List SchedulerTask) (s : Scheduler)
      → Serves ends i (at_phase ph) ts ran s
      → advance ends i s ≡ act ph (next_action ends ph) s i (at_phase ph)
  unfolding advance step
  advances ph ts ran s v = rw (v.at, advance) (rw (v.at, step) refl)

  picks :
      (t : SchedulerTask) (ts ran : List SchedulerTask) (s : Scheduler)
      → Serves ends i (at_phase fetching) (t ∷ ts) ran s
      → elsewhere tid t ≡ false
      → (tickles : Bool) × (pick s.states tid s.tasks
          ≡ record { task = some t; rest = ts; tickle_me = tickles })
  unfolding pick
  picks t ts ran s v here =
      let free : is_busy s.states t ≡ false = not_busy s.states t.doroutine v.quiet in
      (not (is_empty ts), ap (pick s.states tid) v.tasks ∙ ground (arith, here, free))

  fetch-Serves :
      (t : SchedulerTask) (ts ran : List SchedulerTask) (s : Scheduler)
      → Serves ends i (at_phase fetching) (t ∷ ts) ran s
      → elsewhere tid t ≡ false
      → Serves ends i (at_phase (fetched t)) ts ran (act fetching fetches s i (at_phase fetching))
  unfolding act fetch
  fetch-Serves t ts ran s v here =
      let (tickles, e) = picks t ts ran s v here in
      rw (e, fetch)
        (record {
          at = get-set_self s.workers i (at_phase fetching) (at_phase (fetched t)) v.at;
          stopping = v.stopping;
          tasks = ap (λ p. p.rest) e;
          finished = v.finished;
          active = ap suc v.active;
          live = v.live;
          quiet = v.quiet;
        })

  resume-Serves :
      (t : SchedulerTask) (ts ran : List SchedulerTask) (s : Scheduler)
      → Serves ends i (at_phase (fetched t)) ts ran s
      → Serves ends i
          (at_phase (executing t))
          ts
          ran
          (act (fetched t) resumes s i (at_phase (fetched t)))
  unfolding act
  resume-Serves t ts ran s v =
      rw (if_false {b = is_ended s.states t} (lost t) (executing t) v.live.0) (record {
        at = get-set_self s.workers i (at_phase (fetched t)) (at_phase (executing t)) v.at;
        stopping = v.stopping;
        tasks = v.tasks;
        finished = v.finished;
        active = v.active;
        live =
            subst (λ f. AreLive ends f ts)
              (sym (set_state-set_state s.states t.doroutine running (ends t))) v.live.1;
        quiet = λ d h. only_running s.states t.doroutine d v.quiet h;
      })

  yield-Serves :
      (t : SchedulerTask) (ts ran : List SchedulerTask) (s : Scheduler)
      → Serves ends i (at_phase (executing t)) ts ran s
      → is_running (ends t) ≡ false
      → Serves ends i
          (at_phase (leaving t))
          ts
          ran
          (act (executing t) (yields (ends t)) s i (at_phase (executing t)))
  unfolding act
  yield-Serves t ts ran s v e = record {
    at = get-set_self s.workers i (at_phase (executing t)) (at_phase (leaving t)) v.at;
    stopping = v.stopping;
    tasks = v.tasks;
    finished = v.finished;
    active = v.active;
    live = v.live;
    quiet = λ d h. none_running s.states t.doroutine (ends t) d v.quiet e h;
  }

  return-Serves :
      (t : SchedulerTask) (ts ran : List SchedulerTask) (s : Scheduler)
      → Serves ends i (at_phase (leaving t)) ts ran s
      → Serves ends i
          (at_phase fetching)
          ts
          (ran ++ t ∷ [])
          (act (leaving t) returns s i (at_phase (leaving t)))
  unfolding act
  return-Serves t ts ran s v = record {
    at = get-set_self s.workers i (at_phase (leaving t)) (at_phase fetching) v.at;
    stopping = v.stopping;
    tasks = v.tasks;
    finished = ap (λ l. l ++ t ∷ []) v.finished;
    active = ap (λ n. n - 1) v.active;
    live = v.live;
    quiet = v.quiet;
  }

  -- The queue is empty: the thread takes nothing.
  pub rest-Serves :
      (ran : List SchedulerTask) (s : Scheduler)
      → Serves ends i (at_phase fetching) [] ran s
      → Serves ends i (at_phase no_task) [] ran (act fetching fetches s i (at_phase fetching))
  unfolding act fetch pick
  rest-Serves ran s v =
      let e : pick s.states tid s.tasks ≡ record { task = none; rest = []; tickle_me = false } =
        ap (pick s.states tid) v.tasks in
      rw (e, fetch)
        (record {
          at = get-set_self s.workers i (at_phase fetching) (at_phase no_task) v.at;
          stopping = v.stopping;
          tasks = ap (λ p. p.rest) e;
          finished = v.finished;
          active = v.active;
          live = v.live;
          quiet = v.quiet;
        })

  -- The idle doroutine ends, as the scheduler is stopping.
  pub wake-Serves :
      (ran : List SchedulerTask) (s : Scheduler)
      → Serves ends i (at_phase in_idle) [] ran s
      → Serves ends i
          (record { tid = tid; phase = fetching; idle_term = true })
          []
          ran
          (act in_idle wakes s i (at_phase in_idle))
  unfolding act is_stopping
  wake-Serves ran s v =
      let e : is_stopping s ≡ true = ground (arith, v.stopping, v.tasks, v.active) in
      record {
        at =
            get-set_self s.workers i (at_phase in_idle)
              (record { tid = tid; phase = fetching; idle_term = is_stopping s }) v.at
            ∙ ap (λ b. some (record { tid = tid; phase = fetching; idle_term = b })) e;
        stopping = v.stopping;
        tasks = v.tasks;
        finished = v.finished;
        active = v.active;
        live = v.live;
        quiet = v.quiet;
      }

  -- An action of the thread, from a phase to a phase.
  pub advance-Serves :
      (ph : Phase) (w' : Worker) (ts ran us run : List SchedulerTask) (s : Scheduler)
      → Serves ends i (at_phase ph) ts ran s
      → Serves ends i w' us run (act ph (next_action ends ph) s i (at_phase ph))
      → Serves ends i w' us run (advance ends i s)
  advance-Serves ph w' ts ran us run s v v' =
      subst (Serves ends i w' us run) (sym (advances ph ts ran s v)) v'

  -- One task, in four actions.
  pub task-Serves :
      (t : SchedulerTask) (ts ran : List SchedulerTask) (s : Scheduler)
      → Serves ends i (at_phase fetching) (t ∷ ts) ran s
      → elsewhere tid t ≡ false
      → is_running (ends t) ≡ false
      → Serves ends i
          (at_phase fetching)
          ts
          (ran ++ t ∷ [])
          (advance ends i (advance ends i (advance ends i (advance ends i s))))
  task-Serves t ts ran s v here e =
      let s1 = advance ends i s in
      let s2 = advance ends i s1 in
      let s3 = advance ends i s2 in
      let v1 = advance-Serves fetching _ _ _ _ _ s v (fetch-Serves t ts ran s v here) in
      let v2 = advance-Serves (fetched t) _ _ _ _ _ s1 v1 (resume-Serves t ts ran s1 v1) in
      let v3 = advance-Serves (executing t) _ _ _ _ _ s2 v2 (yield-Serves t ts ran s2 v2 e) in
      advance-Serves (leaving t) _ _ _ _ _ s3 v3 (return-Serves t ts ran s3 v3)
