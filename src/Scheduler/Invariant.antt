-- ===== src/Scheduler/Invariant.antt =====
-- The counters of the scheduler, and that it loses no task and runs none twice.
use doroutine.Prelude.{
  ℕ, ◌+◌, ◌≡◌, refl, sym, inl, inr, Bool, true, false, some, List, [], ◌∷◌, ℤ, All, get_elem?, set,
  if◌then◌else◌, if_true, if_false, Bool-cases, Option-cases, arith,
}
use doroutine.Scheduler.{
  SchedulerTask, Phase, fetching, fetched, no_task, executing, leaving, lost, in_idle, exited,
  Worker, Scheduler, schedule, is_ended, pick, fetch, is_stopping, Action, fetches, resumes, yields,
  returns, idles, wakes, act, Event, schedules, stops, worker, step, run, fresh_worker, started,
}
use doroutine.Scheduler.Counting.{count, sum, count-append, sum-set, All-set, All-get, count-pick}

-- Whether a worker has a task in its hands, one that satisfies a test, or is in the idle doroutine.
abbrev pub held : (SchedulerTask → Bool) → Phase → ℕ
held p (fetched t) = if p t then 1 else 0
held p (executing t) = if p t then 1 else 0
held p (leaving t) = if p t then 1 else 0
held p (lost t) = if p t then 1 else 0
held p _ = 0

abbrev pub idling : Phase → ℕ
idling in_idle = 1
idling _ = 0

abbrev pub has_left : Phase → Bool
has_left exited = true
has_left _ = false

-- A worker's idle doroutine ends, and the worker leaves, only once the scheduler is stopping.
abbrev pub IsLoyal : Bool → Worker → Type 0
IsLoyal stopping w =
    (w.idle_term ≡ true → stopping ≡ true) × (has_left w.phase ≡ true → w.idle_term ≡ true)

pub record IsValid (s : Scheduler) : Type 0 where
  -- m_activeThreadCount is the number of threads that hold a task, m_idleThreadCount that of those
  -- in the idle doroutine.
  pub active : s.active_thread_count ≡ sum (λ w. held (λ t. true) w.phase) s.workers
  pub idle : s.idle_thread_count ≡ sum (λ w. idling w.phase) s.workers
  -- As multisets: the tasks that were queued are those in the queue, in a thread's hands and run.
  pub conserved :
      (p : SchedulerTask → Bool)
      → count p s.queued
        ≡ count p s.tasks + sum (λ w. held p w.phase) s.workers + count p s.finished
  pub loyal : All (IsLoyal s.stopping) s.workers

abbrev any_task : SchedulerTask → Bool
any_task t = true

-- A step of one worker keeps the invariant where the counters and the queue change as its phase does.
module _ (s s' : Scheduler) (i : ℕ) (w w' : Worker) (v : IsValid s)
    (at : get_elem? s.workers i ≡ some w) (ws : s'.workers ≡ set s.workers i w') where
  moves-IsValid :
      s'.active_thread_count + held any_task w.phase
        ≡ s.active_thread_count + held any_task w'.phase
      → s'.idle_thread_count + idling w.phase ≡ s.idle_thread_count + idling w'.phase
      → s'.queued ≡ s.queued
      → ((p : SchedulerTask → Bool)
          → count p s'.tasks + held p w'.phase + count p s'.finished
            ≡ count p s.tasks + held p w.phase + count p s.finished)
      → s'.stopping ≡ s.stopping
      → IsLoyal s.stopping w'
      → IsValid s'
  moves-IsValid a d q c st l = record {
    active =
        rw ws (omega (arith, v.active, sum-set (λ w. held any_task w.phase) s.workers i w w' at));
    idle = rw ws (omega (arith, v.idle, sum-set (λ w. idling w.phase) s.workers i w w' at));
    conserved = λ p.
        rw (ws, q)
          (omega (arith, v.conserved p, c p, sum-set (λ w. held p w.phase) s.workers i w w' at));
    loyal = rw (ws, st) (All-set (IsLoyal s.stopping) s.workers i w' v.loyal l);
  }

fetch-IsValid :
    (s : Scheduler) (i : ℕ) (w : Worker)
    → IsValid s
    → get_elem? s.workers i ≡ some w
    → w.phase ≡ fetching
    → IsValid (fetch s i w)
unfolding fetch
fetch-IsValid s i w v at ph =
    let loyal = All-get (IsLoyal s.stopping) s.workers i w v.loyal at in
    elim (Option-cases (pick s.states w.tid s.tasks).task) [
      | inl e ↦
          moves-IsValid s _ i w (record w { phase = no_task }) v at (ground arith) (ground arith)
            (ground arith) (ground arith) (λ p. ground (arith, count-pick s.states w.tid p s.tasks))
            (ground arith) (loyal.0, λ h. cc)
      | inr (t, e) ↦
          moves-IsValid s _ i w (record w { phase = fetched t }) v at (ground arith) (ground arith)
            (ground arith) (ground arith) (λ p. ground (arith, count-pick s.states w.tid p s.tasks))
            (ground arith) (loyal.0, λ h. cc)
    ]

act-IsValid :
    (ph : Phase) (a : Action) (s : Scheduler) (i : ℕ) (w : Worker)
    → IsValid s
    → get_elem? s.workers i ≡ some w
    → w.phase ≡ ph
    → IsValid (act ph a s i w)
unfolding act
act-IsValid fetching fetches s i w v at ph = fetch-IsValid s i w v at ph
act-IsValid (fetched t) resumes s i w v at ph = elim (Bool-cases (is_ended s.states t)) [
  | inl e ↦ rw (if_true _ _ e) (
      moves-IsValid s _ i w (record w { phase = lost t }) v at refl (ground arith) (ground arith)
        refl (λ p. ground arith) refl
        ((All-get (IsLoyal s.stopping) s.workers i w v.loyal at).0, λ h. cc))
  | inr e ↦ rw (if_false _ _ e) (
      moves-IsValid s _ i w (record w { phase = executing t }) v at refl (ground arith)
        (ground arith) refl (λ p. ground arith) refl
        ((All-get (IsLoyal s.stopping) s.workers i w v.loyal at).0, λ h. cc))
]
act-IsValid (executing t) (yields st) s i w v at ph =
    moves-IsValid s _ i w (record w { phase = leaving t }) v at refl (ground arith) (ground arith)
      refl (λ p. ground arith) refl
      ((All-get (IsLoyal s.stopping) s.workers i w v.loyal at).0, λ h. cc)
act-IsValid (leaving t) returns s i w v at ph =
    moves-IsValid s _ i w (record w { phase = fetching }) v at refl
      (ground (
        arith,
        v.active,
        sum-set (λ w. held any_task w.phase) s.workers i w (record w { phase = fetching }) at,
      ))
      (ground arith) refl (λ p. ground (arith, count-append p s.finished (t ∷ []))) refl
      ((All-get (IsLoyal s.stopping) s.workers i w v.loyal at).0, λ h. cc)
act-IsValid no_task idles s i w v at ph =
    let loyal = All-get (IsLoyal s.stopping) s.workers i w v.loyal at in
    elim (Bool-cases w.idle_term) [
      | inl e ↦ rw (if_true _ _ e) (
          moves-IsValid s _ i w (record w { phase = exited }) v at refl (ground arith)
            (ground arith) refl (λ p. ground arith) refl (loyal.0, λ h. e))
      | inr e ↦ rw (if_false _ _ e) (
          moves-IsValid s _ i w (record w { phase = in_idle }) v at refl (ground arith)
            (ground arith) refl (λ p. ground arith) refl (loyal.0, λ h. cc))
    ]
act-IsValid in_idle wakes s i w v at ph =
    moves-IsValid s _ i w (record w { idle_term = is_stopping s; phase = fetching }) v at refl
      (ground arith)
      (ground (
        arith,
        v.idle,
        sum-set (λ w. idling w.phase) s.workers i w (record w { phase = fetching }) at,
      ))
      refl (λ p. ground arith) refl (λ h. ground arith, λ h. cc)
act-IsValid _ _ s i w v at ph = v

schedule-IsValid : (s : Scheduler) (t : SchedulerTask) → IsValid s → IsValid (schedule s t)
unfolding schedule
schedule-IsValid s t v = record {
  active = ground (arith, v.active);
  idle = ground (arith, v.idle);
  conserved = λ p.
      ground
        (arith, v.conserved p, count-append p s.tasks (t ∷ []), count-append p s.queued (t ∷ []));
  loyal = ground (arith, v.loyal);
}

All-IsLoyal : (b : Bool) (ws : List Worker) → All (IsLoyal b) ws → All (IsLoyal true) ws
All-IsLoyal b [] h = tt
All-IsLoyal b (w ∷ ws) h = ((λ e. refl, h.0.1), All-IsLoyal b ws h.1)

-- Every event, of any thread in any phase, keeps the counters and the tasks in balance.
pub step-IsValid : (s : Scheduler) (e : Event) → IsValid s → IsValid (step s e)
unfolding step
step-IsValid s (schedules t) v = schedule-IsValid s t v
step-IsValid s stops v = record {
  active = v.active;
  idle = v.idle;
  conserved = v.conserved;
  loyal = All-IsLoyal s.stopping s.workers v.loyal;
}
step-IsValid s (worker i a) v = elim (Option-cases (get_elem? s.workers i)) [
  | inl e ↦ rw (e, step) v
  | inr (w, e) ↦ rw (e, step) (act-IsValid w.phase a s i w v e refl)
]

run-IsValid : (s : Scheduler) (es : List Event) → IsValid s → IsValid (run s es)
unfolding run
run-IsValid s [] v = v
run-IsValid s (e ∷ es) v = run-IsValid (step s e) es (step-IsValid s e v)

abbrev pub fresh_workers : List ℤ → List Worker
fresh_workers [] = []
fresh_workers (tid ∷ tids) = fresh_worker tid ∷ fresh_workers tids

fresh_sums :
    (tids : List ℤ) (p : SchedulerTask → Bool)
    → (sum (λ w. held p w.phase) (fresh_workers tids) ≡ 0)
      × (sum (λ w. idling w.phase) (fresh_workers tids) ≡ 0)
      × All (IsLoyal false) (fresh_workers tids)
fresh_sums [] p = (refl, refl, tt)
fresh_sums (tid ∷ tids) p =
    let (a, b, c) = fresh_sums tids p in
    (omega (arith, a), omega (arith, b), ((λ e. cc, λ e. cc), c))

started-IsValid : (tids : List ℤ) → IsValid (started (fresh_workers tids))
unfolding started
started-IsValid tids = record {
  active = sym (fresh_sums tids any_task).0;
  idle = sym (fresh_sums tids any_task).1;
  conserved = λ p. omega (arith, (fresh_sums tids p).0);
  loyal = (fresh_sums tids any_task).2;
}

-- After any interleaving of any number of threads the counters are right, and as multisets the
-- tasks that were queued are those still in the queue, those in a thread's hands and those that
-- were run: none is lost and none is run twice. A thread that has ended inside resume(), of a
-- doroutine that was TERM, counts as one that has the task in its hands.
pub run-conserves :
    (tids : List ℤ) (es : List Event)
    → let s = run (started (fresh_workers tids)) es in
      (s.active_thread_count ≡ sum (λ w. held (λ t. true) w.phase) s.workers)
      × (s.idle_thread_count ≡ sum (λ w. idling w.phase) s.workers)
      × ((p : SchedulerTask → Bool)
          → count p s.queued
            ≡ count p s.tasks + sum (λ w. held p w.phase) s.workers + count p s.finished)
run-conserves tids es =
    let v = run-IsValid _ es (started-IsValid tids) in (v.active, v.idle, v.conserved)

-- A thread leaves run() only after stop() was called.
pub exited_after_stop :
    (tids : List ℤ) (es : List Event) (i : ℕ) (w : Worker)
    → let s = run (started (fresh_workers tids)) es in
      get_elem? s.workers i ≡ some w → has_left w.phase ≡ true → s.stopping ≡ true
exited_after_stop tids es i w e h =
    let v = run-IsValid _ es (started-IsValid tids) in
    let (stays, leaves) = All-get (IsLoyal _) _ i w v.loyal e in stays (leaves h)
