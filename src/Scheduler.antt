-- ===== src/Scheduler.antt =====
-- include/scheduler.h and src/scheduler.cpp. The worker threads interleave: each action below is a
-- piece of Scheduler::run, schedule or stop between two points at which another thread can act.
pub mod Queue
pub mod Counting
pub mod Invariant
pub mod Serving
pub mod Draining
pub mod Exclusion
pub mod Lifecycle
pub mod Caller
pub mod Joins
mod CallerExamples
pub mod Examples
mod ExclusionExamples
use doroutine.Prelude.{
  ℕ, suc, ◌+◌, ◌-◌, Bool, true, false, ◌&&◌, ◌||◌, not, Option, none, some, List, [], ◌∷◌, ◌++◌, ℤ,
  negsuc, ℤ-discrete, get_elem?, set, ◌==◌, if◌then◌else◌,
}
use doroutine.Func.{Func}
use doroutine.Doroutine.{State, ready, running, term, is_running, is_term}

-- Scheduler::SchedulerTask; the thread is -1 where any thread may run the task.
pub record SchedulerTask : Type 0 where
  pub doroutine : Option ℕ
  pub func : Option Func
  pub thread : ℤ

abbrev pub is_some {ℓ} : {A : Type ℓ} → Option A → Bool
is_some none = false
is_some (some a) = true

abbrev pub is_empty {ℓ} : {A : Type ℓ} → List A → Bool
is_empty [] = true
is_empty (x ∷ xs) = false

abbrev pub same_int : ℤ → ℤ → Bool
same_int a b = elim (ℤ-discrete a b) [ yes e ↦ true | no e ↦ false ]

-- What a thread is doing in the loop of run().
pub data Phase : Type 0 where
  -- About to take the lock and look for a task.
  fetching : Phase
  -- The lock is released and a task was taken, or none was.
  fetched : SchedulerTask → Phase
  no_task : Phase
  -- Inside resume() of the task's doroutine, or of the idle doroutine.
  executing : SchedulerTask → Phase
  -- The doroutine has set its state in yield(), and has not switched back yet.
  leaving : SchedulerTask → Phase
  -- The thread has run off the end of WorkFunc, where it ends: uc_link is null.
  lost : SchedulerTask → Phase
  in_idle : Phase
  exited : Phase

pub record Worker : Type 0 where
  pub tid : ℤ
  pub phase : Phase
  -- The state of idleDoroutine is TERM.
  pub idle_term : Bool

pub record Scheduler : Type 0 where
  pub tasks : List SchedulerTask
  pub active_thread_count : ℕ
  pub idle_thread_count : ℕ
  pub stopping : Bool
  pub workers : List Worker
  -- The state of each doroutine, by its address.
  pub states : ℕ → State
  -- How often tickle() was called, and the tasks that were queued and that were run, for the
  -- statements alone.
  pub tickles : ℕ
  pub queued : List SchedulerTask
  pub finished : List SchedulerTask

-- Scheduler::scheduleNoLock, with its result.
unfoldable pub schedule_no_lock : Scheduler → SchedulerTask → Scheduler × Bool
schedule_no_lock s t = (
  if is_some t.doroutine || is_some t.func
      then record s { tasks = s.tasks ++ t ∷ []; queued = s.queued ++ t ∷ [] }
      else s,
  is_empty s.tasks,
)

abbrev pub tickle : Bool → Scheduler → Scheduler
tickle needed s = record s { tickles = if needed then suc s.tickles else s.tickles }

unfoldable pub schedule : Scheduler → SchedulerTask → Scheduler
unfolding schedule_no_lock
schedule s t = let (s', need_tickle) = schedule_no_lock s t in tickle need_tickle s'

-- What the loop over m_tasks finds: the task that is taken, the tasks that stay, and tickleMe.
pub record Pick : Type 0 where
  pub task : Option SchedulerTask
  pub rest : List SchedulerTask
  pub tickle_me : Bool

abbrev pub elsewhere : ℤ → SchedulerTask → Bool
elsewhere tid t = not (same_int t.thread (negsuc 0)) && not (same_int t.thread tid)

abbrev pub is_busy : (ℕ → State) → SchedulerTask → Bool
is_busy states t = elim t.doroutine [ none ↦ false | some d ↦ is_running (states d) ]

abbrev pub is_ended : (ℕ → State) → SchedulerTask → Bool
is_ended states t = elim t.doroutine [ none ↦ false | some d ↦ is_term (states d) ]

pub pick : (ℕ → State) → ℤ → List SchedulerTask → Pick
pick states tid [] = record { task = none; rest = []; tickle_me = false }
pick states tid (t ∷ ts) =
    let later = pick states tid ts in
    let skipped = record later { rest = t ∷ later.rest } in
    if elsewhere tid t
    then record skipped { tickle_me = true }
    else (if is_busy states t
        then skipped
        else record { task = some t; rest = ts; tickle_me = not (is_empty ts) })

-- Scheduler::stopping
pub is_stopping : Scheduler → Bool
is_stopping s = s.stopping && is_empty s.tasks && s.active_thread_count == 0

abbrev pub set_worker : Scheduler → ℕ → Worker → Phase → Scheduler
set_worker s i w p = record s { workers = set s.workers i (record w { phase = p }) }

-- The locked part of the loop, and the tickle behind it.
pub fetch : Scheduler → ℕ → Worker → Scheduler
fetch s i w =
    let p = pick s.states w.tid s.tasks in
    let s' = tickle p.tickle_me (record s { tasks = p.rest }) in
    elim p.task [
      | none ↦ set_worker s' i w no_task
      | some t ↦
          set_worker (record s' { active_thread_count = suc s.active_thread_count }) i w (fetched t)
    ]

abbrev pub set_state : (ℕ → State) → Option ℕ → State → ℕ → State
set_state states none st d = states d
set_state states (some e) st d = if e == d then st else states d

-- What an action does to a worker in a phase; in any other phase it cannot happen.
pub data Action : Type 0 where
  -- run() takes the lock.
  fetches : Action
  -- resume() of the task's doroutine: its state becomes RUNNING, and the thread ends if it was TERM.
  resumes : Action
  -- The doroutine becomes READY in yield(), or at its end TERM.
  yields : State → Action
  -- It switches back, and --m_activeThreadCount.
  returns : Action
  -- No task: leave the loop if the idle doroutine is done, else ++m_idleThreadCount and resume it.
  idles : Action
  -- idle() reads stopping(), then yields or ends; --m_idleThreadCount.
  wakes : Action

unfoldable pub act : Phase → Action → Scheduler → ℕ → Worker → Scheduler
unfolding fetch is_stopping
act fetching fetches s i w = fetch s i w
act (fetched t) resumes s i w =
    set_worker (record s { states = set_state s.states t.doroutine running }) i w
      (if is_ended s.states t then lost t else executing t)
act (executing t) (yields st) s i w =
    set_worker (record s { states = set_state s.states t.doroutine st }) i w (leaving t)
act (leaving t) returns s i w =
    set_worker
      (record s {
        active_thread_count = s.active_thread_count - 1;
        finished = s.finished ++ t ∷ [];
      })
      i w fetching
act no_task idles s i w =
    if w.idle_term
    then set_worker s i w exited
    else set_worker (record s { idle_thread_count = suc s.idle_thread_count }) i w in_idle
act in_idle wakes s i w =
    set_worker (record s { idle_thread_count = s.idle_thread_count - 1 }) i
      (record w { idle_term = is_stopping s }) fetching
act _ _ s i w = s

pub data Event : Type 0 where
  schedules : SchedulerTask → Event
  -- stop() sets m_stopping.
  stops : Event
  worker : ℕ → Action → Event

unfoldable pub step : Scheduler → Event → Scheduler
unfolding schedule act
step s (schedules t) = schedule s t
step s stops = record s { stopping = true }
step s (worker i a) = elim (get_elem? s.workers i) [ none ↦ s | some w ↦ act w.phase a s i w ]

pub run : Scheduler → List Event → Scheduler
run s [] = s
run s (e ∷ es) = run (step s e) es

abbrev pub fresh_worker : ℤ → Worker
fresh_worker tid = record { tid = tid; phase = fetching; idle_term = false }

-- A scheduler whose threads have entered run().
unfoldable pub started : List Worker → Scheduler
started ws = record {
  tasks = [];
  active_thread_count = 0;
  idle_thread_count = 0;
  stopping = false;
  workers = ws;
  states = λ d. ready;
  tickles = 0;
  queued = [];
  finished = [];
}
