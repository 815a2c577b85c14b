-- ===== src/Doroutine.antt =====
-- include/doroutine.h and src/doroutine.cpp: the coroutines of one thread. A doroutine is known by
-- its address. getcontext, makecontext and swapcontext are the C library's; what the code relies on
-- is that a context goes on where it was saved, on the stack that it was saved on.
pub mod Machine
pub mod Swaps
pub mod Coroutines
pub mod Nested
mod Examples
use doroutine.Prelude.{
  ℕ, suc, ◌-◌, ◌%◌, ◌^◌, Bool, true, false, Option, none, some, List, [], ◌∷◌, ◌==◌, if◌then◌else◌,
  update,
}
use doroutine.Func.{Func}
use doroutine.Outcome.{Outcome, done, undefined, ◌>>=◌}

-- Doroutine::State
pub data State : Type 0 where
  ready running term : State

abbrev pub is_running : State → Bool
is_running running = true
is_running _ = false

abbrev pub is_term : State → Bool
is_term term = true
is_term _ = false

-- Where a context goes on: at the start of WorkFunc, behind a swapcontext, or behind the last yield
-- of WorkFunc, where the function returns and, uc_link being null, the thread ends.
pub data Point : Type 0 where
  entry midway over : Point

-- The stack is named by its doroutine, the thread's own by the main doroutine.
pub record Context : Type 0 where
  pub stack : ℕ
  pub point : Point

pub record Doroutine : Type 0 where
  pub id : ℕ
  pub state : State
  pub stack_size : ℕ
  -- m_stack is not null.
  pub has_stack : Bool
  pub run_in_scheduler : Bool
  pub func : Option Func
  pub ctx : Context

-- A thread: the doroutines, the counters s_doroutineId and s_doroutineCount, the thread-local
-- pointers st_threadCurdoroutine, st_threadMainDoroutine and st_schedulerDoroutine, and the stack
-- that it executes on, none once it has ended.
pub record Thread : Type 0 where
  pub doroutines : ℕ → Doroutine
  pub next_id : ℕ
  pub count : ℕ
  pub current : Option ℕ
  pub main : Option ℕ
  pub scheduler : Option ℕ
  pub on : Option ℕ

abbrev pub put : Thread → ℕ → Doroutine → Thread
put t a d = record t { doroutines = update t.doroutines a d }

-- Doroutine::Doroutine(), of the main doroutine.
pub new_main : Thread → ℕ → Thread
new_main t a = record t {
  doroutines = update t.doroutines a (record {
    id = t.next_id;
    state = running;
    stack_size = 0;
    has_stack = false;
    run_in_scheduler = false;
    func = none;
    ctx = record { stack = a; point = midway };
  });
  next_id = suc t.next_id;
  count = suc t.count;
}

-- Doroutine::Doroutine(func, stackSize, runInScheduler); m_stackSize is a uint32_t.
pub new_doroutine : Thread → ℕ → Func → ℕ → Bool → Thread
new_doroutine t a func stack_size run_in_scheduler = record t {
  doroutines = update t.doroutines a (record {
    id = t.next_id;
    state = ready;
    stack_size = if stack_size == 0 then 131072 else stack_size % 2 ^ 32;
    has_stack = true;
    run_in_scheduler = run_in_scheduler;
    func = some func;
    ctx = record { stack = a; point = entry };
  });
  next_id = suc t.next_id;
  count = suc t.count;
}

-- Doroutine::~Doroutine
pub destroy : Thread → ℕ → Thread
destroy t a = record t {
  count = t.count - 1;
  current = if (t.doroutines a).has_stack then t.current else none;
}

-- Doroutine::threadMainDoroutineInit
pub thread_main_init : Thread → ℕ → Thread
unfolding new_main
thread_main_init t a = record (new_main t a) { current = some a; main = some a }

-- Doroutine::GetThisId
pub get_this_id : Thread → ℕ
get_this_id t = elim t.current [ none ↦ 0 | some a ↦ (t.doroutines a).id ]

-- The start of a worker thread in Scheduler::run: its main doroutine is the scheduler's too.
pub worker_start : Thread → ℕ → Thread
unfolding thread_main_init
worker_start t a = let t' = thread_main_init t a in record t' { scheduler = t'.main; on = some a }

-- swapcontext(&from->m_ctx, &to->m_ctx) on the stack `here`, whose code goes on at a point when
-- the context that is saved is restored.
abbrev pub arrive : Thread → Context → Thread
arrive t c = record t { on = elim c.point [ over ↦ none | _ ↦ some c.stack ] }

pub swap : Thread → (here from to : ℕ) → Point → Thread
swap t here from to point =
    let saved =
      put t from (record (t.doroutines from) { ctx = record { stack = here; point = point } }) in
    arrive saved (saved.doroutines to).ctx

-- The doroutine on the other side of a swap: the scheduler's or the thread's main one.
abbrev pub home : Thread → ℕ → Option ℕ
home t a = if (t.doroutines a).run_in_scheduler then t.scheduler else t.main

-- Doroutine::resume; the pointer to the other side is not tested for null.
pub resume : Thread → (here a : ℕ) → Outcome Thread
unfolding swap
resume t here a =
    let t' = put (record t { current = some a }) a (record (t.doroutines a) { state = running }) in
    elim (home t a) [ none ↦ undefined | some h ↦ done (swap t' here h a midway) ]

-- Doroutine::yield, at a point of the code.
pub yield_at : Thread → (here a : ℕ) → Point → Outcome Thread
unfolding swap
yield_at t here a point =
    let d = t.doroutines a in
    let t' =
      put (record t { current = t.main }) a
        (record d { state = if is_term d.state then term else ready }) in
    elim (home t a) [ none ↦ undefined | some h ↦ done (swap t' here a h point) ]

-- Doroutine::reset, which logs a missing stack and a state that is not TERM, and goes on.
pub reset : Thread → ℕ → Func → Thread
reset t a func = put t a (record (t.doroutines a) {
  func = some func;
  ctx = record { stack = a; point = entry };
  state = ready;
})

-- The end of WorkFunc, whose `curDoroutine` is the doroutine of the stack.
pub finish : Thread → ℕ → Outcome Thread
unfolding yield_at
finish t here =
    yield_at (put t here (record (t.doroutines here) { func = none; state = term })) here here over

-- What the code that executes does next: `p->resume()`, `GetThis()->yield()`, the return of the
-- function that WorkFunc has called, `p->reset(func)`, or a new doroutine.
pub data Event : Type 0 where
  resumes : ℕ → Event
  yields finishes : Event
  resets : ℕ → Func → Event
  creates : ℕ → Func → ℕ → Bool → Event

abbrev pub step_on : ℕ → Thread → Event → Outcome Thread
step_on here t (resumes a) = resume t here a
step_on here t yields = elim t.current [ none ↦ undefined | some a ↦ yield_at t here a midway ]
step_on here t finishes = finish t here
step_on here t (resets a func) = done (reset t a func)
step_on here t (creates a func size in_scheduler) = done (new_doroutine t a func size in_scheduler)

-- A thread that has ended executes nothing.
abbrev pub step_from : Option ℕ → Thread → Event → Outcome Thread
step_from none t e = done t
step_from (some here) t e = step_on here t e

pub step : Thread → Event → Outcome Thread
unfolding resume yield_at finish reset new_doroutine
step t e = step_from t.on t e

pub run : Thread → List Event → Outcome Thread
unfolding step
run t [] = done t
run t (e ∷ es) = step t e >>= λ t'. run t' es
