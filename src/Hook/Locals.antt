-- ===== src/Hook/Locals.antt =====
-- The thread-local variables st_hookEnable, st_scheduler and st_schedulerDoroutine of one thread, and
-- what a hooked sleep makes of them. Schedulers and doroutines are addresses.
pub mod Stays
use doroutine.Prelude.{
  ℕ, Bool, true, false, not, Option, none, some, List, [], ◌∷◌, ◌==◌, if◌then◌else◌,
}
use doroutine.Func.{Func}
use doroutine.Outcome.{Outcome, done, undefined, ◌>>=◌}
use doroutine.Timer.{TimerManager}
use doroutine.Hook.Sleep.{sleep}

pub record Locals : Type 0 where
  pub hook_enable : Bool
  pub scheduler : Option ℕ
  pub scheduler_doroutine : Option ℕ

-- How a thread begins.
abbrev pub new_locals : Locals
new_locals = record { hook_enable = false; scheduler = none; scheduler_doroutine = none }

-- What the constructor of a scheduler writes, with the root doroutine that it makes.
pub construct : (self root : ℕ) → Bool → Locals → Locals
construct self root use_caller l =
    if use_caller then record l { scheduler = some self; scheduler_doroutine = some root } else l

-- The start of Scheduler::run, in the root doroutine or in a thread with this main doroutine.
pub enter_run : (self main : ℕ) → Bool → Locals → Locals
enter_run self main in_root l = record {
  hook_enable = true;
  scheduler = some self;
  scheduler_doroutine = if in_root then l.scheduler_doroutine else some main;
}

-- `GetThis() == this`
abbrev pub is_this : ℕ → Option ℕ → Bool
is_this self none = false
is_this self (some s) = s == self

-- What the destructor writes.
pub destroy : ℕ → Locals → Locals
destroy self l =
    if is_this self l.scheduler
    then record l { scheduler = none; scheduler_doroutine = none }
    else l

-- What touches the variables of a thread, besides setHookEnable.
pub data Call : Type 0 where
  constructs : (self root : ℕ) (use_caller : Bool) → Call
  enters : (self main : ℕ) (in_root : Bool) → Call
  destroys : (self : ℕ) → Call

pub perform : Locals → Call → Locals
unfolding construct enter_run destroy
perform l (constructs self root use_caller) = construct self root use_caller l
perform l (enters self main in_root) = enter_run self main in_root l
perform l (destroys self) = destroy self l

pub run : Locals → List Call → Locals
unfolding perform
run l [] = l
run l (c ∷ cs) = run (perform l c) cs

module _ (is_io : ℕ → Bool) where
  -- IOManager::GetThis, where the dynamic_cast succeeds for just the IOManagers.
  pub get_this : Locals → Option ℕ
  get_this l = elim l.scheduler [ none ↦ none | some s ↦ if is_io s then some s else none ]

  -- sleep() in a thread with these variables, on the timers of its manager; none where it is the
  -- original call. `iom` is not tested for null.
  pub sleep_call :
      Locals → (ℕ → TimerManager) → (a now seconds : ℕ) → Func → Outcome (Option TimerManager)
  unfolding get_this
  sleep_call l timers a now seconds func =
      if not l.hook_enable then done none else elim (get_this l) [
        | none ↦ undefined
        | some s ↦ sleep (timers s) a now seconds func >>= λ m. done (some m)
      ]
