-- ===== src/Func.antt =====
-- The callbacks (std::function<void()>) that the timers and the scheduler keep, as data: which
-- closure each stands for. src/timer.cpp wraps one in OnTimer.
use doroutine.Prelude.{ℕ, Bool, Option, none, some, if◌then◌else◌}

pub data Func : Type 0 where
  -- A closure of the caller's.
  closure : ℕ → Func
  -- std::bind(OnTimer, weak_cond, func)
  on_timer : ℕ → Func → Func

-- Calling it: the closure that runs, if the conditions that guard it can still be locked.
unfoldable pub call : (ℕ → Bool) → Func → Option ℕ
call lock (closure c) = some c
call lock (on_timer weak_cond func) = if lock weak_cond then call lock func else none
