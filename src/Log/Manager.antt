-- ===== src/Log/Manager.antt =====
-- LoggerManager: the loggers by name, and the root logger.
pub mod Names
use Prim.Native.String.{String}
use text.Mathlib.Text.{◌==◌ as str_eq}
use doroutine.Prelude.{ℕ, suc, Option, none, some, List, [], ◌∷◌, ◌++◌, if◌then◌else◌, update}
use doroutine.Log.Logger.{Logger, new_logger, add_appender}

-- The loggers are shared, and known by their addresses; `next` is that of the next new one.
pub record LoggerManager : Type 0 where
  pub loggers : List (String × ℕ)
  pub root : ℕ
  pub store : ℕ → Logger
  pub next : ℕ

-- `m_loggers.find(name)`
pub find : String → List (String × ℕ) → Option ℕ
find name [] = none
find name ((k, a) ∷ ls) = if str_eq k name then some a else find name ls

-- LoggerManager::LoggerManager, with the address of the StdoutLogAppender.
pub new_logger_manager : ℕ → ℕ → LoggerManager
unfolding new_logger add_appender
new_logger_manager now stdout = record {
  loggers = ("root", 0) ∷ [];
  root = 0;
  store = λ a. add_appender (new_logger "root" now) stdout;
  next = 1;
}

-- LoggerManager::getLogger
pub get_logger : LoggerManager → String → ℕ → LoggerManager × ℕ
unfolding find new_logger
get_logger m name now = elim (find name m.loggers) [
  | some a ↦ (m, a)
  | none ↦ (
    record m {
      loggers = m.loggers ++ (name, m.next) ∷ [];
      store = update m.store m.next (new_logger name now);
      next = suc m.next;
    },
    m.next,
  )
]
