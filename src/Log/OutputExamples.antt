-- ===== src/Log/OutputExamples.antt =====
-- The theorems on appenders, loggers and their manager, with a stream in memory.
use doroutine.Prelude.{
  ℕ, ◌≡◌, refl, ◌<◌, ◌≤◌, Bool, true, false, none, [], ◌∷◌, All, ◌==◌, if◌then◌else◌, arith,
}
use doroutine.Log.Level.{error, warn, value}
use doroutine.Log.Event.{Text, codes}
use doroutine.Log.Formatter.{message, LogFormatter}
use doroutine.Log.Stream.{OfStream}
use doroutine.Log.Appender.{FileOut, to_stdout, to_file, Appender}
use doroutine.Log.Appender.Reopen.{file_logs, file_logs-stuck}
use doroutine.Log.Logger.{Logger, Site, new_event, World, log_level}
use doroutine.Log.Logger.Writes.{IsReady, lines, log_level-Writes}
use doroutine.Log.Manager.{LoggerManager, new_logger_manager, get_logger}
use doroutine.Log.Manager.Names.{IsValid, new_logger_manager-IsValid, get_logger-Returns}

abbrev opening : Text
opening = b'[' ∷ []

-- A stream in memory: whether it is open, and whether it is good.
abbrev memory_open : Bool × Bool → Bool × Bool
memory_open (true, g) = (true, false)
memory_open (false, g) = (true, true)

memory_open_twice : (s : Bool × Bool) → s.0 ≡ true → (memory_open s).1 ≡ false
memory_open_twice (true, g) h = refl
memory_open_twice (false, g) h = cc

memory_open_stays : (s : Bool × Bool) → (memory_open s).0 ≡ true
memory_open_stays (true, g) = refl
memory_open_stays (false, g) = refl

abbrev memory : OfStream
memory = record {
  State = Bool × Bool;
  fresh = (false, true);
  good = λ s. s.1;
  is_open = λ s. s.0;
  open_app = memory_open;
  close = λ s. (false, s.1);
  write = λ s text. s;
  open_app_twice = memory_open_twice;
  open_app_keeps = λ s h. memory_open_stays s;
  open_app_good = λ s h. memory_open_stays s;
  is_open-close = λ s. refl;
  is_open-write = λ s text. refl;
}

abbrev broken_file : FileOut memory
broken_file = record { stream = (true, false); last_time = 100; reopen_error = false }

file_logs-stuck_example :
    (file_logs memory broken_file ((104, opening) ∷ (200, opening) ∷ [])).1 ≡ []
file_logs-stuck_example =
    file_logs-stuck memory broken_file 104 opening ((200, opening) ∷ []) refl refl (omega arith)

abbrev good_file : FileOut memory
good_file = record { stream = (true, true); last_time = 100; reopen_error = false }

abbrev no_date : Text → ℕ → Text
no_date f t = []

abbrev short : LogFormatter
short = record { pattern = b'%' ∷ b'm' ∷ []; items = message ∷ []; error = false }

-- A logger with the console at 4 and a file at 5.
abbrev outputs : ℕ → Appender memory
outputs a = record {
  formatter = none;
  default_formatter = short;
  output = if a == 5 then to_file good_file else to_stdout;
}

abbrev world : World memory
world = record { appenders = outputs; sent = [] }

abbrev logger : Logger
logger = record { name = "system"; level = warn; appenders = 4 ∷ 5 ∷ []; create_time = 10 }

abbrev site : Site
site = record {
  file = codes "main.cpp";
  line = 7;
  elapsed_ms = 60;
  thread_id = 1;
  doroutine_id = 0;
  time = 101;
  thread_name = codes "main";
}

log_level-Writes_example :
    let e = new_event logger error site opening in
    let w' = log_level memory no_date world logger error site opening in
    (value logger.level < value error → w' ≡ world)
    × (value error ≤ value logger.level
        → All (IsReady memory no_date e world) (4 ∷ 5 ∷ [])
        → w'.sent ≡ lines memory no_date e world (4 ∷ 5 ∷ []))
log_level-Writes_example = log_level-Writes memory no_date world logger error site opening

get_logger-Returns_example :
    (m' : LoggerManager) × (a : ℕ) × (get_logger (new_logger_manager 3 4) "system" 9 ≡ (m', a))
    × IsValid m'
    × ((m'.store a).name ≡ "system")
get_logger-Returns_example =
    let r =
      get_logger-Returns (new_logger_manager 3 4) "system" 9 (new_logger_manager-IsValid 3 4) in
    (r.0, r.1, r.2, r.3, r.4)
