-- ===== src/Log/Logger.antt =====
-- Logger, LogEventWrap and the macros SYLAR_LOG_LEVEL. Appenders are shared, so that a logger keeps
-- their addresses.
pub mod Writes
use Prim.Native.String.{String}
use doroutine.Prelude.{
  ℕ, ◌==◌, Bool, Option, none, some, List, [], ◌∷◌, ◌++◌, ◌≡◌, refl, leb, if◌then◌else◌, update,
  sub64,
}
use doroutine.Log.Level.{Level, info, debug, fatal, value}
use doroutine.Log.Event.{Text, codes, LogEvent, printf}
use doroutine.Log.Stream.{OfStream}
use doroutine.Log.Appender.{Appender, append_event}

pub record Logger : Type 0 where
  pub name : String
  pub level : Level
  pub appenders : List ℕ
  pub create_time : ℕ

-- Logger::Logger, at a time.
unfoldable pub new_logger : String → ℕ → Logger
new_logger name now = record { name = name; level = info; appenders = []; create_time = now }

abbrev pub set_level : Logger → Level → Logger
set_level l level = record l { level = level }

unfoldable pub add_appender : Logger → ℕ → Logger
add_appender l a = record l { appenders = l.appenders ++ a ∷ [] }

-- The loop of delAppender, which erases the first one that is equal.
abbrev pub remove_first : ℕ → List ℕ → List ℕ
remove_first a [] = []
remove_first a (b ∷ bs) = if b == a then bs else b ∷ remove_first a bs

pub del_appender : Logger → ℕ → Logger
del_appender l a = record l { appenders = remove_first a l.appenders }

pub clear_appenders : Logger → Logger
clear_appenders l = record l { appenders = [] }

-- setLogLevelDebug, with the address of its new file appender, and setLogDisable, on the root logger.
pub set_log_level_debug : Logger → ℕ → Logger
unfolding add_appender
set_log_level_debug l a = set_level (add_appender l a) debug

pub set_log_disable : Logger → Logger
set_log_disable l = set_level l fatal

-- What the expression of a macro puts into its event, where it stands and when.
pub record Site : Type 0 where
  pub file : Text
  pub line : ℕ
  pub elapsed_ms : ℕ
  pub thread_id : ℕ
  pub doroutine_id : ℕ
  pub time : ℕ
  pub thread_name : Text

-- The LogEvent of a macro, once the content is streamed into it.
pub new_event : Logger → Level → Site → Text → LogEvent
new_event l level s content = record {
  level = level;
  content = content;
  file = s.file;
  line = s.line;
  elapse = sub64 s.elapsed_ms l.create_time;
  thread_id = s.thread_id;
  doroutine_id = s.doroutine_id;
  time = s.time;
  thread_name = s.thread_name;
  logger_name = codes l.name;
}

module _ (files : OfStream) where
  -- The appenders by address, and the texts that they have streamed, each with its appender.
  pub record World : Type 0 where
    pub appenders : ℕ → Appender files
    pub sent : List (ℕ × Text)

  module _ (strftime : Text → ℕ → Text) where
    -- `i->log(event)`
    pub send : World → ℕ → LogEvent → World
    send w a e =
        let (a', text) = append_event files strftime (w.appenders a) e in
        record {
          appenders = update w.appenders a a';
          sent = elim text [ none ↦ w.sent | some s ↦ w.sent ++ (a, s) ∷ [] ];
        }

    pub log_all : World → List ℕ → LogEvent → World
    unfolding send
    log_all w [] e = w
    log_all w (a ∷ as') e = log_all (send w a e) as' e

    -- Logger::log
    pub log : World → Logger → LogEvent → World
    unfolding log_all
    log w l e = if leb (value e.level) (value l.level) then log_all w l.appenders e else w

    -- SYLAR_LOG_LEVEL(logger, level) << content; LogEventWrap logs as it is destroyed.
    pub log_level : World → Logger → Level → Site → Text → World
    unfolding log new_event
    log_level w l level s content =
        if leb (value level) (value l.level) then log w l (new_event l level s content) else w

    -- SYLAR_LOG_FMT_LEVEL(logger, level, fmt, args).
    pub log_fmt_level :
        {Args : Type 0}
        → (vasprintf : Text → Args → Option Text) → World
        → Logger
        → Level
        → Site
        → Text
        → Args
        → World
    unfolding log new_event printf
    log_fmt_level vasprintf w l level s fmt args =
        if leb (value level) (value l.level)
        then log w l (printf vasprintf (new_event l level s []) fmt args)
        else w

    -- It logs as the other macro does, the formatted text or, where that failed, nothing.
    log_fmt_level_lem :
        {Args : Type 0}
        → (vasprintf : Text → Args → Option Text) → (w : World) → (l : Logger) → (level : Level)
        → (s : Site) → (fmt : Text) → (args : Args)
        → ((text : Text)
            → vasprintf fmt args ≡ some text
            → log_fmt_level vasprintf w l level s fmt args ≡ log_level w l level s text)
          × (vasprintf fmt args ≡ none
              → log_fmt_level vasprintf w l level s fmt args ≡ log_level w l level s [])
    unfolding log_fmt_level log_level printf new_event
    log_fmt_level_lem vasprintf w l level s fmt args =
        (λ text e. rw (e, printf) refl, λ e. rw (e, printf) refl)
