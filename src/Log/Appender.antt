-- ===== src/Log/Appender.antt =====
-- LogAppender, StdoutLogAppender and FileLogAppender.
pub mod Reopen
use doroutine.Prelude.{
  ℕ, ◌+◌, Bool, true, false, not, Option, none, some, leb, if◌then◌else◌, add64,
}
use doroutine.Log.Event.{Text, LogEvent}
use doroutine.Log.Formatter.{LogFormatter, format}
use doroutine.Log.Stream.{OfStream}

module _ (files : OfStream) where
  open files use {State, fresh, good, open_app, close, write}

  -- The members of FileLogAppender; the name of the file is the stream's.
  pub record FileOut : Type 0 where
    pub stream : State
    pub last_time : ℕ
    pub reopen_error : Bool

  -- The subclass.
  pub data Output : Type 0 where
    to_stdout : Output
    to_file : FileOut → Output

  pub record Appender : Type 0 where
    pub formatter : Option LogFormatter
    pub default_formatter : LogFormatter
    pub output : Output

  -- LogAppender::setFormatter; a null pointer unsets it.
  pub set_formatter : Appender → Option LogFormatter → Appender
  set_formatter a val = record a { formatter = val }

  abbrev pub get_formatter : Appender → LogFormatter
  get_formatter a = elim a.formatter [ none ↦ a.default_formatter | some f ↦ f ]

  -- FileLogAppender::reopen
  pub reopen : FileOut → FileOut
  reopen f =
      let closed = if good f.stream then close f.stream else f.stream in
      let opened = open_app closed in record f { stream = opened; reopen_error = not (good opened) }

  pub new_stdout_appender : LogFormatter → Appender
  new_stdout_appender f = record { formatter = none; default_formatter = f; output = to_stdout }

  pub new_file_appender : LogFormatter → Appender
  unfolding reopen
  new_file_appender f = record {
    formatter = none;
    default_formatter = f;
    output = to_file (reopen (record { stream = fresh; last_time = 0; reopen_error = false }));
  }

  -- The first part of FileLogAppender::log: a new opening three seconds after the last one.
  pub refresh : FileOut → ℕ → FileOut
  unfolding reopen
  refresh f now = if leb (add64 f.last_time 3) now then record (reopen f) { last_time = now } else f

  -- FileLogAppender::log of a formatted text, with the text if it was streamed.
  pub file_log : FileOut → ℕ → Text → FileOut × Option Text
  unfolding refresh
  file_log f now text =
      let f' = refresh f now in
      if f'.reopen_error
      then (f', none)
      else (record f' { stream = write f'.stream text }, some text)

  module _ (strftime : Text → ℕ → Text) where
    -- The text of an event by the appender's formatter.
    abbrev pub text_of : Appender → LogEvent → Text
    text_of a e = format strftime (get_formatter a).items e

    -- log() of either subclass.
    unfoldable pub log_out : Output → ℕ → Text → Output × Option Text
    unfolding file_log
    log_out to_stdout now text = (to_stdout, some text)
    log_out (to_file f) now text = let (f', sent) = file_log f now text in (to_file f', sent)

    unfoldable pub append_event : Appender → LogEvent → Appender × Option Text
    unfolding log_out
    append_event a e =
        let (o, sent) = log_out a.output e.time (text_of a e) in (record a { output = o }, sent)
