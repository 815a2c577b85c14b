-- ===== src/Log/Formatter.antt =====
-- LogFormatter and the FormatItem classes. The classes are the constructors of one type; the parse
-- loop of init() goes by the characters that are left, and its place in the loop body is a mode.
pub mod Parse
pub mod RoundTrip
use doroutine.Prelude.{
  ℕ, Bool, true, false, not, Option, none, some, List, [], ◌∷◌, ◌++◌, ◌==◌, if◌then◌else◌,
}
use doroutine.Outcome.{Outcome, done, undefined, ◌>>=◌}
use doroutine.Log.Level.{to_string}
use doroutine.Log.Event.{Text, codes, LogEvent, decimal}

pub data FormatItem : Type 0 where
  message level_name elapse_ms logger_name thread_id doroutine_id thread_name : FormatItem
  date_time : Text → FormatItem
  file_name line_number new_line : FormatItem
  text : Text → FormatItem
  tab percent_sign : FormatItem

abbrev pub default_date : Text
default_date = codes "%Y-%m-%d %H:%M:%S"

-- DateTimeFormatItem's constructor.
pub new_date_time : Text → FormatItem
new_date_time [] = date_time default_date
new_date_time (c ∷ cs) = date_time (c ∷ cs)

-- `strftime` of localtime_r is the C library's: a format and a time give a text.
module _ (strftime : Text → ℕ → Text) where
  pub format_item : LogEvent → FormatItem → Text
  format_item e message = e.content
  format_item e level_name = codes (to_string e.level)
  format_item e elapse_ms = decimal e.elapse
  format_item e logger_name = e.logger_name
  format_item e thread_id = decimal e.thread_id
  format_item e doroutine_id = decimal e.doroutine_id
  format_item e thread_name = e.thread_name
  format_item e (date_time format) = strftime format e.time
  format_item e file_name = e.file
  format_item e line_number = decimal e.line
  format_item e new_line = b'\n' ∷ []
  format_item e (text s) = s
  format_item e tab = b'\t' ∷ []
  format_item e percent_sign = b'%' ∷ []

  -- LogFormatter::format
  pub format : List FormatItem → LogEvent → Text
  unfolding format_item
  format [] e = []
  format (i ∷ is) e = format_item e i ++ format is e

-- `patterns`: plain text is kind 0, a directive's character is kind 1.
pub data Piece : Type 0 where
  plain : Text → Piece
  directive : ℕ → Piece

-- Where in the loop body the next character is read: as plain text, behind a %, right behind %d,
-- or inside the braces of %d{...}.
pub data Mode : Type 0 where
  in_text in_directive after_d in_braces : Mode

pub record Scan : Type 0 where
  pub mode : Mode
  pub tmp : Text
  pub dateformat : Text
  pub patterns : List Piece

abbrev pub new_scan : Scan
new_scan = record { mode = in_text; tmp = []; dateformat = []; patterns = [] }

-- `if(!tmp.empty()) patterns.push_back(...)`
abbrev pub flush : List Piece → Text → List Piece
flush ps [] = ps
flush ps (c ∷ cs) = ps ++ plain (c ∷ cs) ∷ []

abbrev pub read_text : ℕ → Scan → Scan
read_text c st =
    if c == b'%'
    then record st { mode = in_directive; tmp = []; patterns = flush st.patterns st.tmp }
    else record st { tmp = st.tmp ++ c ∷ [] }

abbrev pub read_directive : ℕ → Scan → Scan
read_directive c st = record st {
  mode = if c == b'd' then after_d else in_text;
  patterns = st.patterns ++ directive c ∷ [];
}

-- One character. Behind %d only a brace is taken; another character is read as text again.
pub read_char : Mode → ℕ → Scan → Scan
read_char in_text c st = read_text c st
read_char in_directive c st = read_directive c st
read_char after_d c st =
    if c == b'{' then record st { mode = in_braces } else read_text c (record st { mode = in_text })
read_char in_braces c st =
    if c == b'}'
    then record st { mode = in_text }
    else record st { dateformat = st.dateformat ++ c ∷ [] }

pub scan : Text → Scan → Scan
unfolding read_char
scan [] st = st
scan (c ∷ cs) st = scan cs (read_char st.mode c st)

-- The end of the pattern. Right behind %d the index has passed the end and m_pattern[i] is read;
-- inside braces m_pattern[m_pattern.size()] is '\0', so that they count as not closed.
pub finish : Mode → Scan → Outcome (Option Scan)
finish in_text st = done (some (record st { patterns = flush st.patterns st.tmp }))
finish in_directive st = done (some (record st { patterns = flush st.patterns st.tmp }))
finish after_d st = undefined
finish in_braces st = done none

-- s_format_items
pub lookup_item : ℕ → Option FormatItem
lookup_item c =
    if c == b'm'
    then some message
    else if c == b'p'
    then some level_name
    else if c == b'c'
    then some logger_name
    else if c == b'r'
    then some elapse_ms
    else if c == b'f'
    then some file_name
    else if c == b'l'
    then some line_number
    else if c == b't'
    then some thread_id
    else if c == b'F'
    then some doroutine_id
    else if c == b'N'
    then some thread_name
    else if c == b'%'
    then some percent_sign
    else if c == b'T'
    then some tab
    else if c == b'n'
    then some new_line
    else none

pub record LogFormatter : Type 0 where
  pub pattern : Text
  pub items : List FormatItem
  pub error : Bool

-- The loop over `patterns`, which stops at the first unknown directive.
pub build_items : Text → List Piece → List FormatItem × Bool
unfolding lookup_item new_date_time
build_items dateformat [] = ([], false)
build_items dateformat (plain s ∷ ps) =
    let (items, error) = build_items dateformat ps in (text s ∷ items, error)
build_items dateformat (directive c ∷ ps) =
    let (items, error) = build_items dateformat ps in
    if c == b'd'
    then (new_date_time dateformat ∷ items, error)
    else elim (lookup_item c) [ none ↦ ([], true) | some i ↦ (i ∷ items, error) ]

abbrev pub after_scan : Text → Option Scan → LogFormatter
after_scan pattern none = record { pattern = pattern; items = []; error = true }
after_scan pattern (some st) =
    let (items, error) = build_items st.dateformat st.patterns in
    record { pattern = pattern; items = items; error = error }

-- LogFormatter::LogFormatter and init().
pub new_formatter : Text → Outcome LogFormatter
unfolding scan finish build_items
new_formatter pattern =
    let st = scan pattern new_scan in finish st.mode st >>= λ r. done (after_scan pattern r)
