-- ===== src/Log/Event.antt =====
-- LogEvent and the printing of its numbers. Texts are lists of bytes.
use doroutine.Prelude.{
  ℕ, Option, none, some, zero, suc, ◌+◌, ◌/◌, ◌%◌, List, [], ◌∷◌, ◌++◌, ltb, if◌then◌else◌,
}
use doroutine.Log.Level.{Level}
use Prim.Native.Char.{code}
use Prim.Native.String.{String}

abbrev pub Text : Type 0
Text = List ℕ

-- The bytes of an ASCII text.
abbrev pub codes : String → Text
codes String.[] = []
codes (String.◌∷◌ c s) = code c ∷ codes s

-- m_ss is the text that was streamed into the event.
pub record LogEvent : Type 0 where
  pub level : Level
  pub content : Text
  pub file : Text
  pub line : ℕ
  pub elapse : ℕ
  pub thread_id : ℕ
  pub doroutine_id : ℕ
  pub time : ℕ
  pub thread_name : Text
  pub logger_name : Text

-- `os << n` of an unsigned number. Each round divides by ten, so n + 1 rounds are enough.
pub digits_of : ℕ → ℕ → Text
digits_of zero n = []
digits_of (suc fuel) n =
    let rest = digits_of fuel (n / 10) in
    if ltb n 10 then (b'0' + n) ∷ [] else rest ++ (b'0' + n % 10) ∷ []

unfoldable pub decimal : ℕ → Text
unfolding digits_of
decimal n = digits_of (suc n) n

-- LogEvent::printf and vprintf, over vasprintf, which gives none where it returns -1.
unfoldable pub printf :
    {Args : Type 0} → (vasprintf : Text → Args → Option Text) → LogEvent → Text → Args → LogEvent
printf vasprintf e fmt args = elim (vasprintf fmt args) [
  | none ↦ e
  | some text ↦ record e { content = e.content ++ text }
]
