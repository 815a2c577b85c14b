-- ===== src/Log/Level.antt =====
-- LogLevel: the severities, their numbers and names.
use text.Mathlib.Text.{◌==◌ as str_eq}
use text.Mathlib.TextEquality.{eq_iff}
use doroutine.Prelude.{
  ℕ, ◌≡◌, refl, ◌≢◌, ◌⊎◌, inl, inr, List, [], ◌∷◌, All, Bool-cases, if◌then◌else◌,
}
use Prim.Native.String.{String}

pub data Level : Type 0 where
  fatal alert crit error warn notice info debug notset : Level

pub value : Level → ℕ
value fatal = 0
value alert = 100
value crit = 200
value error = 300
value warn = 400
value notice = 500
value info = 600
value debug = 700
value notset = 800

pub to_string : Level → String
to_string fatal = "FATAL"
to_string alert = "ALERT"
to_string crit = "CRIT"
to_string error = "ERROR"
to_string warn = "WARN"
to_string notice = "NOTICE"
to_string info = "INFO"
to_string debug = "DEBUG"
to_string notset = "NOTSET"

-- The chain of `if(str == #v) { return LogLevel::level; }`.
pub read_names : List (String × Level) → String → Level
read_names [] s = notset
read_names ((name, level) ∷ names) s = if str_eq s name then level else read_names names s

abbrev pub level_names : List (String × Level)
level_names =
    ("fatal", fatal)
    ∷ ("alert", alert)
    ∷ ("crit", crit)
    ∷ ("error", error)
    ∷ ("warn", warn)
    ∷ ("notice", notice)
    ∷ ("info", info)
    ∷ ("debug", debug)
    ∷ ("FATAL", fatal)
    ∷ ("ALERT", alert)
    ∷ ("CRIT", crit)
    ∷ ("ERROR", error)
    ∷ ("WARN", warn)
    ∷ ("NOTICE", notice)
    ∷ ("INFO", info)
    ∷ ("DEBUG", debug)
    ∷ []

pub from_string : String → Level
unfolding read_names
from_string s = read_names level_names s

-- The names in lower case, which FromString also reads.
pub lower_name : Level → String
lower_name fatal = "fatal"
lower_name alert = "alert"
lower_name crit = "crit"
lower_name error = "error"
lower_name warn = "warn"
lower_name notice = "notice"
lower_name info = "info"
lower_name debug = "debug"
lower_name notset = "NOTSET"

-- A text is one of the two spellings of a level.
abbrev pub Spells : Level → String → Type 0
Spells l s = (s ≡ to_string l) ⊎ (s ≡ lower_name l)

read_names-Spells :
    (names : List (String × Level)) (s : String)
    → All (λ n. Spells n.1 n.0) names
    → read_names names s ≢ notset
    → Spells (read_names names s) s
unfolding read_names
read_names-Spells [] s h n = absurd (n refl)
read_names-Spells ((name, level) ∷ names) s h n = elim (Bool-cases (str_eq s name)) [
  | inl e ↦ rw e (rw ((eq_iff s name).0 e) h.0)
  | inr e ↦ rw e (read_names-Spells names s h.1 (rw e at n))
]

level_names-Spell : All (λ n. Spells n.1 n.0) level_names
unfolding to_string lower_name
level_names-Spell = (
  inr refl,
  (
    inr refl,
    (
      inr refl,
      (
        inr refl,
        (
          inr refl,
          (
            inr refl,
            (
              inr refl,
              (
                inr refl,
                (
                  inl refl,
                  (
                    inl refl,
                    (inl refl, (inl refl, (inl refl, (inl refl, (inl refl, (inl refl, tt)))))),
                  ),
                ),
              ),
            ),
          ),
        ),
      ),
    ),
  ),
)

reads_both : (l : Level) → (from_string (to_string l) ≡ l) × (from_string (lower_name l) ≡ l)
unfolding from_string to_string lower_name
reads_both fatal = (refl, refl)
reads_both alert = (refl, refl)
reads_both crit = (refl, refl)
reads_both error = (refl, refl)
reads_both warn = (refl, refl)
reads_both notice = (refl, refl)
reads_both info = (refl, refl)
reads_both debug = (refl, refl)
reads_both notset = (refl, refl)

-- FromString reads back every level from the text that ToString gives and from the text in lower
-- case, and it reads no other text as a level: anything else is NOTSET.
pub from_string_lem :
    (l : Level) (s : String)
    → (from_string (to_string l) ≡ l)
      × (from_string (lower_name l) ≡ l)
      × (from_string s ≢ notset → Spells (from_string s) s)
unfolding from_string
from_string_lem l s =
    ((reads_both l).0, (reads_both l).1, read_names-Spells level_names s level_names-Spell)
