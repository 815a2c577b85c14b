-- ===== src/Log/Manager/Names.antt =====
-- Loggers by their names.
use Prim.Native.String.{String}
use text.Mathlib.Text.{◌==◌ as str_eq}
use text.Mathlib.TextEquality.{eq_iff}
use doroutine.Prelude.{
  ℕ, suc, ◌≡◌, ◌≢◌, ◌<◌, refl, subst, inl, inr, none, some, List, [], ◌∷◌, ◌++◌, if◌then◌else◌,
  update, Bool-cases, Option-cases, arith,
}
use doroutine.Log.Logger.{new_logger}
use doroutine.Log.Manager.{LoggerManager, find, new_logger_manager, get_logger}

pub record IsValid (m : LoggerManager) : Type 0 where
  pub root_named : find "root" m.loggers ≡ some m.root
  -- A name leads to a logger that has it.
  pub named :
      (name : String) (a : ℕ)
      → find name m.loggers ≡ some a
      → (a < m.next) × ((m.store a).name ≡ name)

find-append :
    (name k : String) (a : ℕ) (ls : List (String × ℕ))
    → find name (ls ++ (k, a) ∷ [])
      ≡ (elim (find name ls) [ some b ↦ some b | none ↦ if str_eq k name then some a else none ])
unfolding find
find-append name k a [] = refl
find-append name k a ((j, b) ∷ ls) = ground (arith, find-append name k a ls)

pub new_logger_manager-IsValid : (now stdout : ℕ) → IsValid (new_logger_manager now stdout)
unfolding new_logger_manager find
new_logger_manager-IsValid now stdout = record {
  root_named = refl;
  named = λ name a h. ground (arith, eq_iff "root" name);
}

module _ (m : LoggerManager) (name : String) (now : ℕ) where
  -- The manager with a new logger.
  abbrev added : LoggerManager
  added = record m {
    loggers = m.loggers ++ (name, m.next) ∷ [];
    store = update m.store m.next (new_logger name now);
    next = suc m.next;
  }

  get_logger_old : (a : ℕ) → find name m.loggers ≡ some a → get_logger m name now ≡ (m, a)
  unfolding get_logger
  get_logger_old a e = rw (e, get_logger) refl

  get_logger_new : find name m.loggers ≡ none → get_logger m name now ≡ (added, m.next)
  unfolding get_logger
  get_logger_new e = rw (e, get_logger) refl

  module _ (v : IsValid m) (absent : find name m.loggers ≡ none) where
    find_added : find name added.loggers ≡ some m.next
    find_added = ground (arith, find-append name name m.next m.loggers, eq_iff name name, absent)

    find_others : (other : String) → other ≢ name → find other added.loggers ≡ find other m.loggers
    find_others other n = ground (arith, find-append other name m.next m.loggers, eq_iff name other)

    new_named :
        (k : String) (a : ℕ)
        → find k added.loggers ≡ some a
        → (a < added.next) × ((added.store a).name ≡ k)
    unfolding new_logger
    new_named k a h = elim (Bool-cases (str_eq name k)) [
      | inl e ↦
          (let same : name ≡ k = (eq_iff name k).0 e in
            let here : m.next ≡ a = ground (arith, find-append k name m.next m.loggers, absent) in
            subst (λ b. (b < added.next) × ((added.store b).name ≡ k)) here
              (omega arith, ground arith))
      | inr e ↦
          (let old : find k m.loggers ≡ some a =
              ground (arith, find-append k name m.next m.loggers) in
            let (below, named) = v.named k a old in (omega arith, ground arith))
    ]

    added-IsValid : IsValid added
    added-IsValid = record {
      root_named = ground (arith, find-append "root" name m.next m.loggers, v.root_named);
      named = new_named;
    }

-- getLogger of a valid manager gives a logger with the name that is asked for. It is the one that the
-- name had, if it had one, and nothing changes then; else it is a new one, and all other names and
-- loggers stay. The manager is valid, and a second getLogger gives the same logger and changes
-- nothing.
pub get_logger-Returns :
    (m : LoggerManager) (name : String) (now : ℕ)
    → IsValid m
    → (m' : LoggerManager) × (a : ℕ) × (get_logger m name now ≡ (m', a))
      × IsValid m'
      × ((m'.store a).name ≡ name)
      × ((b : ℕ) → find name m.loggers ≡ some b → (m' ≡ m) × (a ≡ b))
      × ((other : String) → other ≢ name → find other m'.loggers ≡ find other m.loggers)
      × ((b : ℕ) → b < m.next → m'.store b ≡ m.store b)
      × ((later : ℕ) → get_logger m' name later ≡ (m', a))
get_logger-Returns m name now v = elim (Option-cases (find name m.loggers)) [
  | inr (a, e) ↦ (
    m,
    a,
    get_logger_old m name now a e,
    v,
    (v.named name a e).1,
    λ b h. (refl, ground arith),
    λ other n. refl,
    λ b h. refl,
    λ later. get_logger_old m name later a e,
  )
  | inl e ↦ (
    added m name now,
    m.next,
    get_logger_new m name now e,
    added-IsValid m name now v e,
    unfold new_logger in ground arith,
    λ b h. cc,
    find_others m name now v e,
    λ b h. ground arith,
    λ later. get_logger_old (added m name now) name later m.next (find_added m name now v e),
  )
]
