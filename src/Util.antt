-- ===== src/Util.antt =====
-- src/util.cpp: the name of the thread, and the clock in milliseconds. What the operating system
-- keeps of a name, and the readings of its clock, are parameters.
pub mod Names
pub mod Clock
mod Examples
use doroutine.Prelude.{
  ℕ, zero, suc, ◌+◌, ◌*◌, ◌/◌, ◌%◌, ◌^◌, ◌≤◌, ◌≡◌, Bool, true, false, not, ◌&&◌, List, [], ◌∷◌,
  length, ◌==◌, if◌then◌else◌,
}
use doroutine.Log.Event.{Text}

-- The first n bytes: `name.substr(0, n)`.
pub substr : Text → ℕ → Text
substr [] n = []
substr (c ∷ cs) zero = []
substr (c ∷ cs) (suc n) = c ∷ substr cs n

-- The bytes of a C string, up to the first NUL.
pub c_str : Text → Text
c_str [] = []
c_str (c ∷ cs) = if c == 0 then [] else c ∷ c_str cs

abbrev pub has_no_nul : Text → Bool
has_no_nul [] = true
has_no_nul (c ∷ cs) = not (c == 0) && has_no_nul cs

-- pthread_setname_np and pthread_getname_np on the calling thread.
pub record ThreadNames : Type 1 where
  pub State : Type 0
  pub setname : State → Text → State
  pub getname : State → Text
  -- A C string of 15 bytes at most is kept, and given back to a buffer of 16; a longer one is an
  -- error, and is not.
  pub keeps :
      (k : State) (name : Text)
      → has_no_nul name ≡ true
      → length name ≤ 15
      → getname (setname k name) ≡ name

module _ (names : ThreadNames) where
  open names use {State, setname, getname}

  pub get_thread_name : State → Text
  unfolding c_str
  get_thread_name k = c_str (getname k)

  pub set_thread_name : State → Text → State
  unfolding c_str substr
  set_thread_name k name = setname k (c_str (substr name 15))

-- GetElapsedMS, from what clock_gettime wrote.
pub get_elapsed_ms : (tv_sec tv_nsec : ℕ) → ℕ
get_elapsed_ms tv_sec tv_nsec = (tv_sec * 1000 + tv_nsec / 1000000) % 2 ^ 64
