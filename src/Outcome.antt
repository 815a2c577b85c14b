-- ===== src/Outcome.antt =====
-- How a call of the C++ code can end: with a value, in undefined behaviour (a dereferenced null
-- pointer, an erased end iterator, an index out of bounds), or with a thrown std::system_error.
use doroutine.Prelude.{Bool, true, false}

pub data Outcome {ℓ} (A : Type ℓ) : Type ℓ where
  done : A → Outcome A
  undefined : Outcome A
  system_error : Outcome A

infixl 5 ◌>>=◌ ◌>>◌
abbrev pub ◌>>=◌ {ℓ κ} : {A : Type ℓ} {B : Type κ} → Outcome A → (A → Outcome B) → Outcome B
done a >>= f = f a
undefined >>= f = undefined
system_error >>= f = system_error

abbrev pub ◌>>◌ {ℓ} : {B : Type ℓ} → Outcome (Unit {0}) → Outcome B → Outcome B
m >> k = m >>= λ _. k

-- Undefined behaviour unless the test holds.
abbrev pub require : Bool → Outcome (Unit {0})
require true = done tt
require false = undefined

-- std::unique_lock::unlock throws unless the lock is owned; the Boolean is `owns_lock()`.
abbrev pub unlock : Bool → Outcome Bool
unlock true = done false
unlock false = system_error
