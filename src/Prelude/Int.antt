-- ===== src/Prelude/Int.antt =====
-- int file descriptors: `negsuc n` is -(n + 1), so that -1 is `negsuc 0`.
use Prim.Native.Nat.{ℕ}
use mathlib.Core.Path.{ap}
use native.Mathlib.Decide.{ℕ_discrete}

pub data ℤ : Type 0 where
  pos : ℕ → ℤ
  negsuc : ℕ → ℤ

abbrev value : ℤ → ℕ
value (pos n) = n
value (negsuc n) = n

unfoldable pub ℤ-discrete : Discrete ℤ
ℤ-discrete (pos a) (pos b) = elim (ℕ_discrete a b) [
  | yes e ↦ yes (ap pos e)
  | no n ↦ no (λ e. n (ap value e))
]
ℤ-discrete (negsuc a) (negsuc b) = elim (ℕ_discrete a b) [
  | yes e ↦ yes (ap negsuc e)
  | no n ↦ no (λ e. n (ap value e))
]
ℤ-discrete (pos a) (negsuc b) = no (λ e. cc)
ℤ-discrete (negsuc a) (pos b) = no (λ e. cc)
