-- ===== src/Prelude/Words.antt =====
-- Machine words: uint64_t arithmetic wraps.
use Prim.Native.Nat.{ℕ, ◌+◌, ◌-◌, ◌%◌, ◌^◌}

abbrev pub u64_mod : ℕ
u64_mod = 2 ^ 64

-- a + b and a - b on uint64_t. `-` on ℕ stops at 0, so the modulus is added first.
abbrev pub add64 : ℕ → ℕ → ℕ
add64 a b = (a + b) % u64_mod

abbrev pub sub64 : ℕ → ℕ → ℕ
sub64 a b = (a + u64_mod - b) % u64_mod

-- `~0ull` and `(uint64_t)-1`.
abbrev pub u64_max : ℕ
u64_max = u64_mod - 1
