-- ===== src/Prelude/Sizes.antt =====
-- A size_t that is converted to an int, and compared with one.
use Prim.Native.Nat.{ℕ, ◌-◌, ◌%◌, ◌^◌, ◌<◌}
use mathlib.Core.Path.{◌≡◌}
use mathlib.Core.Bool.{Bool, ◌&&◌, ◌||◌}
use native.Mathlib.Omega.{arith}
use doroutine.Prelude.Tests.{ltb}
use doroutine.Prelude.Int.{ℤ, pos, negsuc}

-- `(int)size > fd`. From 2 ^ 31 on the int is negative.
unfoldable pub exceeds : ℕ → ℤ → Bool
exceeds size (pos fd) = let low = size % 2 ^ 32 in ltb low (2 ^ 31) && ltb fd low
exceeds size (negsuc n) = let low = size % 2 ^ 32 in ltb low (2 ^ 31) || ltb (2 ^ 32 - 1 - low) n

pub exceeds_lem : (size fd : ℕ) → size < 2 ^ 31 → exceeds size (pos fd) ≡ ltb fd size
unfolding exceeds
exceeds_lem size fd h = ground arith
