-- ===== src/Kernel.antt =====
-- What the code asks of the operating system about a file descriptor: fstat, and the status flags
-- by the original fcntl. These are not part of the repository, so they are an interface.
use doroutine.Prelude.{ℕ, ◌+◌, ◌-◌, ◌/◌, ◌%◌, ◌≡◌, Bool, Option, ℤ, ◌==◌, if◌then◌else◌}

-- O_NONBLOCK is the bit 04000 of a flag word; `flags & O_NONBLOCK`, `flags | O_NONBLOCK` and
-- `flags & ~O_NONBLOCK`.
abbrev pub o_nonblock : ℕ
o_nonblock = 2048

abbrev pub nonblock : ℕ → Bool
nonblock flags = flags / o_nonblock % 2 == 1

abbrev pub or_nonblock : ℕ → ℕ
or_nonblock flags = if nonblock flags then flags else flags + o_nonblock

abbrev pub clear_nonblock : ℕ → ℕ
clear_nonblock flags = if nonblock flags then flags - o_nonblock else flags

pub record Kernel : Type 1 where
  pub State : Type 0
  -- fstat: none where it fails, else S_ISSOCK of the mode.
  pub fstat : State → ℤ → Option Bool
  -- fcntl_f with F_GETFL and with F_SETFL.
  pub getfl : State → ℤ → ℕ
  pub setfl : State → ℤ → ℕ → State
  -- F_SETFL sets O_NONBLOCK of its descriptor, and leaves the others and their kinds alone.
  pub getfl-setfl_self :
      (k : State) (fd : ℤ) (flags : ℕ) → nonblock (getfl (setfl k fd flags) fd) ≡ nonblock flags
  pub fstat-setfl :
      (k : State) (fd fd' : ℤ) (flags : ℕ) → fstat (setfl k fd flags) fd' ≡ fstat k fd'
