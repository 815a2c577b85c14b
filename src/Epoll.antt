-- ===== src/Epoll.antt =====
-- The kernel's epoll instance, which IOManager calls and the repository does not hold: what it is
-- asked to watch, and epoll_ctl.
use doroutine.Prelude.{ℕ, ◌≡◌, Bool, false, Option, none, some, not, ◌&&◌, ◌==◌, if◌then◌else◌}

-- A set of IOManager::Event: READ is EPOLLIN and WRITE is EPOLLOUT, NONE the empty set.
pub record Mask : Type 0 where
  pub read : Bool
  pub write : Bool

abbrev pub no_events : Mask
no_events = record { read = false; write = false }

abbrev pub is_none : Mask → Bool
is_none m = not m.read && not m.write

-- EPOLL_CTL_ADD, EPOLL_CTL_MOD, EPOLL_CTL_DEL
pub data Op : Type 0 where
  add modify del : Op

abbrev pub interest_after : Op → Mask → Option Mask
interest_after add m = some m
interest_after modify m = some m
interest_after del m = none

pub record Epoll : Type 1 where
  pub State : Type 0
  -- The events that a descriptor is registered for with a context of its own, if it is. (The
  -- tickle pipe is registered by its descriptor.)
  pub interest : State → ℕ → Option Mask
  -- none where epoll_ctl returns -1.
  pub ctl : State → Op → ℕ → Mask → Option State
  -- A call that succeeds changes the registration of its descriptor alone.
  pub interest-ctl :
      (s s' : State) (op : Op) (fd j : ℕ) (m : Mask)
      → ctl s op fd m ≡ some s'
      → interest s' j ≡ (if fd == j then interest_after op m else interest s j)
