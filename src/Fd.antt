-- ===== src/Fd.antt =====
-- include/fdManager.h and src/fdManager.cpp. The table holds the contexts by value: the code takes
-- a pointer from get() and uses it at once, and writes through it are `modify`.
pub mod Table
pub mod Write
pub mod Init
pub mod Removal
pub mod Runs
pub mod Examples
use doroutine.Prelude.{
  exceeds, ◌||◌, ℕ, zero, suc, ◌*◌, ◌/◌, Bool, true, false, ◌&&◌, ◌||◌, not, Option, none, some,
  List, [], ◌∷◌, ℤ, pos, negsuc, ltb, leb, length, get_elem?, set, replicate, if◌then◌else◌,
  u64_max,
}
use doroutine.Outcome.{Outcome, done, undefined}
use doroutine.Kernel.{Kernel, nonblock, or_nonblock}

pub record FdCtx : Type 0 where
  pub is_init : Bool
  pub is_socket : Bool
  pub sys_no_block : Bool
  pub user_no_block : Bool
  pub is_closed : Bool
  pub fd : ℤ
  pub recv_timeout : ℕ
  pub send_timeout : ℕ

-- The optname of a timeout: SO_RCVTIMEO or any other.
pub data TimeoutType : Type 0 where
  rcvtimeo sndtimeo : TimeoutType

pub set_timeout : FdCtx → TimeoutType → ℕ → FdCtx
set_timeout c rcvtimeo v = record c { recv_timeout = v }
set_timeout c sndtimeo v = record c { send_timeout = v }

unfoldable pub get_timeout : FdCtx → TimeoutType → ℕ
get_timeout c rcvtimeo = c.recv_timeout
get_timeout c sndtimeo = c.send_timeout

abbrev pub is_some {ℓ} : {A : Type ℓ} → Option A → Bool
is_some none = false
is_some (some a) = true

abbrev pub says_socket : Option Bool → Bool
says_socket none = false
says_socket (some sock) = sock

module _ (kernel : Kernel) where
  open kernel use {State, fstat, getfl, setfl}

  -- The part of FdCtx::init after fstat.
  pub init_mode : State → ℤ → Option Bool → FdCtx × State
  init_mode k fd mode =
      let is_socket = says_socket mode in
      let flags = getfl k fd in
      let k' = if is_socket && not (nonblock flags) then setfl k fd (or_nonblock flags) else k in
      (
        record {
          is_init = is_some mode;
          is_socket = is_socket;
          sys_no_block = is_socket;
          user_no_block = false;
          is_closed = false;
          fd = fd;
          recv_timeout = u64_max;
          send_timeout = u64_max;
        },
        k',
      )

  -- FdCtx::FdCtx, which calls init() of the new object.
  pub new_fd_ctx : State → ℤ → FdCtx × State
  unfolding init_mode
  new_fd_ctx k fd = init_mode k fd (fstat k fd)

pub record FdManager : Type 0 where
  pub fds : List (Option FdCtx)

abbrev pub new_fd_manager : FdManager
new_fd_manager = record { fds = replicate 64 none }

-- std::vector::resize of a vector of pointers.
pub resize {ℓ} : {A : Type ℓ} → ℕ → List (Option A) → List (Option A)
resize zero xs = []
resize (suc n) [] = none ∷ resize n []
resize (suc n) (x ∷ xs) = x ∷ resize n xs

-- The pointer in a slot; a slot out of range counts as null here, the code tests for it first.
abbrev pub or_null {ℓ} : {A : Type ℓ} → Option (Option A) → Option A
or_null none = none
or_null (some x) = x

abbrev pub slot : FdManager → ℕ → Option FdCtx
slot m fd = or_null (get_elem? m.fds fd)

-- The vector after `if (fd >= m_fds.size()) m_fds.resize(fd * 1.5)`.
pub grown : FdManager → ℕ → List (Option FdCtx)
grown m fd = if leb (length m.fds) fd then resize (fd * 3 / 2) m.fds else m.fds

module _ (kernel : Kernel) where
  open kernel use {State}

  -- The end of get(), under the write lock: `resize(fd * 1.5)`, then m_fds[fd] = ctx.
  pub create : FdManager → State → ℕ → Outcome (FdManager × State × Option FdCtx)
  create m k fd =
      let (ctx, k') = new_fd_ctx kernel k (pos fd) in
      let fds = grown m fd in
      if ltb fd (length fds)
      then done (record { fds = set fds fd (some ctx) }, k', some ctx)
      else undefined

  -- FdManager::get, where no other call comes between its two locks. At a descriptor below -1 m_fds
  -- is read out of bounds, or resized to a negative number.
  pub get : FdManager → State → ℤ → Bool → Outcome (FdManager × State × Option FdCtx)
  unfolding create
  get m k (negsuc zero) auto_create = done (m, k, none)
  get m k (negsuc (suc n)) auto_create =
      if exceeds (length m.fds) (negsuc (suc n)) || auto_create
      then undefined
      else done (m, k, none)
  get m k (pos fd) auto_create =
      if not (exceeds (length m.fds) (pos fd)) && not auto_create
      then done (m, k, none)
      else (if exceeds (length m.fds) (pos fd) && (is_some (slot m fd) || not auto_create)
          then done (m, k, slot m fd)
          else create m k fd)

-- FdManager::delFd. The comparison is on size_t, where a negative descriptor is out of range.
pub del_fd : FdManager → ℤ → FdManager
del_fd m (negsuc n) = m
del_fd m (pos fd) = if leb (length m.fds) fd then m else record { fds = set m.fds fd none }

-- A write through the pointer that get() returned.
pub modify : FdManager → ℕ → (FdCtx → FdCtx) → FdManager
modify m fd f = elim (slot m fd) [ none ↦ m | some c ↦ record { fds = set m.fds fd (some (f c)) } ]
