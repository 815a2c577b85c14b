-- ===== src/Hook/Connect.antt =====
-- connect() and connect_with_timeout.
use doroutine.Prelude.{ℕ, Bool, false, not, ◌||◌, none, some, ◌==◌, if◌then◌else◌, ℤ}
use doroutine.Outcome.{Outcome, done, ◌>>=◌}
use doroutine.Kernel.{Kernel}
use doroutine.Fd.{FdCtx, FdManager, get}
use doroutine.Hook.{
  ebadf, etimedout, Reply, returned, failed, Wait, refused, readied, expired, has_timeout,
}

abbrev pub einprogress : ℕ
einprogress = 115

-- What getsockopt(SO_ERROR) gives: it fails with an errno, or tells the error of the socket.
pub data SoError : Type 0 where
  unavailable so_error : ℕ → SoError

abbrev pub read_error : SoError → Reply
read_error (unavailable errno) = failed errno
read_error (so_error e) = if e == 0 then returned 0 else failed e

-- Behind EINPROGRESS. Where addEvent fails the code logs that, and reads the error all the same. The
-- timer is added and not kept, so that nothing cancels it; without one nothing expires.
pub in_progress : ℕ → Wait → SoError → Reply
in_progress timeout (refused errno) so = read_error so
in_progress timeout readied so = read_error so
in_progress timeout expired so = if has_timeout timeout then failed etimedout else read_error so

pub connect_on : FdCtx → ℕ → Reply → Wait → SoError → Reply
unfolding in_progress
connect_on c timeout reply wait so =
    if c.is_closed
    then failed ebadf
    else (if not c.is_socket || c.user_no_block then reply else elim reply [
      | returned n ↦ returned n
      | failed errno ↦ if errno == einprogress then in_progress timeout wait so else failed errno
    ])

module _ (kernel : Kernel) where
  open kernel use {State}

  -- connect_with_timeout, from the answers of connect_f, of the wait and of getsockopt.
  pub connect_with_timeout :
      Bool → FdManager → State → ℤ → ℕ → Reply → Wait → SoError → Outcome Reply
  unfolding connect_on
  connect_with_timeout enabled m k fd timeout reply wait so =
      if not enabled
      then done reply
      else get kernel m k fd false >>= λ r.
          done (elim r.2 [ none ↦ failed ebadf | some c ↦ connect_on c timeout reply wait so ])

  -- connect, with s_connect_timeout.
  pub connect : Bool → FdManager → State → ℤ → Reply → Wait → SoError → Outcome Reply
  unfolding connect_with_timeout
  connect enabled m k fd reply wait so = connect_with_timeout enabled m k fd 5000 reply wait so
