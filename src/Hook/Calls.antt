-- ===== src/Hook/Calls.antt =====
-- read() to sendmsg(), each of them do_io with the timeout of its direction.
use doroutine.Prelude.{Bool, Option, List, ℤ}
use doroutine.Outcome.{Outcome}
use doroutine.Kernel.{Kernel}
use doroutine.Fd.{FdManager, TimeoutType, rcvtimeo, sndtimeo}
use doroutine.Hook.{Reply, Round, Trace, do_io}

pub data IoCall : Type 0 where
  read readv recv recvfrom recvmsg write writev send sendto sendmsg : IoCall

-- SO_RCVTIMEO or SO_SNDTIMEO in the call of do_io.
pub timeout_of : IoCall → TimeoutType
timeout_of read = rcvtimeo
timeout_of readv = rcvtimeo
timeout_of recv = rcvtimeo
timeout_of recvfrom = rcvtimeo
timeout_of recvmsg = rcvtimeo
timeout_of write = sndtimeo
timeout_of writev = sndtimeo
timeout_of send = sndtimeo
timeout_of sendto = sndtimeo
timeout_of sendmsg = sndtimeo

module _ (kernel : Kernel) where
  open kernel use {State}

  pub io_call :
      IoCall → Bool → FdManager → State → ℤ → List Round → Outcome (Option (Reply × Trace))
  io_call call enabled m k fd rounds = do_io kernel enabled m k fd (timeout_of call) rounds
