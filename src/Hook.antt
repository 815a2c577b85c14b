-- ===== src/Hook.antt =====
-- include/hook.h and src/hook.cpp: the sleeps, do_io, and the calls that read and set the mode of a
-- descriptor. What the original calls answer is an argument.
pub mod Flags
pub mod Retry
pub mod Close
pub mod Calls
pub mod Connect
pub mod Sockets
pub mod Sleep
pub mod Commands
pub mod Options
pub mod Waiting
pub mod Locals
pub mod SocketExamples
mod SleepExamples
mod CommandExamples
mod WaitingExamples
mod LocalsExamples
mod Examples
use doroutine.Prelude.{
  ltb, ℕ, suc, ◌+◌, ◌*◌, ◌/◌, ◌%◌, ◌^◌, Bool, false, ◌||◌, not, Option, none, some, List, [], ◌∷◌,
  ℤ, pos, negsuc, ◌==◌, if◌then◌else◌, u64_max,
}
use doroutine.Outcome.{Outcome, done, require, ◌>>◌, ◌>>=◌}
use doroutine.Kernel.{Kernel, nonblock, or_nonblock, clear_nonblock}
use doroutine.Fd.{FdCtx, FdManager, TimeoutType, set_timeout, get_timeout, get, modify}

-- The period that sleep() gives its timer; `seconds * 1000` is an unsigned int.
pub sleep_ms : ℕ → ℕ
sleep_ms seconds = seconds * 1000 % 2 ^ 32

pub usleep_ms : ℕ → ℕ
usleep_ms usec = usec / 1000

abbrev pub eintr : ℕ
eintr = 4

abbrev pub ebadf : ℕ
ebadf = 9

abbrev pub eagain : ℕ
eagain = 11

abbrev pub etimedout : ℕ
etimedout = 110

-- What a call returns: a number, or -1 with an errno.
pub data Reply : Type 0 where
  returned failed : ℕ → Reply

-- How the wait behind an EAGAIN goes: addEvent fails, with an errno, or the doroutine is resumed as
-- the event comes, or as the timer runs and cancels the event.
pub data Wait : Type 0 where
  refused : ℕ → Wait
  readied expired : Wait

-- A call of the original function, and the wait that follows if it says EAGAIN.
pub record Round : Type 0 where
  pub reply : Reply
  pub wait : Wait

-- The conditional timers that were added, the calls of their cancel(), and the calls of addEvent.
pub record Trace : Type 0 where
  pub armed : ℕ
  pub disarmed : ℕ
  pub waits : ℕ
  -- The periods of those timers, the last one first.
  pub periods : List ℕ

abbrev pub no_trace : Trace
no_trace = record { armed = 0; disarmed = 0; waits = 0; periods = [] }

-- `to != (uint64_t)-1`
abbrev pub has_timeout : ℕ → Bool
has_timeout to = not (to == u64_max)

-- The trace of a wait: each path behind it cancels the timer.
abbrev pub waited : ℕ → Trace → Trace
waited to trail = record {
  armed = if has_timeout to then suc trail.armed else trail.armed;
  disarmed = if has_timeout to then suc trail.disarmed else trail.disarmed;
  waits = suc trail.waits;
  periods = if has_timeout to then to ∷ trail.periods else trail.periods;
}

-- The wait of one round, where `rest` is the retry. Without a timer nothing expires.
pub after_wait : ℕ → Wait → (Trace → Option (Reply × Trace)) → Trace → Option (Reply × Trace)
after_wait to (refused errno) rest trail = some (failed errno, waited to trail)
after_wait to readied rest trail = rest (waited to trail)
after_wait to expired rest trail =
    if has_timeout to then some (failed etimedout, waited to trail) else rest (waited to trail)

-- do_io from `retry:` on; none where the answers end before it returns.
pub retry : ℕ → List Round → Trace → Option (Reply × Trace)
unfolding after_wait
retry to [] trail = none
retry to (r ∷ rs) trail =
    let rest = retry to rs in
    elim r.reply [
      | returned n ↦ some (returned n, trail)
      | failed errno ↦
          if errno == eintr
          then rest trail
          else (if errno == eagain
              then after_wait to r.wait rest trail
              else some (failed errno, trail))
    ]

-- The original call, passed through.
abbrev pub direct : List Round → Option (Reply × Trace)
direct [] = none
direct (r ∷ rs) = some (r.reply, no_trace)

pub io_on : FdCtx → TimeoutType → List Round → Option (Reply × Trace)
unfolding retry
io_on c t rounds =
    if c.is_closed
    then some (failed ebadf, no_trace)
    else (if not c.is_socket || c.user_no_block
        then direct rounds
        else retry (get_timeout c t) rounds no_trace)

abbrev pub is_hooked : FdCtx → Bool
is_hooked c = not (c.is_closed || not c.is_socket)

-- `arg |= O_NONBLOCK` or `arg &= ~O_NONBLOCK`.
abbrev pub with_mode : Bool → ℕ → ℕ
with_mode b flags = if b then or_nonblock flags else clear_nonblock flags

-- A write through the pointer that get(fd) returned.
abbrev pub modify_at : FdManager → ℤ → (FdCtx → FdCtx) → FdManager
modify_at m (negsuc n) f = m
modify_at m (pos fd) f = modify m fd f

module _ (kernel : Kernel) where
  open kernel use {State, getfl, setfl}

  -- do_io, in a thread that has an IOManager if it is hooked; `enabled` is st_hookEnable.
  pub do_io :
      Bool → FdManager → State → ℤ → TimeoutType → List Round → Outcome (Option (Reply × Trace))
  unfolding io_on
  do_io enabled m k fd t rounds =
      if not enabled
      then done (direct rounds)
      else get kernel m k fd false >>= λ r.
          done (elim r.2 [ none ↦ direct rounds | some c ↦ io_on c t rounds ])

  abbrev pub setfl_on : FdManager → State → ℤ → ℕ → Option FdCtx → FdManager × State
  setfl_on m k fd arg none = (m, setfl k fd arg)
  setfl_on m k fd arg (some c) =
      if is_hooked c
      then (
        modify_at m fd (λ c. record c { user_no_block = nonblock arg }),
        setfl k fd (with_mode c.sys_no_block arg),
      )
      else (m, setfl k fd arg)

  -- fcntl with F_SETFL and with F_GETFL.
  pub fcntl_setfl : FdManager → State → ℤ → ℕ → Outcome (FdManager × State)
  fcntl_setfl m k fd arg = get kernel m k fd false >>= λ r. done (setfl_on m k fd arg r.2)

  pub fcntl_getfl : FdManager → State → ℤ → Outcome ℕ
  fcntl_getfl m k fd = get kernel m k fd false >>= λ r. done (elim r.2 [
    | none ↦ getfl k fd
    | some c ↦ if is_hooked c then with_mode c.user_no_block (getfl k fd) else getfl k fd
  ])

  -- setsockopt of SO_RCVTIMEO or SO_SNDTIMEO, in a hooked thread: what it writes in the
  -- table. The number of ms is computed in signed longs.
  pub setsockopt_timeout : FdManager → State → ℤ → TimeoutType → ℕ → ℕ → Outcome FdManager
  setsockopt_timeout m k fd t sec usec = get kernel m k fd false >>= λ r. elim r.2 [
    | none ↦ done m
    | some c ↦
        require (ltb (sec * 1000 + usec / 1000) (2 ^ 63))
        >> done (modify_at m fd (λ c. set_timeout c t (sec * 1000 + usec / 1000)))
  ]
