-- ===== src/Hook/Retry.antt =====
-- do_io as a blocking call.
use doroutine.Prelude.{
  ℕ, ◌≡◌, ◌≢◌, ◌∙◌, refl, ap, ◌⊎◌, inl, inr, Bool, true, false, not, ◌||◌, some, List, [], ◌∷◌,
  ◌++◌, All, ◌==◌, if◌then◌else◌, pos, arith,
}
use doroutine.Outcome.{done}
use doroutine.Kernel.{Kernel}
use doroutine.Fd.{FdCtx, FdManager, TimeoutType, get_timeout, slot}
use doroutine.Fd.Table.{IsValid}
use doroutine.Fd.Write.{get_held}
use doroutine.Hook.{
  eintr, eagain, etimedout, Reply, returned, failed, readied, expired, Round, Trace, no_trace,
  has_timeout, waited, retry, io_on, do_io,
}

-- A round that do_io hides: the call was interrupted, or would block and the event came.
abbrev pub IsHidden : Round → Type 0
IsHidden r = (r.reply ≡ failed eintr) ⊎ ((r.reply ≡ failed eagain) × (r.wait ≡ readied))

-- A reply that do_io returns at once.
abbrev pub IsFinal : Reply → Type 0
IsFinal (returned n) = Unit {0}
IsFinal (failed errno) = (errno ≢ eintr) × (errno ≢ eagain)

abbrev is_again : Reply → Bool
is_again (returned n) = false
is_again (failed errno) = errno == eagain

-- The trace of hidden rounds: one wait for each EAGAIN.
abbrev pub hidden_trace : ℕ → List Round → Trace → Trace
hidden_trace to [] trail = trail
hidden_trace to (r ∷ rs) trail =
    hidden_trace to rs (if is_again r.reply then waited to trail else trail)

retry-hidden :
    (to : ℕ) (hs rs : List Round) (trail : Trace)
    → All IsHidden hs
    → retry to (hs ++ rs) trail ≡ retry to rs (hidden_trace to hs trail)
unfolding retry
retry-hidden to [] rs trail h = refl
retry-hidden to (r ∷ hs) rs trail ((inl e), h) = ground (arith, retry-hidden to hs rs trail h)
retry-hidden to (r ∷ hs) rs trail ((inr (e, w)), h) =
    ground (arith, retry-hidden to hs rs (waited to trail) h)

hidden_balance :
    (to : ℕ) (hs : List Round) (trail : Trace)
    → trail.armed ≡ trail.disarmed
    → (hidden_trace to hs trail).armed ≡ (hidden_trace to hs trail).disarmed
hidden_balance to [] trail h = h
hidden_balance to (r ∷ hs) trail h =
    hidden_balance to hs (if is_again r.reply then waited to trail else trail) (ground arith)

module _ (kernel : Kernel) (m : FdManager) (k : Kernel.State kernel) (fd : ℕ) (t : TimeoutType)
    (c : FdCtx) (v : IsValid m) (at : slot m fd ≡ some c) where
  on_context : (rs : List Round) → do_io kernel true m k (pos fd) t rs ≡ done (io_on c t rs)
  unfolding do_io
  on_context rs = rw (get_held m fd c at v kernel k) refl

  on_socket :
      (rs : List Round)
      → c.is_socket ≡ true
      → c.user_no_block ≡ false
      → io_on c t rs ≡ retry (get_timeout c t) rs no_trace
  unfolding io_on
  on_socket rs s b = ground (arith, (v.good fd c at).never_closed)

  abbrev pub trace_of : List Round → Trace
  trace_of hs = hidden_trace (get_timeout c t) hs no_trace

  module _ (socket : c.is_socket ≡ true) (blocks : c.user_no_block ≡ false) where
    -- In a hooked thread, on a valid table, do_io on a socket of the table that the program left in
    -- blocking mode and that has a timeout: if the timeout expires in the wait of a call that would
    -- block, behind any number of interrupted calls and of waits that ended in time, do_io fails
    -- with ETIMEDOUT, and each timer that it added is cancelled.
    pub do_io-expires :
        (hs : List Round) (r : Round) (rs : List Round)
        → All IsHidden hs
        → r.reply ≡ failed eagain
        → r.wait ≡ expired
        → has_timeout (get_timeout c t) ≡ true
        → let trace = waited (get_timeout c t) (trace_of hs) in
          (do_io kernel true m k (pos fd) t (hs ++ r ∷ rs) ≡ done (some (failed etimedout, trace)))
          × (trace.armed ≡ trace.disarmed)
    do_io-expires hs r rs h e w to =
        let balance = hidden_balance (get_timeout c t) hs no_trace refl in
        let last : retry (get_timeout c t) (r ∷ rs) (trace_of hs)
            ≡ some (failed etimedout, waited (get_timeout c t) (trace_of hs)) =
          unfold retry in ground arith in
        (
          on_context (hs ++ r ∷ rs)
              ∙ ap done (
                  on_socket (hs ++ r ∷ rs) socket blocks
                  ∙ retry-hidden (get_timeout c t) hs (r ∷ rs) no_trace h
                  ∙ last),
          ground arith,
        )

  -- For a descriptor of a valid table that is no socket or that the program made non-blocking, or
  -- in a thread that is not hooked, do_io is one call of the original function, whose reply it
  -- returns as it is.
  pub do_io-direct :
      (enabled : Bool) (r : Round) (rs : List Round)
      → (not enabled || not c.is_socket || c.user_no_block) ≡ true
      → do_io kernel enabled m k (pos fd) t (r ∷ rs) ≡ done (some (r.reply, no_trace))
  do_io-direct false r rs h = unfold do_io in refl
  do_io-direct true r rs h =
      on_context (r ∷ rs) ∙ ap done (unfold io_on in ground (arith, (v.good fd c at).never_closed))
