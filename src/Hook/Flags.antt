-- ===== src/Hook/Flags.antt =====
-- The blocking mode that a program sees, against that of the kernel, and the timeouts.
use doroutine.Prelude.{
  lt→ltb, ℕ, ◌+◌, ◌*◌, ◌/◌, ◌^◌, ◌≤◌, ◌<◌, ◌≡◌, ◌≢◌, ◌∙◌, ◌↔◌, refl, ap, inl, inr, Bool, true,
  false, some, ◌==◌, if◌then◌else◌, if_true, if_false, Bool-cases, pos, arith,
}
use doroutine.Outcome.{done}
use doroutine.Kernel.{Kernel, nonblock}
use doroutine.Fd.{FdCtx, FdManager, TimeoutType, set_timeout, get_timeout, slot, modify}
use doroutine.Fd.Table.{IsGoodCtx, IsValid}
use doroutine.Fd.Write.{
  get_held, slot-modify, modify-IsValid, get_timeout-set_timeout, set_timeout_lem,
  set_timeout-IsGoodCtx,
}
use doroutine.Hook.{
  sleep_ms, is_hooked, with_mode, setfl_on, fcntl_setfl, fcntl_getfl, setsockopt_timeout,
}

pub nonblock-with_mode : (b : Bool) (flags : ℕ) → nonblock (with_mode b flags) ≡ b
nonblock-with_mode true flags = ground arith
nonblock-with_mode false flags = ground arith

module _ (kernel : Kernel) where
  open kernel use {State, getfl, setfl, getfl-setfl_self}

  -- The context once the program has asked for a mode.
  abbrev asked : FdCtx → ℕ → FdCtx
  asked c arg = record c { user_no_block = nonblock arg }

  pub setfl_runs :
      (m : FdManager) (k : State) (fd arg : ℕ) (c : FdCtx)
      → slot m fd ≡ some c
      → IsValid m
      → fcntl_setfl kernel m k (pos fd) arg ≡ done (setfl_on kernel m k (pos fd) arg (some c))
  unfolding fcntl_setfl
  setfl_runs m k fd arg c at v = rw (get_held m fd c at v kernel k) refl

  pub getfl_runs :
      (m : FdManager) (k : State) (fd : ℕ) (c : FdCtx)
      → slot m fd ≡ some c
      → IsValid m
      → fcntl_getfl kernel m k (pos fd)
        ≡ done
            (if is_hooked c then with_mode c.user_no_block (getfl k (pos fd)) else getfl k (pos fd))
  unfolding fcntl_getfl
  getfl_runs m k fd c at v = rw (get_held m fd c at v kernel k) refl

  pub fcntl_setfl-roundtrip :
      (m : FdManager) (k : State) (fd arg : ℕ) (c : FdCtx)
      → IsValid m
      → slot m fd ≡ some c
      → (m' : FdManager) × (k' : State) × (flags : ℕ) × (fcntl_setfl kernel m k (pos fd) arg
          ≡ done (m', k'))
        × IsValid m'
        × (c.is_socket ≡ true → nonblock (getfl k' (pos fd)) ≡ true)
        × (fcntl_getfl kernel m' k' (pos fd) ≡ done flags)
        × (nonblock flags ≡ nonblock arg)
  fcntl_setfl-roundtrip m k fd arg c v at =
      let g = v.good fd c at in
      elim (Bool-cases (is_hooked c)) [
        | inl e ↦
            (let f : FdCtx → FdCtx = λ c. asked c arg in
              let m' = modify m fd f in
              let k' = setfl k (pos fd) (with_mode c.sys_no_block arg) in
              let at' : slot m' fd ≡ some (f c) = ground (arith, slot-modify m fd c at f fd) in
              let good : IsGoodCtx (f c) = record {
                never_closed = g.never_closed;
                sys_of_socket = g.sys_of_socket;
                init_of_socket = g.init_of_socket;
              } in
              (
                m',
                k',
                with_mode (nonblock arg) (getfl k' (pos fd)),
                setfl_runs m k fd arg c at v ∙ ap done (if_true _ _ e),
                modify-IsValid m fd c at f v good,
                λ s.
                    getfl-setfl_self k (pos fd) (with_mode c.sys_no_block arg)
                    ∙ nonblock-with_mode c.sys_no_block arg
                    ∙ g.sys_of_socket
                    ∙ s,
                getfl_runs m' k' fd (f c) at' (modify-IsValid m fd c at f v good)
                    ∙ ap done (if_true _ _ e),
                nonblock-with_mode (nonblock arg) (getfl k' (pos fd)),
              ))
        | inr e ↦
            (let k' = setfl k (pos fd) arg in
              (
                m,
                k',
                getfl k' (pos fd),
                setfl_runs m k fd arg c at v ∙ ap done (if_false _ _ e),
                v,
                λ s. absurd (ground (arith, g.never_closed)),
                getfl_runs m k' fd c at v ∙ ap done (if_false _ _ e),
                getfl-setfl_self k (pos fd) arg,
              ))
      ]

  -- setsockopt of a timeout on a descriptor in the table: the timeout is what getTimeout then gives,
  -- in whole milliseconds, as long as that is a signed long; the other timeout and the other slots
  -- stay, and the invariant of the table holds.
  pub setsockopt_timeout_lem :
      (m : FdManager) (k : State) (fd sec usec : ℕ) (t : TimeoutType) (c : FdCtx)
      → IsValid m
      → slot m fd ≡ some c
      → sec * 1000 + usec / 1000 < 2 ^ 63
      → (m' : FdManager) × (c' : FdCtx) × (setsockopt_timeout kernel m k (pos fd) t sec usec
          ≡ done m')
        × IsValid m'
        × ((j : ℕ) → slot m' j ≡ (if fd == j then some c' else slot m j))
        × (get_timeout c' t ≡ sec * 1000 + usec / 1000)
        × ((t' : TimeoutType) → t' ≢ t → get_timeout c' t' ≡ get_timeout c t')
        × (c'.is_socket ≡ c.is_socket)
        × (c'.user_no_block ≡ c.user_no_block)
  unfolding setsockopt_timeout
  setsockopt_timeout_lem m k fd sec usec t c v at h =
      let ms = sec * 1000 + usec / 1000 in
      let f : FdCtx → FdCtx = λ c. set_timeout c t ms in
      let (same, other) = get_timeout-set_timeout c t ms in
      let keeps = set_timeout_lem c t ms in
      (
        modify m fd f,
        f c,
        rw (get_held m fd c at v kernel k) (rw (lt→ltb ms (2 ^ 63) h) refl),
        modify-IsValid m fd c at f v (set_timeout-IsGoodCtx c t ms (v.good fd c at)),
        slot-modify m fd c at f,
        same,
        other,
        keeps.0,
        keeps.1,
      )

-- For a number of seconds that is an unsigned int, the timer of sleep() has the period asked for
-- just up to 4294967 seconds: beyond that the product with 1000 wraps around. It is never longer
-- than asked for.
pub sleep_ms_lem :
    (seconds : ℕ)
    → seconds < 2 ^ 32
    → ((sleep_ms seconds ≡ seconds * 1000) ↔ (seconds ≤ 4294967))
      × (sleep_ms seconds ≤ seconds * 1000)
unfolding sleep_ms
sleep_ms_lem seconds h = ((λ e. omega arith, λ e. omega arith), omega arith)
