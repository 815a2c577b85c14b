-- ===== src/Hook/Sockets.antt =====
-- socket(), accept() and ioctl(FIONBIO): where contexts come from, and where a mode goes past them.
use doroutine.Prelude.{
  ◌*◌, ◌/◌, ◌^◌, ◌<◌, ℕ, ◌≡◌, ◌∙◌, refl, sym, ap, Bool, true, false, not, ◌||◌, Option, none, some,
  List, ◌==◌, if◌then◌else◌, if_true, pos, ℤ, arith,
}
use doroutine.Outcome.{Outcome, done, ◌>>=◌}
use doroutine.Kernel.{Kernel, nonblock}
use doroutine.Fd.{FdCtx, FdManager, rcvtimeo, slot, get, modify, says_socket, new_fd_ctx, is_some}
use doroutine.Fd.Table.{IsValid, create_lem, created-IsGoodCtx, get_absent}
use doroutine.Fd.Init.{new_fd_ctx_lem}
use doroutine.Fd.Write.{get_held, slot-modify, modify-IsValid}
use doroutine.Hook.{Reply, returned, failed, Round, is_hooked, with_mode, modify_at, do_io, Trace}
use doroutine.Hook.Flags.{nonblock-with_mode}

module _ (kernel : Kernel) where
  open kernel use {State, getfl, setfl, getfl-setfl_self}

  -- `FdManager::GetInstance()->get(fd, true)`
  abbrev pub admit : FdManager → State → ℕ → Outcome (FdManager × State)
  admit m k fd = get kernel m k (pos fd) true >>= λ r. done (r.0, r.1)

  -- socket(), from the answer of socket_f; no descriptor is -1.
  pub socket : Bool → FdManager → State → Reply → Outcome (FdManager × State)
  socket enabled m k (failed errno) = done (m, k)
  socket enabled m k (returned fd) = if not enabled then done (m, k) else admit m k fd

  abbrev pub accepted : FdManager → State → Option (Reply × Trace) → Outcome (FdManager × State)
  accepted m k none = done (m, k)
  accepted m k (some (failed errno, trail)) = done (m, k)
  accepted m k (some (returned fd, trail)) = admit m k fd

  -- accept(), which takes the new descriptor up in a thread that is not hooked as well.
  pub accept : Bool → FdManager → State → ℤ → List Round → Outcome (FdManager × State)
  unfolding do_io
  accept enabled m k s rounds = do_io kernel enabled m k s rcvtimeo rounds >>= λ r. accepted m k r

  -- ioctl_f(d, FIONBIO, &b) sets or clears O_NONBLOCK.
  abbrev pub set_mode : State → ℤ → Bool → State
  set_mode k d b = setfl k d (with_mode b (getfl k d))

  abbrev pub ioctl_on : FdManager → ℤ → Bool → Option FdCtx → FdManager
  ioctl_on m d b none = m
  ioctl_on m d b (some c) =
      if is_hooked c then modify_at m d (λ c. record c { user_no_block = b }) else m

  -- ioctl() with FIONBIO.
  pub ioctl_fionbio : FdManager → State → ℤ → Bool → Outcome (FdManager × State)
  ioctl_fionbio m k d b = get kernel m k d false >>= λ r. done (ioctl_on m d b r.2, set_mode k d b)

  admit_free :
      (m : FdManager) (k : State) (fd : ℕ)
      → IsValid m
      → fd * 3 / 2 < 2 ^ 31
      → slot m fd ≡ none
      → (m' : FdManager) × (admit m k fd ≡ done (m', (new_fd_ctx kernel k (pos fd)).1))
        × IsValid m'
        × ((j : ℕ)
            → slot m' j ≡ (if fd == j then some (new_fd_ctx kernel k (pos fd)).0 else slot m j))
  admit_free m k fd v fits free =
      let (m', r, more, small, same) = create_lem kernel m k fd v fits in
      let absent : (is_some (slot m fd) || not true) ≡ false = ground (arith, free) in
      (
        m',
        ap (λ o. o >>= λ r. done (r.0, r.1)) (get_absent kernel m k fd true v.size_max absent ∙ r),
        record {
          size = omega arith;
          size_max = small;
          good = λ j d h. created-IsGoodCtx kernel m m' k fd j d v same h;
        },
        same,
      )

  -- socket() in a hooked thread, on a valid table where the slot of the new descriptor is free,
  -- and 1.5 times the descriptor is below 2 ^ 31: it has a context then, which tells whether it is a socket. A socket is non-blocking in the kernel
  -- and blocking for the program; the other slots stay, and the table is valid.
  pub socket-Returns :
      (m : FdManager) (k : State) (fd : ℕ)
      → IsValid m
      → fd * 3 / 2 < 2 ^ 31
      → slot m fd ≡ none
      → (m' : FdManager) × (k' : State) × (c : FdCtx) × (socket true m k (returned fd)
          ≡ done (m', k'))
        × IsValid m'
        × ((j : ℕ) → slot m' j ≡ (if fd == j then some c else slot m j))
        × (c.is_socket ≡ says_socket (kernel.fstat k (pos fd)))
        × (c.user_no_block ≡ false)
        × (c.is_socket ≡ true → nonblock (getfl k' (pos fd)) ≡ true)
  unfolding socket
  socket-Returns m k fd v fits free =
      let (m', e, v', same) = admit_free m k fd v fits free in
      let (a, b, h) = new_fd_ctx_lem kernel k (pos fd) in
      (
        m',
        (new_fd_ctx kernel k (pos fd)).1,
        (new_fd_ctx kernel k (pos fd)).0,
        e,
        v',
        same,
        a,
        b,
        λ s. h (sym a ∙ s),
      )

  -- ioctl(FIONBIO) of a socket in a valid table sets the mode of the program, and hands it on to the
  -- kernel: with 0 the socket is blocking there, though its context still says that it is not.
  pub ioctl_fionbio-unblocks :
      (m : FdManager) (k : State) (fd : ℕ) (b : Bool) (c : FdCtx)
      → IsValid m
      → slot m fd ≡ some c
      → c.is_socket ≡ true
      → (m' : FdManager) × (k' : State) × (c' : FdCtx) × (ioctl_fionbio m k (pos fd) b
          ≡ done (m', k'))
        × IsValid m'
        × (slot m' fd ≡ some c')
        × (c'.user_no_block ≡ b)
        × (c'.sys_no_block ≡ true)
        × (nonblock (getfl k' (pos fd)) ≡ b)
  unfolding ioctl_fionbio
  ioctl_fionbio-unblocks m k fd b c v at s =
      let g = v.good fd c at in
      let f : FdCtx → FdCtx = λ c. record c { user_no_block = b } in
      let hooked : is_hooked c ≡ true = ground (arith, g.never_closed) in
      (
        modify m fd f,
        set_mode k (pos fd) b,
        f c,
        rw (get_held m fd c at v kernel k)
            (ap (λ n. done (n, set_mode k (pos fd) b)) (if_true _ _ hooked)),
        modify-IsValid m fd c at f v (record {
          never_closed = g.never_closed;
          sys_of_socket = g.sys_of_socket;
          init_of_socket = g.init_of_socket;
        }),
        slot-modify m fd c at f fd ∙ ground arith,
        refl,
        g.sys_of_socket ∙ s,
        getfl-setfl_self k (pos fd) (with_mode b (getfl k (pos fd)))
            ∙ nonblock-with_mode b (getfl k (pos fd)),
      )
