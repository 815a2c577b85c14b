-- ===== src/Hook/Close.antt =====
-- close() over the table of descriptors and the reactor.
use doroutine.Prelude.{
  ℕ, ◌≡◌, ◌∙◌, refl, ap, ◌⊎◌, inl, inr, Bool, true, false, not, none, some, pos, ℤ, ◌==◌, get_elem?,
  if◌then◌else◌, if_true,
}
use doroutine.Outcome.{Outcome, done, ◌>>=◌}
use doroutine.Kernel.{Kernel}
use doroutine.Epoll.{Epoll, no_events, is_none, del}
use doroutine.Fd.{FdCtx, FdManager, slot, get, del_fd}
use doroutine.Fd.Table.{IsValid}
use doroutine.Fd.Removal.{del_fd_lem}
use doroutine.Fd.Write.{get_held}
use doroutine.IoManager.{FdContext, Thread, IoManager, cancel_all}
use doroutine.IoManager.Removal.{Removed, all_cleared, all_calls, cancel_all-Returns}

module _ (kernel : Kernel) (epoll : Epoll) where
  -- close, up to the call of the original one.
  pub close :
      Bool
      → FdManager
      → Kernel.State kernel
      → IoManager epoll
      → Thread
      → ℤ
      → Outcome (FdManager × IoManager epoll)
  close enabled m k iom th fd =
      if not enabled
      then done (m, iom)
      else get kernel m k fd false >>= λ r. elim r.2 [
        | none ↦ done (m, iom)
        | some c ↦
            (if th.is_iom then (cancel_all epoll iom th fd >>= λ q. done q.0) else done iom)
            >>= λ iom'. done (del_fd m fd, iom')
      ]

  module _ (m : FdManager) (k : Kernel.State kernel) (iom : IoManager epoll) (th : Thread) (fd : ℕ)
      (held : FdCtx) (c : FdContext) (v : IsValid m) (at : slot m fd ≡ some held)
      (w : doroutine.IoManager.Context.IsValid epoll iom)
      (on : get_elem? iom.fd_contexts fd ≡ some c) where
    close_runs :
        th.is_iom ≡ true
        → (q : IoManager epoll × Bool) → cancel_all epoll iom th (pos fd) ≡ done q
        → close true m k iom th (pos fd) ≡ done (del_fd m (pos fd), q.0)
    unfolding close
    close_runs h q e = rw (get_held m fd held at v kernel k) (
        ap (λ o. o >>= λ iom'. done (del_fd m (pos fd), iom'))
          (if_true _ _ h ∙ ap (λ o. o >>= λ q. done q.0) e))

    -- close() in a hooked thread of a valid manager, of a descriptor that is in a valid table and
    -- has a context in the manager: the table forgets it and keeps the others, and is valid. The
    -- manager is as before where no event of the descriptor is on or epoll_ctl fails; otherwise all
    -- its events are off, the callback of each that was on is queued once, and the manager is
    -- valid.
    pub close-Returns :
        th.is_iom ≡ true
        → (m' : FdManager) × (iom' : IoManager epoll) × (close true m k iom th (pos fd)
            ≡ done (m', iom'))
          × IsValid m'
          × ((j : ℕ) → slot m' j ≡ (if fd == j then none else slot m j))
          × ((((is_none c.events ≡ true) ⊎ (Epoll.ctl epoll iom.epfd del fd no_events ≡ none))
                × (iom' ≡ iom))
              ⊎ ((is_none c.events ≡ false)
                  × Removed epoll iom fd
                      (all_cleared epoll iom fd c w on)
                      (all_calls epoll iom fd c w on)
                      iom'))
    close-Returns h =
        let gone = del_fd_lem m fd v in
        elim (cancel_all-Returns epoll iom fd c w on th h) [
          | inl (why, e) ↦
              (del_fd m (pos fd), iom, close_runs h _ e, gone.0, gone.1, inl (why, refl))
          | inr (iom', some_on, told, e, r) ↦
              (del_fd m (pos fd), iom', close_runs h _ e, gone.0, gone.1, inr (some_on, r))
        ]
