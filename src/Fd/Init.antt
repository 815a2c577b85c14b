-- ===== src/Fd/Init.antt =====
-- What FdCtx::init makes of a descriptor.
use doroutine.Prelude.{
  ℕ, ◌≡◌, ◌∙◌, refl, ap, inl, inr, Bool, true, false, not, Option, none, some, ℤ, if_true, if_false,
  Bool-cases, arith,
}
use doroutine.Kernel.{Kernel, nonblock, or_nonblock}
use doroutine.Fd.{says_socket, init_mode, new_fd_ctx}

nonblock-or_nonblock : (flags : ℕ) → nonblock (or_nonblock flags) ≡ true
nonblock-or_nonblock flags = ground arith

module _ (kernel : Kernel) where
  open kernel use {State, fstat, getfl, setfl, getfl-setfl_self}

  init_mode_lem :
      (k : State) (fd : ℤ) (mode : Option Bool)
      → let (c, k') = init_mode kernel k fd mode in
        (c.is_socket ≡ says_socket mode)
        × (c.user_no_block ≡ false)
        × (says_socket mode ≡ true → nonblock (getfl k' fd) ≡ true)
  unfolding init_mode
  init_mode_lem k fd none = (refl, refl, λ h. cc)
  init_mode_lem k fd (some false) = (refl, refl, λ h. cc)
  init_mode_lem k fd (some true) = (
    refl,
    refl,
    λ h. elim (Bool-cases (nonblock (getfl k fd))) [
      | inl e ↦
          ap (λ s. nonblock (getfl s fd))
            (if_false {b = not (nonblock (getfl k fd))} (setfl k fd (or_nonblock (getfl k fd))) k
              (ap not e))
          ∙ e
      | inr e ↦
          ap (λ s. nonblock (getfl s fd))
            (if_true {b = not (nonblock (getfl k fd))} (setfl k fd (or_nonblock (getfl k fd))) k
              (ap not e))
          ∙ getfl-setfl_self k fd (or_nonblock (getfl k fd))
          ∙ nonblock-or_nonblock (getfl k fd)
    ],
  )

  -- A new context knows whether its descriptor is a socket; a socket is non-blocking in the kernel
  -- from then on, and blocking for the program.
  pub new_fd_ctx_lem :
      (k : State) (fd : ℤ)
      → let (c, k') = new_fd_ctx kernel k fd in
        (c.is_socket ≡ says_socket (fstat k fd))
        × (c.user_no_block ≡ false)
        × (says_socket (fstat k fd) ≡ true → nonblock (getfl k' fd) ≡ true)
  unfolding new_fd_ctx
  new_fd_ctx_lem k fd = init_mode_lem k fd (fstat k fd)
