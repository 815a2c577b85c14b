-- ===== src/Hook/Options.antt =====
-- getsockopt() and setsockopt() with all their options, and the look-up of the original calls.
use doroutine.Prelude.{
  ℕ, ◌+◌, ◌≡◌, ◌≢◌, refl, Bool, true, false, not, List, [], ◌∷◌, map, ◌==◌, if◌then◌else◌, ℤ, arith,
}
use Prim.Native.String.{String}
use doroutine.Outcome.{Outcome, done}
use doroutine.Kernel.{Kernel}
use doroutine.Fd.{FdManager, rcvtimeo, sndtimeo}
use doroutine.Hook.{setsockopt_timeout}

abbrev pub sol_socket : ℕ
sol_socket = 1

abbrev pub so_rcvtimeo : ℕ
so_rcvtimeo = 20

abbrev pub so_sndtimeo : ℕ
so_sndtimeo = 21

-- The calls that HOOK_FUN lists.
abbrev pub hook_fun : List String
hook_fun =
    "sleep" ∷ "usleep" ∷ "nanosleep" ∷ "socket" ∷ "connect" ∷ "accept" ∷ "read" ∷ "readv" ∷ "recv"
    ∷ "recvfrom" ∷ "recvmsg" ∷ "write" ∷ "writev" ∷ "send" ∷ "sendto" ∷ "sendmsg" ∷ "close"
    ∷ "fcntl" ∷ "ioctl" ∷ "getsockopt" ∷ "setsockopt" ∷ []

-- The static variables of the file: the flag of hookInit, the pointers to the original calls, and
-- how often dlsym was called.
pub record Hooks : Type 0 where
  pub is_inited : Bool
  pub originals : List (String × ℕ)
  pub look_ups : ℕ

module _ (dlsym : String → ℕ) where
  -- hookInit()
  pub hook_init : Hooks → Hooks
  hook_init h = if h.is_inited then h else record h {
    originals = map (λ name. (name, dlsym name)) hook_fun;
    look_ups = h.look_ups + 21;
  }

  -- No call sets the flag, so that each one looks all of them up again.
  hook_init_again :
      (h : Hooks)
      → h.is_inited ≡ false
      → ((hook_init h).is_inited ≡ false)
        × ((hook_init (hook_init h)).originals ≡ (hook_init h).originals)
        × ((hook_init (hook_init h)).look_ups ≡ h.look_ups + 42)
  unfolding hook_init
  hook_init_again h e = (ground (arith, e), ground (arith, e), ground (arith, e))

module _ (kernel : Kernel) where
  open kernel use {State}

  -- setsockopt(): what it writes in the table, before setsockopt_f gets its arguments as they are.
  pub setsockopt : Bool → FdManager → State → ℤ → (level optname sec usec : ℕ) → Outcome FdManager
  setsockopt enabled m k fd level optname sec usec =
      if not enabled
      then done m
      else (if level == sol_socket
          then (if optname == so_rcvtimeo
              then setsockopt_timeout kernel m k fd rcvtimeo sec usec
              else (if optname == so_sndtimeo
                  then setsockopt_timeout kernel m k fd sndtimeo sec usec
                  else done m))
          else done m)

  -- What setsockopt() does to the table is what `setsockopt_timeout` does, for one of the two timeouts
  -- of SOL_SOCKET in a hooked thread, and else nothing.
  setsockopt_lem :
      (m : FdManager) (k : State) (fd : ℤ) (level optname sec usec : ℕ)
      → (setsockopt true m k fd sol_socket so_rcvtimeo sec usec
          ≡ setsockopt_timeout kernel m k fd rcvtimeo sec usec)
        × (setsockopt true m k fd sol_socket so_sndtimeo sec usec
            ≡ setsockopt_timeout kernel m k fd sndtimeo sec usec)
        × (level ≢ sol_socket → setsockopt true m k fd level optname sec usec ≡ done m)
        × (optname ≢ so_rcvtimeo
            → optname ≢ so_sndtimeo
            → setsockopt true m k fd level optname sec usec ≡ done m)
        × (setsockopt false m k fd level optname sec usec ≡ done m)
  unfolding setsockopt
  setsockopt_lem m k fd level optname sec usec =
      (refl, refl, λ n. ground arith, λ n n'. ground arith, refl)
