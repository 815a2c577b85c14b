-- ===== src/Hook/CommandExamples.antt =====
-- F_DUPFD_CLOEXEC and the others on descriptor 5, over a kernel in which they change nothing.
use doroutine.Prelude.{
  ℕ, ◌≡◌, refl, true, false, Option, none, some, ℤ, pos, negsuc, ◌==◌, if◌then◌else◌, contains, [],
  ◌∷◌,
}
use doroutine.Outcome.{done}
use doroutine.Kernel.{Kernel, nonblock}
use doroutine.Fd.{FdManager}
use doroutine.Fd.Examples.{sockets, blocking}
use doroutine.Hook.Examples.{socket_context, one_socket, one_socket-IsValid, held}
use doroutine.Fd.Table.{IsValid}
use doroutine.Hook.Commands.{f_getfl, f_setfl, int_mode, Fcntl, fcntl, fcntl-Returns}

-- The answer of the original call, by the argument that it is given.
answer : (ℤ → ℕ) → ℤ → ℕ → Option ℕ → (ℤ → ℕ) × ℤ
answer k fd cmd (some arg) =
    if cmd == f_setfl then (Kernel.setfl sockets k fd arg, pos 0) else (k, pos arg)
answer k fd cmd none = if cmd == f_getfl then (k, pos (k fd)) else (k, pos 0)

over_sockets : Fcntl sockets
unfolding answer
over_sockets = record { fcntl_f = answer; sets = λ k fd flags. refl; gets = λ k fd. refl }

fcntl-Returns_example :
    ((m' : FdManager) × (k' : ℤ → ℕ) × (n : ℤ) × (flags : ℕ) × (fcntl sockets over_sockets
          one_socket blocking
          (pos 5)
          4
          2050
        ≡ done (m', k', n))
      × IsValid m'
      × (true ≡ true → nonblock (k' (pos 5)) ≡ true)
      × ((any : ℕ) → fcntl sockets over_sockets m' k' (pos 5) 3 any ≡ done (m', k', pos flags))
      × (nonblock flags ≡ nonblock 2050))
    × ((cmd : ℕ)
        → contains cmd (0 ∷ 2 ∷ 8 ∷ 10 ∷ 1024 ∷ 1026 ∷ 1030 ∷ 1031 ∷ []) ≡ true
        → fcntl sockets over_sockets one_socket blocking (pos 5) cmd 2050
          ≡ (let (k', n) = answer blocking (pos 5) cmd (some 2050) in done (one_socket, k', n)))
    × ((cmd : ℕ)
        → contains cmd (5 ∷ 6 ∷ 7 ∷ 15 ∷ 16 ∷ []) ≡ true
        → fcntl sockets over_sockets one_socket blocking (pos 5) cmd 2050
          ≡ (let (k', n) = answer blocking (pos 5) cmd (some 2050) in done (one_socket, k', n)))
    × ((cmd : ℕ)
        → contains cmd
            (0 ∷ 2 ∷ 3 ∷ 4 ∷ 5 ∷ 6 ∷ 7 ∷ 8 ∷ 10 ∷ 15 ∷ 16 ∷ 1024 ∷ 1026 ∷ 1030 ∷ 1031 ∷ [])
          ≡ false
        → fcntl sockets over_sockets one_socket blocking (pos 5) cmd 2050
          ≡ (let (k', n) = answer blocking (pos 5) cmd none in done (one_socket, k', n)))
    × ((cmd : ℕ)
        → contains cmd (36 ∷ 37 ∷ 38 ∷ 1033 ∷ 1036 ∷ []) ≡ true
        → (arg' : ℕ)
        → fcntl sockets over_sockets one_socket blocking (pos 5) cmd 2050
          ≡ fcntl sockets over_sockets one_socket blocking (pos 5) cmd arg')
unfolding answer over_sockets
fcntl-Returns_example =
    fcntl-Returns sockets over_sockets one_socket blocking 5 2050 socket_context one_socket-IsValid
      held

-- A failure of F_GETFL, on a context whose descriptor is gone, is not -1 any more.
failed_getfl : int_mode false (negsuc 0) ≡ negsuc 2048
unfolding int_mode
failed_getfl = refl
