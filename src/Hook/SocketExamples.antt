-- ===== src/Hook/SocketExamples.antt =====
-- connect(), socket(), ioctl() and setsockopt(), with descriptor 5 a socket and descriptor 9 a new one.
use doroutine.Prelude.{ℕ, ◌≡◌, true, false, some, ℤ, pos, refl}
use doroutine.Outcome.{done}
use doroutine.Kernel.{nonblock}
use doroutine.Fd.{FdCtx, FdManager, slot}
use doroutine.Fd.Table.{IsValid}
use doroutine.Fd.Examples.{sockets, blocking}
use doroutine.Hook.Examples.{socket_context, one_socket, one_socket-IsValid, held}
use doroutine.Hook.Sockets.{ioctl_fionbio, ioctl_fionbio-unblocks}

ioctl_fionbio-unblocks_example :
    (m' : FdManager) × (k' : ℤ → ℕ) × (c' : FdCtx) × (ioctl_fionbio sockets one_socket blocking
        (pos 5)
        false
      ≡ done (m', k'))
    × IsValid m'
    × (slot m' 5 ≡ some c')
    × (c'.user_no_block ≡ false)
    × (c'.sys_no_block ≡ true)
    × (nonblock (k' (pos 5)) ≡ false)
ioctl_fionbio-unblocks_example =
    ioctl_fionbio-unblocks sockets one_socket blocking 5 false socket_context one_socket-IsValid
      held refl
