-- ===== src/Hook/Examples.antt =====
-- The hooks at descriptor 5, a socket.
use doroutine.Prelude.{
  ℕ, ◌≡◌, ◌⊎◌, refl, subst, inl, inr, true, false, none, some, List, [], ◌∷◌, pos, ◌==◌, length-set,
  set, if◌then◌else◌, Bool-cases, u64_max, arith,
}
use doroutine.Outcome.{done}
use doroutine.Fd.{FdCtx, FdManager, new_fd_manager, slot}
use doroutine.Fd.Table.{IsGoodCtx, IsValid, new_fd_manager-IsValid, slot-set}
use doroutine.Fd.Examples.{sockets, blocking}
use doroutine.Hook.{eintr, eagain, returned, failed, readied, Round}
use doroutine.Epoll.{Epoll, no_events, is_none, del}
use doroutine.IoManager.{IoManager}
use doroutine.IoManager.Removal.{Removed, all_cleared, all_calls}
use doroutine.IoManager.Examples.{table, inside, waiting, one_event, one_event-IsValid, at_five}
use doroutine.Hook.Close.{close, close-Returns}

abbrev pub socket_context : FdCtx
socket_context = record {
  is_init = true;
  is_socket = true;
  sys_no_block = true;
  user_no_block = false;
  is_closed = false;
  fd = pos 5;
  recv_timeout = 700;
  send_timeout = u64_max;
}

abbrev pub one_socket : FdManager
one_socket = record { fds = set new_fd_manager.fds 5 (some socket_context) }

pub slots :
    (j : ℕ) → slot one_socket j ≡ (if 5 == j then some socket_context else slot new_fd_manager j)
slots j =
    slot-set new_fd_manager.fds 5 j (some socket_context)
      (omega (arith, new_fd_manager-IsValid.size))

socket_context-IsGoodCtx : IsGoodCtx socket_context
socket_context-IsGoodCtx = record {
  never_closed = refl;
  sys_of_socket = refl;
  init_of_socket = λ h. refl;
}

pub one_socket-IsValid : IsValid one_socket
one_socket-IsValid = record {
  size = rw (length-set new_fd_manager.fds 5 (some socket_context)) new_fd_manager-IsValid.size;
  size_max = omega (
    arith,
    length-set new_fd_manager.fds 5 (some socket_context),
    new_fd_manager-IsValid.size_max,
  );
  good = λ j d h. elim (Bool-cases (5 == j)) [
    | inl e ↦
        (let same : socket_context ≡ d = ground (arith, slots j) in
          subst IsGoodCtx same socket_context-IsGoodCtx)
    | inr e ↦ new_fd_manager-IsValid.good j d (ground (arith, slots j))
  ];
}

pub held : slot one_socket 5 ≡ some socket_context
held = slots 5

-- An interrupted call, one that would block until the event comes, and one that reads 12 bytes.
abbrev interrupted : Round
interrupted = record { reply = failed eintr; wait = readied }

abbrev blocked : Round
blocked = record { reply = failed eagain; wait = readied }

abbrev twelve : Round
twelve = record { reply = returned 12; wait = readied }

abbrev before : List Round
before = interrupted ∷ blocked ∷ []

close-Returns_example :
    (m' : FdManager) × (iom' : IoManager table) × (close sockets table true one_socket blocking
        one_event inside
        (pos 5)
      ≡ done (m', iom'))
    × IsValid m'
    × ((j : ℕ) → slot m' j ≡ (if 5 == j then none else slot one_socket j))
    × ((((is_none waiting.events ≡ true) ⊎ (Epoll.ctl table one_event.epfd del 5 no_events ≡ none))
          × (iom' ≡ one_event))
        ⊎ ((is_none waiting.events ≡ false)
            × Removed table one_event 5
                (all_cleared table one_event 5 waiting one_event-IsValid at_five)
                (all_calls table one_event 5 waiting one_event-IsValid at_five)
                iom'))
close-Returns_example =
    close-Returns sockets table one_socket blocking one_event inside 5 socket_context waiting
      one_socket-IsValid held one_event-IsValid at_five refl
