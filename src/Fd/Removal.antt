-- ===== src/Fd/Removal.antt =====
-- delFd, and a second get of a descriptor.
use doroutine.Prelude.{
  ℕ, ◌≡◌, refl, inl, inr, none, pos, negsuc, leb, ◌==◌, length, length-set, if◌then◌else◌,
  Bool-cases, arith,
}
use doroutine.Fd.{FdManager, slot, del_fd}
use doroutine.Fd.Table.{IsValid, slot-set, slot_bound}

slot-del_fd :
    (m : FdManager) (fd j : ℕ) → slot (del_fd m (pos fd)) j ≡ (if fd == j then none else slot m j)
unfolding del_fd
slot-del_fd m fd j = elim (Bool-cases (leb (length m.fds) fd)) [
  | inl e ↦ rw e (ground (arith, slot_bound m fd))
  | inr e ↦ rw e (slot-set m.fds fd j none (ground arith))
]

length-del_fd : (m : FdManager) (fd : ℕ) → length (del_fd m (pos fd)).fds ≡ length m.fds
unfolding del_fd
length-del_fd m fd = ground (arith, length-set m.fds fd none)

-- On a valid table, delFd of a descriptor that is not negative empties its slot, if it has one, and
-- keeps the others, and the table is valid; a negative descriptor is ignored.
pub del_fd_lem :
    (m : FdManager) (fd : ℕ)
    → IsValid m
    → IsValid (del_fd m (pos fd))
      × ((j : ℕ) → slot (del_fd m (pos fd)) j ≡ (if fd == j then none else slot m j))
      × ((n : ℕ) → del_fd m (negsuc n) ≡ m)
del_fd_lem m fd v = (
  record {
    size = rw (length-del_fd m fd) v.size;
    size_max = rw (length-del_fd m fd) v.size_max;
    good = λ j c h. v.good j c (ground (arith, slot-del_fd m fd j));
  },
  slot-del_fd m fd,
  λ n. unfold del_fd in refl,
)
