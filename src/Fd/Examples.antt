-- ===== src/Fd/Examples.antt =====
-- The descriptor table at a concrete kernel, whose descriptors are all sockets.
use doroutine.Prelude.{
  arith, List, [], ◌∷◌, none, ℕ, ◌≡◌, refl, Bool, true, false, some, ℤ, pos, ℤ-discrete,
  if◌then◌else◌,
}
use doroutine.Outcome.{done}
use doroutine.Kernel.{Kernel}
use doroutine.Fd.Runs.{gets, deletes, sets, Call, replay, run, spec, run-refines}
use doroutine.Fd.{rcvtimeo, slot, set_timeout, FdManager, new_fd_manager, new_fd_ctx, get}
use doroutine.Fd.Table.{IsValid, new_fd_manager-IsValid, got, get-Returns}

abbrev same_fd : ℤ → ℤ → Bool
same_fd a b = elim (ℤ-discrete a b) [ yes e ↦ true | no e ↦ false ]

says_yes : (a : ℤ) (d : Dec (a ≡ a)) → (elim d [ yes e ↦ true | no e ↦ false ]) ≡ true
says_yes a (yes e) = refl
says_yes a (no e) = absurd (e refl)

pub same_fd_refl : (a : ℤ) → same_fd a a ≡ true
same_fd_refl a = says_yes a (ℤ-discrete a a)

-- The flags of each descriptor.
abbrev pub sockets : Kernel
sockets = record {
  State = ℤ → ℕ;
  fstat = λ k fd. some true;
  getfl = λ k fd. k fd;
  setfl = λ k fd flags j. if same_fd fd j then flags else k j;
  getfl-setfl_self = λ k fd flags. rw (same_fd_refl fd) refl;
  fstat-setfl = λ k fd fd' flags. refl;
}

abbrev pub blocking : ℤ → ℕ
blocking fd = 2

get-Returns_example :
    (m' : FdManager) × (k' : ℤ → ℕ) × (get sockets new_fd_manager blocking (pos 70) true
      ≡ done (m', k', got sockets new_fd_manager blocking 70 true))
    × IsValid m'
get-Returns_example =
    let r =
      get-Returns sockets new_fd_manager blocking 70 true new_fd_manager-IsValid (omega arith) in
    (r.0, r.1, r.2, r.3)

abbrev history : List Call
history = gets 70 true ∷ sets 70 rcvtimeo 700 ∷ gets 70 false ∷ deletes 70 ∷ gets 70 false ∷ []

run-refines_example :
    let r = replay sockets (λ j. none) blocking history in
    (m' : FdManager) × (run sockets new_fd_manager blocking history ≡ done (m', r.1, r.2))
    × IsValid m'
    × (slot m' ≡ r.0)
run-refines_example =
    run-refines sockets blocking history (omega arith, (tt, (omega arith, (tt, (omega arith, tt)))))

-- The third and the last answer.
history_answers :
    (let c = (new_fd_ctx sockets blocking (pos 70)).0 in
      (replay sockets (λ j. none) blocking history).2
      ≡ some c ∷ some c ∷ some (record c { recv_timeout = 700 }) ∷ none ∷ none ∷ [])
unfolding replay spec set_timeout
history_answers = refl
