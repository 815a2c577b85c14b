-- ===== src/Fd/Write.antt =====
-- Writes through the pointer that FdManager::get returns.
use doroutine.Prelude.{
  ℕ, ◌<◌, ◌≡◌, ◌≢◌, ◌∙◌, refl, ap, inl, inr, false, some, leb, ◌==◌, length, length-set, set,
  if◌then◌else◌, subst, Bool-cases, pos, arith,
}
use doroutine.Outcome.{done}
use doroutine.Kernel.{Kernel}
use doroutine.Fd.{
  FdCtx, FdManager, TimeoutType, rcvtimeo, sndtimeo, get_timeout, set_timeout, slot, get, modify,
}
use doroutine.Fd.Table.{IsGoodCtx, IsValid, slot-set, slot_bound, get_present}

own_timeout : (c : FdCtx) (t : TimeoutType) (v : ℕ) → get_timeout (set_timeout c t v) t ≡ v
unfolding get_timeout set_timeout
own_timeout c rcvtimeo v = refl
own_timeout c sndtimeo v = refl

other_timeout :
    (c : FdCtx) (t : TimeoutType) (v : ℕ) (t' : TimeoutType)
    → t' ≢ t
    → get_timeout (set_timeout c t v) t' ≡ get_timeout c t'
unfolding get_timeout set_timeout
other_timeout c rcvtimeo v rcvtimeo n = absurd (n refl)
other_timeout c rcvtimeo v sndtimeo n = refl
other_timeout c sndtimeo v rcvtimeo n = refl
other_timeout c sndtimeo v sndtimeo n = absurd (n refl)

pub get_timeout-set_timeout :
    (c : FdCtx) (t : TimeoutType) (v : ℕ)
    → (get_timeout (set_timeout c t v) t ≡ v)
      × ((t' : TimeoutType) → t' ≢ t → get_timeout (set_timeout c t v) t' ≡ get_timeout c t')
get_timeout-set_timeout c t v = (own_timeout c t v, other_timeout c t v)

-- A timeout changes neither the kind nor the mode.
pub set_timeout_lem :
    (c : FdCtx) (t : TimeoutType) (v : ℕ)
    → ((set_timeout c t v).is_socket ≡ c.is_socket)
      × ((set_timeout c t v).user_no_block ≡ c.user_no_block)
unfolding set_timeout
set_timeout_lem c rcvtimeo v = (refl, refl)
set_timeout_lem c sndtimeo v = (refl, refl)

pub set_timeout-IsGoodCtx :
    (c : FdCtx) (t : TimeoutType) (v : ℕ) → IsGoodCtx c → IsGoodCtx (set_timeout c t v)
unfolding set_timeout
set_timeout-IsGoodCtx c rcvtimeo v g = record {
  never_closed = g.never_closed;
  sys_of_socket = g.sys_of_socket;
  init_of_socket = g.init_of_socket;
}
set_timeout-IsGoodCtx c sndtimeo v g = record {
  never_closed = g.never_closed;
  sys_of_socket = g.sys_of_socket;
  init_of_socket = g.init_of_socket;
}

module _ (m : FdManager) (fd : ℕ) (c : FdCtx) (at : slot m fd ≡ some c) where
  pub get_held :
      IsValid m
      → (kernel : Kernel) (k : Kernel.State kernel)
      → get kernel m k (pos fd) false ≡ done (m, k, some c)
  get_held v kernel k =
      get_present kernel m k fd false v.size_max (rw at refl) ∙ ap (λ o. done (m, k, o)) at

  held_bound : fd < length m.fds
  held_bound = elim (Bool-cases (leb (length m.fds) fd)) [
    | inl e ↦ absurd (ground (arith, at, slot_bound m fd))
    | inr e ↦ ground arith
  ]

  modified : (f : FdCtx → FdCtx) → modify m fd f ≡ record { fds = set m.fds fd (some (f c)) }
  unfolding modify
  modified f = rw (at, modify) refl

  pub slot-modify :
      (f : FdCtx → FdCtx) (j : ℕ)
      → slot (modify m fd f) j ≡ (if fd == j then some (f c) else slot m j)
  slot-modify f j = ap (λ n. slot n j) (modified f) ∙ slot-set m.fds fd j (some (f c)) held_bound

  modified_good :
      (f : FdCtx → FdCtx) (j : ℕ) (d : FdCtx)
      → IsValid m
      → IsGoodCtx (f c)
      → slot (modify m fd f) j ≡ some d
      → IsGoodCtx d
  modified_good f j d v g h = elim (Bool-cases (fd == j)) [
    | inl e ↦ (let same : f c ≡ d = ground (arith, slot-modify f j) in subst IsGoodCtx same g)
    | inr e ↦ v.good j d (ground (arith, slot-modify f j))
  ]

  length-modify : (f : FdCtx → FdCtx) → length (modify m fd f).fds ≡ length m.fds
  length-modify f = ap (λ n. length n.fds) (modified f) ∙ length-set m.fds fd (some (f c))

  pub modify-IsValid : (f : FdCtx → FdCtx) → IsValid m → IsGoodCtx (f c) → IsValid (modify m fd f)
  modify-IsValid f v g = record {
    size = rw (length-modify f) v.size;
    size_max = rw (length-modify f) v.size_max;
    good = λ j d h. modified_good f j d v g h;
  }
