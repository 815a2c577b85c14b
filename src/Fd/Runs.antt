-- ===== src/Fd/Runs.antt =====
-- FdManager as a partial map: whole histories of its calls, from the constructor on.
use doroutine.Prelude.{
  All, ◌*◌, ◌/◌, ◌^◌, ◌<◌, ℕ, ◌≡◌, ◌∙◌, refl, ap, fun_ext, inl, inr, Bool, false, ◌||◌, not, Option,
  none, some, List, [], ◌∷◌, pos, if◌then◌else◌, Bool-cases, Option-cases, update, arith,
}
use doroutine.Outcome.{Outcome, done, ◌>>=◌}
use doroutine.Kernel.{Kernel}
use doroutine.Fd.{
  FdCtx, FdManager, TimeoutType, set_timeout, new_fd_manager, new_fd_ctx, slot, is_some, get,
  del_fd, modify,
}
use doroutine.Fd.Table.{
  IsValid, slots_null, new_fd_manager-IsValid, create_lem, created-IsGoodCtx, get_present,
  get_absent,
}
use doroutine.Fd.Write.{get_held, slot-modify, modify-IsValid, set_timeout-IsGoodCtx}
use doroutine.Fd.Removal.{del_fd_lem}

-- get(fd, autoCreate), delFd(fd), and get(fd) with a setTimeout through its pointer.
pub data Call : Type 0 where
  gets : ℕ → Bool → Call
  deletes : ℕ → Call
  sets : ℕ → TimeoutType → ℕ → Call

-- The vector that get(fd, true) makes is of a size that an int holds.
abbrev pub Fits : Call → Type 0
Fits (gets fd auto_create) = fd * 3 / 2 < 2 ^ 31
Fits (deletes fd) = Unit {0}
Fits (sets fd t v) = Unit {0}

module _ (kernel : Kernel) where
  open kernel use {State}

  unfoldable pub perform : FdManager → State → Call → Outcome (FdManager × State × Option FdCtx)
  perform m k (gets fd auto_create) = get kernel m k (pos fd) auto_create
  perform m k (deletes fd) = done (del_fd m (pos fd), k, none)
  perform m k (sets fd t v) =
      get kernel m k (pos fd) false >>= λ r. done (modify r.0 fd (λ c. set_timeout c t v), r.1, r.2)

  unfoldable pub run :
      FdManager → State → List Call → Outcome (FdManager × State × List (Option FdCtx))
  unfolding perform
  run m k [] = done (m, k, [])
  run m k (c ∷ cs) = perform m k c >>= λ r. run r.0 r.1 cs >>= λ rs. done (rs.0, rs.1, r.2 ∷ rs.2)

  -- The map: what a call makes of it and of the kernel, and the context that the call gives.
  abbrev pub Contexts : Type 0
  Contexts = ℕ → Option FdCtx

  abbrev pub keeps : Contexts → ℕ → Bool → Bool
  keeps s fd auto_create = is_some (s fd) || not auto_create

  abbrev pub timed : TimeoutType → ℕ → Option FdCtx → Option FdCtx
  timed t v none = none
  timed t v (some c) = some (set_timeout c t v)

  unfoldable pub spec : Contexts → State → Call → Contexts × State × Option FdCtx
  spec s k (gets fd auto_create) =
      if keeps s fd auto_create
      then (s, k, s fd)
      else (let (c, k') = new_fd_ctx kernel k (pos fd) in (update s fd (some c), k', some c))
  spec s k (deletes fd) = (update s fd none, k, none)
  spec s k (sets fd t v) = (update s fd (timed t v (s fd)), k, s fd)

  unfoldable pub replay : Contexts → State → List Call → Contexts × State × List (Option FdCtx)
  unfolding spec
  replay s k [] = (s, k, [])
  replay s k (c ∷ cs) = let r = spec s k c in let rs = replay r.0 r.1 cs in (rs.0, rs.1, r.2 ∷ rs.2)

  -- A manager that holds the map of a specified outcome, and the outcome of the code.
  abbrev Refines :
      Outcome (FdManager × State × Option FdCtx) → Contexts × State × Option FdCtx → Type 0
  Refines o r = (m' : FdManager) × (o ≡ done (m', r.1, r.2)) × IsValid m' × (slot m' ≡ r.0)

  unmodified :
      (m : FdManager) (fd : ℕ) (t : TimeoutType) (n : ℕ)
      → slot m fd ≡ none
      → modify m fd (λ c. set_timeout c t n) ≡ m
  unfolding modify
  unmodified m fd t n e = rw (e, modify) refl

  gets-Refines :
      (m : FdManager) (k : State) (fd : ℕ) (b : Bool)
      → IsValid m
      → fd * 3 / 2 < 2 ^ 31
      → Refines (get kernel m k (pos fd) b) (spec (slot m) k (gets fd b))
  unfolding spec
  gets-Refines m k fd b v fits = elim (Bool-cases (keeps (slot m) fd b)) [
    | inl e ↦ rw e (m, get_present kernel m k fd b v.size_max e, v, refl)
    | inr e ↦
        (let (m', r, more, small, same) = create_lem kernel m k fd v fits in
          rw e (
            m',
            get_absent kernel m k fd b v.size_max e ∙ r,
            record {
              size = omega arith;
              size_max = small;
              good = λ j d h. created-IsGoodCtx kernel m m' k fd j d v same h;
            },
            fun_ext same,
          ))
  ]

  sets-Refines :
      (m : FdManager) (k : State) (fd : ℕ) (t : TimeoutType) (n : ℕ)
      → IsValid m
      → Refines (perform m k (sets fd t n)) (spec (slot m) k (sets fd t n))
  unfolding spec perform
  sets-Refines m k fd t n v = elim (Option-cases (slot m fd)) [
    | inl e ↦ (
      m,
      rw (get_present kernel m k fd false v.size_max (rw e refl))
          (rw e (ap (λ n. done (n, k, none)) (unmodified m fd t n e))),
      v,
      fun_ext (λ j. ground (arith, e)),
    )
    | inr (c, e) ↦
        (let f : FdCtx → FdCtx = λ c. set_timeout c t n in
          (
            modify m fd f,
            rw (get_held m fd c e v kernel k) (rw e refl),
            modify-IsValid m fd c e f v (set_timeout-IsGoodCtx c t n (v.good fd c e)),
            fun_ext (λ j. slot-modify m fd c e f j ∙ rw e refl),
          ))
  ]

  perform-Refines :
      (m : FdManager) (k : State) (c : Call)
      → IsValid m
      → Fits c
      → Refines (perform m k c) (spec (slot m) k c)
  unfolding perform spec
  perform-Refines m k (gets fd b) v fits = gets-Refines m k fd b v fits
  perform-Refines m k (deletes fd) v fits =
      let (v', same, neg) = del_fd_lem m fd v in (del_fd m (pos fd), refl, v', fun_ext same)
  perform-Refines m k (sets fd t n) v fits = sets-Refines m k fd t n v

  run_refines :
      (cs : List Call) (m : FdManager) (k : State)
      → IsValid m
      → All Fits cs
      → let r = replay (slot m) k cs in
        (m' : FdManager) × (run m k cs ≡ done (m', r.1, r.2)) × IsValid m' × (slot m' ≡ r.0)
  unfolding run replay
  run_refines [] m k v fits = (m, refl, v, refl)
  run_refines (c ∷ cs) m k v fits =
      let r = spec (slot m) k c in
      let (m1, e, v1, same) = perform-Refines m k c v fits.0 in
      let (m', es, v', same') = run_refines cs m1 r.1 v1 fits.1 in
      (
        m',
        ap (λ o. o >>= λ r. run r.0 r.1 cs >>= λ rs. done (rs.0, rs.1, r.2 ∷ rs.2)) e
            ∙ ap (λ o. o >>= λ rs. done (rs.0, rs.1, r.2 ∷ rs.2)) es
            ∙ ap (λ s. let rs = replay s r.1 cs in done (m', rs.1, r.2 ∷ rs.2)) same,
        v',
        same' ∙ ap (λ s. (replay s r.1 cs).0) same,
      )

  -- FdManager refines a partial map from descriptors to their contexts: whatever calls of get, of
  -- descriptors of which 1.5 times is below 2 ^ 31, of delFd and of setTimeout through what get gave
  -- are made of a new manager, in any order and one after the other, each returns, they give the contexts that the map gives, and the slots
  -- hold what the map holds. On the map, get gives the context there is, or a new one if it may
  -- create one and there is none, which is there from then on, and delFd forgets a context.
  pub run-refines :
      (k : State) (cs : List Call)
      → All Fits cs
      → let r = replay (λ j. none) k cs in
        (m' : FdManager) × (run new_fd_manager k cs ≡ done (m', r.1, r.2))
        × IsValid m'
        × (slot m' ≡ r.0)
  run-refines k cs fits =
      let (m', e, v, same) = run_refines cs new_fd_manager k new_fd_manager-IsValid fits in
      let start : slot new_fd_manager ≡ (λ j. none) = fun_ext (λ j. slots_null 64 j) in
      (
        m',
        e ∙ ap (λ s. let r = replay s k cs in done (m', r.1, r.2)) start,
        v,
        same ∙ ap (λ s. (replay s k cs).0) start,
      )
