-- ===== src/Timer/Range.antt =====
-- Which timers listExpiredFunc takes out: lower_bound and the loop after it, over a sorted set.
use mathlib.Core.List.{filter}
use doroutine.Prelude.{
  ℕ, ◌≤◌, ◌<◌, ◌≡◌, ◌∙◌, refl, ap, inl, inr, true, false, List, [], ◌∷◌, ◌++◌, All, contains,
  dec_le, dec_lt, Bool-cases, arith, update,
}
use doroutine.Timer.{Timer, TimerManager, lt, now_timer, lower_bound, skip_equal, expired_range}
use doroutine.Timer.Order.{
  Sorted, Sorted-congr, eq_of_not_lt, All-lt_trans, lt_asymm, next_mono, update-next_outside,
}

-- The timers whose time has come, and the others, in the order of the set.
abbrev pub due : (ℕ → Timer) → ℕ → List ℕ → List ℕ
due s now = filter (λ a. dec_le (s a).next now)

abbrev pub later : (ℕ → Timer) → ℕ → List ℕ → List ℕ
later s now = filter (λ a. dec_lt now (s a).next)

module _ (s : ℕ → Timer) (now : ℕ) where
  pub later-All :
      (a : ℕ) (xs : List ℕ)
      → now < (s a).next
      → All (λ x. lt s a x ≡ true) xs
      → (due s now xs ≡ []) × (later s now xs ≡ xs)
  later-All a [] h k = (refl, refl)
  later-All a (x ∷ xs) h k = ground (arith, next_mono s a x k.0, later-All a xs h k.1)

  -- From a timer at or after `now` on, the loop stops behind the last one at `now`.
  skip_equal_lem :
      (xs : List ℕ)
      → All (λ x. now ≤ (s x).next) xs
      → Sorted s xs
      → skip_equal s now xs ≡ (due s now xs, later s now xs)
  unfolding skip_equal
  skip_equal_lem [] h v = refl
  skip_equal_lem (x ∷ xs) h v =
      ground (arith, skip_equal_lem xs h.1 v.1, λ (p : now < (s x).next). later-All x xs p v.0)

module _ (s : ℕ → Timer) (now probe : ℕ) (at_now : (s probe).next ≡ now) where
  lower_bound-All :
      (xs : List ℕ)
      → All (λ x. lt s probe x ≡ true) xs
      → (lower_bound s probe xs ≡ ([], xs)) × All (λ x. now ≤ (s x).next) xs
  unfolding lower_bound
  lower_bound-All [] h = (refl, tt)
  lower_bound-All (x ∷ xs) h = (
    ground (arith, lt_asymm s probe x h.0),
    (omega (arith, next_mono s probe x h.0), (lower_bound-All xs h.1).1),
  )

  from-All :
      (xs : List ℕ)
      → All (λ x. lt s probe x ≡ true) xs
      → Sorted s xs
      → skip_equal s now xs ≡ (due s now xs, later s now xs)
  from-All xs h v = skip_equal_lem s now xs (lower_bound-All xs h).1 v

  -- Together the two loops split the set into the due timers and the later ones.
  scan_lem :
      (xs : List ℕ)
      → Sorted s xs
      → contains probe xs ≡ false
      → let it = (lower_bound s probe xs).1 in
        ((lower_bound s probe xs).0 ++ (skip_equal s now it).0 ≡ due s now xs)
        × ((skip_equal s now it).1 ≡ later s now xs)
  unfolding lower_bound
  scan_lem [] v out = unfold skip_equal in (refl, refl)
  scan_lem (x ∷ xs) v out = elim (Bool-cases (lt s x probe)) [
    | inl e ↦
        (let ih = scan_lem xs v.1 (ground arith) in
          let x_due : (s x).next ≤ now = omega (arith, next_mono s x probe e) in
          rw e (ground (arith, ih)))
    | inr e ↦
        (let above : lt s probe x ≡ true = ground (arith, eq_of_not_lt s probe x) in
          let scan = from-All (x ∷ xs) (above, All-lt_trans s probe x xs above v.0) v in
          rw e (ap (λ r. r.0) scan, ap (λ r. r.1) scan))
  ]

filter-due-congr :
    (s s' : ℕ → Timer) (now : ℕ) (xs : List ℕ)
    → All (λ x. (s x).next ≡ (s' x).next) xs
    → (due s' now xs ≡ due s now xs) × (later s' now xs ≡ later s now xs)
filter-due-congr s s' now [] h = (refl, refl)
filter-due-congr s s' now (x ∷ xs) h = ground (arith, filter-due-congr s s' now xs h.1)

-- Without a rollover the range that is erased holds the timers whose time is at most now, in the
-- order of the set, and the set keeps the others. After a rollover the range is the whole set.
pub expired_range_lem :
    (m : TimerManager) (probe now : ℕ)
    → Sorted m.store m.timers
    → contains probe m.timers ≡ false
    → (expired_range m probe now false ≡ (due m.store now m.timers, later m.store now m.timers))
      × (expired_range m probe now true ≡ (m.timers, []))
unfolding expired_range
expired_range_lem m probe now v out =
    let s = update m.store probe (now_timer now) in
    let same = update-next_outside m.store probe (now_timer now) m.timers out in
    let scan =
      scan_lem s now probe (ground arith) m.timers (Sorted-congr m.store s m.timers same v) out in
    let parts = filter-due-congr m.store s now m.timers same in
    (λ i. ((scan.0 ∙ parts.0) i, (scan.1 ∙ parts.1) i), refl)
