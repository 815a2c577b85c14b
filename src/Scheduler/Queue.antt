-- ===== src/Scheduler/Queue.antt =====
-- The task queue: what the scan under the lock takes, and what it leaves.
use doroutine.Doroutine.{State}
use doroutine.Prelude.{
  ℕ, ◌≡◌, refl, ap, inl, inr, ◌⊎◌, Bool, true, false, ◌||◌, not, none, some, List, [], ◌∷◌, ◌++◌, ℤ,
  All, Bool-cases, arith,
}
use doroutine.Scheduler.{SchedulerTask, Pick, pick, elsewhere, is_busy, is_empty}

-- The scan passes a task over where it is bound to another thread or its doroutine is RUNNING.
abbrev pub is_skipped : (ℕ → State) → ℤ → SchedulerTask → Bool
is_skipped states tid t = elsewhere tid t || is_busy states t

abbrev pub any_elsewhere : ℤ → List SchedulerTask → Bool
any_elsewhere tid [] = false
any_elsewhere tid (t ∷ ts) = elsewhere tid t || any_elsewhere tid ts

module _ (states : ℕ → State) (tid : ℤ) where
  -- What the scan of a queue gives: no task, if every task is passed over; or the first that is
  -- not, taken out of its place.
  abbrev pub Picks : List SchedulerTask → Pick → Type 0
  Picks ts p =
      ((p.task ≡ none)
        × (p.rest ≡ ts)
        × All (λ t. is_skipped states tid t ≡ true) ts
        × (p.tickle_me ≡ any_elsewhere tid ts))
      ⊎ ((t : SchedulerTask) × (before : List SchedulerTask) × (after : List SchedulerTask)
          × (p.task ≡ some t)
          × (ts ≡ before ++ t ∷ after)
          × (p.rest ≡ before ++ after)
          × All (λ u. is_skipped states tid u ≡ true) before
          × (is_skipped states tid t ≡ false)
          × (p.tickle_me ≡ (any_elsewhere tid before || not (is_empty after))))

  -- A thread takes the first task of the queue that is not bound to another thread and whose
  -- doroutine is not RUNNING, and leaves the others in order. It wakes another thread where it
  -- passed a task of such a thread over, or leaves tasks behind the one that it takes.
  pub pick-Picks : (ts : List SchedulerTask) → Picks ts (pick states tid ts)
  unfolding pick
  pick-Picks [] = inl (refl, refl, tt, refl)
  pick-Picks (t ∷ ts) = elim (Bool-cases (is_skipped states tid t)) [
    | inl e ↦ (elim (pick-Picks ts) [
      | inl (a, b, c, d) ↦ inl (ground arith, ground arith, (e, c), ground arith)
      | inr (u, before, after, a, b, c, d, f, g) ↦
          inr (
            u,
            t ∷ before,
            after,
            ground arith,
            ap (◌∷◌ t) b,
            ground arith,
            (e, d),
            f,
            ground arith,
          )
    ])
    | inr e ↦ inr (t, [], ts, ground arith, refl, ground arith, tt, e, ground arith)
  ]
