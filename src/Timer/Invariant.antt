-- ===== src/Timer/Invariant.antt =====
-- The invariant of the timer set, and what TimerManager::addTimer keeps of it.
use doroutine.Prelude.{
  ℕ, ◌≡◌, refl, inl, inr, true, false, ◌||◌, List, ◌==◌, contains, Bool-cases, arith, update,
}
use doroutine.Outcome.{done}
use doroutine.Timer.{Timer, TimerManager, insert, has_func, add_timer_locked, new_manager}
use doroutine.Timer.Order.{Sorted, Sorted-congr, update-next_outside}
use doroutine.Timer.Set.{contains-insert, insert-Sorted}

-- The set is in the comparator's order, and a timer that still has its callback is in the set.
pub record IsValid (m : TimerManager) : Type 0 where
  pub sorted : Sorted m.store m.timers
  pub live : (a : ℕ) → has_func (m.store a).func ≡ true → contains a m.timers ≡ true

pub new_manager-IsValid : (now : ℕ) → IsValid (new_manager now)
unfolding new_manager
new_manager-IsValid now = record { sorted = tt; live = λ a h. cc }

module _ (s : ℕ → Timer) (a : ℕ) (t : Timer) (xs : List ℕ) (out : contains a xs ≡ false) where
  pub written-Sorted : Sorted s xs → Sorted (update s a t) (insert (update s a t) a xs)
  written-Sorted sorted =
      insert-Sorted (update s a t) a xs
        (Sorted-congr s (update s a t) xs (update-next_outside s a t xs out) sorted)

  written_live :
      ((b : ℕ) → (a == b) ≡ false → has_func (s b).func ≡ true → contains b xs ≡ true)
      → (b : ℕ) → has_func (update s a t b).func ≡ true
      → contains b (insert (update s a t) a xs) ≡ true
  written_live live b h = elim (Bool-cases (a == b)) [
    | inl e ↦ ground (arith, contains-insert (update s a t) b a xs)
    | inr e ↦ ground (arith, contains-insert (update s a t) b a xs, live b e)
  ]

-- The manager with timer `a` written anew, before it is put into the set `xs`.
abbrev pub written : TimerManager → ℕ → Timer → List ℕ → TimerManager
written m a t xs = record m { store = update m.store a t; timers = xs }

-- Putting a written timer, under an owned lock, into a set that lacks it: the call returns with the
-- lock released, and the set gains just that timer.
module _ (m : TimerManager) (a : ℕ) (t : Timer) (xs : List ℕ) (out : contains a xs ≡ false)
    (sorted : Sorted m.store xs) where
  pub add_timer_locked-Inserts :
      (m' : TimerManager) × (add_timer_locked (written m a t xs) a true ≡ done (m', false))
      × Sorted m'.store m'.timers
      × (m'.store ≡ update m.store a t)
      × (m'.timers ≡ insert (update m.store a t) a xs)
  unfolding add_timer_locked
  add_timer_locked-Inserts = (_, refl, written-Sorted m.store a t xs out sorted, refl, refl)

  -- The invariant holds if it holds of the other timers.
  pub add_timer_locked-Returns :
      ((b : ℕ) → (a == b) ≡ false → has_func (m.store b).func ≡ true → contains b xs ≡ true)
      → (m' : TimerManager) × (add_timer_locked (written m a t xs) a true ≡ done (m', false))
        × IsValid m'
        × (m'.store ≡ update m.store a t)
        × ((b : ℕ) → contains b m'.timers ≡ (a == b || contains b xs))
  add_timer_locked-Returns live =
      let (m', r, so, es, et) = add_timer_locked-Inserts in
      (
        m',
        r,
        record {
          sorted = so;
          live = λ b h. rw et (written_live m.store a t xs out live b (rw es at h));
        },
        es,
        λ b. rw et (contains-insert (update m.store a t) b a xs),
      )
