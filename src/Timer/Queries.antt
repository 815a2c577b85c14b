-- ===== src/Timer/Queries.antt =====
-- TimerManager::getNextTimer and hasTimer.
use doroutine.Prelude.{
  ℕ, ◌-◌, ◌≤◌, ◌≡◌, ◌≢◌, ◌↔◌, refl, true, List, [], ◌∷◌, All, contains, u64_max, ltb, if◌then◌else◌,
  arith,
}
use doroutine.Timer.{Timer, TimerManager, lt, get_next_timer}
use doroutine.Timer.Order.{Sorted, next_mono}
use doroutine.Timer.Range.{due, later-All}
use doroutine.Timer.Invariant.{IsValid}

-- The wait of the first timer of the list.
first_wait : (ℕ → Timer) → ℕ → List ℕ → ℕ
first_wait s now [] = u64_max
first_wait s now (a ∷ bs) = if ltb now (s a).next then (s a).next - now else 0

get_next_timer-first_wait :
    (m : TimerManager) (now : ℕ) (xs : List ℕ)
    → m.timers ≡ xs
    → get_next_timer m now ≡ first_wait m.store now xs
unfolding get_next_timer first_wait
get_next_timer-first_wait m now [] e = ground arith
get_next_timer-first_wait m now (x ∷ xs) e = ground arith

after-All :
    (s : ℕ → Timer) (now a b : ℕ) (xs : List ℕ)
    → All (λ x. lt s a x ≡ true) xs
    → contains b (a ∷ xs) ≡ true
    → (s a).next ≤ (s b).next
after-All s now a b [] h c = ground arith
after-All s now a b (x ∷ xs) h c = ground (arith, next_mono s a x h.0, after-All s now a b xs h.1)

first_wait_lem :
    (s : ℕ → Timer) (now : ℕ) (xs : List ℕ)
    → Sorted s xs
    → xs ≢ []
    → (a : ℕ) × (contains a xs ≡ true)
      × (first_wait s now xs ≡ (s a).next - now)
      × ((b : ℕ) → contains b xs ≡ true → first_wait s now xs ≤ (s b).next - now)
      × ((first_wait s now xs ≡ 0) ↔ (due s now xs ≢ []))
unfolding first_wait
first_wait_lem s now [] v h = absurd (h refl)
first_wait_lem s now (x ∷ xs) v h = (
  x,
  ground arith,
  ground arith,
  λ b c. ground (arith, after-All s now x b xs v.0 c),
  (λ z. ground arith, λ d. ground (arith, later-All s now x xs)),
)

-- On a valid manager whose set is not empty getNextTimer is the time until its first timer, and no
-- timer of it comes sooner; it is 0 just where listExpiredFunc has a timer to take out.
pub get_next_timer_lem :
    (m : TimerManager) (now : ℕ)
    → IsValid m
    → m.timers ≢ []
    → (a : ℕ) × (contains a m.timers ≡ true)
      × (get_next_timer m now ≡ (m.store a).next - now)
      × ((b : ℕ) → contains b m.timers ≡ true → get_next_timer m now ≤ (m.store b).next - now)
      × ((get_next_timer m now ≡ 0) ↔ (due m.store now m.timers ≢ []))
get_next_timer_lem m now v h =
    rw (get_next_timer-first_wait m now m.timers refl)
      (first_wait_lem m.store now m.timers v.sorted h)
