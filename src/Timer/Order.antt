-- ===== src/Timer/Order.antt =====
-- Timer::Comparator as an order on the addresses of a store.
use doroutine.Prelude.{
  ℕ, ◌≤◌, ◌≡◌, refl, ◌⊎◌, true, false, Option, none, some, List, [], ◌∷◌, All, contains, arith,
  update,
}
use doroutine.Timer.{Timer, comparator, lt}

-- Comparator is a strict total order on shared pointers, null among them, as std::set requires:
-- no pointer is below itself, the order is transitive, and of two different pointers one is below
-- the other.
pub comparator-total_order :
    (s : ℕ → Timer) (a b c : Option ℕ)
    → (comparator s a a ≡ false)
      × (comparator s a b ≡ true → comparator s b c ≡ true → comparator s a c ≡ true)
      × ((a ≡ b) ⊎ ((comparator s a b ≡ true) ⊎ (comparator s b a ≡ true)))
unfolding comparator
comparator-total_order s none none none = ground arith
comparator-total_order s none none (some c) = ground arith
comparator-total_order s none (some b) none = ground arith
comparator-total_order s none (some b) (some c) = ground arith
comparator-total_order s (some a) none none = ground arith
comparator-total_order s (some a) none (some c) = ground arith
comparator-total_order s (some a) (some b) none = ground arith
comparator-total_order s (some a) (some b) (some c) = ground arith

module _ (s : ℕ → Timer) where
  pub lt_irrefl : (a : ℕ) → lt s a a ≡ false
  unfolding lt
  lt_irrefl a = ground arith

  pub lt_trans : (a b c : ℕ) → lt s a b ≡ true → lt s b c ≡ true → lt s a c ≡ true
  unfolding lt
  lt_trans a b c h k = ground arith

  pub lt_asymm : (a b : ℕ) → lt s a b ≡ true → lt s b a ≡ false
  unfolding lt
  lt_asymm a b h = ground arith

  pub eq_of_not_lt : (a b : ℕ) → lt s a b ≡ false → lt s b a ≡ false → a ≡ b
  unfolding lt
  eq_of_not_lt a b h k = ground arith

  pub next_mono : (a b : ℕ) → lt s a b ≡ true → (s a).next ≤ (s b).next
  unfolding lt
  next_mono a b h = ground arith

  -- The addresses in the order of the set.
  abbrev pub Sorted : List ℕ → Type 0
  Sorted [] = Unit
  Sorted (a ∷ bs) = All (λ b. lt s a b ≡ true) bs × Sorted bs

  pub All-lt_trans :
      (a b : ℕ) (xs : List ℕ)
      → lt s a b ≡ true
      → All (λ x. lt s b x ≡ true) xs
      → All (λ x. lt s a x ≡ true) xs
  All-lt_trans a b [] h k = tt
  All-lt_trans a b (x ∷ xs) h k = (lt_trans a b x h k.0, All-lt_trans a b xs h k.1)

-- Nothing of an address that All rules out is in the list.
pub contains_below :
    (s : ℕ → Timer) (a : ℕ) (xs : List ℕ) → All (λ x. lt s a x ≡ true) xs → contains a xs ≡ false
contains_below s a [] h = refl
contains_below s a (x ∷ xs) h = ground (arith, lt_irrefl s a, contains_below s a xs h.1)

module _ (s s' : ℕ → Timer) where
  lt-congr : (a b : ℕ) → (s a).next ≡ (s' a).next → (s b).next ≡ (s' b).next → lt s a b ≡ lt s' a b
  unfolding lt
  lt-congr a b p q = ground arith

  All-lt-congr :
      (a : ℕ) (xs : List ℕ)
      → (s a).next ≡ (s' a).next
      → All (λ x. (s x).next ≡ (s' x).next) xs
      → All (λ x. lt s a x ≡ true) xs
      → All (λ x. lt s' a x ≡ true) xs
  All-lt-congr a [] p q h = tt
  All-lt-congr a (x ∷ xs) p q h = (ground (arith, lt-congr a x p q.0), All-lt-congr a xs p q.1 h.1)

  -- The order reads nothing of a timer but its time and its address.
  pub Sorted-congr :
      (xs : List ℕ) → All (λ x. (s x).next ≡ (s' x).next) xs → Sorted s xs → Sorted s' xs
  Sorted-congr [] q h = tt
  Sorted-congr (x ∷ xs) q h = (All-lt-congr x xs q.0 q.1 h.0, Sorted-congr xs q.1 h.1)

-- A write at an address outside the list is not seen from it.
pub update-next_outside :
    (s : ℕ → Timer) (a : ℕ) (t : Timer) (xs : List ℕ)
    → contains a xs ≡ false
    → All (λ x. (s x).next ≡ (update s a t x).next) xs
update-next_outside s a t [] h = tt
update-next_outside s a t (x ∷ xs) h = (ground arith, update-next_outside s a t xs (ground arith))

-- Nor is a write that leaves the time alone.
pub update-next_same :
    (s : ℕ → Timer) (a : ℕ) (t : Timer) (xs : List ℕ)
    → t.next ≡ (s a).next
    → All (λ x. (s x).next ≡ (update s a t x).next) xs
update-next_same s a t [] h = tt
update-next_same s a t (x ∷ xs) h = (ground arith, update-next_same s a t xs h)
