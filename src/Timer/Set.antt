-- ===== src/Timer/Set.antt =====
-- The std::set operations on a list sorted by the comparator.
use doroutine.Prelude.{
  ℕ, ◌≡◌, refl, true, ◌&&◌, ◌||◌, not, List, [], ◌∷◌, ◌==◌, All, contains, arith,
}
use doroutine.Timer.{Timer, lt, insert, find, erase}
use doroutine.Timer.Order.{Sorted, lt_irrefl, lt_asymm, eq_of_not_lt, All-lt_trans, contains_below}

module _ (s : ℕ → Timer) where
  pub All-insert : (P : ℕ → Type 0) (a : ℕ) (xs : List ℕ) → P a → All P xs → All P (insert s a xs)
  unfolding insert
  All-insert P a [] p h = (p, tt)
  All-insert P a (b ∷ bs) p h = ground (arith, All-insert P a bs p h.1)

  pub contains-insert :
      (c a : ℕ) (xs : List ℕ) → contains c (insert s a xs) ≡ ((a == c) || contains c xs)
  unfolding insert
  contains-insert c a [] = refl
  contains-insert c a (b ∷ bs) = ground (arith, contains-insert c a bs, eq_of_not_lt s a b)

  pub insert-Sorted : (a : ℕ) (xs : List ℕ) → Sorted s xs → Sorted s (insert s a xs)
  unfolding insert
  insert-Sorted a [] h = (tt, tt)
  insert-Sorted a (b ∷ bs) h = ground (
    arith,
    All-lt_trans s a b bs,
    insert-Sorted a bs h.1,
    λ (p : lt s b a ≡ true). All-insert (λ x. lt s b x ≡ true) a bs p h.0,
  )

  pub find-contains : (a : ℕ) (xs : List ℕ) → Sorted s xs → find s a xs ≡ contains a xs
  unfolding find
  find-contains a [] h = refl
  find-contains a (b ∷ bs) h = ground (
    arith,
    find-contains a bs h.1,
    eq_of_not_lt s a b,
    lt_irrefl s a,
    lt_asymm s a b,
    λ (p : lt s a b ≡ true). contains_below s a bs (All-lt_trans s a b bs p h.0),
  )

  pub All-erase : (P : ℕ → Type 0) (a : ℕ) (xs : List ℕ) → All P xs → All P (erase s a xs)
  unfolding erase
  All-erase P a [] h = tt
  All-erase P a (b ∷ bs) h = ground (arith, All-erase P a bs h.1)

  pub erase-Sorted : (a : ℕ) (xs : List ℕ) → Sorted s xs → Sorted s (erase s a xs)
  unfolding erase
  erase-Sorted a [] h = tt
  erase-Sorted a (b ∷ bs) h =
      ground (arith, erase-Sorted a bs h.1, All-erase (λ x. lt s b x ≡ true) a bs h.0)

  pub contains-erase :
      (c a : ℕ) (xs : List ℕ)
      → Sorted s xs
      → contains c (erase s a xs) ≡ (contains c xs && not (a == c))
  unfolding erase
  contains-erase c a [] h = refl
  contains-erase c a (b ∷ bs) h = ground (
    arith,
    contains-erase c a bs h.1,
    eq_of_not_lt s a b,
    lt_irrefl s a,
    contains_below s b bs h.0,
    λ (p : lt s a b ≡ true). contains_below s a bs (All-lt_trans s a b bs p h.0),
  )
