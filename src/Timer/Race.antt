-- ===== src/Timer/Race.antt =====
-- listExpiredFunc between two timers of its loop, where its lock is free.
use doroutine.Prelude.{
  ℕ, ◌≡◌, ◌∙◌, ap, subst, inl, inr, true, false, List, [], ◌∷◌, All, contains, ◌==◌, Bool-cases,
  if_false, arith,
}
use doroutine.Outcome.{done, undefined}
use doroutine.Timer.{TimerManager, has_func, cancel, expire_one}
use doroutine.Timer.Invariant.{IsValid}
use doroutine.Timer.Calls.{cancel_outside}
use doroutine.Timer.Expiry.{IsPending, again}
use doroutine.Timer.Expired.{gone, remaining, remaining-IsPending}

outside_one : (P : ℕ → Type 0) (b : ℕ) (xs : List ℕ) → All P xs → contains b xs ≡ true → P b
outside_one P b [] h e = cc
outside_one P b (x ∷ xs) h e = elim (Bool-cases (b == x)) [
  | inl f ↦ subst P (ground arith) h.0
  | inr f ↦ outside_one P b xs h.1 (ground arith)
]

-- On a valid manager, where the first timer that listExpiredFunc takes out repeats and a second one
-- that it takes out with it has its callback: behind the addTimer of the first timer the loop goes on
-- without the lock, and a cancel() of the second by another thread is undefined behaviour there, as
-- it erases the end iterator.
pub expire_one-cancel :
    (m : TimerManager) (now a b : ℕ) (bs : List ℕ)
    → IsValid m
    → gone m now ≡ a ∷ bs
    → (m.store a).repeat ≡ true
    → contains b bs ≡ true
    → has_func (m.store b).func ≡ true
    → (m' : TimerManager) × (expire_one now a (remaining m now) true ≡ done (m', false))
      × (cancel m' b ≡ undefined)
expire_one-cancel m now a b bs v e repeats there live =
    let p : IsPending (remaining m now) (a ∷ bs) =
      subst (IsPending (remaining m now)) e (remaining-IsPending m now v) in
    let (m', r, p', stores, members) = again now a bs (remaining m now) p repeats in
    let apart : (a == b) ≡ false = ground (arith, p.distinct.0) in
    let out = outside_one (λ x. contains x m'.timers ≡ false) b bs p'.outside there in
    let kept : m'.store b ≡ m.store b =
      ap (λ s. s b) stores ∙ if_false {b = a == b} _ (m.store b) apart in
    (m', r, cancel_outside m' b p'.sorted (ap (λ t. has_func t.func) kept ∙ live) out)
