-- ===== src/Timer/Expiry.antt =====
-- The loop of listExpiredFunc over the expired timers, and what it does with the lock.
use doroutine.Prelude.{
  ℕ, ◌+◌, ◌≤◌, ◌<◌, ◌≡◌, ◌∙◌, refl, sym, ap, inl, inr, Bool, true, false, ◌&&◌, ◌||◌, none, List,
  [], ◌∷◌, map, All, contains, ◌==◌, if◌then◌else◌, if_true, if_false, Bool-cases, arith, update,
}
use doroutine.Outcome.{done, system_error}
use doroutine.Timer.{Timer, TimerManager, insert, has_func, expire_one, expire_all}
use doroutine.Timer.Order.{Sorted, Sorted-congr, update-next_same}
use doroutine.Timer.Set.{contains-insert}
use doroutine.Timer.Invariant.{IsValid, add_timer_locked-Inserts}
use doroutine.Timer.Calls.{refreshed}

-- What the loop makes of one expired timer.
abbrev pub fired : ℕ → Timer → Timer
fired now t = if t.repeat then refreshed now t else record t { func = none }

-- How many of the timers repeat.
abbrev pub repeating : (ℕ → Timer) → List ℕ → ℕ
repeating s [] = 0
repeating s (a ∷ bs) = (if (s a).repeat then 1 else 0) + repeating s bs

abbrev pub Distinct : List ℕ → Type 0
Distinct [] = Unit
Distinct (a ∷ bs) = (contains a bs ≡ false) × Distinct bs

-- The loop's invariant: the timers still to come are outside the set, and every other timer with
-- a callback is in it.
pub record IsPending (m : TimerManager) (xs : List ℕ) : Type 0 where
  pub sorted : Sorted m.store m.timers
  pub distinct : Distinct xs
  pub outside : All (λ x. contains x m.timers ≡ false) xs
  pub live :
      (b : ℕ) → has_func (m.store b).func ≡ true → contains b m.timers || contains b xs ≡ true

-- A manager with nothing pending is valid.
pub done-IsValid : {m : TimerManager} → IsPending m [] → IsValid m
done-IsValid p = record { sorted = p.sorted; live = λ b h. ground (arith, p.live b h) }

outside-All :
    (s : ℕ → Timer) (a : ℕ) (ts xs : List ℕ)
    → contains a xs ≡ false
    → All (λ x. contains x ts ≡ false) xs
    → All (λ x. contains x (insert s a ts) ≡ false) xs
outside-All s a ts [] h k = tt
outside-All s a ts (x ∷ xs) h k =
    (ground (arith, contains-insert s x a ts), outside-All s a ts xs (ground arith) k.1)

module _ (now a : ℕ) (bs : List ℕ) (m : TimerManager) (p : IsPending m (a ∷ bs)) where
  open_live :
      (t : Timer)
      → (b : ℕ) → (a == b) ≡ false
      → has_func (update m.store a t b).func ≡ true
      → contains b m.timers || contains b bs ≡ true
  open_live t b e h = ground (arith, p.live b)

  -- A repeating timer takes the lock along.
  pub again :
      (m.store a).repeat ≡ true
      → (m' : TimerManager) × (expire_one now a m true ≡ done (m', false))
        × IsPending m' bs
        × (m'.store ≡ update m.store a (fired now (m.store a)))
        × ((b : ℕ) → contains b m'.timers ≡ (contains b m.timers || a == b))
  unfolding expire_one
  again e =
      let t = refreshed now (m.store a) in
      let (m', r, so, es, et) = add_timer_locked-Inserts m a t m.timers p.outside.0 p.sorted in
      (
        m',
        if_true _ _ e ∙ r,
        record {
          sorted = so;
          distinct = p.distinct.1;
          outside = rw et (outside-All _ a m.timers bs p.distinct.0 p.outside.1);
          live = λ b h. rw et (again_live b (rw es at h));
        },
        es ∙ ap (update m.store a) (sym (if_true _ _ e)),
        λ b. rw et (ground (arith, contains-insert (update m.store a t) b a m.timers)),
      )
    where
      again_live :
          (b : ℕ)
          → has_func (update m.store a (refreshed now (m.store a)) b).func ≡ true
          → contains b (insert (update m.store a (refreshed now (m.store a))) a m.timers)
              || contains b bs
            ≡ true
      again_live b h = ground (
        arith,
        contains-insert (update m.store a (refreshed now (m.store a))) b a m.timers,
        open_live (refreshed now (m.store a)) b,
      )

  once :
      (lck : Bool)
      → (m.store a).repeat ≡ false
      → (m' : TimerManager) × (expire_one now a m lck ≡ done (m', lck))
        × IsPending m' bs
        × (m'.store ≡ update m.store a (fired now (m.store a)))
        × (m'.timers ≡ m.timers)
  unfolding expire_one
  once lck e =
      let t : Timer = record (m.store a) { func = none } in
      (
        record m { store = update m.store a t },
        if_false _ _ e,
        record {
          sorted =
              Sorted-congr m.store (update m.store a t) m.timers
                (update-next_same m.store a t m.timers refl) p.sorted;
          distinct = p.distinct.1;
          outside = p.outside.1;
          live = λ b h. ground (arith, p.live b);
        },
        ap (update m.store a) (sym (if_false _ _ e)),
        refl,
      )

module _ (s : ℕ → Timer) (a : ℕ) (t : Timer) where
  repeating-update :
      (bs : List ℕ) → contains a bs ≡ false → repeating (update s a t) bs ≡ repeating s bs
  repeating-update [] h = refl
  repeating-update (b ∷ bs) h = ground (arith, repeating-update bs)

  funcs-update :
      (bs : List ℕ)
      → contains a bs ≡ false
      → map (λ b. (update s a t b).func) bs ≡ map (λ b. (s b).func) bs
  funcs-update [] h = refl
  funcs-update (b ∷ bs) h = ground (arith, funcs-update bs)

-- How many repeating timers the loop can put back: addTimer(timer, lck) gives the lock away.
abbrev pub budget : Bool → ℕ
budget lck = if lck then 1 else 0

-- One round of the loop, for both kinds of timer.
expire_one-Returns :
    (now a : ℕ) (bs : List ℕ) (m : TimerManager) (lck : Bool)
    → IsPending m (a ∷ bs)
    → repeating m.store (a ∷ bs) ≤ budget lck
    → (m' : TimerManager) × (lck' : Bool) × (expire_one now a m lck ≡ done (m', lck'))
      × (repeating m.store bs ≤ budget lck')
      × IsPending m' bs
      × (m'.store ≡ update m.store a (fired now (m.store a)))
      × ((b : ℕ) → contains b m'.timers ≡ (contains b m.timers || (a == b && (m.store a).repeat)))
expire_one-Returns now a bs m false p h =
    let e : (m.store a).repeat ≡ false = ground arith in
    let (m', r, p', es, et) = once now a bs m p false e in
    (m', false, r, ground arith, p', es, λ b. ground arith)
expire_one-Returns now a bs m true p h = elim (Bool-cases (m.store a).repeat) [
  | inl e ↦
      (let (m', r, p', es, et) = again now a bs m p e in
        (m', false, r, ground arith, p', es, λ b. ground (arith, et b)))
  | inr e ↦
      (let (m', r, p', es, et) = once now a bs m p true e in
        (m', true, r, ground arith, p', es, λ b. ground arith))
]

-- With a repeating timer at most, the loop returns the callbacks in order; the expired timers are
-- put back if they repeat, and have lost their callbacks if not.
pub expire_all-Returns :
    (now : ℕ) (xs : List ℕ) (m : TimerManager) (lck : Bool)
    → IsPending m xs
    → repeating m.store xs ≤ budget lck
    → (m' : TimerManager) × (expire_all now xs m lck ≡ done (m', map (λ a. (m.store a).func) xs))
      × IsValid m'
      × ((b : ℕ) → m'.store b ≡ (if contains b xs then fired now (m.store b) else m.store b))
      × ((b : ℕ)
          → contains b m'.timers ≡ (contains b m.timers || (contains b xs && (m.store b).repeat)))
unfolding expire_all
expire_all-Returns now [] m lck p h = (m, refl, done-IsValid p, λ b. refl, λ b. ground arith)
expire_all-Returns now (a ∷ bs) m lck p h =
    let (m1, lck1, r1, h1, p1, es1, et1) = expire_one-Returns now a bs m lck p h in
    let out = p.distinct.0 in
    let (m2, r2, v2, es2, et2) =
      expire_all-Returns now bs m1 lck1 p1
        (rw es1 (rw (repeating-update m.store a (fired now (m.store a)) bs out) h1)) in
    (
      m2,
      rw (r1, r2)
          (ap (λ fs. done (m2, (m.store a).func ∷ fs))
            (rw es1 (funcs-update m.store a (fired now (m.store a)) bs out))),
      v2,
      λ b. ground (arith, es2 b, ap (λ s. s b) es1),
      λ b. ground (arith, et2 b, et1 b, ap (λ s. (s b).repeat) es1),
    )

-- A repeating timer without the lock.
again_throws :
    (now a : ℕ) (m : TimerManager)
    → (m.store a).repeat ≡ true
    → expire_one now a m false ≡ system_error
unfolding expire_one
again_throws now a m e = if_true _ _ e

repeating_throws :
    (now a : ℕ) (bs : List ℕ) (m : TimerManager) (lck : Bool)
    → IsPending m (a ∷ bs)
    → budget lck < repeating m.store (a ∷ bs)
    → (m.store a).repeat ≡ true
    → ((m1 : TimerManager) (l : Bool)
        → IsPending m1 bs
        → budget l < repeating m1.store bs
        → expire_all now bs m1 l ≡ system_error)
    → expire_all now (a ∷ bs) m lck ≡ system_error
unfolding expire_all
repeating_throws now a bs m false p h e rest = rw (again_throws now a m e)
repeating_throws now a bs m true p h e rest =
    let (m1, r1, p1, es1, et1) = again now a bs m p e in
    let same = repeating-update m.store a (fired now (m.store a)) bs p.distinct.0 in
    rw r1 (rw (rest m1 false p1 (rw es1 (rw same (ground arith)))))

-- With more, it throws std::system_error.
pub expire_all-throws :
    (now : ℕ) (xs : List ℕ) (m : TimerManager) (lck : Bool)
    → IsPending m xs
    → budget lck < repeating m.store xs
    → expire_all now xs m lck ≡ system_error
unfolding expire_all
expire_all-throws now [] m lck p h = absurd (omega arith)
expire_all-throws now (a ∷ bs) m lck p h = elim (Bool-cases (m.store a).repeat) [
  | inl e ↦ repeating_throws now a bs m lck p h e (expire_all-throws now bs)
  | inr e ↦
      (let (m1, r1, p1, es1, et1) = once now a bs m p lck e in
        let same = repeating-update m.store a (fired now (m.store a)) bs p.distinct.0 in
        rw r1 (rw (expire_all-throws now bs m1 lck p1 (rw es1 (rw same (ground arith))))))
]
