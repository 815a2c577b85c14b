-- ===== src/Timer/Expired.antt =====
-- TimerManager::listExpiredFunc as a whole.
use doroutine.Prelude.{
  ℕ, ◌+◌, ◌≤◌, ◌<◌, ◌≡◌, ◌∙◌, refl, ap, inl, inr, Bool, true, false, ◌&&◌, ◌||◌, not, List, [], ◌∷◌,
  map, All, contains, ltb, ltb→lt, leb, if◌then◌else◌, Bool-cases, u64_mod, ◌↔◌, ◌⊎◌, arith,
}
use doroutine.Outcome.{done, system_error}
use doroutine.Timer.{
  Timer, TimerManager, lt, is_empty, front_after, detect_clock_rollover, expire_all,
  list_expired_func, hour_ms,
}
use doroutine.Timer.Order.{Sorted, contains_below}
use doroutine.Timer.Range.{due, later, later-All, expired_range_lem}
use doroutine.Timer.Invariant.{IsValid}
use doroutine.Timer.Expiry.{
  fired, repeating, Distinct, IsPending, expire_all-Returns, expire_all-throws,
}

module _ (s : ℕ → Timer) (now : ℕ) where
  pub contains-due :
      (b : ℕ) (xs : List ℕ) → contains b (due s now xs) ≡ (contains b xs && leb (s b).next now)
  contains-due b [] = refl
  contains-due b (x ∷ xs) = ground (arith, contains-due b xs)

  contains-later :
      (b : ℕ) (xs : List ℕ) → contains b (later s now xs) ≡ (contains b xs && ltb now (s b).next)
  contains-later b [] = refl
  contains-later b (x ∷ xs) = ground (arith, contains-later b xs)

  due_outside : (xs ys : List ℕ) → All (λ x. contains x (later s now ys) ≡ false) (due s now xs)
  due_outside [] ys = tt
  due_outside (x ∷ xs) ys = ground (arith, due_outside xs ys, contains-later x ys)

  All-later : (P : ℕ → Type 0) (xs : List ℕ) → All P xs → All P (later s now xs)
  All-later P [] h = tt
  All-later P (x ∷ xs) h = ground (arith, All-later P xs h.1)

  later-Sorted : (xs : List ℕ) → Sorted s xs → Sorted s (later s now xs)
  later-Sorted [] v = tt
  later-Sorted (x ∷ xs) v =
      ground (arith, later-Sorted xs v.1, All-later (λ b. lt s x b ≡ true) xs v.0)

  due-Distinct : (xs : List ℕ) → Sorted s xs → Distinct (due s now xs)
  due-Distinct [] v = tt
  due-Distinct (x ∷ xs) v =
      ground (arith, due-Distinct xs v.1, contains-due x xs, contains_below s x xs v.0)

Sorted-Distinct : (s : ℕ → Timer) (xs : List ℕ) → Sorted s xs → Distinct xs
Sorted-Distinct s [] v = tt
Sorted-Distinct s (x ∷ xs) v = (contains_below s x xs v.0, Sorted-Distinct s xs v.1)

none_outside : (xs : List ℕ) → All (λ x. contains x [] ≡ false) xs
none_outside [] = tt
none_outside (x ∷ xs) = (refl, none_outside xs)

-- The timers that a call takes out: those that are due, or all after a rollover.
abbrev pub gone : TimerManager → ℕ → List ℕ
gone m now = if detect_clock_rollover m now then m.timers else due m.store now m.timers

-- What is left in the set while the loop runs.
abbrev pub remaining : TimerManager → ℕ → TimerManager
remaining m now = record m {
  timers = if detect_clock_rollover m now then [] else later m.store now m.timers;
  previouse_time = now;
}

pub remaining-IsPending :
    (m : TimerManager) (now : ℕ) → IsValid m → IsPending (remaining m now) (gone m now)
remaining-IsPending m now v = elim (Bool-cases (detect_clock_rollover m now)) [
  | inl e ↦ rw e (record {
    sorted = tt;
    distinct = Sorted-Distinct m.store m.timers v.sorted;
    outside = none_outside m.timers;
    live = v.live;
  })
  | inr e ↦ rw e (record {
    sorted = later-Sorted m.store now m.timers v.sorted;
    distinct = due-Distinct m.store now m.timers v.sorted;
    outside = due_outside m.store now m.timers m.timers;
    live = λ b h. ground (
      arith,
      v.live b h,
      contains-due m.store now b m.timers,
      contains-later m.store now b m.timers,
    );
  })
]

-- Nothing is due where the first timer is later.
front_after_lem :
    (s : ℕ → Timer) (now : ℕ) (xs : List ℕ)
    → Sorted s xs
    → front_after s now xs ≡ true
    → (due s now xs ≡ []) × (later s now xs ≡ xs)
front_after_lem s now [] v h = cc
front_after_lem s now (x ∷ xs) v h = ground (arith, later-All s now x xs (ltb→lt _ _ h) v.0)

is_empty_lem : (xs : List ℕ) → is_empty xs ≡ true → xs ≡ []
is_empty_lem [] h = refl
is_empty_lem (x ∷ xs) h = cc

-- The call as one run of the loop, where the set is not empty and a timer is due.
runs_loop :
    (m : TimerManager) (probe now : ℕ)
    → IsValid m
    → contains probe m.timers ≡ false
    → is_empty m.timers ≡ false
    → (not (detect_clock_rollover m now) && front_after m.store now m.timers) ≡ false
    → list_expired_func m probe now ≡ expire_all now (gone m now) (remaining m now) true
unfolding list_expired_func
runs_loop m probe now v out full some_due = elim (Bool-cases (detect_clock_rollover m now)) [
  | inl e ↦ rw (full, e) (rw (expired_range_lem m probe now v.sorted out).1 refl)
  | inr e ↦ rw (full, some_due, e) (rw (expired_range_lem m probe now v.sorted out).0 refl)
]

-- Where no timer, or none but later ones, stands in the set, the call changes the clock at most.
nothing_due :
    (m : TimerManager) (probe now : ℕ)
    → IsValid m
    → (is_empty m.timers || (not (detect_clock_rollover m now) && front_after m.store now m.timers))
      ≡ true
    → (gone m now ≡ [])
      × ((m' : TimerManager) × (list_expired_func m probe now ≡ done (m', []))
          × (m'.store ≡ m.store)
          × (m'.timers ≡ m.timers))
unfolding list_expired_func
nothing_due m probe now v h = elim (Bool-cases (is_empty m.timers)) [
  | inl e ↦ (rw (is_empty_lem m.timers e) (ground arith), (m, rw e refl, refl, refl))
  | inr e ↦
      (let later_only : (not (detect_clock_rollover m now) && front_after m.store now m.timers)
            ≡ true =
          ground arith in
        let (d, l) = front_after_lem m.store now m.timers v.sorted (ground arith) in
        (
          ground (arith, d),
          (record m { previouse_time = now }, rw (e, later_only) refl, refl, refl),
        ))
]

module _ (m : TimerManager) (probe now : ℕ) (v : IsValid m)
    (out : contains probe m.timers ≡ false) where
  skips : Bool
  skips =
      is_empty m.timers || (not (detect_clock_rollover m now) && front_after m.store now m.timers)

  members :
      (b : ℕ)
      → (contains b (remaining m now).timers || (contains b (gone m now) && (m.store b).repeat))
        ≡ (contains b m.timers && (not (contains b (gone m now)) || (m.store b).repeat))
  members b =
      ground (arith, contains-due m.store now b m.timers, contains-later m.store now b m.timers)

  -- On a valid manager, with now_timer at an address that is not in the set and one repeating timer
  -- at most among those that it takes out, listExpiredFunc returns the callbacks of the timers that
  -- it takes out (those due, or all after a rollover), in the order of their times. It puts the
  -- repeating one back with the time now + period, drops the callbacks of the others, and changes
  -- no other timer; the invariant holds again.
  pub list_expired_func-Returns :
      repeating m.store (gone m now) ≤ 1
      → (m' : TimerManager) × (list_expired_func m probe now
          ≡ done (m', map (λ a. (m.store a).func) (gone m now)))
        × IsValid m'
        × ((b : ℕ)
            → m'.store b ≡ (if contains b (gone m now) then fired now (m.store b) else m.store b))
        × ((b : ℕ)
            → contains b m'.timers
              ≡ (contains b m.timers && (not (contains b (gone m now)) || (m.store b).repeat)))
  unfolding skips
  list_expired_func-Returns h = elim (Bool-cases skips) [
    | inl e ↦
        (let (g, quiet) = nothing_due m probe now v e in
          let (m', r, es, et) = quiet in
          (
            m',
            rw g r,
            record { sorted = rw (es, et) v.sorted; live = rw (es, et) v.live },
            λ b. rw (g, es) refl,
            λ b. rw (g, et) (ground arith),
          ))
    | inr e ↦
        (let loop = runs_loop m probe now v out (ground arith) (ground arith) in
          let (m', r, v', es, et) =
            expire_all-Returns now (gone m now) (remaining m now) true (remaining-IsPending m now v)
              h in
          (m', loop ∙ r, v', es, λ b. et b ∙ members b))
  ]

  -- On a valid manager, with now_timer at an address that is not in the set and two repeating
  -- timers or more among those that it takes out, listExpiredFunc throws std::system_error: the
  -- second addTimer(timer, lck) unlocks a lock that the first has released.
  pub list_expired_func-throws :
      1 < repeating m.store (gone m now) → list_expired_func m probe now ≡ system_error
  unfolding skips
  list_expired_func-throws h = elim (Bool-cases skips) [
    | inl e ↦ absurd (omega (arith, ap (repeating m.store) (nothing_due m probe now v e).0))
    | inr e ↦
        runs_loop m probe now v out (ground arith) (ground arith)
        ∙ expire_all-throws now (gone m now) (remaining m now) true (remaining-IsPending m now v) h
  ]

-- With the time of the last call a uint64_t, a rollover is reported just where the clock went back,
-- and by more than an hour or from a time within the first hour: there previous - hour wraps
-- around, so that any step back counts.
pub detect_clock_rollover_lem :
    (m : TimerManager) (now : ℕ)
    → m.previouse_time < u64_mod
    → (detect_clock_rollover m now ≡ true) ↔ (
        (now < m.previouse_time)
        × ((m.previouse_time < hour_ms) ⊎ (now + hour_ms < m.previouse_time)))
unfolding detect_clock_rollover
detect_clock_rollover_lem m now h = (λ e. ground arith, λ e. ground arith)
