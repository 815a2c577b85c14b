-- ===== src/Timer/Calls.antt =====
-- addTimer, cancel, refresh and reset on a valid manager: each returns, keeps the invariant, and
-- changes the one timer that it is called on.
use doroutine.Prelude.{
  ℕ, ap, ◌≡◌, refl, inl, inr, Bool, true, false, ◌&&◌, ◌||◌, not, Option, none, ◌==◌, ==_refl, ◌∙◌,
  contains, Bool-cases, add64, sub64, if◌then◌else◌, arith, update,
}
use doroutine.Func.{Func}
use doroutine.Outcome.{done, undefined, ◌>>=◌}
use doroutine.Timer.{
  Timer, TimerManager, find, erase, has_func, new_timer, add_timer_locked, add_timer, cancel,
  refresh, reset,
}
use doroutine.Timer.Order.{Sorted, Sorted-congr, update-next_same}
use doroutine.Timer.Set.{find-contains, erase-Sorted, contains-erase}
use doroutine.Timer.Invariant.{IsValid, written, add_timer_locked-Returns}

-- On a valid manager addTimer at an address that is not in the set returns, adds the new timer
-- alone, and the manager is valid.
pub add_timer-Returns :
    (m : TimerManager) (a now ms : ℕ) (func : Option Func) (repeat : Bool)
    → IsValid m
    → contains a m.timers ≡ false
    → (m' : TimerManager) × (add_timer m a now ms func repeat ≡ done m')
      × IsValid m'
      × (m'.store ≡ update m.store a (new_timer now ms func repeat))
      × ((b : ℕ) → contains b m'.timers ≡ (a == b || contains b m.timers))
unfolding add_timer
add_timer-Returns m a now ms func repeat v out =
    let (m', e, v', es, et) =
      add_timer_locked-Returns m a (new_timer now ms func repeat) m.timers out v.sorted
        (λ b _ h. v.live b h) in
    (m', ap (λ r. r >>= λ p. done p.0) e, v', es, et)

module _ (m : TimerManager) (a : ℕ) (v : IsValid m) where
  erased_out : contains a (erase m.store a m.timers) ≡ false
  erased_out = ground (arith, contains-erase m.store a a m.timers v.sorted, ==_refl a)

  erased_live :
      (b : ℕ)
      → (a == b) ≡ false
      → has_func (m.store b).func ≡ true
      → contains b (erase m.store a m.timers) ≡ true
  erased_live b e h = ground (arith, contains-erase m.store b a m.timers v.sorted, v.live b h)

  -- A timer with a callback is found in the set.
  found : has_func (m.store a).func ≡ true → find m.store a m.timers ≡ true
  found h = ground (arith, find-contains m.store a m.timers v.sorted, v.live a h)

-- The store in which timer `a` has lost its callback.
abbrev silenced : (ℕ → Timer) → ℕ → ℕ → Timer
silenced s a = update s a (record (s a) { func = none })

module _ (m : TimerManager) (a : ℕ) (v : IsValid m) where
  silenced-Sorted : Sorted (silenced m.store a) m.timers
  silenced-Sorted =
      Sorted-congr m.store (silenced m.store a) m.timers
        (update-next_same m.store a (record (m.store a) { func = none }) m.timers refl) v.sorted

  silenced_found : has_func (m.store a).func ≡ true → find (silenced m.store a) a m.timers ≡ true
  silenced_found h =
      ground (arith, find-contains (silenced m.store a) a m.timers silenced-Sorted, v.live a h)

  silenced_members :
      (b : ℕ)
      → contains b (erase (silenced m.store a) a m.timers) ≡ (contains b m.timers && not (a == b))
  silenced_members b = contains-erase (silenced m.store a) b a m.timers silenced-Sorted

  silenced_live :
      (b : ℕ)
      → has_func (silenced m.store a b).func ≡ true
      → contains b (erase (silenced m.store a) a m.timers) ≡ true
  silenced_live b h = elim (Bool-cases (a == b)) [
    | inl e ↦ ground arith
    | inr e ↦ ground (arith, silenced_members b, v.live b)
  ]

  silenced-IsValid :
      IsValid
        (written m a (record (m.store a) { func = none }) (erase (silenced m.store a) a m.timers))
  silenced-IsValid = record {
    sorted = erase-Sorted (silenced m.store a) a m.timers silenced-Sorted;
    live = silenced_live;
  }

-- A timer that has its callback and is not in the set.
pub cancel_outside :
    (m : TimerManager) (a : ℕ)
    → Sorted m.store m.timers
    → has_func (m.store a).func ≡ true
    → contains a m.timers ≡ false
    → cancel m a ≡ undefined
unfolding cancel
cancel_outside m a v h out =
    let sorted =
      Sorted-congr m.store (silenced m.store a) m.timers
        (update-next_same m.store a (record (m.store a) { func = none }) m.timers refl) v in
    let missed : find (silenced m.store a) a m.timers ≡ false =
      find-contains (silenced m.store a) a m.timers sorted ∙ out in
    ground (arith, missed, h)

pub cancel-Returns :
    (m : TimerManager) (a : ℕ)
    → IsValid m
    → (m' : TimerManager) × (cancel m a ≡ done (m', has_func (m.store a).func))
      × IsValid m'
      × ((m'.store a).func ≡ none)
      × ((b : ℕ) → (a == b) ≡ false → m'.store b ≡ m.store b)
      × ((b : ℕ)
          → contains b m'.timers
            ≡ (contains b m.timers && not (has_func (m.store a).func && a == b)))
unfolding cancel
cancel-Returns m a v = elim (Bool-cases (has_func (m.store a).func)) [
  | inl e ↦ (
    written m a (record (m.store a) { func = none }) (erase (silenced m.store a) a m.timers),
    ground (arith, silenced_found m a v e),
    silenced-IsValid m a v,
    ground arith,
    λ b h. ground arith,
    λ b. ground (arith, silenced_members m a v b),
  )
  | inr e ↦ (m, ground arith, v, ground arith, λ b h. refl, λ b. ground arith)
]

-- What refresh and reset make of a timer that has its callback.
abbrev pub refreshed : ℕ → Timer → Timer
refreshed now t = record t { next = add64 now t.period_in_ms }

abbrev pub restarted : ℕ → ℕ → Bool → Timer → Timer
restarted now ms from_now t = record t {
  period_in_ms = ms;
  next = add64 (if from_now then now else sub64 t.next t.period_in_ms) ms;
}

-- Taking a timer out, writing it and putting it back keeps the members of the set.
module _ (m : TimerManager) (a : ℕ) (t : Timer) (v : IsValid m)
    (h : has_func (m.store a).func ≡ true) where
  replaced :
      (m' : TimerManager) × (add_timer_locked (written m a t (erase m.store a m.timers)) a true
        ≡ done (m', false))
      × IsValid m'
      × (m'.store ≡ update m.store a t)
      × ((b : ℕ) → contains b m'.timers ≡ contains b m.timers)
  replaced =
      let (m', e, v', es, et) =
        add_timer_locked-Returns m a t (erase m.store a m.timers) (erased_out m a v)
          (erase-Sorted m.store a m.timers v.sorted) (erased_live m a v) in
      (
        m',
        e,
        v',
        es,
        λ b. ground (arith, et b, contains-erase m.store b a m.timers v.sorted, v.live a h),
      )

-- On a valid manager refresh returns whether the timer had its callback. If so, its time is now +
-- period; the set keeps its members, and the manager is valid.
pub refresh-Returns :
    (m : TimerManager) (now a : ℕ)
    → IsValid m
    → let active = has_func (m.store a).func in
      (m' : TimerManager) × (refresh m now a ≡ done (m', active))
      × IsValid m'
      × ((b : ℕ) → m'.store b ≡ (if active && a == b then refreshed now (m.store a) else m.store b))
      × ((b : ℕ) → contains b m'.timers ≡ contains b m.timers)
unfolding refresh
refresh-Returns m now a v = elim (Bool-cases (has_func (m.store a).func)) [
  | inl e ↦
      (let (m', r, v', es, et) = replaced m a (refreshed now (m.store a)) v e in
        (
          m',
          rw (e, found m a v e) (ap (λ r. r >>= λ p. done (p.0, true)) r),
          v',
          λ b. rw (es, e) refl,
          et,
        ))
  | inr e ↦ (m, ground arith, v, λ b. ground arith, λ b. refl)
]

-- On a valid manager reset returns true at once where the period stays and the start is not now,
-- cancelled or not. Otherwise it returns whether the timer had its callback, and such a timer
-- starts over, from now or from its last start; the set keeps its members, and the manager is
-- valid.
pub reset-Returns :
    (m : TimerManager) (now a ms : ℕ) (from_now : Bool)
    → IsValid m
    → let same = ms == (m.store a).period_in_ms && not from_now in
      let active = has_func (m.store a).func in
      (m' : TimerManager) × (reset m now a ms from_now ≡ done (m', same || active))
      × IsValid m'
      × ((b : ℕ)
          → m'.store b ≡ (
              if (not same && active) && a == b
              then restarted now ms from_now (m.store a)
              else m.store b))
      × ((b : ℕ) → contains b m'.timers ≡ contains b m.timers)
unfolding reset
reset-Returns m now a ms from_now v =
    elim (Bool-cases (ms == (m.store a).period_in_ms && not from_now)) [
      | inl s ↦ (m, rw s refl, v, λ b. rw s refl, λ b. refl)
      | inr s ↦ elim (Bool-cases (has_func (m.store a).func)) [
        | inl e ↦
            (let (m', r, v', es, et) = replaced m a (restarted now ms from_now (m.store a)) v e in
              (
                m',
                rw (s, e, found m a v e) (ap (λ r. r >>= λ p. done (p.0, true)) r),
                v',
                λ b. rw (es, s, e) refl,
                et,
              ))
        | inr e ↦ (m, rw (s, e) refl, v, λ b. rw (s, e) refl, λ b. refl)
      ]
    ]
