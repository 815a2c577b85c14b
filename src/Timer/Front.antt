-- ===== src/Timer/Front.antt =====
-- A timer that is due before all others of the manager.
use doroutine.Prelude.{
  ℕ, suc, ◌+◌, ◌^◌, ◌<◌, ◌≡◌, ◌∙◌, sym, ap, inl, inr, Bool, true, false, not, ◌&&◌, Option, List,
  [], ◌∷◌, contains, ◌==◌, ==_refl, ==_iff, if◌then◌else◌, if_true, if_false, update, Bool-cases,
  arith,
}
use doroutine.Func.{Func}
use doroutine.Outcome.{Outcome, done, undefined, system_error}
use doroutine.Timer.{
  Timer, TimerManager, lt, insert, is_begin, new_timer, add_timer, add_timer_locked, get_next_timer,
}
use doroutine.Timer.Invariant.{IsValid}
use doroutine.Timer.Calls.{add_timer-Returns}
use doroutine.Timer.Queries.{get_next_timer_lem}

front_of : Outcome TimerManager → ℕ
front_of (done m) = m.front_calls
front_of undefined = 0
front_of system_error = 0

-- A timer that is due before all others comes to stand at the front.
insert_first :
    (s : ℕ → Timer) (a : ℕ) (xs : List ℕ)
    → ((b : ℕ) → contains b xs ≡ true → (s a).next < (s b).next)
    → is_begin a (insert s a xs) ≡ true
unfolding insert lt
insert_first s a [] h = ground arith
insert_first s a (x ∷ xs) h = ground (arith, h x, ==_refl x)

module _ (m : TimerManager) (a now ms : ℕ) (func : Option Func) (repeat : Bool) (v : IsValid m)
    (out : contains a m.timers ≡ false) (fits : now + ms < 2 ^ 64)
    (sooner : (b : ℕ) → contains b m.timers ≡ true → now + ms < (m.store b).next) where
  abbrev written : ℕ → Timer
  written = update m.store a (new_timer now ms func repeat)

  written_self : (written a).next ≡ now + ms
  unfolding new_timer
  written_self =
      let e : written a ≡ new_timer now ms func repeat = if_true _ _ (==_refl a) in
      ap (λ t. t.next) e ∙ omega arith

  written_other : (b : ℕ) → contains b m.timers ≡ true → written b ≡ m.store b
  written_other b h = elim (Bool-cases (a == b)) [
    | inl e ↦ absurd (ground (arith, out, (==_iff a b).0 e))
    | inr e ↦ if_false _ _ e
  ]

  at_front : is_begin a (insert written a m.timers) ≡ true
  at_front =
      insert_first written a m.timers λ b h. rw (written_self, written_other b h) (sooner b h)

  calls :
      (m' : TimerManager)
      → add_timer m a now ms func repeat ≡ done m'
      → m'.front_calls ≡ (if not m.is_tickled then suc m.front_calls else m.front_calls)
  unfolding add_timer add_timer_locked front_of
  calls m' e =
      sym (ap front_of e)
      ∙ ap (λ b. if b && not m.is_tickled then suc m.front_calls else m.front_calls) at_front

  -- It returns a valid manager, of which getNextTimer is the period of the timer, and calls
  -- onTimerInsertedAtFront() unless the manager has called that before.
  pub add_timer_first :
      (m' : TimerManager) × (add_timer m a now ms func repeat ≡ done m')
      × IsValid m'
      × (get_next_timer m' now ≡ ms)
      × (m'.front_calls ≡ (if not m.is_tickled then suc m.front_calls else m.front_calls))
  add_timer_first =
      let (m', e, v', stores, members) = add_timer-Returns m a now ms func repeat v out in
      let here : contains a m'.timers ≡ true = ground (arith, members a, ==_refl a) in
      let (b, there, is_next, least, _) =
        get_next_timer_lem m' now v' (λ h. ground (arith, h, here)) in
      let self : (m'.store a).next ≡ now + ms = rw stores written_self in
      let other : contains b m.timers ≡ true → now + ms < (m'.store b).next =
        λ h. rw (stores, written_other b h) (sooner b h) in
      (m', e, v', ground (arith, members b, there, is_next, least a here, self, other), calls m' e)
