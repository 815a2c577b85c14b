-- ===== src/IoManager/Stopping.antt =====
-- When the manager may stop, how long it waits, and what an event that is added twice does to both.
use doroutine.Prelude.{
  ℕ, zero, suc, ◌-◌, negsuc, ◌↔◌, u64_max, ◌^◌, ◌≤◌, ◌<◌, ◌≡◌, refl, subst, inl, inr, Bool, true,
  Option, some, List, [], ◌∷◌, pos, get_elem?, set, if◌then◌else◌, Option-cases, arith,
}
use Prim.Native.Nat.{min}
use doroutine.Func.{Func}
use doroutine.Outcome.{done}
use doroutine.Epoll.{Epoll, no_events, is_none, add, modify}
use doroutine.IoManager.{
  Event, read, write, has, FdContext, Thread, IoManager, with_event, add_event,
}
use doroutine.IoManager.Context.{in_range, total, total-set, get-bound, on_count, IsValid}
use doroutine.Timer.{TimerManager, get_next_timer}
use doroutine.IoManager.Growth.{events_at}
use doroutine.IoManager.Addition.{registered}
use doroutine.IoManager.Idle.{wait_timeout, io_stopping, max_timeout}

-- epoll_wait is given the time to the next timer, but 5 seconds at most, if that time is less than
-- 2 ^ 31 ms, and 5 seconds where there is no timer. From 2 ^ 31 ms to 2 ^ 32 ms the conversion to int
-- gives a negative timeout, with which epoll_wait waits without end.
pub wait_timeout_lem :
    (next : ℕ)
    → next < 2 ^ 32
    → (next < 2 ^ 31 → wait_timeout next ≡ pos (min next max_timeout))
      × (wait_timeout u64_max ≡ pos max_timeout)
      × (2 ^ 31 ≤ next → (n : ℕ) × (wait_timeout next ≡ negsuc n))
unfolding wait_timeout
wait_timeout_lem next h = (λ l. ground arith, refl, λ l. (2 ^ 32 - 1 - next, ground arith))

total-events_at : (cs : List FdContext) (fd : ℕ) → total cs ≡ 0 → events_at cs fd ≡ no_events
total-events_at [] fd h = refl
total-events_at (c ∷ cs) zero h = ground arith
total-events_at (c ∷ cs) (suc fd) h = total-events_at cs fd (omega arith)

on_again :
    (c : FdContext) (event : Event)
    → has c.events event ≡ true
    → on_count (with_event c.events event) ≡ on_count c.events
on_again c read h = ground arith
on_again c write h = ground arith

module _ (epoll : Epoll) (m : IoManager epoll) where
  open epoll use {ctl}

  -- Of a valid manager stopping() says yes just where no timer is waited for, no descriptor has an
  -- event on, and the scheduler is stopping.
  pub io_stopping_lem :
      (timers : TimerManager) (now : ℕ) (scheduler_stopping : Bool)
      → IsValid epoll m
      → (io_stopping epoll m timers now scheduler_stopping ≡ true) ↔ (
          (get_next_timer timers now ≡ u64_max)
          × (total m.fd_contexts ≡ 0)
          × (scheduler_stopping ≡ true))
  unfolding io_stopping
  io_stopping_lem timers now b v = (λ h. ground (arith, v.pending), λ h. ground (arith, v.pending))

  -- addEvent, on a valid manager, of an event that is on already, where it returns 0: the event is
  -- counted a second time, so that the count is one more than the number of events that are on.
  pub add_event_twice :
      (th : Thread) (fd : ℕ) (event : Event) (func : Option Func) (repeat : Bool) (c : FdContext)
      (m' : IoManager epoll)
      → IsValid epoll m
      → get_elem? m.fd_contexts fd ≡ some c
      → has c.events event ≡ true
      → add_event epoll m th (pos fd) event func repeat ≡ done (m', true)
      → m'.pending_event_count ≡ suc (total m'.fd_contexts)
  unfolding add_event
  add_event_twice th fd event func repeat c m' v at on e =
      let bound = get-bound m.fd_contexts fd c at in
      let here = in_range epoll m fd c v at in
      let op = if is_none c.events then add else modify in
      elim (Option-cases (ctl m.epfd op fd (with_event c.events event))) [
        | inl f ↦ absurd (ground (arith, here))
        | inr (ep, f) ↦
            (let d = registered th c event func repeat in
              let same : set m.fd_contexts fd d ≡ m'.fd_contexts = ground (arith, here) in
              let more : suc m.pending_event_count ≡ m'.pending_event_count =
                ground (arith, here) in
              subst (λ cs. m'.pending_event_count ≡ suc (total cs)) same
                (omega (arith, v.pending, total-set m.fd_contexts fd c d at, on_again c event on)))
      ]
