-- ===== src/Hook/Waiting/Parked.antt =====
-- A context on which a doroutine waits.
use doroutine.Prelude.{
  ℕ, ◌+◌, ◌≡◌, refl, ap, inl, inr, subst, Bool, true, false, not, ◌&&◌, none, some, List, [], ◌∷◌,
  ◌++◌, ◌==◌, ==_refl, get_elem?, if◌then◌else◌, Bool-cases, arith,
}
use doroutine.Epoll.{Epoll, Mask, no_events}
use doroutine.IoManager.{
  Event, read, write, has, EventContext, FdContext, get_event_context, Scheduled, Thread, Slot,
  IoManager, slot_of,
}
use doroutine.IoManager.Context.{one_if, IsWired, IsGood, IsValid}
use doroutine.IoManager.Events.{cleared, call_of, triggered_if}
use doroutine.IoManager.Addition.{registered}
use doroutine.IoManager.Removal.{all_cleared, all_calls}
use doroutine.IoManager.Idle.{left_events}
use doroutine.IoManager.Reports.{after_report, report_calls, IsCurrent}

-- Whether a call of schedule queues a doroutine, and how many of some calls do.
abbrev pub wakes : ℕ → Scheduled → Bool
wakes d s = elim s.doroutine [ none ↦ false | some e ↦ e == d ]

abbrev pub wakeups : ℕ → List Scheduled → ℕ
wakeups d [] = 0
wakeups d (s ∷ ss) = (if wakes d s then 1 else 0) + wakeups d ss

pub wakeups-append :
    (d : ℕ) (ss us : List Scheduled) → wakeups d (ss ++ us) ≡ wakeups d ss + wakeups d us
wakeups-append d [] us = omega arith
wakeups-append d (s ∷ ss) us = omega (arith, wakeups-append d ss us)

abbrev pub other : Event → Event
other read = write
other write = read

-- The doroutine waits for the event while it is on, and not for the other one.
pub record IsParked (d : ℕ) (event : Event) (c : FdContext) : Type 0 where
  pub doroutine : has c.events event ≡ true → (get_event_context c event).doroutine ≡ some d
  pub func : has c.events event ≡ true → (get_event_context c event).func ≡ none
  pub repeat : has c.events event ≡ true → (get_event_context c event).repeat ≡ false
  pub apart : wakes d (call_of (get_event_context c (other event)) 0) ≡ false

pub cleared-IsParked :
    (d : ℕ) (event off : Event) (c : FdContext)
    → IsParked d event c
    → IsParked d event (cleared c off)
cleared-IsParked d read read c p = record {
  doroutine = λ h. cc;
  func = λ h. cc;
  repeat = λ h. cc;
  apart = p.apart;
}
cleared-IsParked d read write c p = record {
  doroutine = p.doroutine;
  func = p.func;
  repeat = p.repeat;
  apart = refl;
}
cleared-IsParked d write read c p = record {
  doroutine = p.doroutine;
  func = p.func;
  repeat = p.repeat;
  apart = refl;
}
cleared-IsParked d write write c p = record {
  doroutine = λ h. cc;
  func = λ h. cc;
  repeat = λ h. cc;
  apart = p.apart;
}

triggered_if-IsParked :
    (d : ℕ) (event off : Event) (b last : Bool) (s : Slot)
    → IsParked d event s.context
    → IsParked d event (triggered_if b s off last).context
triggered_if-IsParked d event off false last s p = p
triggered_if-IsParked d event off true last s p =
    elim (Bool-cases (not last && (get_event_context s.context off).repeat)) [
      | inl e ↦ rw e p
      | inr e ↦ rw e (cleared-IsParked d event off s.context p)
    ]

pub all_cleared-IsParked :
    (epoll : Epoll) (m : IoManager epoll) (fd d : ℕ) (c : FdContext) (v : IsValid epoll m)
    (at : get_elem? m.fd_contexts fd ≡ some c) (event : Event)
    → IsParked d event (all_cleared epoll m fd c v at)
all_cleared-IsParked epoll m fd d c v at read = record {
  doroutine = λ h. cc;
  func = λ h. cc;
  repeat = λ h. cc;
  apart = refl;
}
all_cleared-IsParked epoll m fd d c v at write = record {
  doroutine = λ h. cc;
  func = λ h. cc;
  repeat = λ h. cc;
  apart = refl;
}

-- The call of the event that is on.
pub own_call :
    (d sched : ℕ) (event : Event) (c : FdContext)
    → IsParked d event c
    → has c.events event ≡ true
    → wakes d (call_of (get_event_context c event) sched) ≡ true
own_call d sched read c p h = ground (arith, p.doroutine h, p.func h, ==_refl d)
own_call d sched write c p h = ground (arith, p.doroutine h, p.func h, ==_refl d)

module _ (epoll : Epoll) (m : IoManager epoll) (fd d : ℕ) (c : FdContext) (real : Mask)
    (v : IsValid epoll m) (at : get_elem? m.fd_contexts fd ≡ some c)
    (now : IsCurrent epoll m fd c real v at) where
  pub report_calls-wakeups :
      (event : Event)
      → IsParked d event c
      → wakeups d (report_calls epoll m fd c real v at) + one_if (has (left_events c real) event)
        ≡ one_if (has c.events event)
  report_calls-wakeups read p =
      ground (arith, p.doroutine, p.func, p.repeat, p.apart, now.0, now.1, ==_refl d)
  report_calls-wakeups write p =
      ground (arith, p.doroutine, p.func, p.repeat, p.apart, now.0, now.1, ==_refl d)

  pub after_report-IsParked :
      (event : Event)
      → IsParked d event c
      → IsParked d event (after_report epoll m fd c real v at).context
  after_report-IsParked event p =
      triggered_if-IsParked d event write real.write false _
        (triggered_if-IsParked d event read real.read false (slot_of epoll m c) p)

pub all_calls-wakeups :
    (epoll : Epoll) (m : IoManager epoll) (fd d : ℕ) (c : FdContext) (v : IsValid epoll m)
    (at : get_elem? m.fd_contexts fd ≡ some c) (event : Event)
    → IsParked d event c
    → wakeups d (all_calls epoll m fd c v at) ≡ one_if (has c.events event)
all_calls-wakeups epoll m fd d c v at read p =
    ground (arith, p.doroutine, p.func, p.apart, ==_refl d)
all_calls-wakeups epoll m fd d c v at write p =
    ground (arith, p.doroutine, p.func, p.apart, ==_refl d)

-- addEvent by the doroutine parks it.
pub registered-IsParked :
    (th : Thread) (fd d : ℕ) (c : FdContext) (event : Event)
    → IsGood fd c
    → has c.events event ≡ false
    → th.doroutine ≡ some d
    → wakes d (call_of (get_event_context c (other event)) 0) ≡ false
    → IsParked d event (registered th c event none false)
registered-IsParked th fd d c read g off me apart = record {
  doroutine = λ h. me;
  func = λ h.
      ap (λ (e : EventContext). e.func) (subst (λ b. IsWired b c.read_context) off g.read_wired);
  repeat = λ h. refl;
  apart = apart;
}
registered-IsParked th fd d c write g off me apart = record {
  doroutine = λ h. me;
  func = λ h.
      ap (λ (e : EventContext). e.func) (subst (λ b. IsWired b c.write_context) off g.write_wired);
  repeat = λ h. refl;
  apart = apart;
}

-- An event that was taken off, alone or with the other one, is off.
pub off_cleared : (c : FdContext) (event : Event) → has (cleared c event).events event ≡ false
off_cleared c read = refl
off_cleared c write = refl

pub off_none : (event : Event) → has no_events event ≡ false
off_none read = refl
off_none write = refl

pub on_registered :
    (th : Thread) (c : FdContext) (event : Event)
    → has (registered th c event none false).events event ≡ true
on_registered th c read = refl
on_registered th c write = refl
