-- ===== src/Hook/Waiting/Wakes.antt =====
-- The wait of do_io from its addEvent on.
use doroutine.Prelude.{
  ◌*◌, ◌/◌, ℕ, suc, ◌+◌, ◌^◌, ◌<◌, ◌≡◌, ◌⊎◌, ◌∙◌, sym, ap, inl, inr, true, false, none, some, List,
  get_elem?, get_elem?-set_self, pos, if◌then◌else◌, arith,
}
use doroutine.Outcome.{done}
use doroutine.Epoll.{Epoll}
use doroutine.IoManager.{Event, has, FdContext, get_event_context, Thread, IoManager, add_event}
use doroutine.IoManager.Context.{is_some, IsValid, get-bound}
use doroutine.IoManager.Growth.{on_of, events_at, grown, grown_events}
use doroutine.IoManager.Events.{call_of}
use doroutine.IoManager.Addition.{registered, Added, add_event-Returns}
use doroutine.Hook.{etimedout}
use doroutine.Hook.Waiting.{Step, Waiting, run}
use doroutine.Hook.Waiting.Parked.{wakes, wakeups, other, registered-IsParked, on_registered}
use doroutine.Hook.Waiting.Once.{ArePossible, runs_out, IsOnce, run-IsOnce}

-- The wait as addEvent leaves it.
abbrev pub waiting : (epoll : Epoll) → IoManager epoll → Waiting epoll
waiting epoll m = record { manager = m; cancelled = 0 }

-- The wait that addEvent has begun.
begun-IsOnce :
    (epoll : Epoll) (m m0 : IoManager epoll) (own th : Thread) (fd d : ℕ) (event : Event)
    (c : FdContext)
    → IsValid epoll m
    → (vg : IsValid epoll (grown epoll m fd)) → get_elem? (grown epoll m fd).fd_contexts fd ≡ some c
    → own.doroutine ≡ some d
    → has (events_at m.fd_contexts fd) event ≡ false
    → wakes d (call_of (get_event_context c (other event)) 0) ≡ false
    → Added epoll (grown epoll m fd) fd (registered own c event none false) m0
    → IsOnce epoll th fd event d (suc (wakeups d m.scheduled)) m0
begun-IsOnce epoll m m0 own th fd d event c v vg at me off apart (v0, cs, more, same) =
    let cs0 = (grown epoll m fd).fd_contexts in
    let off' : has c.events event ≡ false =
      ap (λ m. has m event) (sym (ap on_of at) ∙ grown_events epoll m fd fd v) ∙ off in
    let queued : (grown epoll m fd).scheduled ≡ m.scheduled = ground arith in
    record {
      context = registered own c event none false;
      at = ap (λ cs. get_elem? cs fd) cs ∙ get_elem?-set_self cs0 fd _ (get-bound cs0 fd c at);
      valid = v0;
      parked = registered-IsParked own fd d c event (vg.good fd c at) off' me apart;
      count = ground (arith, ap (wakeups d) (same ∙ queued), on_registered own c event);
    }

-- What the invariant says of a manager.
once_lem :
    (epoll : Epoll) (m : IoManager epoll) (own : Thread) (fd d n : ℕ) (event : Event)
    → IsOnce epoll own fd event d (suc n) m
    → wakeups d m.scheduled ≡ n + (if has (events_at m.fd_contexts fd) event then 0 else 1)
once_lem epoll m own fd d n event k =
    let same : events_at m.fd_contexts fd ≡ k.context.events = ap on_of k.at in
    ground (arith, k.count, ap (λ e. has e event) same)

-- A doroutine calls addEvent on a valid manager, in a thread with a scheduler, for a descriptor of
-- which 1.5 times is below 2 ^ 31, whose event is off and on whose other event it does not wait itself. If addEvent succeeds,
-- whatever reports of events that are on, runs of the timer and closes of the descriptor follow, in
-- any order and number and by a thread of the manager, all of them return, the manager is valid, and
-- the doroutine has been queued once more if the event is off by then, and not at all while it is
-- on. The wait is cancelled with ETIMEDOUT just where the timer has run, whether the event came
-- before that or not.
pub wait-Wakes :
    (epoll : Epoll) (m : IoManager epoll) (own th : Thread) (fd d : ℕ) (event : Event)
    → IsValid epoll m
    → fd * 3 / 2 < 2 ^ 31
    → is_some own.scheduler ≡ true
    → own.doroutine ≡ some d
    → th.is_iom ≡ true
    → has (events_at m.fd_contexts fd) event ≡ false
    → ((c : FdContext)
        → get_elem? (grown epoll m fd).fd_contexts fd ≡ some c
        → wakes d (call_of (get_event_context c (other event)) 0) ≡ false)
    → ((m0 : IoManager epoll) × (add_event epoll m own (pos fd) event none false
          ≡ done (m0, false)))
      ⊎ ((m0 : IoManager epoll) × (add_event epoll m own (pos fd) event none false
            ≡ done (m0, true))
          × ((steps : List Step)
              → ArePossible epoll th fd event (waiting epoll m0) steps
              → (w : Waiting epoll) × (run epoll th fd event (waiting epoll m0) steps ≡ done w)
                × IsValid epoll w.manager
                × (wakeups d w.manager.scheduled
                    ≡ wakeups d m.scheduled
                      + (if has (events_at w.manager.fd_contexts fd) event then 0 else 1))
                × (w.cancelled ≡ (if runs_out steps then etimedout else 0))))
wait-Wakes epoll m own th fd d event v small sched me iom off apart =
    let (vg, count, found) = add_event-Returns epoll m own fd event none false v small sched off in
    let (c, at, r) = found in
    elim r [
      | inl (why, r) ↦ inl (_, r)
      | inr (m0, told, r, a) ↦ inr (
        m0,
        r,
        λ steps possible.
            let k = begun-IsOnce epoll m m0 own th fd d event c v vg at me off (apart c at) a in
            let (w, runs, k', cancelled) =
              run-IsOnce epoll th fd event d (suc (wakeups d m.scheduled)) steps (waiting epoll m0)
                iom possible k in
            (
              w,
              runs,
              k'.valid,
              once_lem epoll w.manager th fd d (wakeups d m.scheduled) event k',
              cancelled,
            ),
      )
    ]
