-- ===== src/IoManager/Runs.antt =====
-- Whole histories of a manager: calls by any threads, and reports of epoll, in any order.
use doroutine.Prelude.{
  exceeds, exceeds_lem, length, get_elem?_lt, ◌*◌, ◌/◌, ℕ, ◌^◌, ◌<◌, ◌≡◌, refl, ap, subst, inl, inr,
  Bool, true, false, Option, none, pos, get_elem?, Option-cases, arith,
}
use doroutine.Func.{Func}
use doroutine.Outcome.{Outcome, done, ◌>>=◌}
use doroutine.Epoll.{Epoll}
use doroutine.IoManager.{
  Event, has, Thread, IoManager, new_io_manager, add_event, del_event, cancel_event, cancel_all,
}
use doroutine.IoManager.Context.{is_some, total, watched_at, IsValid}
use doroutine.IoManager.Growth.{events_at, new_io_manager-IsValid}
use doroutine.IoManager.Addition.{add_event-Returns}
use doroutine.IoManager.Removal.{del_event-Returns, cancel_event-Returns, cancel_all-Returns}
use doroutine.IoManager.Idle.{Report, tickled, ready, handle_report}
use doroutine.IoManager.Reported.{IsCurrentReport, report_taken}

pub data Call : Type 0 where
  adds : Thread → ℕ → Event → Option Func → Bool → Call
  dels : ℕ → Event → Call
  cancels : Thread → ℕ → Event → Call
  cancels_all : Thread → ℕ → Call
  -- idle() handles a report.
  handles : Thread → Report → Call

module _ (epoll : Epoll) where
  unfoldable pub perform : IoManager epoll → Call → Outcome (IoManager epoll)
  unfolding handle_report
  perform m (adds th fd event func repeat) =
      add_event epoll m th (pos fd) event func repeat >>= λ r. done r.0
  perform m (dels fd event) = del_event epoll m (pos fd) event >>= λ r. done r.0
  perform m (cancels th fd event) = cancel_event epoll m th (pos fd) event >>= λ r. done r.0
  perform m (cancels_all th fd) = cancel_all epoll m th (pos fd) >>= λ r. done r.0
  perform m (handles th r) = handle_report epoll m th r

  -- An event is added that is not on, of a descriptor of which 1.5 times is below
  -- 2 ^ 31, by a thread with a scheduler;
  -- only threads of the manager cancel, and handle reports.
  abbrev pub IsFair : IoManager epoll → Call → Type 0
  IsFair m (adds th fd event func repeat) =
      (fd * 3 / 2 < 2 ^ 31)
      × (is_some th.scheduler ≡ true)
      × (has (events_at m.fd_contexts fd) event ≡ false)
  IsFair m (dels fd event) = Unit {0}
  IsFair m (cancels th fd event) = th.is_iom ≡ true
  IsFair m (cancels_all th fd) = th.is_iom ≡ true
  IsFair m (handles th r) = IsCurrentReport epoll m th r

  pub data Reach (start : IoManager epoll) : IoManager epoll → Type 0 where
    at_start : Reach start start
    after_call :
        {m m' : IoManager epoll} (c : Call)
        → Reach start m
        → IsFair m c
        → perform m c ≡ done m'
        → Reach start m'

  abbrev pub Keeps : Outcome (IoManager epoll) → Type 0
  Keeps o = (m' : IoManager epoll) × (o ≡ done m') × IsValid epoll m'

  -- A descriptor that has no context fails the test of the size.
  beyond :
      (m : IoManager epoll) (fd : ℕ)
      → IsValid epoll m
      → get_elem? m.fd_contexts fd ≡ none
      → exceeds (length m.fd_contexts) (pos fd) ≡ false
  beyond m fd v e =
      ground
        (arith, exceeds_lem (length m.fd_contexts) fd v.size_max, get_elem?_lt m.fd_contexts fd)

  not_there-del_event :
      (m : IoManager epoll) (fd : ℕ)
      → IsValid epoll m
      → get_elem? m.fd_contexts fd ≡ none
      → (event : Event) → del_event epoll m (pos fd) event ≡ done (m, false)
  unfolding del_event
  not_there-del_event m fd v e event = rw (beyond m fd v e) refl

  not_there-cancel_event :
      (m : IoManager epoll) (fd : ℕ)
      → IsValid epoll m
      → get_elem? m.fd_contexts fd ≡ none
      → (th : Thread) (event : Event) → cancel_event epoll m th (pos fd) event ≡ done (m, false)
  unfolding cancel_event
  not_there-cancel_event m fd v e th event = rw (beyond m fd v e) refl

  not_there-cancel_all :
      (m : IoManager epoll) (fd : ℕ)
      → IsValid epoll m
      → get_elem? m.fd_contexts fd ≡ none
      → (th : Thread) → cancel_all epoll m th (pos fd) ≡ done (m, false)
  unfolding cancel_all
  not_there-cancel_all m fd v e th = rw (beyond m fd v e) refl

  adds-Keeps :
      (m : IoManager epoll) (th : Thread) (fd : ℕ) (event : Event) (func : Option Func)
      (repeat : Bool)
      → IsValid epoll m
      → IsFair m (adds th fd event func repeat)
      → Keeps (perform m (adds th fd event func repeat))
  unfolding perform
  adds-Keeps m th fd event func repeat v (small, sched, off) =
      let (vg, count, found) =
        add_event-Returns epoll m th fd event func repeat v small sched off in
      let (c, at, r) = found in
      elim r [
        | inl (why, r) ↦ (_, ap (λ o. o >>= λ r. done r.0) r, vg)
        | inr (m', told, r, kept) ↦ (m', ap (λ o. o >>= λ r. done r.0) r, kept.0)
      ]

  dels-Keeps :
      (m : IoManager epoll) (fd : ℕ) (event : Event)
      → IsValid epoll m
      → Keeps (perform m (dels fd event))
  unfolding perform
  dels-Keeps m fd event v = elim (Option-cases (get_elem? m.fd_contexts fd)) [
    | inl e ↦ (m, ap (λ o. o >>= λ r. done r.0) (not_there-del_event m fd v e event), v)
    | inr (c, e) ↦ elim (del_event-Returns epoll m fd c v e event) [
      | inl (why, r) ↦ (m, ap (λ o. o >>= λ r. done r.0) r, v)
      | inr (m', on, told, r, kept) ↦ (m', ap (λ o. o >>= λ r. done r.0) r, kept.0)
    ]
  ]

  cancels-Keeps :
      (m : IoManager epoll) (th : Thread) (fd : ℕ) (event : Event)
      → IsValid epoll m
      → th.is_iom ≡ true
      → Keeps (perform m (cancels th fd event))
  unfolding perform
  cancels-Keeps m th fd event v iom = elim (Option-cases (get_elem? m.fd_contexts fd)) [
    | inl e ↦ (m, ap (λ o. o >>= λ r. done r.0) (not_there-cancel_event m fd v e th event), v)
    | inr (c, e) ↦ elim (cancel_event-Returns epoll m fd c v e th event iom) [
      | inl (why, r) ↦ (m, ap (λ o. o >>= λ r. done r.0) r, v)
      | inr (m', on, told, r, kept) ↦ (m', ap (λ o. o >>= λ r. done r.0) r, kept.0)
    ]
  ]

  cancels_all-Keeps :
      (m : IoManager epoll) (th : Thread) (fd : ℕ)
      → IsValid epoll m
      → th.is_iom ≡ true
      → Keeps (perform m (cancels_all th fd))
  unfolding perform
  cancels_all-Keeps m th fd v iom = elim (Option-cases (get_elem? m.fd_contexts fd)) [
    | inl e ↦ (m, ap (λ o. o >>= λ r. done r.0) (not_there-cancel_all m fd v e th), v)
    | inr (c, e) ↦ elim (cancel_all-Returns epoll m fd c v e th iom) [
      | inl (why, r) ↦ (m, ap (λ o. o >>= λ r. done r.0) r, v)
      | inr (m', on, told, r, kept) ↦ (m', ap (λ o. o >>= λ r. done r.0) r, kept.0)
    ]
  ]

  handles-Keeps :
      (m : IoManager epoll) (th : Thread) (r : Report)
      → IsValid epoll m
      → IsCurrentReport epoll m th r
      → Keeps (perform m (handles th r))
  unfolding perform handle_report
  handles-Keeps m th tickled v f = (m, refl, v)
  handles-Keeps m th (ready fd readable writable failed) v f =
      let (m', e, v', taken) = report_taken epoll m th fd readable writable failed v f in
      (m', e, v')

  perform-Keeps :
      (m : IoManager epoll) (c : Call) → IsValid epoll m → IsFair m c → Keeps (perform m c)
  perform-Keeps m (adds th fd event func repeat) v f = adds-Keeps m th fd event func repeat v f
  perform-Keeps m (dels fd event) v f = dels-Keeps m fd event v
  perform-Keeps m (cancels th fd event) v f = cancels-Keeps m th fd event v f
  perform-Keeps m (cancels_all th fd) v f = cancels_all-Keeps m th fd v f
  perform-Keeps m (handles th r) v f = handles-Keeps m th r v f

  Reach-IsValid :
      (start m : IoManager epoll) → IsValid epoll start → Reach start m → IsValid epoll m
  Reach-IsValid start _ v at_start = v
  Reach-IsValid start _ v (after_call {m = m} {m' = m'} c r f e) =
      let (m1, e1, v1) = perform-Keeps m c (Reach-IsValid start m v r) f in
      let same : m1 ≡ m' = cc in subst (IsValid epoll) same v1

  -- From the constructor on, on an epoll instance that watches no context, whatever sequence of calls
  -- and reports the manager goes through, if only events are added that are not on, of descriptors
  -- of which 1.5 times is below 2 ^ 31 and by threads with a scheduler, only threads of the manager
  -- cancel events and handle reports, and epoll reports only events that are on: the count is that of the events that are on,
  -- epoll watches just those, and each further such call returns.
  pub perform-returns :
      (ep : Epoll.State epoll) (m : IoManager epoll) (c : Call)
      → ((fd : ℕ) → Epoll.interest epoll ep fd ≡ none)
      → Reach (new_io_manager epoll ep) m
      → IsFair m c
      → (m.pending_event_count ≡ total m.fd_contexts)
        × ((fd : ℕ) → Epoll.interest epoll m.epfd fd ≡ watched_at m.fd_contexts fd)
        × ((m' : IoManager epoll) × (perform m c ≡ done m'))
  perform-returns ep m c idle r f =
      let v = Reach-IsValid (new_io_manager epoll ep) m (new_io_manager-IsValid epoll ep idle) r in
      let (m', e, v') = perform-Keeps m c v f in (v.pending, v.mirrored, (m', e))
