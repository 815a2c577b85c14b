-- ===== src/IoManager/Reports.antt =====
-- The events that epoll reports, handled on a valid manager.
use doroutine.Prelude.{
  ℕ, ◌≡◌, refl, sym, ap, subst, ◌∙◌, ◌⊎◌, inl, inr, true, false, none, some, List, [], ◌∷◌, ◌++◌,
  get_elem?, set, if◌then◌else◌, Bool-cases, Option-cases, arith,
}
use mathlib.Core.List.{append-nil, append_assoc}
use doroutine.Outcome.{done, undefined}
use doroutine.Epoll.{Epoll, Mask}
use doroutine.IoManager.{
  read, write, reset_context, FdContext, get_event_context, Slot, Thread, IoManager, Scheduled,
  trigger_event, slot_of, put_slot, shrink_op,
}
use doroutine.IoManager.Context.{IsWired, on_count, watched, IsValid, put-IsValid}
use doroutine.IoManager.Events.{
  cleared, call_of, shrink_lem, wired_scheduler, triggered_if, IsBalanced, triggered_if-IsBalanced,
  trigger_if-triggered, slot_of-IsBalanced,
}
use doroutine.IoManager.Idle.{left_events, meets, handle_context}

module _ (epoll : Epoll) (m : IoManager epoll) (fd : ℕ) (c : FdContext) (real : Mask)
    (v : IsValid epoll m) (at : get_elem? m.fd_contexts fd ≡ some c) where
  open epoll use {State, ctl}

  -- The slot after the trigger of READ, and after that of WRITE.
  abbrev after_read : Slot
  after_read = triggered_if real.read (slot_of epoll m c) read false

  abbrev pub after_report : Slot
  after_report = triggered_if real.write after_read write false

  -- The calls of the events that are reported, READ first.
  abbrev pub report_calls : List Scheduled
  report_calls =
      (if real.read then call_of c.read_context (wired_scheduler c.read_context) ∷ [] else [])
      ++ (if real.write then call_of c.write_context (wired_scheduler c.write_context) ∷ [] else [])

  -- Only events that are on are reported.
  abbrev pub IsCurrent : Type 0
  IsCurrent =
      (real.read ≡ true → c.events.read ≡ true) × (real.write ≡ true → c.events.write ≡ true)

  module _ (now : IsCurrent) where
    write_kept : real.write ≡ true → after_read.context.events.write ≡ true
    write_kept h = ground (arith, now.1 h)

    after_report_events : after_report.context.events ≡ left_events c real
    after_report_events = elim (Bool-cases real.read) [
      | inl e ↦ elim (Bool-cases real.write) [
        | inl f ↦ ground (arith, now.0 e, now.1 f)
        | inr f ↦ ground (arith, now.0 e)
      ]
      | inr e ↦ elim (Bool-cases real.write) [
        | inl f ↦ ground (arith, now.1 f)
        | inr f ↦ ground arith
      ]
    ]

    both_calls :
        m.scheduled
          ++ call_of c.read_context (wired_scheduler c.read_context) ∷ []
          ++ call_of
              (get_event_context (if c.read_context.repeat then c else cleared c read) write)
              (wired_scheduler
                (get_event_context (if c.read_context.repeat then c else cleared c read) write))
            ∷ []
        ≡ m.scheduled
          ++ call_of c.read_context (wired_scheduler c.read_context)
            ∷ call_of c.write_context (wired_scheduler c.write_context)
            ∷ []
    both_calls = elim (Bool-cases c.read_context.repeat) [
      | inl e ↦ rw e (append_assoc m.scheduled _ _)
      | inr e ↦ rw e (append_assoc m.scheduled _ _)
    ]

    after_report_scheduled : after_report.scheduled ≡ m.scheduled ++ report_calls
    after_report_scheduled = elim (Bool-cases real.read) [
      | inl e ↦ elim (Bool-cases real.write) [
        | inl f ↦ rw (e, f) both_calls
        | inr f ↦ rw (e, f) refl
      ]
      | inr e ↦ elim (Bool-cases real.write) [
        | inl f ↦ rw (e, f) refl
        | inr f ↦ rw (e, f) (sym (append-nil m.scheduled))
      ]
    ]

    after_read-IsBalanced : IsBalanced fd m.pending_event_count (on_count c.events) after_read
    after_read-IsBalanced =
        triggered_if-IsBalanced fd _ _ (slot_of epoll m c) read false
          (slot_of-IsBalanced epoll m fd c v at) real.read now.0

    handles :
        (th : Thread) (ep : State)
        → th.is_iom ≡ true
        → meets c.events real ≡ true
        → ctl m.epfd (shrink_op epoll (left_events c real)) c.fd (left_events c real) ≡ some ep
        → handle_context epoll m th fd c real ≡ done (put_slot epoll m fd ep after_report)
    unfolding handle_context
    handles th ep iom e f =
        let first =
          trigger_if-triggered fd _ _ (slot_of epoll m c) read false
            (slot_of-IsBalanced epoll m fd c v at) epoll th real.read iom now.0 in
        let second =
          trigger_if-triggered fd _ _ after_read write false after_read-IsBalanced epoll th
            real.write iom write_kept in
        ground (arith, first, second)

    -- On a valid manager, the loop of idle() handles a report of events that are on, in a thread of
    -- this manager: nothing changes where none is reported or epoll_ctl fails. Otherwise each
    -- reported event queues its callback once, READ first, and of those only the repeating ones
    -- stay on; the manager is valid.
    pub handle_context-Returns :
        (th : Thread)
        → th.is_iom ≡ true
        → let left = left_events c real in
          let told = ctl m.epfd (shrink_op epoll left) c.fd left in
          (((meets c.events real ≡ false) ⊎ (told ≡ none))
            × (handle_context epoll m th fd c real ≡ done m))
          ⊎ ((m' : IoManager epoll) × (told ≡ some m'.epfd)
              × (handle_context epoll m th fd c real ≡ done m')
              × IsValid epoll m'
              × (m'.fd_contexts ≡ set m.fd_contexts fd after_report.context)
              × (after_report.context.events ≡ left_events c real)
              × (m'.scheduled ≡ m.scheduled ++ report_calls))
    handle_context-Returns th iom = elim (Bool-cases (meets c.events real)) [
      | inr e ↦ inl (inl e, unfold handle_context in ground arith)
      | inl e ↦
          (let left = left_events c real in
            elim (Option-cases (ctl m.epfd (shrink_op epoll left) c.fd left)) [
              | inl f ↦ inl (inr f, unfold handle_context in ground arith)
              | inr (ep, f) ↦
                  (let balanced =
                      triggered_if-IsBalanced fd _ _ after_read write false after_read-IsBalanced
                        real.write write_kept in
                    inr (
                      put_slot epoll m fd ep after_report,
                      f,
                      handles th ep iom e f,
                      put-IsValid epoll m fd c v at (shrink_op epoll left) left ep after_report
                          (subst (λ j. ctl m.epfd (shrink_op epoll left) j left ≡ some ep)
                            (v.good fd c at).at_fd f)
                          (shrink_lem epoll left ∙ ap watched (sym after_report_events))
                          balanced.good balanced.balance,
                      refl,
                      after_report_events,
                      after_report_scheduled,
                    ))
            ])
    ]

  -- On a valid manager, a report of READ and WRITE for a descriptor whose READ is off and whose
  -- WRITE is on, where epoll_ctl succeeds, is undefined behaviour: the loop triggers READ all the
  -- same, through the null scheduler of its reset context.
  pub handle_context_stale :
      (th : Thread) (ep : State)
      → c.events.read ≡ false
      → c.events.write ≡ true
      → real.read ≡ true
      → real.write ≡ true
      → ctl m.epfd (shrink_op epoll (left_events c real)) c.fd (left_events c real) ≡ some ep
      → handle_context epoll m th fd c real ≡ undefined
  unfolding handle_context
  handle_context_stale th ep r w rr ww told =
      let off : c.read_context ≡ reset_context =
        subst (λ b. IsWired b c.read_context) r (v.good fd c at).read_wired in
      let null : trigger_event th (slot_of epoll m c) read false ≡ undefined =
        unfold trigger_event in ground arith in
      ground (arith, null)
