-- ===== src/IoManager/Reported.antt =====
-- One report of epoll, on a valid manager.
use doroutine.Prelude.{
  ℕ, ◌<◌, ◌≡◌, refl, sym, ap, ◌∙◌, ◌⊎◌, inl, inr, Bool, true, Option, none, some, List, [], ◌∷◌,
  ◌++◌, length, get_elem?, get_elem?_lt, set, if◌then◌else◌, if_true, if_false, Bool-cases, false,
  arith,
}
use doroutine.Outcome.{done}
use doroutine.Epoll.{Epoll, Mask}
use doroutine.IoManager.{shrink_op, FdContext, Thread, IoManager, Scheduled}
use doroutine.IoManager.Context.{IsValid}
use doroutine.IoManager.Growth.{events_at}
use doroutine.IoManager.Events.{call_of, wired_scheduler}
use doroutine.IoManager.Idle.{
  Report, tickled, ready, real_events, left_events, meets, handle_context, handle_report,
}
use doroutine.IoManager.Reports.{handle_context-Returns}

-- The calls of the events of one context that are real, READ first.
abbrev pub context_calls : FdContext → Mask → List Scheduled
context_calls c real =
    (if real.read then call_of c.read_context (wired_scheduler c.read_context) ∷ [] else [])
    ++ (if real.write then call_of c.write_context (wired_scheduler c.write_context) ∷ [] else [])

abbrev pub calls_from : Option FdContext → (readable writable failed : Bool) → List Scheduled
calls_from none readable writable failed = []
calls_from (some c) readable writable failed =
    context_calls c (real_events c.events readable writable failed)

abbrev pub calls_at : List FdContext → Report → List Scheduled
calls_at cs tickled = []
calls_at cs (ready fd readable writable failed) =
    calls_from (get_elem? cs fd) readable writable failed

module _ (epoll : Epoll) where
  open epoll use {State, ctl}

  -- What epoll_ctl makes of the events that a report leaves; none where it fails, or where no event
  -- that is on is reported.
  abbrev pub applied : State → Option FdContext → (readable writable failed : Bool) → Option State
  applied ep none readable writable failed = none
  applied ep (some c) readable writable failed =
      let real = real_events c.events readable writable failed in
      let left = left_events c real in
      if meets c.events real then ctl ep (shrink_op epoll left) c.fd left else none

  -- epoll reports a descriptor that has a context, and only events that are on.
  abbrev pub IsCurrentReport : IoManager epoll → Thread → Report → Type 0
  IsCurrentReport m th tickled = Unit {0}
  IsCurrentReport m th (ready fd readable writable failed) =
      (th.is_iom ≡ true)
      × (fd < length m.fd_contexts)
      × (readable ≡ true → (events_at m.fd_contexts fd).read ≡ true)
      × (writable ≡ true → (events_at m.fd_contexts fd).write ≡ true)

  -- It is the handling of that context.
  pub handled :
      (m : IoManager epoll) (th : Thread) (fd : ℕ) (readable writable failed : Bool) (c : FdContext)
      → get_elem? m.fd_contexts fd ≡ some c
      → handle_report epoll m th (ready fd readable writable failed)
        ≡ handle_context epoll m th fd c (real_events c.events readable writable failed)
  unfolding handle_report
  handled m th fd readable writable failed c e = ground (arith, e)

  unmet :
      (m : IoManager epoll) (th : Thread) (fd : ℕ) (c : FdContext) (real : Mask)
      → meets c.events real ≡ false
      → handle_context epoll m th fd c real ≡ done m
  unfolding handle_context
  unmet m th fd c real off = ground (arith, off)

  -- The report is taken, or nothing changes.
  pub report_taken :
      (m : IoManager epoll) (th : Thread) (fd : ℕ) (readable writable failed : Bool)
      → IsValid epoll m
      → IsCurrentReport m th (ready fd readable writable failed)
      → (m' : IoManager epoll) × (handle_report epoll m th (ready fd readable writable failed)
          ≡ done m')
        × IsValid epoll m'
        × (((m' ≡ m)
              × (applied m.epfd (get_elem? m.fd_contexts fd) readable writable failed ≡ none))
            ⊎ ((c : FdContext) × (applied m.epfd
                    (get_elem? m.fd_contexts fd)
                    readable
                    writable
                    failed
                  ≡ some m'.epfd)
                × (m'.fd_contexts ≡ set m.fd_contexts fd c)
                × (m'.scheduled
                    ≡ m.scheduled ++ calls_at m.fd_contexts (ready fd readable writable failed))))
  report_taken m th fd readable writable failed v (iom, bound, in_read, in_write) =
      let (c, e) = get_elem?_lt m.fd_contexts fd bound in
      let real = real_events c.events readable writable failed in
      let now : (real.read ≡ true → c.events.read ≡ true)
          × (real.write ≡ true → c.events.write ≡ true) =
        (λ h. ground (arith, e, in_read), λ h. ground (arith, e, in_write)) in
      let calls : calls_at m.fd_contexts (ready fd readable writable failed)
          ≡ context_calls c real =
        ap (λ o. calls_from o readable writable failed) e in
      let same : applied m.epfd (get_elem? m.fd_contexts fd) readable writable failed
          ≡ applied m.epfd (some c) readable writable failed =
        ap (λ o. applied m.epfd o readable writable failed) e in
      elim (Bool-cases (meets c.events real)) [
        | inr off ↦ (
          m,
          handled m th fd readable writable failed c e ∙ unmet m th fd c real off,
          v,
          inl (refl, same ∙ if_false _ _ off),
        )
        | inl on ↦ elim (handle_context-Returns epoll m fd c real v e now th iom) [
          | inl (why, r) ↦ (
            m,
            handled m th fd readable writable failed c e ∙ r,
            v,
            inl (
              refl,
              same ∙ if_true _ _ on ∙ elim why [ inl off ↦ absurd (ground arith) | inr f ↦ f ],
            ),
          )
          | inr (m', told, r, v', cs, events, more) ↦ (
            m',
            handled m th fd readable writable failed c e ∙ r,
            v',
            inr (
              _,
              same ∙ if_true _ _ on ∙ told,
              cs,
              more ∙ ap (λ l. m.scheduled ++ l) (sym calls),
            ),
          )
        ]
      ]
