-- ===== src/Hook/Waiting/Once.antt =====
-- How often the doroutine that waits is queued.
use doroutine.Prelude.{
  ℕ, ◌+◌, ◌≡◌, ◌∙◌, refl, ap, inl, inr, Bool, true, false, some, List, [], ◌∷◌, ◌++◌, ◌==◌,
  get_elem?, get_elem?-set_self, set, pos, if◌then◌else◌, if_true, if_false, Bool-cases, arith,
}
use doroutine.Outcome.{done, ◌>>=◌}
use doroutine.Epoll.{Epoll}
use doroutine.IoManager.{
  Event, has, FdContext, get_event_context, Scheduled, Thread, IoManager, cancel_event, cancel_all,
}
use doroutine.IoManager.Context.{one_if, IsValid, get-bound}
use doroutine.IoManager.Events.{cleared, wired_scheduler}
use doroutine.IoManager.Removal.{cancel_event-Returns, cancel_all-Returns}
use doroutine.IoManager.Idle.{ready, real_events, handle_report}
use doroutine.IoManager.Reported.{IsCurrentReport, handled}
use doroutine.IoManager.Reports.{handle_context-Returns, report_calls}
use doroutine.Hook.{etimedout}
use doroutine.Hook.Waiting.{Step, reported, timer_runs, closed, Waiting, on_timeout, step, run}
use doroutine.Hook.Waiting.Parked.{
  wakeups, wakeups-append, IsParked, cleared-IsParked, all_cleared-IsParked, after_report-IsParked,
  own_call, report_calls-wakeups, all_calls-wakeups, off_cleared, off_none,
}

module _ (epoll : Epoll) (th : Thread) (fd : ℕ) (event : Event) where
  -- epoll reports only events that are on, in a thread of the manager.
  abbrev pub IsPossible : Waiting epoll → Step → Type 0
  IsPossible w (reported readable writable failed) =
      IsCurrentReport epoll w.manager th (ready fd readable writable failed)
  IsPossible w timer_runs = Unit {0}
  IsPossible w closed = Unit {0}

  abbrev pub ArePossible : Waiting epoll → List Step → Type 0
  ArePossible w [] = Unit {0}
  ArePossible w (s ∷ ss) =
      IsPossible w s
      × ((w' : Waiting epoll) → step epoll th fd event w s ≡ done w' → ArePossible w' ss)

-- Whether the timer runs.
abbrev pub runs_out : List Step → Bool
runs_out [] = false
runs_out (timer_runs ∷ ss) = true
runs_out (reported r w f ∷ ss) = runs_out ss
runs_out (closed ∷ ss) = runs_out ss

abbrev pub cancelled_after : ℕ → List Step → ℕ
cancelled_after cancelled ss =
    if cancelled == 0 then (if runs_out ss then etimedout else 0) else cancelled

module _ (epoll : Epoll) (th : Thread) (fd : ℕ) (event : Event) (d n : ℕ) where
  -- The doroutine was queued n times once the event is off, and one time less while it is on.
  pub record IsOnce (m : IoManager epoll) : Type 0 where
    pub context : FdContext
    pub at : get_elem? m.fd_contexts fd ≡ some context
    pub valid : IsValid epoll m
    pub parked : IsParked d event context
    pub count : wakeups d m.scheduled + one_if (has context.events event) ≡ n

  -- Calls of schedule that are made as the context is replaced.
  replaced-IsOnce :
      (m m' : IoManager epoll) (k : IsOnce m) (c : FdContext) (calls : List Scheduled)
      → IsValid epoll m'
      → m'.fd_contexts ≡ set m.fd_contexts fd c
      → m'.scheduled ≡ m.scheduled ++ calls
      → IsParked d event c
      → wakeups d calls + one_if (has c.events event) ≡ one_if (has k.context.events event)
      → IsOnce m'
  replaced-IsOnce m m' k c calls v cs more p balance = record {
    context = c;
    at =
        ap (λ cs. get_elem? cs fd) cs
        ∙ get_elem?-set_self m.fd_contexts fd c (get-bound m.fd_contexts fd k.context k.at);
    valid = v;
    parked = p;
    count =
        omega (arith, k.count, balance, ap (wakeups d) more, wakeups-append d m.scheduled calls);
  }

  cancel_event-IsOnce :
      (m : IoManager epoll)
      → th.is_iom ≡ true
      → IsOnce m
      → (m' : IoManager epoll) × (b : Bool) × (cancel_event epoll m th (pos fd) event
          ≡ done (m', b))
        × IsOnce m'
  cancel_event-IsOnce m iom k =
      let c = k.context in
      elim (cancel_event-Returns epoll m fd c k.valid k.at th event iom) [
        | inl (why, r) ↦ (m, false, r, k)
        | inr (m', on, told, r, (v, cs, more)) ↦ (
          m',
          true,
          r,
          replaced-IsOnce m m' k (cleared c event) _ v cs more
              (cleared-IsParked d event event c k.parked)
              (ground (
                arith,
                own_call d (wired_scheduler (get_event_context c event)) event c k.parked on,
                off_cleared c event,
              )),
        )
      ]

  cancel_all-IsOnce :
      (m : IoManager epoll)
      → th.is_iom ≡ true
      → IsOnce m
      → (m' : IoManager epoll) × (b : Bool) × (cancel_all epoll m th (pos fd) ≡ done (m', b))
        × IsOnce m'
  cancel_all-IsOnce m iom k =
      let c = k.context in
      elim (cancel_all-Returns epoll m fd c k.valid k.at th iom) [
        | inl (why, r) ↦ (m, false, r, k)
        | inr (m', on, told, r, (v, cs, more)) ↦ (
          m',
          true,
          r,
          replaced-IsOnce m m' k _ _ v cs more
              (all_cleared-IsParked epoll m fd d c k.valid k.at event)
              (ground (
                arith,
                all_calls-wakeups epoll m fd d c k.valid k.at event k.parked,
                off_none event,
              )),
        )
      ]

  handle_report-IsOnce :
      (m : IoManager epoll) (readable writable failed : Bool)
      → IsCurrentReport epoll m th (ready fd readable writable failed)
      → IsOnce m
      → (m' : IoManager epoll) × (handle_report epoll m th (ready fd readable writable failed)
          ≡ done m')
        × IsOnce m'
  handle_report-IsOnce m readable writable failed (iom, bound, in_read, in_write) k =
      let c = k.context in
      let real = real_events c.events readable writable failed in
      let now : (real.read ≡ true → c.events.read ≡ true)
          × (real.write ≡ true → c.events.write ≡ true) =
        (λ h. ground (arith, k.at, in_read), λ h. ground (arith, k.at, in_write)) in
      let here = handled epoll m th fd readable writable failed c k.at in
      elim (handle_context-Returns epoll m fd c real k.valid k.at now th iom) [
        | inl (why, r) ↦ (m, here ∙ r, k)
        | inr (m', told, r, v, cs, events, more) ↦ (
          m',
          here ∙ r,
          replaced-IsOnce m m' k _ _ v cs more
              (after_report-IsParked epoll m fd d c real k.valid k.at now event k.parked)
              (ap
                  (λ e.
                    wakeups d (report_calls epoll m fd c real k.valid k.at) + one_if (has e event))
                  events
                ∙ report_calls-wakeups epoll m fd d c real k.valid k.at now event k.parked),
        )
      ]

  step-IsOnce :
      (w : Waiting epoll) (s : Step) (ss : List Step)
      → th.is_iom ≡ true
      → IsPossible epoll th fd event w s
      → IsOnce w.manager
      → (w' : Waiting epoll) × (step epoll th fd event w s ≡ done w')
        × IsOnce w'.manager
        × (cancelled_after w'.cancelled ss ≡ cancelled_after w.cancelled (s ∷ ss))
  unfolding step on_timeout
  step-IsOnce w (reported readable writable failed) ss iom possible k =
      let (m', r, k') = handle_report-IsOnce w.manager readable writable failed possible k in
      (record w { manager = m' }, ap (λ o. o >>= λ m. done (record w { manager = m })) r, k', refl)
  step-IsOnce w timer_runs ss iom possible k = elim (Bool-cases (w.cancelled == 0)) [
    | inl e ↦
        (let (m', b, r, k') = cancel_event-IsOnce w.manager iom k in
          (
            record { manager = m'; cancelled = etimedout },
            if_true _ _ e
                ∙ ap (λ o. o >>= λ r. done (record { manager = r.0; cancelled = etimedout })) r,
            k',
            ground (arith, e),
          ))
    | inr e ↦ (w, if_false _ _ e, k, ground (arith, e))
  ]
  step-IsOnce w closed ss iom possible k =
      let (m', b, r, k') = cancel_all-IsOnce w.manager iom k in
      (
        record w { manager = m' },
        ap (λ o. o >>= λ r. done (record w { manager = r.0 })) r,
        k',
        refl,
      )

  pub run-IsOnce :
      (ss : List Step) (w : Waiting epoll)
      → th.is_iom ≡ true
      → ArePossible epoll th fd event w ss
      → IsOnce w.manager
      → (w' : Waiting epoll) × (run epoll th fd event w ss ≡ done w')
        × IsOnce w'.manager
        × (w'.cancelled ≡ cancelled_after w.cancelled ss)
  unfolding run
  run-IsOnce [] w iom possible k = (w, refl, k, ground arith)
  run-IsOnce (s ∷ ss) w iom possible k =
      let (w1, r1, k1, c1) = step-IsOnce w s ss iom possible.0 k in
      let (w2, r2, k2, c2) = run-IsOnce ss w1 iom (possible.1 w1 r1) k1 in
      (w2, ap (λ o. o >>= λ w'. run epoll th fd event w' ss) r1 ∙ r2, k2, c2 ∙ c1)
