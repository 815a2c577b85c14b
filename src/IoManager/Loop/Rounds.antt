-- ===== src/IoManager/Loop/Rounds.antt =====
-- The reports of one epoll_wait, each of another descriptor.
use doroutine.Prelude.{
  ℕ, ◌≡◌, ◌≢◌, refl, sym, ap, ◌∙◌, inl, inr, Option, none, some, List, [], ◌∷◌, ◌++◌, All,
  length-set, get_elem?, get_elem?-set_ne, set, Option-cases,
}
use mathlib.Core.List.{append-nil, append_assoc}
use doroutine.Outcome.{done, ◌>>=◌}
use doroutine.Epoll.{Epoll, Mask, no_events}
use doroutine.IoManager.{FdContext, Thread, IoManager, Scheduled}
use doroutine.IoManager.Context.{IsValid}
use doroutine.IoManager.Idle.{Report, tickled, ready, handle_report, handle_reports}
use doroutine.IoManager.Growth.{events_at}
use doroutine.IoManager.Reported.{calls_from, calls_at, applied, IsCurrentReport, report_taken}

-- The report is not of this descriptor.
abbrev pub IsOther : ℕ → Report → Type 0
IsOther fd tickled = Unit {0}
IsOther fd (ready fd' _ _ _) = fd ≢ fd'

-- epoll_wait reports each descriptor once at most.
abbrev pub AreApart : List Report → Type 0
AreApart [] = Unit {0}
AreApart (tickled ∷ rs) = AreApart rs
AreApart (ready fd _ _ _ ∷ rs) = All (IsOther fd) rs × AreApart rs

abbrev events_of : Option FdContext → Mask
events_of none = no_events
events_of (some c) = c.events

module _ (epoll : Epoll) where
  open epoll use {State}

  -- The calls of the reports, in their order, of those for which epoll_ctl takes the change of the
  -- registration.
  abbrev pub calls_of : State → List FdContext → List Report → List Scheduled
  calls_of ep cs [] = []
  calls_of ep cs (tickled ∷ rs) = calls_of ep cs rs
  calls_of ep cs (ready fd readable writable failed ∷ rs) =
      elim (applied epoll ep (get_elem? cs fd) readable writable failed) [
        | none ↦ calls_of ep cs rs
        | some ep' ↦ calls_at cs (ready fd readable writable failed) ++ calls_of ep' cs rs
      ]

  calls_of_other :
      (cs : List FdContext) (fd : ℕ) (c : FdContext) (rs : List Report) (ep : State)
      → All (IsOther fd) rs
      → calls_of ep (set cs fd c) rs ≡ calls_of ep cs rs
  calls_of_other cs fd c [] ep h = refl
  calls_of_other cs fd c (tickled ∷ rs) ep h = calls_of_other cs fd c rs ep h.1
  calls_of_other cs fd c (ready j readable writable failed ∷ rs) ep h =
      let there = get_elem?-set_ne cs fd j c h.0 in
      elim (Option-cases (applied epoll ep (get_elem? cs j) readable writable failed)) [
        | inl e ↦ rw (calls_of, there, e) (calls_of_other cs fd c rs ep h.1)
        | inr (ep', e) ↦
            rw (calls_of, there, e)
              (ap (λ o. calls_from o readable writable failed ++ calls_of ep' (set cs fd c) rs)
                  there
                ∙ ap (λ l. calls_from (get_elem? cs j) readable writable failed ++ l)
                    (calls_of_other cs fd c rs ep' h.1))
      ]

module _ (epoll : Epoll) (th : Thread) where
  still_current :
      (m m' : IoManager epoll) (fd : ℕ) (c : FdContext) (rs : List Report)
      → m'.fd_contexts ≡ set m.fd_contexts fd c
      → All (IsOther fd) rs
      → All (IsCurrentReport epoll m th) rs
      → All (IsCurrentReport epoll m' th) rs
  still_current m m' fd c [] e h k = tt
  still_current m m' fd c (tickled ∷ rs) e h k = (tt, still_current m m' fd c rs e h.1 k.1)
  still_current m m' fd c (ready j readable writable failed ∷ rs) e h k =
      let same : get_elem? m'.fd_contexts j ≡ get_elem? m.fd_contexts j =
        ap (λ cs. get_elem? cs j) e ∙ get_elem?-set_ne m.fd_contexts fd j c h.0 in
      let events : events_at m'.fd_contexts j ≡ events_at m.fd_contexts j = ap events_of same in
      let (iom, bound, in_read, in_write) = k.0 in
      (
        (
          iom,
          rw e (rw (length-set m.fd_contexts fd c) bound),
          λ h. ap (λ m. m.read) events ∙ in_read h,
          λ h. ap (λ m. m.write) events ∙ in_write h,
        ),
        still_current m m' fd c rs e h.1 k.1,
      )

  -- The calls of schedule do not matter to them.
  pub still_there :
      (m : IoManager epoll) (calls : List Scheduled) (rs : List Report)
      → All (IsCurrentReport epoll m th) rs
      → All (IsCurrentReport epoll (record m { scheduled = calls }) th) rs
  still_there m calls [] k = tt
  still_there m calls (tickled ∷ rs) k = (tt, still_there m calls rs k.1)
  still_there m calls (ready fd readable writable failed ∷ rs) k = (k.0, still_there m calls rs k.1)

  tickle_kept : (m : IoManager epoll) → handle_report epoll m th tickled ≡ done m
  unfolding handle_report
  tickle_kept m = refl

  -- The reports are handled in their order, and each is taken or changes nothing.
  pub reports_taken :
      (rs : List Report) (m : IoManager epoll)
      → IsValid epoll m
      → AreApart rs
      → All (IsCurrentReport epoll m th) rs
      → (m' : IoManager epoll) × (handle_reports epoll m th rs ≡ done m')
        × IsValid epoll m'
        × (m'.scheduled ≡ m.scheduled ++ calls_of epoll m.epfd m.fd_contexts rs)
  unfolding handle_reports
  reports_taken [] m v a k = (m, refl, v, sym (append-nil m.scheduled))
  reports_taken (tickled ∷ rs) m v a k =
      let (m', e, v', more) = reports_taken rs m v a k.1 in
      (m', ap (λ o. o >>= λ m. handle_reports epoll m th rs) (tickle_kept m) ∙ e, v', more)
  reports_taken (ready fd readable writable failed ∷ rs) m v a k =
      let r = ready fd readable writable failed in
      let (m1, e, v1, taken) = report_taken epoll m th fd readable writable failed v k.0 in
      elim taken [
        | inl (same, refused) ↦
            (let (m', e', v', more) = reports_taken rs m v a.1 k.1 in
              (
                m',
                ap (λ o. o >>= λ m. handle_reports epoll m th rs) (e ∙ ap done same) ∙ e',
                v',
                rw (calls_of, refused) more,
              ))
        | inr (c, told, cs, calls) ↦
            (let (m', e', v', more) =
                reports_taken rs m1 v1 a.1 (still_current m m1 fd c rs cs a.0 k.1) in
              let rest : calls_of epoll m1.epfd m1.fd_contexts rs
                  ≡ calls_of epoll m1.epfd m.fd_contexts rs =
                ap (λ l. calls_of epoll m1.epfd l rs) cs
                ∙ calls_of_other epoll m.fd_contexts fd c rs m1.epfd a.0 in
              (
                m',
                ap (λ o. o >>= λ m. handle_reports epoll m th rs) e ∙ e',
                v',
                rw (calls_of, told)
                    (more
                      ∙ ap (λ l. l ++ calls_of epoll m1.epfd m1.fd_contexts rs) calls
                      ∙ append_assoc m.scheduled (calls_at m.fd_contexts r)
                          (calls_of epoll m1.epfd m1.fd_contexts rs)
                      ∙ ap (λ l. m.scheduled ++ (calls_at m.fd_contexts r ++ l)) rest),
              ))
      ]
