-- ===== src/IoManager/Removal.antt =====
-- delEvent, cancelEvent and cancelAll on a valid manager.
use doroutine.Prelude.{
  ℕ, ◌≡◌, refl, sym, ap, subst, ◌∙◌, ◌⊎◌, inl, inr, true, false, none, some, List, [], ◌∷◌, ◌++◌,
  pos, get_elem?, set, if◌then◌else◌, Bool-cases, Option-cases, sub64, arith,
}
use mathlib.Core.List.{append-nil, append_assoc}
use doroutine.Outcome.{done}
use doroutine.Epoll.{Epoll, no_events, is_none, del}
use doroutine.IoManager.{
  Event, read, write, has, without_event, reset_context, FdContext, get_event_context, Slot, Thread,
  IoManager, Scheduled, slot_of, put_slot, shrink_op, del_event, cancel_event, cancel_all,
}
use doroutine.IoManager.Context.{IsWired, on_count, IsValid, pending_room, in_range, put-IsValid}
use doroutine.IoManager.Events.{
  cleared, cleared-IsGood, on_count-cleared, call_of, shrink_lem, wired_scheduler, triggered,
  trigger_event-triggered, triggered_if, IsBalanced, triggered_if-IsBalanced, trigger_if-triggered,
  slot_of-IsBalanced,
}

-- The manager after an event was taken off, with these calls of schedule made.
abbrev pub Removed :
    (epoll : Epoll) → IoManager epoll → ℕ → FdContext → List Scheduled → IoManager epoll → Type 0
Removed epoll m fd c calls m' =
    IsValid epoll m'
    × (m'.fd_contexts ≡ set m.fd_contexts fd c)
    × (m'.scheduled ≡ m.scheduled ++ calls)

module _ (epoll : Epoll) (m : IoManager epoll) (fd : ℕ) (c : FdContext) (v : IsValid epoll m)
    (at : get_elem? m.fd_contexts fd ≡ some c) where
  open epoll use {State, ctl}

  -- On a valid manager and a descriptor that has a context, delEvent fails, and changes nothing,
  -- just where the event is not on or epoll_ctl fails. Otherwise it takes the event off without
  -- running its callback, and the manager is valid.
  pub del_event-Returns :
      (event : Event)
      → let left = without_event c.events event in
        let told = ctl m.epfd (shrink_op epoll left) fd left in
        (((has c.events event ≡ false) ⊎ (told ≡ none))
          × (del_event epoll m (pos fd) event ≡ done (m, false)))
        ⊎ ((m' : IoManager epoll) × (has c.events event ≡ true)
            × (told ≡ some m'.epfd)
            × (del_event epoll m (pos fd) event ≡ done (m', true))
            × Removed epoll m fd (cleared c event) [] m')
  unfolding del_event
  del_event-Returns event = elim (Bool-cases (has c.events event)) [
    | inr e ↦ inl (inl e, ground (arith, in_range epoll m fd c v at))
    | inl e ↦
        (let left = without_event c.events event in
          elim (Option-cases (ctl m.epfd (shrink_op epoll left) fd left)) [
            | inl f ↦ inl (inr f, ground (arith, in_range epoll m fd c v at))
            | inr (ep, f) ↦ inr (
              put_slot epoll m fd ep (record {
                context = cleared c event;
                pending_event_count = sub64 m.pending_event_count 1;
                scheduled = m.scheduled;
              }),
              e,
              f,
              ground (arith, in_range epoll m fd c v at),
              (
                put-IsValid epoll m fd c v at (shrink_op epoll left) left ep _ f
                    (shrink_lem epoll left) (cleared-IsGood fd c event (v.good fd c at))
                    (ground (arith, on_count-cleared c event e, pending_room epoll m fd c v at)),
                refl,
                sym (append-nil m.scheduled),
              ),
            )
          ])
  ]

  -- On a valid manager and a descriptor that has a context, cancelEvent by a thread of the manager
  -- fails, and changes nothing, just where the event is not on or epoll_ctl fails. Otherwise it
  -- takes the event off and queues its callback once, and the manager is valid.
  pub cancel_event-Returns :
      (th : Thread) (event : Event)
      → th.is_iom ≡ true
      → let left = without_event c.events event in
        let told = ctl m.epfd (shrink_op epoll left) fd left in
        (((has c.events event ≡ false) ⊎ (told ≡ none))
          × (cancel_event epoll m th (pos fd) event ≡ done (m, false)))
        ⊎ ((m' : IoManager epoll) × (has c.events event ≡ true)
            × (told ≡ some m'.epfd)
            × (cancel_event epoll m th (pos fd) event ≡ done (m', true))
            × Removed epoll m fd
                (cleared c event)
                (call_of (get_event_context c event) (wired_scheduler (get_event_context c event))
                  ∷ [])
                m')
  unfolding cancel_event
  cancel_event-Returns th event iom = elim (Bool-cases (has c.events event)) [
    | inr e ↦ inl (inl e, ground (arith, in_range epoll m fd c v at))
    | inl e ↦
        (let left = without_event c.events event in
          let g = v.good fd c at in
          elim (Option-cases (ctl m.epfd (shrink_op epoll left) fd left)) [
            | inl f ↦ inl (inr f, ground (arith, in_range epoll m fd c v at))
            | inr (ep, f) ↦
                (let run = trigger_event-triggered th (slot_of epoll m c) fd event true g e iom in
                  inr (
                    put_slot epoll m fd ep (triggered (slot_of epoll m c) event true),
                    e,
                    f,
                    ground (arith, run, in_range epoll m fd c v at),
                    (
                      put-IsValid epoll m fd c v at (shrink_op epoll left) left ep _ f
                          (shrink_lem epoll left) (cleared-IsGood fd c event g)
                          (ground
                            (arith, on_count-cleared c event e, pending_room epoll m fd c v at)),
                      refl,
                      refl,
                    ),
                  ))
          ])
  ]

  -- The calls of cancelAll: those of the events that are on, READ first.
  abbrev pub all_calls : List Scheduled
  all_calls =
      (if c.events.read then call_of c.read_context (wired_scheduler c.read_context) ∷ [] else [])
      ++ (if c.events.write
          then call_of c.write_context (wired_scheduler c.write_context) ∷ []
          else [])

  -- The context with every event off.
  abbrev pub all_cleared : FdContext
  all_cleared = record c {
    read_context = reset_context;
    write_context = reset_context;
    events = no_events;
  }

  -- The slot after the trigger of READ, and after that of WRITE.
  abbrev after_read : Slot
  after_read = triggered_if c.events.read (slot_of epoll m c) read true

  abbrev after_write : Slot
  after_write = triggered_if c.events.write after_read write true

  read_off : c.events.read ≡ false → c.read_context ≡ reset_context
  read_off h = subst (λ b. IsWired b c.read_context) h (v.good fd c at).read_wired

  write_off : c.events.write ≡ false → c.write_context ≡ reset_context
  write_off h = subst (λ b. IsWired b c.write_context) h (v.good fd c at).write_wired

  after_write_context : after_write.context ≡ all_cleared
  after_write_context = ground (arith, read_off, write_off)

  after_write_scheduled : after_write.scheduled ≡ m.scheduled ++ all_calls
  after_write_scheduled = elim (Bool-cases c.events.read) [
    | inl e ↦ elim (Bool-cases c.events.write) [
      | inl f ↦ rw (e, f) (append_assoc m.scheduled _ _)
      | inr f ↦ rw (e, f) refl
    ]
    | inr e ↦ elim (Bool-cases c.events.write) [
      | inl f ↦ rw (e, f) refl
      | inr f ↦ rw (e, f) (sym (append-nil m.scheduled))
    ]
  ]

  after_read-IsBalanced : IsBalanced fd m.pending_event_count (on_count c.events) after_read
  after_read-IsBalanced =
      triggered_if-IsBalanced fd _ _ (slot_of epoll m c) read true
        (slot_of-IsBalanced epoll m fd c v at) c.events.read (λ h. h)

  write_kept : after_read.context.events.write ≡ c.events.write
  write_kept = ground arith

  cancel_all_runs :
      (th : Thread) (ep : State)
      → th.is_iom ≡ true
      → is_none c.events ≡ false
      → ctl m.epfd del fd no_events ≡ some ep
      → cancel_all epoll m th (pos fd) ≡ done (put_slot epoll m fd ep after_write, true)
  unfolding cancel_all
  cancel_all_runs th ep iom e f =
      let first =
        trigger_if-triggered fd _ _ (slot_of epoll m c) read true
          (slot_of-IsBalanced epoll m fd c v at) epoll th c.events.read iom (λ h. h) in
      let second =
        trigger_if-triggered fd _ _ after_read write true after_read-IsBalanced epoll th
          c.events.write iom (λ h. write_kept ∙ h) in
      ground (arith, first, second, write_kept, in_range epoll m fd c v at)

  -- On a valid manager and a descriptor that has a context, cancelAll by a thread of the manager
  -- fails, and changes nothing, just where no event is on or epoll_ctl fails. Otherwise it takes
  -- every event off and queues the callback of each that was on once, READ first, and the manager
  -- is valid.
  pub cancel_all-Returns :
      (th : Thread)
      → th.is_iom ≡ true
      → let told = ctl m.epfd del fd no_events in
        (((is_none c.events ≡ true) ⊎ (told ≡ none))
          × (cancel_all epoll m th (pos fd) ≡ done (m, false)))
        ⊎ ((m' : IoManager epoll) × (is_none c.events ≡ false)
            × (told ≡ some m'.epfd)
            × (cancel_all epoll m th (pos fd) ≡ done (m', true))
            × Removed epoll m fd all_cleared all_calls m')
  unfolding cancel_all
  cancel_all-Returns th iom = elim (Bool-cases (is_none c.events)) [
    | inl e ↦ inl (inl e, ground (arith, in_range epoll m fd c v at))
    | inr e ↦ elim (Option-cases (ctl m.epfd del fd no_events)) [
      | inl f ↦ inl (inr f, ground (arith, in_range epoll m fd c v at))
      | inr (ep, f) ↦
          (let balanced =
              triggered_if-IsBalanced fd _ _ after_read write true after_read-IsBalanced
                c.events.write (λ h. write_kept ∙ h) in
            inr (
              put_slot epoll m fd ep after_write,
              e,
              f,
              cancel_all_runs th ep iom e f,
              (
                put-IsValid epoll m fd c v at del no_events ep after_write f
                    (rw after_write_context refl) balanced.good balanced.balance,
                ap (set m.fd_contexts fd) after_write_context,
                after_write_scheduled,
              ),
            ))
    ]
  ]
