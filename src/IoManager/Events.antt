-- ===== src/IoManager/Events.antt =====
-- delEvent, cancelEvent and cancelAll on a valid manager.
use doroutine.Prelude.{
  ℕ, suc, ◌+◌, ◌^◌, ◌≤◌, ◌<◌, ◌≡◌, refl, subst, inl, inr, Bool, true, false, ◌&&◌, not, none, some,
  [], ◌∷◌, ◌++◌, get_elem?, if◌then◌else◌, Bool-cases, sub64, arith,
}
use doroutine.Outcome.{done}
use doroutine.Epoll.{Epoll, Mask, interest_after}
use doroutine.IoManager.{
  Event, read, write, has, without_event, EventContext, reset_context, FdContext, get_event_context,
  set_event_context, Slot, Thread, IoManager, Scheduled, has_func, call_schedule, trigger_event,
  trigger_if, slot_of, shrink_op,
}
use doroutine.IoManager.Context.{is_some, IsWired, IsGood, on_count, watched, IsValid, pending_room}

-- The context once an event is taken off.
abbrev pub cleared : FdContext → Event → FdContext
cleared c event = record (set_event_context c event reset_context) {
  events = without_event c.events event;
}

pub cleared-IsGood :
    (fd : ℕ) (c : FdContext) (event : Event) → IsGood fd c → IsGood fd (cleared c event)
cleared-IsGood fd c read g = record {
  at_fd = g.at_fd;
  read_wired = refl;
  write_wired = g.write_wired;
}
cleared-IsGood fd c write g = record {
  at_fd = g.at_fd;
  read_wired = g.read_wired;
  write_wired = refl;
}

pub on_count-cleared :
    (c : FdContext) (event : Event)
    → has c.events event ≡ true
    → suc (on_count (cleared c event).events) ≡ on_count c.events
on_count-cleared c read h = ground arith
on_count-cleared c write h = ground arith

-- The schedule call that an event with this context makes.
abbrev pub call_of : EventContext → ℕ → Scheduled
call_of e sched = record {
  scheduler = sched;
  doroutine = if has_func e.func then none else e.doroutine;
  func = e.func;
}

pub shrink_lem :
    (epoll : Epoll) (left : Mask) → interest_after (shrink_op epoll left) left ≡ watched left
shrink_lem epoll left = ground arith

-- The scheduler of an event that is on.
abbrev pub wired_scheduler : EventContext → ℕ
wired_scheduler e = elim e.scheduler [ none ↦ 0 | some s ↦ s ]

wired_call :
    (e : EventContext)
    → is_some e.scheduler ≡ true
    → call_schedule e ≡ done (call_of e (wired_scheduler e))
wired_call e h = ground arith

event_wired :
    (fd : ℕ) (c : FdContext) (event : Event)
    → IsGood fd c
    → has c.events event ≡ true
    → is_some (get_event_context c event).scheduler ≡ true
event_wired fd c read g h = subst (λ b. IsWired b c.read_context) h g.read_wired
event_wired fd c write g h = subst (λ b. IsWired b c.write_context) h g.write_wired

-- The slot after triggerEvent of an event that is on.
abbrev pub triggered : Slot → Event → Bool → Slot
triggered s event last =
    let e = get_event_context s.context event in
    let stays = not last && e.repeat in
    record {
      context = if stays then s.context else cleared s.context event;
      pending_event_count = if stays then s.pending_event_count else sub64 s.pending_event_count 1;
      scheduled = s.scheduled ++ call_of e (wired_scheduler e) ∷ [];
    }

-- triggerEvent queues the callback of the event, or its doroutine, once; unless the event repeats
-- and this is not its last time, it is then taken off and counted down.
pub trigger_event-triggered :
    (th : Thread) (s : Slot) (fd : ℕ) (event : Event) (last : Bool)
    → IsGood fd s.context
    → has s.context.events event ≡ true
    → th.is_iom ≡ true
    → trigger_event th s event last ≡ done (triggered s event last)
unfolding trigger_event
trigger_event-triggered th s fd event true g h t =
    rw (wired_call (get_event_context s.context event) (event_wired fd s.context event g h))
      (ground arith)
trigger_event-triggered th s fd event false g h t =
    rw (wired_call (get_event_context s.context event) (event_wired fd s.context event g h))
      (ground arith)

-- trigger_event behind a test.
abbrev pub triggered_if : Bool → Slot → Event → Bool → Slot
triggered_if b s event last = if b then triggered s event last else s

-- A slot whose context is good, and whose count stands `p` at `n` events on.
pub record IsBalanced (fd p n : ℕ) (s : Slot) : Type 0 where
  pub good : IsGood fd s.context
  pub balance : s.pending_event_count + n ≡ p + on_count s.context.events
  pub room : on_count s.context.events ≤ s.pending_event_count
  pub small : s.pending_event_count < 2 ^ 64

module _ (fd p n : ℕ) (s : Slot) (event : Event) (last : Bool) (k : IsBalanced fd p n s) where
  taken_off :
      has s.context.events event ≡ true
      → IsBalanced fd p n (record {
        context = cleared s.context event;
        pending_event_count = sub64 s.pending_event_count 1;
        scheduled = (triggered s event last).scheduled;
      })
  taken_off h = record {
    good = cleared-IsGood fd s.context event k.good;
    balance = ground (arith, on_count-cleared s.context event h, k.balance, k.room, k.small);
    room = ground (arith, on_count-cleared s.context event h, k.room, k.small);
    small = ground (arith, k.small);
  }

  triggered-IsBalanced :
      has s.context.events event ≡ true → IsBalanced fd p n (triggered s event last)
  triggered-IsBalanced h =
      elim (Bool-cases (not last && (get_event_context s.context event).repeat)) [
        | inl e ↦
            rw e (record { good = k.good; balance = k.balance; room = k.room; small = k.small })
        | inr e ↦ rw e (taken_off h)
      ]

  -- A test that implies that the event is on.
  pub triggered_if-IsBalanced :
      (b : Bool)
      → (b ≡ true → has s.context.events event ≡ true)
      → IsBalanced fd p n (triggered_if b s event last)
  triggered_if-IsBalanced true h = triggered-IsBalanced (h refl)
  triggered_if-IsBalanced false h = k

  pub trigger_if-triggered :
      (epoll : Epoll) (th : Thread) (b : Bool)
      → th.is_iom ≡ true
      → (b ≡ true → has s.context.events event ≡ true)
      → trigger_if epoll b th event last s ≡ done (triggered_if b s event last)
  trigger_if-triggered epoll th true iom h =
      trigger_event-triggered th s fd event last k.good (h refl) iom
  trigger_if-triggered epoll th false iom h = refl

-- The slot of a valid manager is balanced.
pub slot_of-IsBalanced :
    (epoll : Epoll) (m : IoManager epoll) (fd : ℕ) (c : FdContext)
    → IsValid epoll m
    → get_elem? m.fd_contexts fd ≡ some c
    → IsBalanced fd m.pending_event_count (on_count c.events) (slot_of epoll m c)
slot_of-IsBalanced epoll m fd c v at =
    let (small, room) = pending_room epoll m fd c v at in
    record { good = v.good fd c at; balance = refl; room = room; small = small }
