-- ===== src/IoManager.antt =====
-- include/iomanager.h and src/iomanager.cpp: the events of descriptors. A context is held by value,
-- as the manager has one for each descriptor and hands none out.
pub mod Idle
pub mod Context
pub mod Events
pub mod Removal
pub mod Growth
pub mod Addition
pub mod Reports
pub mod Stopping
pub mod Reported
pub mod Runs
pub mod Tickle
pub mod Timers
pub mod Loop
pub mod RunExamples
mod LoopExamples
mod TimerExamples
pub mod Examples
use doroutine.Prelude.{
  exceeds, ◌^◌, ℕ, zero, suc, ◌+◌, ◌*◌, ◌/◌, Bool, true, false, ◌&&◌, ◌||◌, not, Option, none, some,
  List, [], ◌∷◌, ◌++◌, ℤ, pos, negsuc, ltb, length, get_elem?, set, if◌then◌else◌, sub64,
}
use doroutine.Func.{Func}
use doroutine.Outcome.{Outcome, done, undefined, ◌>>=◌, ◌>>◌, require}
use doroutine.Epoll.{Epoll, Mask, no_events, is_none, Op, add, modify, del}

pub data Event : Type 0 where
  read write : Event

abbrev pub has : Mask → Event → Bool
has m read = m.read
has m write = m.write

-- events | event, and events & ~event
abbrev pub with_event : Mask → Event → Mask
with_event m read = record m { read = true }
with_event m write = record m { write = true }

abbrev pub without_event : Mask → Event → Mask
without_event m read = record m { read = false }
without_event m write = record m { write = false }

-- FdContext::EventContext
pub record EventContext : Type 0 where
  pub scheduler : Option ℕ
  pub doroutine : Option ℕ
  pub func : Option Func
  pub repeat : Bool

abbrev pub reset_context : EventContext
reset_context = record { scheduler = none; doroutine = none; func = none; repeat = false }

pub record FdContext : Type 0 where
  pub read_context : EventContext
  pub write_context : EventContext
  pub fd : ℕ
  pub events : Mask

abbrev pub new_context : ℕ → FdContext
new_context fd = record {
  read_context = reset_context;
  write_context = reset_context;
  fd = fd;
  events = no_events;
}

-- FdContext::getEventContext, and a write through the reference that it returns.
abbrev pub get_event_context : FdContext → Event → EventContext
get_event_context c read = c.read_context
get_event_context c write = c.write_context

abbrev pub set_event_context : FdContext → Event → EventContext → FdContext
set_event_context c read e = record c { read_context = e }
set_event_context c write e = record c { write_context = e }

-- A call of Scheduler::schedule: on which scheduler, and of what.
pub record Scheduled : Type 0 where
  pub scheduler : ℕ
  pub doroutine : Option ℕ
  pub func : Option Func

-- The thread that calls: Scheduler::GetThis(), whether that is an IOManager (this one), and the
-- running doroutine.
pub record Thread : Type 0 where
  pub scheduler : Option ℕ
  pub is_iom : Bool
  pub doroutine : Option ℕ

-- What an operation on one descriptor reads and writes: its context, the count and the calls of
-- schedule.
pub record Slot : Type 0 where
  pub context : FdContext
  pub pending_event_count : ℕ
  pub scheduled : List Scheduled

abbrev pub has_func : Option Func → Bool
has_func none = false
has_func (some f) = true

-- `ctx.scheduler->schedule(...)`, undefined through a null pointer.
abbrev pub call_schedule : EventContext → Outcome Scheduled
call_schedule e = elim e.scheduler [
  | none ↦ undefined
  | some s ↦ done (record {
    scheduler = s;
    doroutine = if has_func e.func then none else e.doroutine;
    func = e.func;
  })
]

-- FdContext::triggerEvent. The test of `events` at its start only logs.
unfoldable pub trigger_event : Thread → Slot → Event → Bool → Outcome Slot
trigger_event th s event last_trigger =
    let e = get_event_context s.context event in
    call_schedule e >>= λ call.
    let called = record s { scheduled = s.scheduled ++ call ∷ [] } in
    let cleared = record (set_event_context s.context event reset_context) {
      events = without_event s.context.events event;
    } in
    if not e.repeat || last_trigger
    then require th.is_iom
      >> done
          (record called { context = cleared; pending_event_count = sub64 s.pending_event_count 1 })
    else done called

module _ (epoll : Epoll) where
  open epoll use {State, interest, ctl}

  pub record IoManager : Type 0 where
    pub fd_contexts : List FdContext
    pub pending_event_count : ℕ
    pub scheduled : List Scheduled
    pub epfd : State

-- The loop of IOManager::contextResize, which fills the new slots with contexts of their own.
unfoldable pub context_resize : ℕ → ℕ → List FdContext → List FdContext
context_resize zero fd cs = []
context_resize (suc n) fd [] = new_context fd ∷ context_resize n (suc fd) []
context_resize (suc n) fd (c ∷ cs) = c ∷ context_resize n (suc fd) cs

-- IOManager::contextResize, whose int index has to reach the size.
unfoldable pub resized : ℕ → List FdContext → Outcome (List FdContext)
unfolding context_resize
resized n cs = require (ltb n (2 ^ 31)) >> done (context_resize n 0 cs)

module _ (epoll : Epoll) where
  open epoll use {State, interest, ctl}

  -- IOManager::IOManager, which makes 32 contexts; the instance of epoll has the tickle pipe, and no
  -- context.
  abbrev pub new_io_manager : State → IoManager epoll
  new_io_manager ep = record {
    fd_contexts = context_resize 32 0 [];
    pending_event_count = 0;
    scheduled = [];
    epfd = ep;
  }

  abbrev pub slot_of : IoManager epoll → FdContext → Slot
  slot_of m c = record {
    context = c;
    pending_event_count = m.pending_event_count;
    scheduled = m.scheduled;
  }

  -- The manager after an operation on the context of `fd`, with the new state of epoll.
  abbrev pub put_slot : IoManager epoll → ℕ → State → Slot → IoManager epoll
  put_slot m fd ep s = record {
    fd_contexts = set m.fd_contexts fd s.context;
    pending_event_count = s.pending_event_count;
    scheduled = s.scheduled;
    epfd = ep;
  }

  -- What addEvent writes once epoll_ctl has succeeded.
  abbrev pub register : Thread → Slot → Event → Option Func → Bool → Slot
  register th s event func repeat =
      let e = get_event_context s.context event in
      let e' = record e {
        repeat = repeat;
        scheduler = th.scheduler;
        func = if has_func func then func else e.func;
        doroutine = if has_func func then e.doroutine else th.doroutine;
      } in
      record s {
        context = record (set_event_context s.context event e') {
          events = with_event s.context.events event;
        };
        pending_event_count = suc s.pending_event_count;
      }

  pub add_to :
      IoManager epoll → Thread → ℕ → Event → Option Func → Bool → Outcome (IoManager epoll × Bool)
  add_to m th fd event func repeat = elim (get_elem? m.fd_contexts fd) [
    | none ↦ undefined
    | some c ↦
        (let op = if is_none c.events then add else modify in
          elim (ctl m.epfd op fd (with_event c.events event)) [
            | none ↦ done (m, false)
            | some ep ↦ done (put_slot m fd ep (register th (slot_of m c) event func repeat), true)
          ])
  ]

  -- IOManager::addEvent; the Boolean is whether it returns 0. A negative descriptor indexes the vector
  -- out of bounds, or resizes it to a negative number.
  pub add_event :
      IoManager epoll → Thread → ℤ → Event → Option Func → Bool → Outcome (IoManager epoll × Bool)
  unfolding add_to resized
  add_event m th (negsuc n) event func repeat = undefined
  add_event m th (pos fd) event func repeat =
      if exceeds (length m.fd_contexts) (pos fd)
      then add_to m th fd event func repeat
      else resized (fd * 3 / 2) m.fd_contexts >>= λ cs.
          add_to (record m { fd_contexts = cs }) th fd event func repeat

  abbrev pub shrink_op : Mask → Op
  shrink_op left = if is_none left then del else modify

  pub del_from : IoManager epoll → ℕ → Event → FdContext → Outcome (IoManager epoll × Bool)
  del_from m fd event c =
      let left = without_event c.events event in
      if not (has c.events event)
      then done (m, false)
      else elim (ctl m.epfd (shrink_op left) fd left) [
        | none ↦ done (m, false)
        | some ep ↦ done (
          put_slot m fd ep (record {
            context = record (set_event_context c event reset_context) { events = left };
            pending_event_count = sub64 m.pending_event_count 1;
            scheduled = m.scheduled;
          }),
          true,
        )
      ]

  -- `(int)m_fdContexts.size() <= fd` returns false; a descriptor that passes is an index.
  abbrev pub at_context :
      IoManager epoll
      → ℤ
      → (ℕ → FdContext → Outcome (IoManager epoll × Bool))
      → Outcome (IoManager epoll × Bool)
  at_context m (negsuc n) f =
      if exceeds (length m.fd_contexts) (negsuc n) then undefined else done (m, false)
  at_context m (pos fd) f =
      if exceeds (length m.fd_contexts) (pos fd)
      then elim (get_elem? m.fd_contexts fd) [ none ↦ undefined | some c ↦ f fd c ]
      else done (m, false)

  -- IOManager::delEvent
  pub del_event : IoManager epoll → ℤ → Event → Outcome (IoManager epoll × Bool)
  unfolding del_from
  del_event m fd event = at_context m fd (λ n c. del_from m n event c)

  unfoldable pub cancel_from :
      IoManager epoll → Thread → ℕ → Event → FdContext → Outcome (IoManager epoll × Bool)
  cancel_from m th fd event c =
      let left = without_event c.events event in
      if not (has c.events event)
      then done (m, false)
      else elim (ctl m.epfd (shrink_op left) fd left) [
        | none ↦ done (m, false)
        | some ep ↦
            trigger_event th (slot_of m c) event true >>= λ s. done (put_slot m fd ep s, true)
      ]

  -- IOManager::cancelEvent
  unfoldable pub cancel_event :
      IoManager epoll → Thread → ℤ → Event → Outcome (IoManager epoll × Bool)
  unfolding cancel_from
  cancel_event m th fd event = at_context m fd (λ n c. cancel_from m th n event c)

  abbrev pub trigger_if : Bool → Thread → Event → Bool → Slot → Outcome Slot
  trigger_if b th event last s = if b then trigger_event th s event last else done s

  unfoldable pub cancel_all_from :
      IoManager epoll → Thread → ℕ → FdContext → Outcome (IoManager epoll × Bool)
  cancel_all_from m th fd c =
      if is_none c.events then done (m, false) else elim (ctl m.epfd del fd no_events) [
        | none ↦ done (m, false)
        | some ep ↦ trigger_if c.events.read th read true (slot_of m c) >>= λ s.
            trigger_if s.context.events.write th write true s >>= λ s'.
            done (put_slot m fd ep s', true)
      ]

  -- IOManager::cancelAll
  unfoldable pub cancel_all : IoManager epoll → Thread → ℤ → Outcome (IoManager epoll × Bool)
  unfolding cancel_all_from
  cancel_all m th fd = at_context m fd (λ n c. cancel_all_from m th n c)
