-- ===== src/IoManager/Addition.antt =====
-- addEvent on a valid manager.
use doroutine.Prelude.{
  ◌*◌, ◌/◌, exceeds_lem, lt→ltb, length, ℕ, suc, ltb, ◌^◌, ◌<◌, ◌≡◌, refl, sym, ap, ◌∙◌, ◌⊎◌, inl,
  inr, Bool, true, false, Option, none, some, pos, length, get_elem?, set, if◌then◌else◌,
  Bool-cases, Option-cases, arith,
}
use doroutine.Func.{Func}
use doroutine.Outcome.{done}
use doroutine.Epoll.{Epoll, Mask, is_none, add, modify, interest_after}
use doroutine.IoManager.{
  resized, Event, read, write, has, with_event, FdContext, get_event_context, set_event_context,
  Thread, IoManager, has_func, slot_of, register, put_slot, register, add_to, add_event,
}
use doroutine.IoManager.Context.{is_some, IsGood, on_count, watched, IsValid, put-IsValid}
use doroutine.IoManager.Growth.{on_of, grown, grown-IsValid, events_at, grown_events}

-- The context once an event is registered by a thread: with the callback, or else with the running
-- doroutine.
abbrev pub registered : Thread → FdContext → Event → Option Func → Bool → FdContext
registered th c event func repeat =
    let e = get_event_context c event in
    record (set_event_context c event (record e {
      repeat = repeat;
      scheduler = th.scheduler;
      func = if has_func func then func else e.func;
      doroutine = if has_func func then e.doroutine else th.doroutine;
    })) { events = with_event c.events event }

registered-IsGood :
    (th : Thread) (fd : ℕ) (c : FdContext) (event : Event) (func : Option Func) (repeat : Bool)
    → IsGood fd c
    → is_some th.scheduler ≡ true
    → IsGood fd (registered th c event func repeat)
registered-IsGood th fd c read func repeat g h = record {
  at_fd = g.at_fd;
  read_wired = h;
  write_wired = g.write_wired;
}
registered-IsGood th fd c write func repeat g h = record {
  at_fd = g.at_fd;
  read_wired = g.read_wired;
  write_wired = h;
}

on_count-with_event :
    (m : Mask) (event : Event)
    → has m event ≡ false
    → on_count (with_event m event) ≡ suc (on_count m)
on_count-with_event m read h = ground arith
on_count-with_event m write h = ground arith

grow_op :
    (m : Mask) (event : Event)
    → interest_after (if is_none m then add else modify) (with_event m event)
      ≡ watched (with_event m event)
grow_op m read = ground arith
grow_op m write = ground arith

-- The answer of the epoll_ctl that addEvent asks to watch the event as well.
abbrev pub asks :
    (epoll : Epoll) → IoManager epoll → ℕ → Event → FdContext → Option (Epoll.State epoll)
asks epoll g fd event c =
    Epoll.ctl epoll g.epfd (if is_none c.events then add else modify) fd (with_event c.events event)

-- The manager once the event is registered, which is what addEvent leaves when it returns 0.
abbrev pub Added : (epoll : Epoll) → IoManager epoll → ℕ → FdContext → IoManager epoll → Type 0
Added epoll g fd c m' =
    IsValid epoll m'
    × (m'.fd_contexts ≡ set g.fd_contexts fd c)
    × (m'.pending_event_count ≡ suc g.pending_event_count)
    × (m'.scheduled ≡ g.scheduled)

module _ (epoll : Epoll) (g : IoManager epoll) (th : Thread) (fd : ℕ) (event : Event)
    (func : Option Func) (repeat : Bool) (c : FdContext) (at : get_elem? g.fd_contexts fd ≡ some c)
    (v : IsValid epoll g) (sched : is_some th.scheduler ≡ true)
    (off : has c.events event ≡ false) where
  open epoll use {ctl}

  add_to-Returns :
      ((asks epoll g fd event c ≡ none)
        × (add_to epoll g th fd event func repeat ≡ done (g, false)))
      ⊎ ((m' : IoManager epoll) × (asks epoll g fd event c ≡ some m'.epfd)
          × (add_to epoll g th fd event func repeat ≡ done (m', true))
          × Added epoll g fd (registered th c event func repeat) m')
  unfolding add_to
  add_to-Returns =
      let op = if is_none c.events then add else modify in
      let on = with_event c.events event in
      elim (Option-cases (ctl g.epfd op fd on)) [
        | inl f ↦ inl (f, ground arith)
        | inr (ep, f) ↦ inr (
          put_slot epoll g fd ep (register epoll th (slot_of epoll g c) event func repeat),
          f,
          ground arith,
          (
            put-IsValid epoll g fd c v at op on ep _ f (grow_op c.events event)
                (registered-IsGood th fd c event func repeat (v.good fd c at) sched)
                (ground (arith, on_count-with_event c.events event off)),
            refl,
            refl,
            refl,
          ),
        )
      ]

add_event-add_to :
    (epoll : Epoll) (m : IoManager epoll) (th : Thread) (fd : ℕ) (event : Event)
    (func : Option Func) (repeat : Bool)
    → length m.fd_contexts < 2 ^ 31
    → fd * 3 / 2 < 2 ^ 31
    → add_event epoll m th (pos fd) event func repeat
      ≡ add_to epoll (grown epoll m fd) th fd event func repeat
unfolding add_event resized
add_event-add_to epoll m th fd event func repeat small fits =
    let same = exceeds_lem (length m.fd_contexts) fd small in
    elim (Bool-cases (ltb fd (length m.fd_contexts))) [
      | inl e ↦ rw (same, e) refl
      | inr e ↦ rw (same, e, lt→ltb (fd * 3 / 2) (2 ^ 31) fits) refl
    ]

-- addEvent, on a valid manager, of an event that is not on and a descriptor of which 1.5 times is
-- below 2 ^ 31, by a thread that has a scheduler. The vector is grown to hold the descriptor, and stays valid. Just
-- where epoll_ctl fails addEvent fails and registers nothing; else the event is on, with its
-- callback or else the running doroutine, it is counted once, and the manager is valid.
pub add_event-Returns :
    (epoll : Epoll) (m : IoManager epoll) (th : Thread) (fd : ℕ) (event : Event)
    (func : Option Func) (repeat : Bool)
    → IsValid epoll m
    → fd * 3 / 2 < 2 ^ 31
    → is_some th.scheduler ≡ true
    → has (events_at m.fd_contexts fd) event ≡ false
    → let g = grown epoll m fd in
      IsValid epoll g
      × (g.pending_event_count ≡ m.pending_event_count)
      × ((c : FdContext) × (get_elem? g.fd_contexts fd ≡ some c)
          × (((asks epoll g fd event c ≡ none)
                × (add_event epoll m th (pos fd) event func repeat ≡ done (g, false)))
              ⊎ ((m' : IoManager epoll) × (asks epoll g fd event c ≡ some m'.epfd)
                  × (add_event epoll m th (pos fd) event func repeat ≡ done (m', true))
                  × Added epoll g fd (registered th c event func repeat) m')))
add_event-Returns epoll m th fd event func repeat v h sched off =
    let (vg, found) = grown-IsValid epoll m fd v h in
    let (c, at) = found in
    let off' : has c.events event ≡ false =
      ap (λ m. has m event) (sym (ap on_of at) ∙ grown_events epoll m fd fd v) ∙ off in
    let same = add_event-add_to epoll m th fd event func repeat v.size_max h in
    (
      vg,
      ground arith,
      (
        c,
        at,
        (elim (add_to-Returns epoll (grown epoll m fd) th fd event func repeat c at vg sched off') [
          | inl (f, e) ↦ inl (f, same ∙ e)
          | inr (m', f, e, a) ↦ inr (m', f, same ∙ e, a)
        ]),
      ),
    )
