-- ===== src/IoManager/Examples.antt =====
-- The theorems on IOManager at a concrete epoll.
use doroutine.Prelude.{
  exceeds, ◌^◌, ◌<◌, ◌≤◌, ℕ, suc, ◌≡◌, refl, sym, ap, ◌∙◌, inl, inr, ◌⊎◌, Bool, true, false, not,
  Option, none, some, [], pos, negsuc, ◌==◌, get_elem?, set, if◌then◌else◌, Bool-cases, if_true,
  u64_max, dec_le, dec_lt, arith,
}
use Prim.Native.Nat.{min}
use doroutine.Func.{closure}
use doroutine.Outcome.{done, undefined}
use doroutine.Epoll.{Epoll, Mask, no_events, is_none, Op, add, modify, del, interest_after}
use doroutine.IoManager.{
  read, write, has, FdContext, new_context, Thread, IoManager, new_io_manager, context_resize,
  shrink_op, add_event, del_event, cancel_all,
}
use doroutine.IoManager.Context.{IsValid, put-IsValid, total}
use doroutine.IoManager.Events.{cleared}
use doroutine.IoManager.Growth.{events_at, grown, new_io_manager-IsValid}
use doroutine.IoManager.Addition.{asks, registered, Added, add_event-Returns}
use doroutine.IoManager.Removal.{
  del_event-Returns, cancel_all-Returns, Removed, all_cleared, all_calls,
}
use doroutine.IoManager.Idle.{wait_timeout, max_timeout, left_events, meets, handle_context}
use doroutine.IoManager.Reports.{
  after_report, report_calls, handle_context-Returns, handle_context_stale,
}
use doroutine.IoManager.Stopping.{wait_timeout_lem, add_event_twice}

abbrev pub is_on : Option Mask → Bool
is_on none = false
is_on (some m) = true

-- EEXIST and ENOENT.
abbrev pub allows : Op → Option Mask → Bool
allows add o = not (is_on o)
allows modify o = is_on o
allows del o = is_on o

abbrev pub told : (ℕ → Option Mask) → Op → ℕ → Mask → ℕ → Option Mask
told s op fd m j = if fd == j then interest_after op m else s j

abbrev pub control : (ℕ → Option Mask) → Op → ℕ → Mask → Option (ℕ → Option Mask)
control s op fd m = if allows op (s fd) then some (told s op fd m) else none

abbrev at_fd : Option (ℕ → Option Mask) → ℕ → Option Mask
at_fd none j = none
at_fd (some s) j = s j

pub control_lem :
    (s s' : ℕ → Option Mask) (op : Op) (fd j : ℕ) (m : Mask)
    → control s op fd m ≡ some s'
    → s' j ≡ told s op fd m j
control_lem s s' op fd j m h = elim (Bool-cases (allows op (s fd))) [
  | inl e ↦ ap (λ o. at_fd o j) (sym h ∙ if_true _ _ e)
  | inr e ↦ absurd (ground arith)
]

abbrev pub table : Epoll
table = record {
  State = ℕ → Option Mask;
  interest = λ s fd. s fd;
  ctl = control;
  interest-ctl = control_lem;
}

abbrev pub nothing : ℕ → Option Mask
nothing fd = none

abbrev pub fresh : IoManager table
fresh = new_io_manager table nothing

pub fresh-IsValid : IsValid table fresh
fresh-IsValid = new_io_manager-IsValid table nothing (λ fd. refl)

-- A thread of this manager, in doroutine 6.
abbrev pub inside : Thread
inside = record { scheduler = some 1; is_iom = true; doroutine = some 6 }

abbrev pub reads : Mask
reads = record { read = true; write = false }

abbrev pub waiting : FdContext
waiting = registered inside (new_context 5) read none false

-- The manager with READ of descriptor 5 on.
abbrev pub one_event : IoManager table
one_event = record {
  fd_contexts = set fresh.fd_contexts 5 waiting;
  pending_event_count = 1;
  scheduled = [];
  epfd = told nothing add 5 reads;
}

pub one_event_added : add_event table fresh inside (pos 5) read none false ≡ done (one_event, true)
unfolding add_event context_resize dec_le dec_lt exceeds
one_event_added = refl

fresh_at_five : get_elem? fresh.fd_contexts 5 ≡ some (new_context 5)
unfolding context_resize exceeds
fresh_at_five = refl

pub one_event-IsValid : IsValid table one_event
one_event-IsValid =
    put-IsValid table fresh 5 (new_context 5) fresh-IsValid fresh_at_five add reads
      (told nothing add 5 reads)
      (record { context = waiting; pending_event_count = 1; scheduled = [] }) refl refl
      (record { at_fd = refl; read_wired = refl; write_wired = refl }) refl

pub at_five : get_elem? one_event.fd_contexts 5 ≡ some waiting
unfolding context_resize exceeds
at_five = refl

fresh_off : has (events_at fresh.fd_contexts 5) write ≡ false
unfolding context_resize exceeds
fresh_off = refl

add_event-Returns_example :
    let g = grown table fresh 5 in
    IsValid table g
    × (g.pending_event_count ≡ 0)
    × ((c : FdContext) × (get_elem? g.fd_contexts 5 ≡ some c)
        × (((asks table g 5 write c ≡ none)
              × (add_event table fresh inside (pos 5) write (some (closure 1)) true
                  ≡ done (g, false)))
            ⊎ ((m' : IoManager table) × (asks table g 5 write c ≡ some m'.epfd)
                × (add_event table fresh inside (pos 5) write (some (closure 1)) true
                    ≡ done (m', true))
                × Added table g 5 (registered inside c write (some (closure 1)) true) m')))
add_event-Returns_example =
    add_event-Returns table fresh inside 5 write (some (closure 1)) true fresh-IsValid (omega arith)
      refl fresh_off

del_event-Returns_example :
    (((has waiting.events read ≡ false)
        ⊎ (control one_event.epfd (shrink_op table no_events) 5 no_events ≡ none))
      × (del_event table one_event (pos 5) read ≡ done (one_event, false)))
    ⊎ ((m' : IoManager table) × (has waiting.events read ≡ true)
        × (control one_event.epfd (shrink_op table no_events) 5 no_events ≡ some m'.epfd)
        × (del_event table one_event (pos 5) read ≡ done (m', true))
        × Removed table one_event 5 (cleared waiting read) [] m')
del_event-Returns_example =
    del_event-Returns table one_event 5 waiting one_event-IsValid at_five read

cancel_all-Returns_example :
    (((is_none waiting.events ≡ true) ⊎ (control one_event.epfd del 5 no_events ≡ none))
      × (cancel_all table one_event inside (pos 5) ≡ done (one_event, false)))
    ⊎ ((m' : IoManager table) × (is_none waiting.events ≡ false)
        × (control one_event.epfd del 5 no_events ≡ some m'.epfd)
        × (cancel_all table one_event inside (pos 5) ≡ done (m', true))
        × Removed table one_event 5
            (all_cleared table one_event 5 waiting one_event-IsValid at_five)
            (all_calls table one_event 5 waiting one_event-IsValid at_five)
            m')
cancel_all-Returns_example =
    cancel_all-Returns table one_event 5 waiting one_event-IsValid at_five inside refl

handle_context-Returns_example :
    (((meets waiting.events reads ≡ false) ⊎ (control one_event.epfd del 5 no_events ≡ none))
      × (handle_context table one_event inside 5 waiting reads ≡ done one_event))
    ⊎ ((m' : IoManager table) × (control one_event.epfd del 5 no_events ≡ some m'.epfd)
        × (handle_context table one_event inside 5 waiting reads ≡ done m')
        × IsValid table m'
        × (m'.fd_contexts
            ≡ set one_event.fd_contexts 5
                (after_report table one_event 5 waiting reads one_event-IsValid at_five).context)
        × ((after_report table one_event 5 waiting reads one_event-IsValid at_five).context.events
            ≡ left_events waiting reads)
        × (m'.scheduled ≡ report_calls table one_event 5 waiting reads one_event-IsValid at_five))
handle_context-Returns_example =
    handle_context-Returns table one_event 5 waiting reads one_event-IsValid at_five
      (λ h. refl, λ h. h) inside refl

abbrev writes : Mask
writes = record { read = false; write = true }

abbrev both : Mask
both = record { read = true; write = true }

abbrev sending : FdContext
sending = registered inside (new_context 5) write none false

-- The manager with WRITE of descriptor 5 on.
abbrev one_write : IoManager table
one_write = record {
  fd_contexts = set fresh.fd_contexts 5 sending;
  pending_event_count = 1;
  scheduled = [];
  epfd = told nothing add 5 writes;
}

one_write-IsValid : IsValid table one_write
one_write-IsValid =
    put-IsValid table fresh 5 (new_context 5) fresh-IsValid fresh_at_five add writes
      (told nothing add 5 writes)
      (record { context = sending; pending_event_count = 1; scheduled = [] }) refl refl
      (record { at_fd = refl; read_wired = refl; write_wired = refl }) refl

write_at_five : get_elem? one_write.fd_contexts 5 ≡ some sending
unfolding context_resize exceeds
write_at_five = refl

handle_context_stale_example : handle_context table one_write inside 5 sending both ≡ undefined
handle_context_stale_example =
    handle_context_stale table one_write 5 sending both one_write-IsValid write_at_five inside
      (told one_write.epfd del 5 no_events) refl refl refl refl refl

wait_timeout_lem_example :
    (3000000000 < 2 ^ 31 → wait_timeout 3000000000 ≡ pos (min 3000000000 max_timeout))
    × (wait_timeout u64_max ≡ pos max_timeout)
    × (2 ^ 31 ≤ 3000000000 → (n : ℕ) × (wait_timeout 3000000000 ≡ negsuc n))
wait_timeout_lem_example = wait_timeout_lem 3000000000 (omega arith)

-- READ of descriptor 5 added again.
abbrev two_counted : IoManager table
two_counted = record {
  fd_contexts = set one_event.fd_contexts 5 (registered inside waiting read none false);
  pending_event_count = 2;
  scheduled = [];
  epfd = told one_event.epfd modify 5 reads;
}

added_again : add_event table one_event inside (pos 5) read none false ≡ done (two_counted, true)
unfolding add_event context_resize dec_le dec_lt exceeds
added_again = refl

add_event_twice_example : two_counted.pending_event_count ≡ suc (total two_counted.fd_contexts)
add_event_twice_example =
    add_event_twice table one_event inside 5 read none false waiting two_counted one_event-IsValid
      at_five refl added_again
