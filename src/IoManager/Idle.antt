-- ===== src/IoManager/Idle.antt =====
-- IOManager::idle: the wait, the expired timers and the events that epoll reports; stopping().
use doroutine.Prelude.{
  ℕ, ◌-◌, ◌%◌, ◌^◌, Bool, false, ◌&&◌, ◌||◌, not, Option, none, some, List, [], ◌∷◌, ◌++◌, ℤ, pos,
  negsuc, ltb, ◌==◌, get_elem?, if◌then◌else◌, u64_max,
}
use doroutine.Func.{Func}
use doroutine.Outcome.{Outcome, done, undefined, ◌>>=◌}
use doroutine.Epoll.{Epoll, Mask}
use doroutine.Timer.{TimerManager, get_next_timer, list_expired_func}
use doroutine.IoManager.{
  read, write, FdContext, Scheduled, Thread, IoManager, slot_of, put_slot, shrink_op, trigger_if,
}

-- `(int)n` of a uint64_t.
abbrev pub to_int : ℕ → ℤ
to_int n = let low = n % 2 ^ 32 in if ltb low (2 ^ 31) then pos low else negsuc (2 ^ 32 - 1 - low)

abbrev pub max_timeout : ℕ
max_timeout = 5000

abbrev pub min_int : ℤ → ℕ → ℤ
min_int (pos n) k = if ltb k n then pos k else pos n
min_int (negsuc n) k = negsuc n

-- The timeout that epoll_wait is given.
unfoldable pub wait_timeout : ℕ → ℤ
wait_timeout next_timeout =
    if next_timeout == u64_max then pos max_timeout else min_int (to_int next_timeout) max_timeout

-- What epoll_wait reports: the tickle pipe, or a context with EPOLLIN, EPOLLOUT, EPOLLERR|EPOLLHUP.
pub data Report : Type 0 where
  tickled : Report
  ready : (fd : ℕ) (readable writable failed : Bool) → Report

-- `event.events |= (EPOLLIN | EPOLLOUT) & fdCtx->events` on an error, and realEvents.
abbrev pub real_events : Mask → Bool → Bool → Bool → Mask
real_events events readable writable failed = record {
  read = readable || failed && events.read;
  write = writable || failed && events.write;
}

abbrev pub left_events : FdContext → Mask → Mask
left_events c real = record {
  read = real.read && c.read_context.repeat || c.events.read && not real.read;
  write = real.write && c.write_context.repeat || c.events.write && not real.write;
}

abbrev pub meets : Mask → Mask → Bool
meets a b = a.read && b.read || a.write && b.write

module _ (epoll : Epoll) where
  open epoll use {ctl}

  -- The loop's body for one context.
  unfoldable pub handle_context :
      IoManager epoll → Thread → ℕ → FdContext → Mask → Outcome (IoManager epoll)
  handle_context m th fd c real =
      let left = left_events c real in
      if not (meets c.events real)
      then done m
      else elim (ctl m.epfd (shrink_op epoll left) c.fd left) [
        | none ↦ done m
        | some ep ↦ trigger_if epoll real.read th read false (slot_of epoll m c) >>= λ s.
            trigger_if epoll real.write th write false s >>= λ s'. done (put_slot epoll m fd ep s')
      ]

  unfoldable pub handle_report : IoManager epoll → Thread → Report → Outcome (IoManager epoll)
  unfolding handle_context
  handle_report m th tickled = done m
  handle_report m th (ready fd readable writable failed) = elim (get_elem? m.fd_contexts fd) [
    | none ↦ undefined
    | some c ↦ handle_context m th fd c (real_events c.events readable writable failed)
  ]

  unfoldable pub handle_reports : IoManager epoll → Thread → List Report → Outcome (IoManager epoll)
  unfolding handle_report
  handle_reports m th [] = done m
  handle_reports m th (r ∷ rs) = handle_report m th r >>= λ m'. handle_reports m' th rs

  -- `for(const auto &func : funcs) schedule(func);`, where a null function is not queued.
  unfoldable pub schedule_funcs : ℕ → List (Option Func) → List Scheduled
  schedule_funcs self [] = []
  schedule_funcs self (none ∷ fs) = schedule_funcs self fs
  schedule_funcs self (some f ∷ fs) =
      record { scheduler = self; doroutine = none; func = some f } ∷ schedule_funcs self fs

  -- One round of the loop behind epoll_wait, which gave these reports; the scheduler is `self`.
  unfoldable pub idle_round :
      ℕ
      → IoManager epoll
      → TimerManager
      → Thread
      → (probe now : ℕ) → List Report
      → Outcome (IoManager epoll × TimerManager)
  unfolding schedule_funcs handle_reports
  idle_round self m timers th probe now reports = list_expired_func timers probe now >>= λ r.
      handle_reports (record m { scheduled = m.scheduled ++ schedule_funcs self r.1 }) th reports
      >>= λ m'. done (m', r.0)

  -- IOManager::stopping, from the answer of Scheduler::stopping.
  unfoldable pub io_stopping : IoManager epoll → TimerManager → ℕ → Bool → Bool
  io_stopping m timers now scheduler_stopping =
      get_next_timer timers now == u64_max && m.pending_event_count == 0 && scheduler_stopping
