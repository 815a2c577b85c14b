-- ===== src/IoManager/RunExamples.antt =====
-- A manager in which READ of descriptor 5 was added, and is reported; a task for a thread that has
-- found none.
use doroutine.Prelude.{
  pos, suc, ◌<◌, [], ◌∷◌, ◌++◌, some, negsuc, get_elem?, ℕ, ◌≡◌, refl, ap, true, false, none, arith,
}
use doroutine.Doroutine.{ready as is_ready}
use doroutine.Scheduler.{SchedulerTask, Worker, no_task, in_idle, idles, schedules, worker}
use doroutine.IoManager.Tickle.{Reactor, io_step, schedules-wakes}
use doroutine.Outcome.{done, ◌>>=◌}
use doroutine.Epoll.{Epoll}
use doroutine.IoManager.{read, IoManager, context_resize}
use doroutine.IoManager.Context.{total, watched_at}
use doroutine.IoManager.Idle.{ready}
use doroutine.IoManager.Examples.{table, nothing, fresh, inside, one_event, one_event_added}
use doroutine.IoManager.Runs.{adds, handles, perform, Reach, at_start, after_call, perform-returns}

first_runs : perform table fresh (adds inside 5 read none false) ≡ done one_event
unfolding perform
first_runs = ap (λ o. o >>= λ r. done r.0) one_event_added

one_event-Reach : Reach table fresh one_event
unfolding context_resize
one_event-Reach =
    after_call (adds inside 5 read none false) at_start (omega arith, refl, refl) first_runs

perform-returns_example :
    (one_event.pending_event_count ≡ total one_event.fd_contexts)
    × ((fd : ℕ) → Epoll.interest table one_event.epfd fd ≡ watched_at one_event.fd_contexts fd)
    × ((m' : IoManager table) × (perform table one_event (handles inside (ready 5 true false false))
          ≡ done m'))
unfolding context_resize
perform-returns_example =
    perform-returns table nothing one_event (handles inside (ready 5 true false false)) (λ fd. refl)
      one_event-Reach (refl, omega arith, λ h. refl, λ h. h)

-- A reactor of one thread, which has just found no task.
abbrev pub one_thread : Reactor
one_thread = record {
  scheduler = record {
    tasks = [];
    active_thread_count = 0;
    idle_thread_count = 0;
    stopping = false;
    workers = record { tid = pos 1; phase = no_task; idle_term = false } ∷ [];
    states = λ d. is_ready;
    tickles = 0;
    queued = [];
    finished = [];
  };
  pipe = 0;
  stop_tickles = 1;
}

abbrev a_task : SchedulerTask
a_task = record { doroutine = some 7; func = none; thread = negsuc 0 }

schedules-wakes_example :
    (one_thread.scheduler.tasks ≡ []
      → 0 < one_thread.scheduler.idle_thread_count
      → (io_step one_thread (schedules a_task)).pipe ≡ suc one_thread.pipe)
    × ((i : ℕ) (w : Worker)
        → get_elem? one_thread.scheduler.workers i ≡ some w
        → w.phase ≡ no_task
        → w.idle_term ≡ false
        → one_thread.scheduler.idle_thread_count ≡ 0
        → let r' = io_step (io_step one_thread (schedules a_task)) (worker i idles) in
          (r'.pipe ≡ one_thread.pipe)
          × (r'.scheduler.tasks ≡ one_thread.scheduler.tasks ++ a_task ∷ [])
          × (get_elem? r'.scheduler.workers i ≡ some (record w { phase = in_idle })))
schedules-wakes_example = schedules-wakes one_thread a_task refl
