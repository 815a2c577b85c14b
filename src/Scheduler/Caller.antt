-- ===== src/Scheduler/Caller.antt =====
-- stop() of a scheduler that uses the thread of its caller: the root doroutine is resumed in it, and
-- runs run() there.
use doroutine.Prelude.{ℕ, ◌+◌, ◌≡◌, true, ◌||◌, List, [], ◌∷◌, ◌++◌, length, if◌then◌else◌}
use doroutine.Doroutine.{State}
use doroutine.Scheduler.{SchedulerTask, is_some, Scheduler, schedule, is_stopping, fresh_worker}
use doroutine.Scheduler.Serving.{serve}
use doroutine.Scheduler.Lifecycle.{Pool, stop}

-- The tasks that a program schedules, one behind the other.
pub schedule_all : Scheduler → List SchedulerTask → Scheduler
schedule_all s [] = s
schedule_all s (t ∷ ts) = schedule_all (schedule s t) ts

module _ (ends : SchedulerTask → State) where
  -- `m_rootDoroutine->resume()`: run() in the thread of the caller, while the threads of the pool are
  -- delayed.
  pub resume_root : ℕ → Pool → Pool
  resume_root fuel p =
      if p.has_root
      then record p {
        scheduler = serve ends (length p.scheduler.workers) fuel (record p.scheduler {
          workers = p.scheduler.workers ++ fresh_worker p.root_thread_id ∷ [];
        });
      }
      else p

  -- Scheduler::stop, where no thread of the pool is left to be joined.
  pub stop_all : ℕ → Pool → Pool
  unfolding resume_root is_stopping
  stop_all fuel p = if is_stopping p.scheduler then p else resume_root fuel (stop p)

-- What scheduling leaves of a scheduler, besides the queue.
record Queues (s s' : Scheduler) : Type 0 where
  pub active : s'.active_thread_count ≡ s.active_thread_count
  pub states : s'.states ≡ s.states
  pub workers : s'.workers ≡ s.workers
  pub stopping : s'.stopping ≡ s.stopping
  pub finished : s'.finished ≡ s.finished

abbrev IsTask : SchedulerTask → Type 0
IsTask t = (is_some t.doroutine || is_some t.func) ≡ true

-- The pool behind the tickles of stop(), and the scheduler as run() then finds it in the thread of the
-- caller.
abbrev stopped : Pool → Pool
stopped p = record p {
  pool_size = 0;
  scheduler = record p.scheduler {
    stopping = true;
    tickles = p.scheduler.tickles + p.thread_count + (if p.has_root then 1 else 0);
  };
}

abbrev entered : Pool → Scheduler
entered p = record p.scheduler { workers = fresh_worker p.root_thread_id ∷ [] }
