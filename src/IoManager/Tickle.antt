-- ===== src/IoManager/Tickle.antt =====
-- IOManager::tickle in the place of Scheduler::tickle: a byte in the pipe that wakes epoll_wait.
use doroutine.Prelude.{
  ℕ, suc, ◌+◌, ◌<◌, ◌≡◌, ◌∙◌, refl, ap, true, false, ◌||◌, some, [], ◌∷◌, ◌++◌, get_elem?, ◌==◌,
  if◌then◌else◌, if_true, arith,
}
use doroutine.Scheduler.{
  SchedulerTask, is_some, no_task, in_idle, Worker, Scheduler, schedule, idles, act, Event,
  schedules, stops, worker, is_stopping, step, schedule_no_lock, set_worker,
}
use doroutine.Scheduler.Serving.{get-set_self}

-- The scheduler of a reactor, the bytes that wait in its pipe, and how often stop() calls tickle():
-- m_threadCount, and once more with a root doroutine.
pub record Reactor : Type 0 where
  pub scheduler : Scheduler
  pub pipe : ℕ
  pub stop_tickles : ℕ

-- IOManager::tickle, at a number of idle threads.
abbrev pub io_tickle : ℕ → ℕ → ℕ
io_tickle idle_thread_count pipe = if idle_thread_count == 0 then pipe else suc pipe

-- The bytes that the tickles of a step write; stop() returns at once if the scheduler is stopping.
abbrev pub written : Reactor → Scheduler → Event → ℕ
written r s stops =
    if is_stopping r.scheduler || (s.idle_thread_count == 0)
    then r.pipe
    else r.pipe + r.stop_tickles
written r s e =
    if s.tickles == r.scheduler.tickles then r.pipe else io_tickle s.idle_thread_count r.pipe

-- A step, with the tickles that it calls, if it calls one. Only the handling of a report reads the pipe.
pub io_step : Reactor → Event → Reactor
unfolding step
io_step r e = let s = step r.scheduler e in record r { scheduler = s; pipe = written r s e }

-- The thread resumes its idle doroutine.
idles_in :
    (s : Scheduler) (i : ℕ) (w : Worker)
    → get_elem? s.workers i ≡ some w
    → w.phase ≡ no_task
    → w.idle_term ≡ false
    → step s (worker i idles)
      ≡ set_worker (record s { idle_thread_count = suc s.idle_thread_count }) i w in_idle
unfolding step act
idles_in s i w at ph live = rw (at, step) (rw (ph, act) (rw live refl))

module _ (r : Reactor) (t : SchedulerTask)
    (real : (is_some t.doroutine || is_some t.func) ≡ true) where
  -- The reactor once the task is queued.
  abbrev after : Reactor
  after = io_step r (schedules t)

  queued :
      (after.scheduler.tasks ≡ r.scheduler.tasks ++ t ∷ [])
      × (after.scheduler.workers ≡ r.scheduler.workers)
      × (after.scheduler.idle_thread_count ≡ r.scheduler.idle_thread_count)
  unfolding io_step step schedule schedule_no_lock
  queued = (ground arith, ground arith, ground arith)

  wakes_idle : r.scheduler.tasks ≡ [] → 0 < r.scheduler.idle_thread_count → after.pipe ≡ suc r.pipe
  unfolding io_step step schedule schedule_no_lock
  wakes_idle e h = ground (arith, e)

  no_idle : r.scheduler.idle_thread_count ≡ 0 → after.pipe ≡ r.pipe
  unfolding io_step step schedule schedule_no_lock
  no_idle h = ground arith

  loses :
      (i : ℕ) (w : Worker)
      → get_elem? r.scheduler.workers i ≡ some w
      → w.phase ≡ no_task
      → w.idle_term ≡ false
      → r.scheduler.idle_thread_count ≡ 0
      → let r' = io_step after (worker i idles) in
        (r'.pipe ≡ r.pipe)
        × (r'.scheduler.tasks ≡ r.scheduler.tasks ++ t ∷ [])
        × (get_elem? r'.scheduler.workers i ≡ some (record w { phase = in_idle }))
  unfolding io_step
  loses i w at ph live idle =
      let (tasks, workers, idle') = queued in
      let at' : get_elem? after.scheduler.workers i ≡ some w =
        ap (λ ws. get_elem? ws i) workers ∙ at in
      let e = idles_in after.scheduler i w at' ph live in
      (
        ap
              (λ s.
                if s.tickles == after.scheduler.tickles
                then after.pipe
                else io_tickle s.idle_thread_count after.pipe)
              e
            ∙ if_true {b = after.scheduler.tickles == after.scheduler.tickles} _ _ (ground arith)
            ∙ no_idle idle,
        ap (λ s. s.tasks) e ∙ tasks,
        ap (λ s. get_elem? s.workers i) e
            ∙ get-set_self after.scheduler.workers i w (record w { phase = in_idle }) at',
      )

  -- A task that is queued where the queue was empty writes one byte to the pipe if a thread is idle.
  -- If none is idle it writes none; then a thread of which the scan found no task before resumes its
  -- idle doroutine all the same, so that it waits in epoll with the task in the queue and nothing
  -- more in the pipe.
  pub schedules-wakes :
      (r.scheduler.tasks ≡ []
        → 0 < r.scheduler.idle_thread_count
        → (io_step r (schedules t)).pipe ≡ suc r.pipe)
      × ((i : ℕ) (w : Worker)
          → get_elem? r.scheduler.workers i ≡ some w
          → w.phase ≡ no_task
          → w.idle_term ≡ false
          → r.scheduler.idle_thread_count ≡ 0
          → let r' = io_step (io_step r (schedules t)) (worker i idles) in
            (r'.pipe ≡ r.pipe)
            × (r'.scheduler.tasks ≡ r.scheduler.tasks ++ t ∷ [])
            × (get_elem? r'.scheduler.workers i ≡ some (record w { phase = in_idle })))
  schedules-wakes = (wakes_idle, loses)
