-- ===== src/Scheduler/Lifecycle.antt =====
-- The constructor, start() and stop(), up to the joins: how many threads there are, and what wakes
-- them as the scheduler stops.
use doroutine.Prelude.{
  ℕ, ◌+◌, ◌-◌, ◌^◌, ◌≤◌, ◌<◌, ◌≡◌, Bool, true, false, List, [], ◌∷◌, ℤ, pos, negsuc, if◌then◌else◌,
  sub64, map, arith,
}
use doroutine.Scheduler.{Scheduler, is_stopping, fresh_worker, started}

-- A scheduler with its m_threadPool.size(), m_threadCount, m_rootThreadId and m_threadIds, and
-- whether it has an m_rootDoroutine.
pub record Pool : Type 0 where
  pub scheduler : Scheduler
  pub pool_size : ℕ
  pub thread_count : ℕ
  pub root_thread_id : ℤ
  pub thread_ids : List ℤ
  pub has_root : Bool

-- Scheduler::Scheduler in the thread `tid`; `--threads` is on a size_t.
unfoldable pub new_pool : (threads : ℕ) → Bool → (tid : ℕ) → Pool
unfolding started
new_pool threads use_caller tid = record {
  scheduler = started [];
  pool_size = 0;
  thread_count = if use_caller then sub64 threads 1 else threads;
  root_thread_id = if use_caller then pos tid else negsuc 0;
  thread_ids = if use_caller then pos tid ∷ [] else [];
  has_root = use_caller;
}

-- Scheduler::start, where the operating system gives the threads these ids.
unfoldable pub start : Pool → List ℤ → Pool
start p tids = if p.scheduler.stopping then p else record p {
  pool_size = p.thread_count;
  scheduler = record p.scheduler { workers = map fresh_worker tids };
}

-- Scheduler::stop, up to the resume of the root doroutine and the joins of the threads, which it
-- takes out of the pool.
unfoldable pub stop : Pool → Pool
unfolding is_stopping
stop p = if is_stopping p.scheduler then p else record p {
  pool_size = 0;
  scheduler = record p.scheduler {
    stopping = true;
    tickles = p.scheduler.tickles + p.thread_count + (if p.has_root then 1 else 0);
  };
}

-- With the thread of the caller a scheduler has just the number of threads asked for, if that is a
-- positive size_t, and stop() wakes each of them once; asked for none with useCaller, the number of
-- its threads wraps around, and start() asks for a pool of 2 ^ 64 - 1 threads.
pub new_pool_lem :
    (threads tid : ℕ) (use_caller : Bool) (tids : List ℤ)
    → threads < 2 ^ 64
    → let p = start (new_pool threads use_caller tid) tids in
      (1 ≤ threads
        → (p.pool_size + (if use_caller then 1 else 0) ≡ threads)
          × ((stop p).scheduler.tickles ≡ threads))
      × (threads ≡ 0 → (start (new_pool threads true tid) tids).pool_size ≡ 2 ^ 64 - 1)
unfolding new_pool start stop started
new_pool_lem threads tid true tids h = (λ l. (ground arith, ground arith), λ e. ground arith)
new_pool_lem threads tid false tids h = (λ l. (ground arith, ground arith), λ e. ground arith)
