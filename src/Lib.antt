-- ===== src/Lib.antt =====
-- Doroutine: a library of stackful coroutines ("doroutines") with a scheduler of worker threads, an
-- epoll reactor, timers, hooked system calls and a logger.
--
-- The parts and how they meet. Scheduler (include/scheduler.h, src/scheduler.cpp) keeps a list of
-- tasks, each a doroutine or a function, that its threads take and resume. IOManager
-- (include/iomanager.h, src/iomanager.cpp) is a Scheduler and a TimerManager: its idle doroutine waits
-- in epoll, queues the functions of the timers that expired and those of the descriptors that are
-- ready. TimerManager (include/timer.h, src/timer.cpp) keeps the timers in the order of the time they
-- are due. FdManager (include/fdManager.h, src/fdManager.cpp) remembers of each descriptor whether it
-- is a socket, its blocking mode and its timeouts; the hooked system calls (include/hook.h,
-- src/hook.cpp) go by that, and wait in the IOManager where the original call would block. A doroutine
-- (include/doroutine.h, src/doroutine.cpp) switches to its thread's main one and back. The logger
-- (include/log.h, src/log.cpp) formats events by a pattern and hands them to its appenders.
--
-- The files.
--   Prelude     tests, lists, 64-bit words, integers and sizes as ints, for all others
--   Outcome     how a call ends: with a value, in undefined behaviour, or with a std::system_error
--   Func        std::function<void()> as the code makes and compares it
--   Lock        ScopedLockImpl of include/mutex.h, by the calls that it makes on its lock
--   Util        src/util.cpp: Names is on the name of a thread, Clock on the milliseconds
--   Kernel      fstat and fcntl, as an interface
--   Epoll       epoll_ctl, as an interface
--   Doroutine   the doroutines of one thread: `resume`, `yield_at`, `reset` are resume, yield, reset,
--               `finish` the end of WorkFunc. A saved context is a stack and the place where it goes on.
--     Machine, Swaps          asymmetric coroutines; what a switch leaves of the invariant
--     Coroutines, Nested      any list of calls; a doroutine that resumes another one
--   Timer       Timer and TimerManager: `add_timer_locked` is TimerManager::addTimer(timer, lck),
--               `list_expired_func` listExpiredFunc, `cancel`, `refresh`, `reset` those of Timer. The
--               std::set is the list of the timers' addresses in the order of the comparator, and the
--               lock is a Boolean that each unlock asks for.
--     Order, Set, Invariant   the comparator, the list as a set, the invariant
--     Calls, Queries          what each operation does
--     Range, Expiry, Expired  the timers that listExpiredFunc takes, and what it makes of them
--     Runs, Tickle            what holds after any sequence of calls
--     Race                    a call of another thread while listExpiredFunc has let its lock go
--     Front                   a timer that is due before all others
--   Fd          FdCtx and FdManager: `get` and `del_fd` are get and delFd
--     Init, Write             FdCtx::init; writes through the pointer that get gives
--     Table, Removal, Runs    get; delFd; any calls from the constructor on
--   Scheduler   `schedule`, and `act`, the pieces of run() between two points at which another thread
--               can act
--     Queue                   the scan of the task list
--     Counting, Invariant     the counters and the tasks
--     Lifecycle               the constructor, start() and stop()
--     Serving, Draining       run() of one thread alone, until it leaves
--     Caller, Joins           stop() with the run() of the root doroutine; its joins
--     Exclusion               which threads hold a task of a doroutine (Runs, Race)
--   IoManager   `add_event`, `del_event`, `cancel_event`, `cancel_all`, `trigger_event` are the
--               functions of those names; Idle is stopping() and one round of idle()
--               behind its epoll_wait, Loop a turn of idle(), from where it is resumed to its
--               yield or its end
--     Context, Events         the invariant, and triggerEvent under it
--     Growth                  contextResize
--     Addition, Removal       addEvent; delEvent, cancelEvent and cancelAll
--     Reports, Stopping       the events that epoll reports; when the manager may stop
--     Reported                a report of events that are on
--     Loop                    Waits on the retries of epoll_wait, Rounds on the reports of one wait,
--                             Turns on the timers and the reports together
--     Runs, Tickle            any calls and reports, from the constructor on; the tickle pipe
--     Timers                  addTimer, with onTimerInsertedAtFront
--   Hook        `do_io` is do_io, its loops a recursion on the answers of the calls; `fcntl_setfl`,
--               `fcntl_getfl` and `setsockopt_timeout` the branches of fcntl and setsockopt of those
--               names (include/hook.h, src/hook.cpp)
--     Retry, Calls            do_io, and the calls that go through it
--     Flags, Sleep            the modes and the timeouts; the sleeps, with Wake on how they end
--     Commands, Options       all commands of fcntl; setsockopt, and hookInit
--     Waiting                 what can happen between the addEvent of do_io and its resume: Parked on
--                             the context of the event, Once and Wakes on any steps
--     Locals                  the thread-local variables, which schedulers write and sleep reads; Stays
--     Sockets, Connect, Close socket, accept and ioctl; connect; close
--   Log         Level (LogLevel), Event (LogEvent), Formatter (LogFormatter and its items), with
--               Formatter/Parse and Formatter/RoundTrip on the parse of a pattern; Stream is
--               std::ofstream as an interface
--     Appender                StdoutLogAppender and FileLogAppender, `reopen` and `file_log` those of
--                             the latter; Reopen is on its openings
--     Logger, Manager         Logger with SYLAR_LOG_LEVEL, and LoggerManager; Writes and Names have the
--                             theorems (the two helpers of include/forTest.h are in Logger)
-- The modules whose names end in Examples hold the theorems at concrete inputs.
--
-- Numbers and bounds. uint64_t values are natural numbers with their wrap-around written out
-- (add64, sub64). The vectors of the reactor and of FdManager are compared as ints: Prelude/Sizes
-- has that test, and descriptors are bounded so that 1.5 times fits an int; the reactor's has 32
-- contexts at least. The loop of run() is a recursion on fuel in Scheduler/Serving: four actions
-- for each task and five more are enough. The printing of a number runs on fuel as well: it has at
-- most as many digits as its value plus one.
--
-- Threads. In Scheduler the threads interleave: a run is a list of events, each the next piece of
-- some thread; a yield is two of them, the new state and the switch back. A call of TimerManager,
-- FdManager or IOManager is one step of the model, and calls of one manager do not overlap. In the
-- program listExpiredFunc gives its lock up at the first repeating timer, and FdManager::get lets
-- its lock go between its test and its creation; what another thread does there is left out but
-- for Timer/Race.
--
-- Not modelled: the C library, the kernel and the clock (their answers are arguments), the destructor
-- of IOManager, the pthread spin lock behind spin_mutex, and the tests and benchmarks.
pub mod Prelude
pub mod Func
pub mod Lock
pub mod Util
pub mod Outcome
pub mod Doroutine
pub mod Kernel
pub mod Timer
pub mod Fd
pub mod Log
pub mod Scheduler
pub mod Epoll
pub mod IoManager
pub mod Hook
