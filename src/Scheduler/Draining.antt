-- ===== src/Scheduler/Draining.antt =====
-- Once stop() was called: how a thread empties the queue and leaves run().
use doroutine.Prelude.{List}
use doroutine.Scheduler.{Scheduler}
