-- ===== src/Scheduler/CallerExamples.antt =====
-- A scheduler in thread 7, with a doroutine and a function bound to that thread.
use doroutine.Prelude.{none, some, List, [], ◌∷◌, pos, negsuc}
use doroutine.Func.{closure}
use doroutine.Scheduler.{SchedulerTask}

abbrev two_tasks : List SchedulerTask
two_tasks =
    record { doroutine = some 3; func = none; thread = negsuc 0 }
    ∷ record { doroutine = none; func = some (closure 4); thread = pos 7 }
    ∷ []
