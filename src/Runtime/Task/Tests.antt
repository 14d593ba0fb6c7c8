-- ===== src/Runtime/Task/Tests.antt =====
-- A concrete run of the task system of core/src/task.c, and the theorems at it.
use mathlib.Core.List.{Perm}
use functional_c.Prelude.{ℕ, ◌+◌, ◌≡◌, refl, List, [], ◌∷◌, ◌++◌, ◌==◌, if◌then◌else◌, arith}
use functional_c.Runtime.Task.{
  TimedTask, TaskSystem, insert_task_locked, insert_task_in, start_task_system, worker_round,
}
use functional_c.Runtime.Task.Queue.{
  IsOrdered, due_at, due_at-insert_task_locked, insert_task_locked-IsOrdered,
}
use functional_c.Runtime.Task.Accounts.{inserted, freed, Reach-Perm}
use functional_c.Runtime.Task.Worker.{
  Reach, here, next, insert, tick, work, RunInOrder, Reach-RunInOrder, AllDue,
}

abbrev task_at : ℕ → ℕ → TimedTask
task_at t name = record { time_ms = t; ctx = name; action = 0 }

abbrev queue : List TimedTask
queue = task_at 3 1 ∷ task_at 5 2 ∷ task_at 5 3 ∷ task_at 9 4 ∷ []

queue-IsOrdered : IsOrdered queue
queue-IsOrdered = (
  (omega arith, (omega arith, (omega arith, tt))),
  ((omega arith, (omega arith, tt)), ((omega arith, tt), (tt, tt))),
)

insert_task_locked-IsOrdered_example : IsOrdered (insert_task_locked (task_at 5 7) queue).0
insert_task_locked-IsOrdered_example =
    insert_task_locked-IsOrdered (task_at 5 7) queue queue-IsOrdered

due_at-insert_task_locked_example :
    due_at 5 (insert_task_locked (task_at 5 7) queue).0
    ≡ (if 5 == 5 then due_at 5 queue ++ (task_at 5 7 ∷ []) else due_at 5 queue)
due_at-insert_task_locked_example = due_at-insert_task_locked 5 (task_at 5 7) queue queue-IsOrdered

-- The new task stands behind those that are due at its time.
behind_equals :
    (insert_task_locked (task_at 5 7) queue).0
    ≡ task_at 3 1 ∷ task_at 5 2 ∷ task_at 5 3 ∷ task_at 5 7 ∷ task_at 9 4 ∷ []
unfolding insert_task_locked
behind_equals = refl

-- The second task is inserted at 5 ms, with the clock read at 1 ms: it is due before one that ran.
abbrev first_in : TaskSystem
first_in = insert_task_in 0 4 7 0 (start_task_system 0)

abbrev first_ran : TaskSystem
first_ran = (worker_round (record first_in { now = first_in.now + 5 })).1

abbrev late_in : TaskSystem
late_in = insert_task_in 1 2 8 0 first_ran

abbrev both_ran : TaskSystem
both_ran = (worker_round late_in).1

run : Reach 4 (start_task_system 0) both_ran
unfolding worker_round insert_task_in start_task_system
run =
    next
      (next
        (next
          (next (next here (insert (start_task_system 0) 0 4 7 0 (omega arith) (omega arith)))
            (tick first_in 5))
          (work (record first_in { now = first_in.now + 5 })))
        (insert first_ran 1 2 8 0 (omega arith) (omega arith)))
      (work late_in)

Reach-RunInOrder_example :
    IsOrdered both_ran.tasks × AllDue both_ran.now both_ran.done × RunInOrder 4 both_ran.done
Reach-RunInOrder_example = Reach-RunInOrder 4 0 run

Reach-Perm_example : Perm (both_ran.done ++ (both_ran.tasks ++ freed run)) (inserted run)
Reach-Perm_example = Reach-Perm 4 0 run

-- The task due at 3 ms ran behind the one due at 4 ms.
both_ran-done : (both_ran.done ≡ task_at 3 8 ∷ task_at 4 7 ∷ []) × (both_ran.tasks ≡ [])
unfolding worker_round insert_task_in start_task_system
both_ran-done = (refl, refl)
