-- ===== src/Runtime/Task.antt =====
-- core/src/task.c: the queue of timed tasks, ordered by due time, and the worker thread that runs
-- them. Clock and threads are outside: a step relation lets the clock advance at any moment, and
-- tasks be inserted whenever the mutex is free. A delay is counted from a reading of the clock that
-- is made before the mutex is taken, and so may be behind the clock when the task is inserted. What
-- a task's action inserts, once its round has given the mutex back, are insertions like the others.
pub mod Queue
pub mod Worker
pub mod Accounts
mod Tests
use functional_c.Prelude.{
  ℕ, ◌+◌, ◌-◌, Bool, true, false, List, [], ◌∷◌, ◌++◌, ltb, leb, if◌then◌else◌,
}

-- `TimedTask`: the due time in ms since the stopwatch started, and the action with its argument
-- (identified by numbers; they are only handed on).
pub record TimedTask : Type 0 where
  pub time_ms : ℕ
  pub ctx : ℕ
  pub action : ℕ

-- The `while` loop of `insert_task_locked`, at the links behind `cur`.
insert_behind : TimedTask → List TimedTask → List TimedTask
insert_behind task [] = task ∷ []
insert_behind task (next ∷ rest) =
    if leb next.time_ms task.time_ms then next ∷ insert_behind task rest else task ∷ next ∷ rest

-- The new list, and whether the task became its head.
pub insert_task_locked : TimedTask → List TimedTask → List TimedTask × Bool
unfolding insert_behind
insert_task_locked task [] = (task ∷ [], true)
insert_task_locked task (head ∷ rest) =
    if ltb task.time_ms head.time_ms
    then (task ∷ head ∷ rest, true)
    else (head ∷ insert_behind task rest, false)

-- `tasks_head` and `tasks_running`, the clock, and the tasks that were run, the latest first.
pub record TaskSystem : Type 0 where
  pub tasks : List TimedTask
  pub running : Bool
  pub now : ℕ
  pub done : List TimedTask

pub insert_task_at : ℕ → ℕ → ℕ → TaskSystem → TaskSystem
unfolding insert_task_locked
insert_task_at abs_time_ms ctx action s = record s {
  tasks =
      (insert_task_locked (record { time_ms = abs_time_ms; ctx = ctx; action = action }) s.tasks).0;
}

-- `now` is what the clock said before `insert_task_at` took the mutex; the delay is not negative.
unfoldable pub insert_task_in : ℕ → ℕ → ℕ → ℕ → TaskSystem → TaskSystem
unfolding insert_task_at
insert_task_in now delay_ms ctx action s = insert_task_at (now + delay_ms) ctx action s

-- What one round of the loop of `tasks_worker` does under the mutex. The task of `ran` is off the
-- list; its action runs behind the round, without the mutex.
pub data Round : Type 0 where
  stopped idle : Round
  waiting : ℕ → Round
  ran : TimedTask → Round

due_round : TimedTask → List TimedTask → TaskSystem → Round × TaskSystem
due_round head rest s =
    if leb head.time_ms s.now
    then (ran head, record s { tasks = rest; done = head ∷ s.done })
    else (waiting (head.time_ms - s.now), s)

round_on : List TimedTask → TaskSystem → Round × TaskSystem
unfolding due_round
round_on [] s = (idle, s)
round_on (head ∷ rest) s = due_round head rest s

unfoldable pub worker_round : TaskSystem → Round × TaskSystem
unfolding round_on
worker_round s = if s.running then round_on s.tasks s else (stopped, s)

unfoldable pub start_task_system : ℕ → TaskSystem
start_task_system now = record { tasks = []; running = true; now = now; done = [] }

-- `stop_task_system` after the worker was joined: what is left is freed.
pub stop_task_system : TaskSystem → TaskSystem
stop_task_system s = record s { tasks = []; running = false }
