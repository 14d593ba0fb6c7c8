-- ===== src/Runtime/Task/Worker.antt =====
-- core/src/task.c: every interleaving of the clock, the inserting threads, the worker and the stop.
use functional_c.Prelude.{
  ℕ, ◌+◌, ◌≤◌, ◌≡◌, refl, Bool-cases, inl, inr, List, [], ◌∷◌, ltb, leb, arith,
}
use functional_c.Runtime.Task.{
  TimedTask, TaskSystem, insert_behind, insert_task_locked, insert_task_at, insert_task_in,
  due_round, round_on, worker_round, start_task_system, stop_task_system,
}
use functional_c.Runtime.Task.Queue.{NotBefore, IsOrdered, insert_task_locked-IsOrdered}

-- `insert` is the part of `insert_task_in` under the mutex: `read` is what the clock said before,
-- and at most `lag` ms ago.
pub data Step (lag : ℕ) : TaskSystem → TaskSystem → Type 0 where
  tick : (s : TaskSystem) (ms : ℕ) → Step lag s (record s { now = s.now + ms })
  insert :
      (s : TaskSystem) (read delay_ms ctx action : ℕ)
      → read ≤ s.now
      → s.now ≤ read + lag
      → Step lag s (insert_task_in read delay_ms ctx action s)
  work : (s : TaskSystem) → Step lag s (worker_round s).1
  stop : (s : TaskSystem) → Step lag s (stop_task_system s)

pub data Reach (lag : ℕ) (s : TaskSystem) : TaskSystem → Type 0 where
  here : Reach lag s s
  next : {t u : TaskSystem} → Reach lag s t → Step lag t u → Reach lag s u

-- All tasks of the list are due at `t`.
abbrev pub AllDue : ℕ → List TimedTask → Type 0
AllDue t [] = Unit
AllDue t (x ∷ xs) = (x.time_ms ≤ t) × AllDue t xs

-- Tasks that were run, the latest first: each of those that ran before a task was due at most `lag`
-- ms later than that task.
abbrev pub RunInOrder : ℕ → List TimedTask → Type 0
RunInOrder lag [] = Unit
RunInOrder lag (x ∷ xs) = AllDue (x.time_ms + lag) xs × RunInOrder lag xs

AllDue-weaken : (a b : ℕ) (xs : List TimedTask) → a ≤ b → AllDue a xs → AllDue b xs
AllDue-weaken a b [] h k = tt
AllDue-weaken a b (x ∷ xs) h k = (omega arith, AllDue-weaken a b xs h k.1)

-- The tasks of `done` were due at most `lag` ms later than each of the list.
Behind : ℕ → List TimedTask → List TimedTask → Type 0
Behind lag done [] = Unit
Behind lag done (x ∷ xs) = AllDue (x.time_ms + lag) done × Behind lag done xs

Behind-cons :
    (lag : ℕ) (x : TimedTask) (done xs : List TimedTask)
    → NotBefore x.time_ms xs
    → Behind lag done xs
    → Behind lag (x ∷ done) xs
unfolding Behind
Behind-cons lag x done [] h k = tt
Behind-cons lag x done (y ∷ ys) h k = ((omega arith, k.0), Behind-cons lag x done ys h.1 k.1)

Behind-insert_behind :
    (lag : ℕ) (done : List TimedTask) (task : TimedTask) (xs : List TimedTask)
    → AllDue (task.time_ms + lag) done
    → Behind lag done xs
    → Behind lag done (insert_behind task xs)
unfolding Behind insert_behind
Behind-insert_behind lag done task [] h k = (h, tt)
Behind-insert_behind lag done task (x ∷ xs) h k = elim (Bool-cases (leb x.time_ms task.time_ms)) [
  | inl e ↦ rw e (k.0, Behind-insert_behind lag done task xs h k.1)
  | inr e ↦ rw e (h, k)
]

Behind-insert_task_locked :
    (lag : ℕ) (done : List TimedTask) (task : TimedTask) (xs : List TimedTask)
    → AllDue (task.time_ms + lag) done
    → Behind lag done xs
    → Behind lag done (insert_task_locked task xs).0
unfolding Behind insert_task_locked
Behind-insert_task_locked lag done task [] h k = (h, tt)
Behind-insert_task_locked lag done task (x ∷ xs) h k =
    elim (Bool-cases (ltb task.time_ms x.time_ms)) [
      | inl e ↦ rw e (h, k)
      | inr e ↦ rw e (k.0, Behind-insert_behind lag done task xs h k.1)
    ]

record IsSound (lag : ℕ) (s : TaskSystem) : Type 0 where
  ordered : IsOrdered s.tasks
  due : AllDue s.now s.done
  in_order : RunInOrder lag s.done
  behind : Behind lag s.done s.tasks

round_on-IsSound :
    (lag : ℕ) (xs : List TimedTask) (s : TaskSystem)
    → s.tasks ≡ xs
    → IsSound lag s
    → IsSound lag (round_on xs s).1
unfolding round_on due_round Behind
round_on-IsSound lag [] s e v = v
round_on-IsSound lag (x ∷ xs) s e v = elim (Bool-cases (leb x.time_ms s.now)) [
  | inl due ↦
      let ordered : IsOrdered (x ∷ xs) = rw e at v.ordered in
      let behind : Behind lag s.done (x ∷ xs) = rw e at v.behind in
      rw due (record {
        ordered = ordered.1;
        due = (ground arith, v.due);
        in_order = (behind.0, v.in_order);
        behind = Behind-cons lag x s.done xs ordered.0 behind.1;
      })
  | inr early ↦ rw early v
]

worker_round-IsSound : (lag : ℕ) (s : TaskSystem) → IsSound lag s → IsSound lag (worker_round s).1
unfolding worker_round
worker_round-IsSound lag s v = elim (Bool-cases s.running) [
  | inl on ↦ simp on (round_on-IsSound lag s.tasks s refl v)
  | inr off ↦ simp off v
]

Step-IsSound : {lag : ℕ} {s t : TaskSystem} → Step lag s t → IsSound lag s → IsSound lag t
unfolding insert_task_in insert_task_at stop_task_system Behind
Step-IsSound (tick s ms) v = record {
  ordered = v.ordered;
  due = AllDue-weaken s.now (s.now + ms) s.done (omega arith) v.due;
  in_order = v.in_order;
  behind = v.behind;
}
Step-IsSound {lag} (insert s read delay ctx action past recent) v =
    let task : TimedTask = record { time_ms = read + delay; ctx = ctx; action = action } in
    record {
      ordered = insert_task_locked-IsOrdered task s.tasks v.ordered;
      due = v.due;
      in_order = v.in_order;
      behind =
          Behind-insert_task_locked lag s.done task s.tasks
            (AllDue-weaken s.now (read + delay + lag) s.done (omega arith) v.due) v.behind;
    }
Step-IsSound (work s) v = worker_round-IsSound _ s v
Step-IsSound (stop s) v = record { ordered = tt; due = v.due; in_order = v.in_order; behind = tt }

Reach-IsSound : {lag : ℕ} {s t : TaskSystem} → IsSound lag s → Reach lag s t → IsSound lag t
Reach-IsSound v here = v
Reach-IsSound v (next r st) = Step-IsSound st (Reach-IsSound v r)

-- However clock, inserts with a delay, worker rounds and a stop interleave, if the clock is read at
-- most `lag` ms before the insertion that is counted from it: in every state that is reached the
-- queue is ordered, the tasks that have run are due, and none of them ran behind a task that was due
-- more than `lag` ms later. So the tasks run in the order of their due times where no time passes
-- between the reading and the insertion.
pub Reach-RunInOrder :
    (lag start : ℕ) {s : TaskSystem}
    → Reach lag (start_task_system start) s
    → IsOrdered s.tasks × AllDue s.now s.done × RunInOrder lag s.done
unfolding start_task_system Behind
Reach-RunInOrder lag start r =
    let v = Reach-IsSound (record { ordered = tt; due = tt; in_order = tt; behind = tt }) r in
    (v.ordered, v.due, v.in_order)
