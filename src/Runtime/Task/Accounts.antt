-- ===== src/Runtime/Task/Accounts.antt =====
-- core/src/task.c: no task is lost and none is run twice.
use mathlib.Core.List.{Perm, perm_middle}
use mathlib.Core.List.Perm
use functional_c.Prelude.{ℕ, ◌+◌, ◌≡◌, Bool-cases, inl, inr, List, [], ◌∷◌, ◌++◌, ltb, leb}
use functional_c.Runtime.Task.{
  TimedTask, TaskSystem, insert_behind, insert_task_locked, insert_task_at, insert_task_in,
  due_round, round_on, worker_round, start_task_system, stop_task_system,
}
use functional_c.Runtime.Task.Worker.{tick, insert, work, stop, Reach, here, next}

-- The tasks that were inserted in a run, the latest first, and those that a stop freed.
pub inserted : {lag : ℕ} {s t : TaskSystem} → Reach lag s t → List TimedTask
inserted here = []
inserted (next r (tick s ms)) = inserted r
inserted (next r (insert s read delay_ms ctx action past recent)) =
    record { time_ms = read + delay_ms; ctx = ctx; action = action } ∷ inserted r
inserted (next r (work s)) = inserted r
inserted (next r (stop s)) = inserted r

pub freed : {lag : ℕ} {s t : TaskSystem} → Reach lag s t → List TimedTask
freed here = []
freed (next r (tick s ms)) = freed r
freed (next r (insert s read delay_ms ctx action past recent)) = freed r
freed (next r (work s)) = freed r
freed (next r (stop s)) = s.tasks ++ freed r

insert_behind-Perm :
    (task : TimedTask) (xs : List TimedTask) → Perm (insert_behind task xs) (task ∷ xs)
unfolding insert_behind
insert_behind-Perm task [] = Perm.refl (task ∷ [])
insert_behind-Perm task (x ∷ xs) = elim (Bool-cases (leb x.time_ms task.time_ms)) [
  | inl e ↦ rw e (Perm.trans (Perm.cons x (insert_behind-Perm task xs)) (Perm.swap task x xs))
  | inr e ↦ rw e (Perm.refl (task ∷ x ∷ xs))
]

insert_task_locked-Perm :
    (task : TimedTask) (xs : List TimedTask) → Perm (insert_task_locked task xs).0 (task ∷ xs)
unfolding insert_task_locked
insert_task_locked-Perm task [] = Perm.refl (task ∷ [])
insert_task_locked-Perm task (x ∷ xs) = elim (Bool-cases (ltb task.time_ms x.time_ms)) [
  | inl e ↦ rw e (Perm.refl (task ∷ x ∷ xs))
  | inr e ↦ rw e (Perm.trans (Perm.cons x (insert_behind-Perm task xs)) (Perm.swap task x xs))
]

round_on-Perm :
    (xs : List TimedTask) (s : TaskSystem) (more : List TimedTask)
    → s.tasks ≡ xs
    → Perm
        ((round_on xs s).1.done ++ ((round_on xs s).1.tasks ++ more))
        (s.done ++ (s.tasks ++ more))
unfolding round_on due_round
round_on-Perm [] s more e = Perm.refl (s.done ++ (s.tasks ++ more))
round_on-Perm (x ∷ xs) s more e = elim (Bool-cases (leb x.time_ms s.now)) [
  | inl due ↦ rw (due, e) (Perm.symm (perm_middle s.done (xs ++ more)))
  | inr early ↦ rw early (Perm.refl (s.done ++ (s.tasks ++ more)))
]

worker_round-Perm :
    (s : TaskSystem) (more : List TimedTask)
    → Perm
        ((worker_round s).1.done ++ ((worker_round s).1.tasks ++ more))
        (s.done ++ (s.tasks ++ more))
unfolding worker_round
worker_round-Perm s more = elim (Bool-cases s.running) [
  | inl on ↦ simp on (round_on-Perm s.tasks s more (λ i. s.tasks))
  | inr off ↦ simp off (Perm.refl (s.done ++ (s.tasks ++ more)))
]

-- However clock, inserts with a delay, worker rounds and stops interleave: the tasks that were
-- inserted are, in some order and each as often as it was inserted, those that have run, those that
-- wait in the queue, and those that a stop freed.
pub Reach-Perm :
    (lag start : ℕ) {s : TaskSystem} (r : Reach lag (start_task_system start) s)
    → Perm (s.done ++ (s.tasks ++ freed r)) (inserted r)
unfolding inserted freed start_task_system insert_task_in insert_task_at stop_task_system
Reach-Perm lag start here = Perm.refl []
Reach-Perm lag start (next r (tick s ms)) = Reach-Perm lag start r
Reach-Perm lag start (next r (insert s read delay ctx action past recent)) =
    let task : TimedTask = record { time_ms = read + delay; ctx = ctx; action = action } in
    Perm.trans
      (Perm.append_left s.done (Perm.append_right (freed r) (insert_task_locked-Perm task s.tasks)))
      (Perm.trans (perm_middle s.done (s.tasks ++ freed r))
        (Perm.cons task (Reach-Perm lag start r)))
Reach-Perm lag start (next r (work s)) =
    Perm.trans (worker_round-Perm s (freed r)) (Reach-Perm lag start r)
Reach-Perm lag start (next r (stop s)) = Reach-Perm lag start r
