-- ===== src/Runtime/Task/Queue.antt =====
-- core/src/task.c: the queue stays ordered by due time, and first come, first served among tasks
-- that are due at one time.
use functional_c.Prelude.{
  ℕ, ◌≤◌, ◌<◌, ◌≡◌, refl, Bool-cases, inl, inr, List, [], ◌∷◌, ◌++◌, ltb, leb, ◌==◌, if◌then◌else◌,
  arith,
}
use functional_c.Runtime.Task.{TimedTask, insert_behind, insert_task_locked}

-- Every task of the list is due at `t` or later.
abbrev pub NotBefore : ℕ → List TimedTask → Type 0
NotBefore t [] = Unit
NotBefore t (x ∷ xs) = (t ≤ x.time_ms) × NotBefore t xs

abbrev pub IsOrdered : List TimedTask → Type 0
IsOrdered [] = Unit
IsOrdered (x ∷ xs) = NotBefore x.time_ms xs × IsOrdered xs

-- The tasks that are due at `t`, in their order in the queue.
pub due_at : ℕ → List TimedTask → List TimedTask
due_at t [] = []
due_at t (x ∷ xs) = let rest = due_at t xs in if x.time_ms == t then x ∷ rest else rest

NotBefore-weaken : (s t : ℕ) (xs : List TimedTask) → s ≤ t → NotBefore t xs → NotBefore s xs
NotBefore-weaken s t [] h k = tt
NotBefore-weaken s t (x ∷ xs) h k = (omega arith, NotBefore-weaken s t xs h k.1)

insert_behind-NotBefore :
    (t : ℕ) (task : TimedTask) (xs : List TimedTask)
    → t ≤ task.time_ms
    → NotBefore t xs
    → NotBefore t (insert_behind task xs)
unfolding insert_behind
insert_behind-NotBefore t task [] h k = (h, tt)
insert_behind-NotBefore t task (x ∷ xs) h k = elim (Bool-cases (leb x.time_ms task.time_ms)) [
  | inl e ↦ rw e (k.0, insert_behind-NotBefore t task xs h k.1)
  | inr e ↦ rw e (h, k)
]

insert_behind-IsOrdered :
    (task : TimedTask) (xs : List TimedTask) → IsOrdered xs → IsOrdered (insert_behind task xs)
unfolding insert_behind
insert_behind-IsOrdered task [] h = (tt, tt)
insert_behind-IsOrdered task (x ∷ xs) h = elim (Bool-cases (leb x.time_ms task.time_ms)) [
  | inl e ↦ rw e (
    insert_behind-NotBefore x.time_ms task xs (ground arith) h.0,
    insert_behind-IsOrdered task xs h.1,
  )
  | inr e ↦
      let later : task.time_ms ≤ x.time_ms = ground arith in
      rw e ((later, NotBefore-weaken task.time_ms x.time_ms xs later h.0), h)
]

-- Inserting a task keeps the queue ordered by due time.
pub insert_task_locked-IsOrdered :
    (task : TimedTask) (xs : List TimedTask)
    → IsOrdered xs
    → IsOrdered (insert_task_locked task xs).0
unfolding insert_task_locked
insert_task_locked-IsOrdered task [] h = (tt, tt)
insert_task_locked-IsOrdered task (x ∷ xs) h = elim (Bool-cases (ltb task.time_ms x.time_ms)) [
  | inl e ↦
      let later : task.time_ms ≤ x.time_ms = ground arith in
      rw e ((later, NotBefore-weaken task.time_ms x.time_ms xs later h.0), h)
  | inr e ↦ rw e (
    insert_behind-NotBefore x.time_ms task xs (ground arith) h.0,
    insert_behind-IsOrdered task xs h.1,
  )
]

due_at-none : (t u : ℕ) (xs : List TimedTask) → t < u → NotBefore u xs → due_at t xs ≡ []
unfolding due_at
due_at-none t u [] h k = refl
due_at-none t u (x ∷ xs) h k = ground (arith, due_at-none t u xs h k.1)

due_at-insert_behind :
    (t : ℕ) (task : TimedTask) (xs : List TimedTask)
    → IsOrdered xs
    → due_at t (insert_behind task xs)
      ≡ (if task.time_ms == t then due_at t xs ++ (task ∷ []) else due_at t xs)
unfolding due_at insert_behind
due_at-insert_behind t task [] h = ground arith
due_at-insert_behind t task (x ∷ xs) h = elim (Bool-cases (leb x.time_ms task.time_ms)) [
  | inl e ↦ ground (arith, due_at-insert_behind t task xs h.1)
  | inr e ↦ ground (arith, due_at-none t x.time_ms xs, h.0)
]

-- `insert_task_locked` puts the task behind all the others that are due at its time, and leaves the
-- tasks due at any other time as they are. With the order of the queue this fixes its place.
pub due_at-insert_task_locked :
    (t : ℕ) (task : TimedTask) (xs : List TimedTask)
    → IsOrdered xs
    → due_at t (insert_task_locked task xs).0
      ≡ (if task.time_ms == t then due_at t xs ++ (task ∷ []) else due_at t xs)
unfolding due_at insert_task_locked
due_at-insert_task_locked t task [] h = ground arith
due_at-insert_task_locked t task (x ∷ xs) h = elim (Bool-cases (ltb task.time_ms x.time_ms)) [
  | inl e ↦ ground (arith, due_at-none t x.time_ms xs, h.0)
  | inr e ↦ ground (arith, due_at-insert_behind t task xs h.1)
]
