-- ===== src/Runtime/Sources.antt =====
-- core/src/observable.c: the functions that make observables: `never`, `of`, `range`, `zip` of two,
-- `interval` and `timer` with their task `addnext`, `flush` and `flushOne`.
pub mod Emission
pub mod Timed
pub mod Interval
pub mod Flush
mod Tests
use functional_c.Prelude.{
  ◌>>=◌, ℕ, zero, suc, ◌+◌, ◌-◌, ◌*◌, ◌^◌, Bool, true, false, Option, none, some, List, [], ◌∷◌,
  ◌++◌, length, if◌then◌else◌, ◌==◌, leb, ltb,
}
use functional_c.Prelude.Int.{ℤ, pos, negsuc, ◌+ℤ◌, ◌-ℤ◌}
use functional_c.Runtime.PtrList.Memory.{unsnoc}
use functional_c.Runtime.Value.{Value, word, pair}
use functional_c.Runtime.Query.{Batch, plain, active_items}
use functional_c.Runtime.Observable.{
  Observable, create_observable, Emitted, pop_all, push_observable,
}
use functional_c.Runtime.Task.{TaskSystem, insert_task_in}

pub never : Observable
never = create_observable

pub of : List Value → Observable
unfolding create_observable
of items = record create_observable { items = plain items }

-- `(void *)(long)n`
unfoldable pub long_word : ℤ → Value
long_word (pos n) = word n
long_word (negsuc n) = word (2 ^ 64 - 1 - n)

-- The loop of `range`, from index `i` with `left` rounds to go.
unfoldable pub fill : ℤ → ℕ → ℕ → List Value
unfolding long_word
fill min i zero = []
fill min i (suc left) = long_word (min +ℤ pos i) ∷ fill min (i + 1) left

-- A count below 0 becomes the list's size, and what is read then is not there; above 2 ^ 30 the
-- capacity of the list is no `int`: `none`.
counted : ℤ → ℤ → Option Observable
unfolding fill create_observable
counted min (pos count) =
    if leb count (2 ^ 30)
    then some (record create_observable { items = plain (fill min 0 count) })
    else none
counted min (negsuc n) = none

unfoldable pub range : ℤ → ℤ → Option Observable
unfolding counted
range min max = counted min (max -ℤ min +ℤ pos 1)

-- The loop of `zip` over two lists of active items; it ends with the shorter one.
unfoldable pub zip_pairs : ℕ → ℕ → List Value → List Value → List Value
zip_pairs block i [] right = []
zip_pairs block i (x ∷ left) [] = []
zip_pairs block i (x ∷ left) (y ∷ right) =
    pair (block + 16 * i) x y ∷ zip_pairs block (i + 1) left right

has_items : List Value → Bool
has_items [] = false
has_items (x ∷ xs) = true

-- `zip(2, left, right)`; `block` is the address that `malloc` answers for the pairs.
unfoldable pub zip : ℕ → Observable → Observable → Observable
unfolding zip_pairs active_items has_items create_observable
zip block left right =
    let pairs =
      zip_pairs block 0 (active_items left.items.items) (active_items right.items.items) in
    record create_observable { items = record { items = pairs; payload_block = has_items pairs } }

-- The observable of an `IntervalCtx` with its other fields, and the task system. The actions of the
-- queue are numbers: 0 is `addnext`, and the context is the one there is.
pub record TimedSource : Type 0 where
  pub system : TaskSystem
  pub observable : Observable
  pub ms : ℕ
  pub amt : ℕ

-- The task is put in again, unless the period is 0. `amt` is an `int`: beyond it, `none`.
again : TimedSource → Option TimedSource
unfolding insert_task_in
again t =
    if t.ms == 0
    then some t
    else if ltb (t.amt + 1) (2 ^ 31)
    then some (record t { amt = t.amt + 1; system = insert_task_in t.system.now t.ms 0 0 t.system })
    else none

-- `addnext`, with what reached the subscriber.
unfoldable pub addnext : (ℕ → ℕ) → TimedSource → Option (TimedSource × List Value)
unfolding again
addnext blocks t = do
  r ← push_observable blocks t.observable (word (t.ms * t.amt))
  next ← again (record t { observable = r.0 })
  some (next, r.1)

unfoldable pub timer : TaskSystem → ℕ → ℕ → TimedSource
unfolding create_observable insert_task_in
timer s ms period = record {
  system = insert_task_in s.now ms 0 0 s;
  observable = create_observable;
  ms = period;
  amt = 0;
}

unfoldable pub interval : TaskSystem → ℕ → TimedSource
unfolding timer
interval s ms = timer s ms ms

unfoldable pub flush : (ℕ → ℕ) → Observable → Option Emitted
flush blocks o = pop_all blocks (record o { ready = true })

-- The loop of `flushOne`: `pop` takes the last item off, so many times.
pops : ℕ → List Value → List Value
pops zero items = items
pops (suc n) items = pops n (unsnoc items).1

unfoldable pub flush_one : (ℕ → ℕ) → Observable → Option Emitted
unfolding pops
flush_one blocks o =
    let left = pops (length o.items.items - 1) o.items.items in
    pop_all blocks (record o { items = record o.items { items = left }; ready = true })
