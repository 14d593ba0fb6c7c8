-- ===== src/Runtime/Sources/Tests.antt =====
-- Concrete sources of core/src/observable.c, and the theorems at them.
use functional_c.Prelude.{
  ℕ, ◌+◌, ◌*◌, ◌≤◌, ◌≡◌, refl, Bool, true, false, not, none, some, List, [], ◌∷◌, length, get_elem?,
  min, arith,
}
use functional_c.Prelude.Int.{pos, negsuc, ◌+ℤ◌, ◌-ℤ◌}
use functional_c.Runtime.Value.{Value, word, pair, complete_token, same_pointer}
use functional_c.Runtime.Query.{Query, Batch, active_items}
use functional_c.Runtime.Pipeline.{run_queries}
use functional_c.Runtime.Observable.{Observable, pipe, subscribe}
use functional_c.Runtime.Task.{start_task_system}
use functional_c.Runtime.Sources.{TimedSource, of, range, zip, interval, flush, flush_one}
use functional_c.Runtime.Sources.Emission.{subscribe-range, zip_lem}
use functional_c.Runtime.Sources.Timed.{timed_out, woken, Pace, rounds, subscribed, multiples}
use functional_c.Runtime.Sources.Interval.{interval-in_time}
use functional_c.Runtime.Sources.Flush.{flush_one-flush}

abbrev no_blocks : ℕ → ℕ
no_blocks i = 0

from_two : range (pos 2) (pos 4) ≡ some (of (word 2 ∷ word 3 ∷ word 4 ∷ []))
unfolding range of ◌+ℤ◌ ◌-ℤ◌
from_two = refl

backwards : range (pos 5) (pos 3) ≡ none
unfolding range ◌+ℤ◌ ◌-ℤ◌
backwards = refl

not_two : Value → Bool
not_two v = not (same_pointer v (word 2))

subscribe-range_example :
    (o : Observable) × (after : List Query) × (out : Batch) × (o' : Observable) × (range
        (negsuc 1)
        (pos 3)
      ≡ some o)
    × (run_queries false no_blocks 0 (Query.filter not_two ∷ []) o.items ≡ some (after, out))
    × (subscribe no_blocks none (pipe o (Query.filter not_two ∷ [])) ≡ some (o', out.items))
    × (o'.complete ≡ false)
subscribe-range_example =
    subscribe-range no_blocks (negsuc 1) (pos 3) (Query.filter not_two) []
      (omega arith, omega arith) (omega arith, omega arith) (omega arith)
      (unfold ◌+ℤ◌ in omega arith) (tt, tt)

abbrev letters : Observable
letters = of (word 65 ∷ word 66 ∷ complete_token ∷ [])

abbrev digits : Observable
digits = of (word 1 ∷ word 2 ∷ word 3 ∷ [])

zipped :
    (zip 4096 letters digits).items.items
    ≡ pair 4096 (word 65) (word 1) ∷ pair 4112 (word 66) (word 2) ∷ []
unfolding zip of
zipped = refl

zip_lem_example :
    (length (zip 4096 letters digits).items.items
      ≡ min (length (active_items letters.items.items)) (length (active_items digits.items.items)))
    × ((j : ℕ) (x y : Value)
        → get_elem? (active_items letters.items.items) j ≡ some x
        → get_elem? (active_items digits.items.items) j ≡ some y
        → get_elem? (zip 4096 letters digits).items.items j ≡ some (pair (4096 + 16 * j) x y))
zip_lem_example = zip_lem 4096 letters digits

-- Waits that end by their timeout, 3 ms late, with 2 ms for each action.
abbrev punctual : Pace
punctual = record { busy = 2; wake = timed_out 3; rest = 0 }

-- A wait that ends after 40 ms.
abbrev restless : Pace
restless = record { busy = 0; wake = woken 40; rest = 1 }

interval-in_time_example :
    (subscribe no_blocks none (interval (start_task_system 7) 100).observable
      ≡ some (subscribed, []))
    × (t : TimedSource) × (n : ℕ) × (rounds no_blocks
          (restless ∷ restless ∷ punctual ∷ restless ∷ [])
          (record (interval (start_task_system 7) 100) { observable = subscribed })
        ≡ some (t, multiples 100 0 n))
    × (t.amt ≡ n)
    × (7 + 100 * n ≤ t.system.now)
interval-in_time_example =
    interval-in_time no_blocks 100 7 (restless ∷ restless ∷ punctual ∷ restless ∷ []) (omega arith)
      (omega arith) (omega arith)

-- Two items wait behind a query that refuses the 2.
abbrev filtered : Observable
filtered = record (pipe (of (word 1 ∷ word 2 ∷ [])) (Query.filter not_two ∷ [])) {
  subscriber = true;
}

flush_one-flush_example :
    flush_one no_blocks filtered
    ≡ flush no_blocks (record filtered { items = record filtered.items { items = word 1 ∷ [] } })
unfolding of pipe
flush_one-flush_example = flush_one-flush no_blocks filtered (word 1) (word 2 ∷ []) refl
