-- ===== src/Runtime/Observable/Tests.antt =====
-- Concrete runs of `push_observable` of core/src/observable.c, and the theorems at them.
use functional_c.Prelude.{
  ℕ, ◌≡◌, refl, Bool, false, none, some, List, [], ◌∷◌, arith, length, leb, take, map, not,
}
use functional_c.Runtime.Value.{
  Value, word, pair, same_pointer, null, NoToken, is_stream_complete, complete_token,
}
use functional_c.Runtime.Query.{Query, filter_items, take_until_items}
use functional_c.Runtime.Observable.{Observable, push_each}
use functional_c.Runtime.Observable.Take.{waiting, push_each-take}
use functional_c.Runtime.Observable.Leaks.{
  push_each-take_zero, push_each-take-map, filter-take_until,
}

abbrev no_blocks : ℕ → ℕ
no_blocks i = 0

abbrev items : List Value
items = word 1 ∷ word 2 ∷ word 3 ∷ []

items-NoToken : NoToken items
items-NoToken = (refl, (refl, (refl, tt)))

push_each-take_example :
    (o : Observable) × (push_each no_blocks (waiting (Query.take 2 0 ∷ []) none) items
      ≡ some (o, take 2 items))
    × (o.complete ≡ leb 2 (length items))
push_each-take_example = push_each-take no_blocks 2 items (omega arith) items-NoToken

push_each-take_zero_example :
    (o : Observable) × (push_each no_blocks (waiting (Query.take 0 0 ∷ []) none) items
      ≡ some (o, items))
    × (o.complete ≡ false)
push_each-take_zero_example = push_each-take_zero no_blocks items (omega arith) items-NoToken

abbrev wrap : Value → Value
wrap v = pair 64 v null

push_each-take-map_example :
    (o : Observable) × (push_each no_blocks
        (waiting (Query.take 1 0 ∷ Query.map wrap ∷ []) none)
        items
      ≡ some (o, map wrap items))
    × (o.complete ≡ false)
push_each-take-map_example = push_each-take-map wrap (λ v. refl) no_blocks 1 items items-NoToken

abbrev not_token : Value → Bool
not_token v = not (is_stream_complete v)

filter-take_until_example :
    filter_items not_token (take_until_items same_pointer (word 2) items)
    ≡ filter_items not_token items
filter-take_until_example =
    filter-take_until not_token same_pointer (word 2) items refl items-NoToken

-- `takeUntil` marks the end behind the match, and goes on.
marked :
    take_until_items same_pointer (word 2) items ≡ word 1 ∷ word 2 ∷ complete_token ∷ word 3 ∷ []
unfolding take_until_items
marked = refl
