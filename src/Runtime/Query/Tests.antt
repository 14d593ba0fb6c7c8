-- ===== src/Runtime/Query/Tests.antt =====
-- Concrete lists for `buffer` and `throttleTime` of core/src/observable.c, and the theorems at them.
use functional_c.Prelude.{◌≡◌, Bool, true, false, List, [], ◌∷◌, ◌++◌, ◌==◌, if◌then◌else◌}
use functional_c.Runtime.Value.{Value, word, address, null}
use functional_c.Runtime.Query.{throttle_time_apply, peeked}
use functional_c.Runtime.Query.Buffers.{
  buffered, all_items, buffered_lem, throttled, joined_lists, throttled_lem,
}

abbrev lists : List (Bool × List Value)
lists = (false, word 1 ∷ word 2 ∷ []) ∷ (true, word 3 ∷ []) ∷ (false, word 4 ∷ []) ∷ []

buffered_lem_example :
    (buffered (word 9 ∷ []) lists).1 ++ (buffered (word 9 ∷ []) lists).0
    ≡ word 9 ∷ [] ++ all_items lists
buffered_lem_example = buffered_lem (word 9 ∷ []) lists

abbrev unflushed : List (List Value)
unflushed = (word 1 ∷ word 2 ∷ []) ∷ [] ∷ (word 3 ∷ []) ∷ []

throttled_lem_example :
    (throttled null unflushed ≡ (peeked null (joined_lists unflushed), []))
    × (throttle_time_apply true (throttled null unflushed).0 (word 7 ∷ []) ≡ (
        if address (peeked null (joined_lists unflushed)) == 0
        then (peeked null (joined_lists unflushed), [])
        else (null, peeked null (joined_lists unflushed) ∷ [])))
throttled_lem_example = throttled_lem null unflushed (word 7 ∷ [])
