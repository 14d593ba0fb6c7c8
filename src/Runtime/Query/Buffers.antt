-- ===== src/Runtime/Query/Buffers.antt =====
-- core/src/observable.c: `buffer` and `throttleTime` over the lists that come one after the other.
use functional_c.Prelude.{
  ◌≡◌, refl, ap, sym, ◌∙◌, Bool, true, false, List, [], ◌∷◌, ◌++◌, append_assoc, append-nil, ◌==◌,
  if◌then◌else◌,
}
use functional_c.Runtime.Value.{Value, address, null}
use functional_c.Runtime.Query.{buffer_apply, throttle_time_apply, peeked}

-- `buffer_apply` for each list in turn, with the flag at that time: the cache at the end, and all
-- that came out.
pub buffered : List Value → List (Bool × List Value) → List Value × List Value
buffered cache [] = (cache, [])
buffered cache ((ready, items) ∷ later) =
    let (cache', out) = buffer_apply ready cache items in
    let (last_cache, rest) = buffered cache' later in (last_cache, out ++ rest)

pub all_items : List (Bool × List Value) → List Value
all_items [] = []
all_items ((ready, items) ∷ later) = items ++ all_items later

-- Whenever the flag is up or down, what came out of a buffer followed by what is still in it is
-- what was in it at first followed by all the items, in their order.
pub buffered_lem :
    (cache : List Value) (lists : List (Bool × List Value))
    → (buffered cache lists).1 ++ (buffered cache lists).0 ≡ cache ++ all_items lists
unfolding buffered all_items buffer_apply
buffered_lem cache [] = sym (append-nil cache)
buffered_lem cache ((true, items) ∷ later) =
    append_assoc (cache ++ items) _ _
    ∙ ap (λ r. (cache ++ items) ++ r) (buffered_lem [] later)
    ∙ append_assoc cache items (all_items later)
buffered_lem cache ((false, items) ∷ later) =
    buffered_lem (cache ++ items) later ∙ append_assoc cache items (all_items later)

-- `throttle_time_apply` for each list in turn while the flag is down.
pub throttled : Value → List (List Value) → Value × List Value
throttled cache [] = (cache, [])
throttled cache (items ∷ later) =
    let (cache', out) = throttle_time_apply false cache items in
    let (last_cache, rest) = throttled cache' later in (last_cache, out ++ rest)

pub joined_lists : List (List Value) → List Value
joined_lists [] = []
joined_lists (items ∷ later) = items ++ joined_lists later

peeked-append : (v : Value) (xs ys : List Value) → peeked v (xs ++ ys) ≡ peeked (peeked v xs) ys
unfolding peeked
peeked-append v [] ys = refl
peeked-append v (x ∷ xs) ys = peeked-append x xs ys

throttled-peeked :
    (cache : Value) (lists : List (List Value))
    → throttled cache lists ≡ (peeked cache (joined_lists lists), [])
unfolding throttled joined_lists throttle_time_apply
throttled-peeked cache [] = refl
throttled-peeked cache (list ∷ later) =
    rw (peeked-append cache list (joined_lists later))
      (rw (throttled-peeked (peeked cache list) later) refl)

-- While the flag is down a throttle lets nothing through and keeps the latest item; when the flag is
-- up the next list makes it let that item through, if it is not NULL, and nothing of the list.
pub throttled_lem :
    (cache : Value) (lists : List (List Value)) (items : List Value)
    → (throttled cache lists ≡ (peeked cache (joined_lists lists), []))
      × (throttle_time_apply true (throttled cache lists).0 items ≡ (
          if address (peeked cache (joined_lists lists)) == 0
          then (peeked cache (joined_lists lists), [])
          else (null, peeked cache (joined_lists lists) ∷ [])))
unfolding throttle_time_apply
throttled_lem cache lists items =
    (throttled-peeked cache lists, rw (throttled-peeked cache lists) refl)
