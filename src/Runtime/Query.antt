-- ===== src/Runtime/Query.antt =====
-- core/src/observable.c: the queries (operators) with their contexts, and the `*_apply` functions,
-- each of which makes a new list of a whole list of items and updates its context.
-- The items of a `List *` are a `List Value` here: `PtrList` proves that its functions work on them.
pub mod Buffers
mod Tests
use functional_c.Prelude.{
  ◌>>=◌, ℕ, ◌+◌, ◌*◌, Bool, true, false, not, ◌&&◌, ◌||◌, Option, none, some, List, [], ◌∷◌, ◌++◌,
  leb, ◌==◌, if◌then◌else◌, length,
}
use functional_c.Runtime.Value.{
  Value, word, pair, address, same_pointer, null, complete_token, is_stream_complete,
}

-- `QueryKind`
pub data QueryKind : Type 0 where
  generic filter map reduce scan distinct_until_changed skip_while last map_chain : QueryKind

-- A `Query` with its context. The functions are the caller's, and have no effect of their own.
-- `take_until` is also `first()`, with `return_true` for its test.
pub data Query : Type 0 where
  filter : (Value → Bool) → Query
  map : (Value → Value) → Query
  reduce : (Value → Value → Value) → Query
  scan : (Value → Value → Value) → Value → Query
  last : Query
  merge_map : List Value → Query
  take_until : (Value → Value → Bool) → Value → Query
  skip_until : (Value → Value → Bool) → Value → Bool → Query
  distinct : (Value → Value) → List Value → Query
  distinct_until_changed : (Value → Value) → Value → Query
  take : ℕ → ℕ → Query
  skip : ℕ → ℕ → Query
  take_while : (Value → Bool) → Query
  skip_while : (Value → Bool) → Bool → Query
  map_to : Value → Query
  buffer : List Value → Query
  throttle_time : Value → Query

unfoldable pub kind : Query → QueryKind
kind (Query.filter p) = QueryKind.filter
kind (Query.map f) = QueryKind.map
kind (Query.reduce f) = QueryKind.reduce
kind (Query.scan f a) = QueryKind.scan
kind Query.last = QueryKind.last
kind (distinct_until_changed f k) = QueryKind.distinct_until_changed
kind (skip_while p b) = QueryKind.skip_while
kind _ = generic

-- The items of a list, and whether they stand in a block that the list owns.
pub record Batch : Type 0 where
  pub items : List Value
  pub payload_block : Bool

abbrev pub plain : List Value → Batch
plain xs = record { items = xs; payload_block = false }

unfoldable pub filter_items : (Value → Bool) → List Value → List Value
filter_items pred [] = []
filter_items pred (x ∷ xs) = let rest = filter_items pred xs in if pred x then x ∷ rest else rest

unfoldable pub map_items : (Value → Value) → List Value → List Value
map_items f [] = []
map_items f (x ∷ xs) = if is_stream_complete x then [] else f x ∷ map_items f xs

-- The new accumulator, and the running results.
unfoldable pub scan_items : (Value → Value → Value) → Value → List Value → Value × List Value
scan_items f accum [] = (accum, [])
scan_items f accum (x ∷ xs) =
    let (last_accum, out) = scan_items f (f accum x) xs in
    if is_stream_complete x then (accum, []) else (last_accum, f accum x ∷ out)

unfoldable pub reduce_items : (Value → Value → Value) → Value → List Value → Value
reduce_items f accum [] = accum
reduce_items f accum (x ∷ xs) =
    let rest = reduce_items f (f accum x) xs in if is_stream_complete x then accum else rest

-- A match is followed by the end marker, and the loop goes on.
unfoldable pub take_until_items : (Value → Value → Bool) → Value → List Value → List Value
take_until_items pred endat [] = []
take_until_items pred endat (x ∷ xs) =
    let rest = take_until_items pred endat xs in
    if is_stream_complete x then [] else x ∷ (if pred x endat then complete_token ∷ rest else rest)

unfoldable pub skip_until_items :
    (Value → Value → Bool) → Value → Bool → List Value → Bool × List Value
skip_until_items pred endat ended [] = (ended, [])
skip_until_items pred endat ended (x ∷ xs) =
    let open_now = ended || pred x endat in
    let (ended', out) = skip_until_items pred endat open_now xs in
    if is_stream_complete x
    then (ended, [])
    else if open_now
    then (ended', x ∷ out)
    else (ended', out)

unfoldable pub cached : Value → List Value → Bool
cached key [] = false
cached key (k ∷ cache) = same_pointer key k || cached key cache

unfoldable pub distinct_items : (Value → Value) → List Value → List Value → List Value × List Value
unfolding cached
distinct_items f cache [] = (cache, [])
distinct_items f cache (x ∷ xs) =
    let seen = cached (f x) cache in
    let (cache', out) = distinct_items f (if seen then cache else cache ++ (f x ∷ [])) xs in
    if seen then (cache', out) else (cache', x ∷ out)

unfoldable pub distinct_until_changed_items :
    (Value → Value) → Value → List Value → Value × List Value
distinct_until_changed_items f key [] = (key, [])
distinct_until_changed_items f key (x ∷ xs) =
    let same = same_pointer (f x) key in
    let (key', out) = distinct_until_changed_items f (if same then key else f x) xs in
    if same then (key', out) else (key', x ∷ out)

-- The new count, and the items let through.
unfoldable pub take_items : ℕ → ℕ → List Value → ℕ × List Value
take_items amt count [] = (count, [])
take_items amt count (x ∷ xs) =
    let (count', out) = take_items amt (count + 1) xs in
    if amt == (count + 1) then (count + 1, x ∷ complete_token ∷ []) else (count', x ∷ out)

unfoldable pub skip_items : ℕ → ℕ → List Value → ℕ × List Value
skip_items amt count [] = (count, [])
skip_items amt count (x ∷ xs) =
    let (count', out) = skip_items amt (count + 1) xs in
    if leb amt count then (count', x ∷ out) else (count', out)

unfoldable pub take_while_items : (Value → Bool) → List Value → List Value
take_while_items pred [] = []
take_while_items pred (x ∷ xs) =
    let rest = take_while_items pred xs in if pred x then x ∷ rest else complete_token ∷ []

unfoldable pub skip_while_items : (Value → Bool) → Bool → List Value → Bool × List Value
skip_while_items pred passed [] = (passed, [])
skip_while_items pred passed (x ∷ xs) =
    let skipped = pred x && not passed in
    let (passed', out) = skip_while_items pred (if skipped then passed else true) xs in
    if skipped then (passed', out) else (passed', x ∷ out)

unfoldable pub map_to_items : Value → List Value → List Value
map_to_items to [] = []
map_to_items to (x ∷ xs) = if is_stream_complete x then [] else to ∷ map_to_items to xs

-- The value of `last_apply`: the item before the end marker, if that stands last. `none` is the
-- read of `data[-1]`, when the end marker stands alone.
unfoldable pub last_item : Option Value → List Value → Option Value
last_item before [] = some null
last_item before (x ∷ []) = if is_stream_complete x then before else some x
last_item before (x ∷ y ∷ xs) = last_item (some x) (y ∷ xs)

-- The items that `list_active_size` counts: an end marker in last place is left out.
unfoldable pub active_items : List Value → List Value
active_items [] = []
active_items (x ∷ []) = if is_stream_complete x then [] else x ∷ []
active_items (x ∷ y ∷ xs) = x ∷ active_items (y ∷ xs)

-- The pair that `mergemap_apply` stores at place `out` of the block at address `block`. Where the
-- items stand in a block of pairs, the inner pair is copied behind the outer one; the copy of a
-- word as a pair is a fault.
merged_at : Bool → ℕ → ℕ → Value → Value → Option Value
merged_at true block out item (pair a left right) =
    some (pair (block + 32 * out) (pair (block + 32 * out + 16) left right) item)
merged_at true block out item (word n) = none
merged_at false block out item x = some (pair (block + 16 * out) x item)

merge_row : Bool → ℕ → ℕ → Value → List Value → Option (List Value)
unfolding merged_at
merge_row nested block out item [] = some []
merge_row nested block out item (x ∷ xs) = do
  p ← merged_at nested block out item x
  rest ← merge_row nested block (out + 1) item xs
  some (p ∷ rest)

unfoldable pub merge_rows : Bool → ℕ → ℕ → List Value → List Value → Option (List Value)
unfolding merge_row
merge_rows nested block out [] inner = some []
merge_rows nested block out (item ∷ items) inner = do
  row ← merge_row nested block out item inner
  rest ← merge_rows nested block (out + length inner) items inner
  some (row ++ rest)

-- `block` is the address that `malloc` answers for the new block.
unfoldable pub mergemap_apply : ℕ → List Value → Batch → Option Batch
unfolding active_items merge_rows
mergemap_apply block outer batch =
    let inner = active_items batch.items in
    let total_items = length (active_items outer) * length inner in
    let merged : Option Batch = (do
      out ← merge_rows batch.payload_block block 0 (active_items outer) inner
      some (record { items = out; payload_block = true })) in
    if total_items == 0 then some (plain []) else merged

-- The last item, or the old value when there is none.
unfoldable pub peeked : Value → List Value → Value
peeked v [] = v
peeked v (x ∷ xs) = peeked x xs

-- The new cache, and what comes out: all that was buffered, once the flag is up.
unfoldable pub buffer_apply : Bool → List Value → List Value → List Value × List Value
buffer_apply ready cache items = if ready then ([], cache ++ items) else (cache ++ items, [])

-- The new cache, and what comes out: the cached item, unless it is NULL.
unfoldable pub throttle_time_apply : Bool → Value → List Value → Value × List Value
unfolding peeked
throttle_time_apply ready cache items =
    if ready
    then if address cache == 0 then (cache, []) else (null, cache ∷ [])
    else (peeked cache items, [])

abbrev keeping : Query → List Value → Option (Batch × Query)
keeping q out = some (plain out, q)

-- `query->func(data, query->ctx)`: the new list and the query with its context updated. `ready` is
-- the flag `self->ready` of the observable that the pipeline belongs to.
unfoldable pub apply : Bool → ℕ → Query → Batch → Option (Batch × Query)
unfolding filter_items map_items reduce_items scan_items last_item mergemap_apply take_until_items
    skip_until_items distinct_items distinct_until_changed_items take_items skip_items
    take_while_items skip_while_items map_to_items buffer_apply throttle_time_apply
apply ready block (filter p) b = keeping (filter p) (filter_items p b.items)
apply ready block (map f) b = keeping (map f) (map_items f b.items)
apply ready block (reduce f) b = keeping (reduce f) (reduce_items f null b.items ∷ [])
apply ready block (scan f accum) b =
    let (accum', out) = scan_items f accum b.items in some (plain out, scan f accum')
apply ready block last b = do v ← last_item none b.items; keeping last (v ∷ [])
apply ready block (merge_map outer) b = do
  out ← mergemap_apply block outer b
  some (out, merge_map outer)
apply ready block (take_until p endat) b =
    keeping (take_until p endat) (take_until_items p endat b.items)
apply ready block (skip_until p endat ended) b =
    let (ended', out) = skip_until_items p endat ended b.items in
    some (plain out, skip_until p endat ended')
apply ready block (distinct f cache) b =
    let (cache', out) = distinct_items f cache b.items in some (plain out, distinct f cache')
apply ready block (distinct_until_changed f key) b =
    let (key', out) = distinct_until_changed_items f key b.items in
    some (plain out, distinct_until_changed f key')
apply ready block (take amt count) b =
    let (count', out) = take_items amt count b.items in some (plain out, take amt count')
apply ready block (skip amt count) b =
    let (count', out) = skip_items amt count b.items in some (plain out, skip amt count')
apply ready block (take_while p) b = keeping (take_while p) (take_while_items p b.items)
apply ready block (skip_while p passed) b =
    let (passed', out) = skip_while_items p passed b.items in some (plain out, skip_while p passed')
apply ready block (map_to to) b = keeping (map_to to) (map_to_items to b.items)
apply ready block (buffer cache) b =
    let (cache', out) = buffer_apply ready cache b.items in some (plain out, buffer cache')
apply ready block (throttle_time cache) b =
    let (cache', out) = throttle_time_apply ready cache b.items in
    some (plain out, throttle_time cache')
