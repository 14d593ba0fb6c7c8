-- ===== src/Runtime/Sources/Emission.antt =====
-- core/src/observable.c: what `range` and `zip` make, and what a range emits.
use functional_c.Prelude.{
  ℕ, zero, suc, ◌+◌, ◌-◌, ◌*◌, ◌^◌, ◌<◌, ◌≡◌, refl, ap, sym, subst, ◌∙◌, true, false, Option, none,
  some, List, [], ◌∷◌, length, get_elem?, min, arith, leb,
}
use functional_c.Prelude.Int.{ℤ, pos, negsuc, ◌+ℤ◌, ◌-ℤ◌, ◌≤ℤ◌, int_laws}
use functional_c.Runtime.Value.{Value, pair, NoToken, is_stream_complete}
use functional_c.Runtime.Query.{Query, Batch, plain, active_items}
use functional_c.Runtime.Observable.{
  Observable, create_observable, compiled, pipe, pop_all, subscribe,
}
use functional_c.Runtime.Pipeline.{run_queries, ensure_compiled_pipeline}
use functional_c.Runtime.Pipeline.Streamable.{streamable-AllPass}
use functional_c.Runtime.Pipeline.Equivalence.{AllPass, streaming-eq-run_queries}
use functional_c.Runtime.Sources.{long_word, fill, counted, range, zip_pairs, zip}

length-zip_pairs :
    (block i : ℕ) (left right : List Value)
    → length (zip_pairs block i left right) ≡ min (length left) (length right)
unfolding zip_pairs
length-zip_pairs block i [] right = omega arith
length-zip_pairs block i (x ∷ left) [] = omega arith
length-zip_pairs block i (x ∷ left) (y ∷ right) =
    omega (arith, length-zip_pairs block (i + 1) left right)

get_elem?-zip_pairs :
    (block i j : ℕ) (left right : List Value) (x y : Value)
    → get_elem? left j ≡ some x
    → get_elem? right j ≡ some y
    → get_elem? (zip_pairs block i left right) j ≡ some (pair (block + 16 * (i + j)) x y)
unfolding zip_pairs
get_elem?-zip_pairs block i j [] right x y h k = absurd (ground arith)
get_elem?-zip_pairs block i j (a ∷ left) [] x y h k = absurd (ground arith)
get_elem?-zip_pairs block i zero (a ∷ left) (b ∷ right) x y h k =
    let here : i + 0 ≡ i = omega arith in rw here cc
get_elem?-zip_pairs block i (suc j) (a ∷ left) (b ∷ right) x y h k =
    let next : i + suc j ≡ i + 1 + j = omega arith in
    rw next (get_elem?-zip_pairs block (i + 1) j left right x y h k)

length-fill : (m : ℤ) (i left : ℕ) → length (fill m i left) ≡ left
unfolding fill
length-fill m i zero = refl
length-fill m i (suc left) = ap suc (length-fill m (i + 1) left)

get_elem?-fill :
    (m : ℤ) (i left j : ℕ)
    → j < left
    → get_elem? (fill m i left) j ≡ some (long_word (m +ℤ pos (i + j)))
unfolding fill
get_elem?-fill m i zero j h = absurd (omega arith)
get_elem?-fill m i (suc left) zero h = let here : i + 0 ≡ i = omega arith in rw here refl
get_elem?-fill m i (suc left) (suc j) h =
    let next : i + suc j ≡ i + 1 + j = omega arith in
    rw next (get_elem?-fill m (i + 1) left j (omega arith))

-- An `int`, as a pointer, is not the end marker.
int_word-not_token :
    (n : ℤ)
    → negsuc (2 ^ 31 - 1) ≤ℤ n
    → n ≤ℤ pos (2 ^ 31 - 1)
    → is_stream_complete (long_word n) ≡ false
unfolding long_word
int_word-not_token (pos n) h k = ground arith
int_word-not_token (negsuc n) h k = ground arith

-- A zip of two makes as many pairs as the shorter list of active items has, and the pair at each
-- place has the two items that stand there.
pub zip_lem :
    (block : ℕ) (left right : Observable)
    → (length (zip block left right).items.items
        ≡ min (length (active_items left.items.items)) (length (active_items right.items.items)))
      × ((j : ℕ) (x y : Value)
          → get_elem? (active_items left.items.items) j ≡ some x
          → get_elem? (active_items right.items.items) j ≡ some y
          → get_elem? (zip block left right).items.items j ≡ some (pair (block + 16 * j) x y))
unfolding zip
zip_lem block left right = (
  length-zip_pairs block 0 (active_items left.items.items) (active_items right.items.items),
  λ j x y h k.
      let first : 0 + j ≡ j = omega arith in
      get_elem?-zip_pairs block 0 j (active_items left.items.items) (active_items right.items.items)
        x y h k
      ∙ ap (λ i. some (pair (block + 16 * i) x y)) first,
)

-- What `range` makes of its bounds.
abbrev pub Counts : ℤ → ℤ → Option Observable → Type 0
Counts low high made =
    (o : Observable) × (n : ℕ) × (made ≡ some o)
    × (length o.items.items ≡ n)
    × (low +ℤ pos n ≡ high +ℤ pos 1)
    × ((j : ℕ) → j < n → get_elem? o.items.items j ≡ some (long_word (low +ℤ pos j)))

up_to : (low high : ℤ) → low +ℤ (high -ℤ low +ℤ pos 1) ≡ high +ℤ pos 1
up_to low high = omega int_laws

count_fits :
    (low high : ℤ) (n : ℕ)
    → high ≤ℤ low +ℤ pos (2 ^ 30 - 1)
    → high -ℤ low +ℤ pos 1 ≡ pos n
    → leb n (2 ^ 30) ≡ true
count_fits low high n w e =
    let narrow : high -ℤ low +ℤ pos 1 ≤ℤ pos (2 ^ 30) = omega int_laws in
    let small : pos n ≤ℤ pos (2 ^ 30) = subst (λ c. c ≤ℤ pos (2 ^ 30)) e narrow in ground arith

-- The count is at least 1, and the loop makes as many numbers.
one_more :
    (low high c : ℤ)
    → low ≤ℤ high
    → high ≤ℤ low +ℤ pos (2 ^ 30 - 1)
    → high -ℤ low +ℤ pos 1 ≡ c
    → (n : ℕ) × (counted low c
        ≡ some (record create_observable { items = plain (fill low 0 (suc n)) }))
      × (low +ℤ pos (suc n) ≡ high +ℤ pos 1)
unfolding counted create_observable
one_more low high (pos zero) h w e =
    let sign : pos 1 ≤ℤ high -ℤ low +ℤ pos 1 = omega int_laws in
    let negative : pos 1 ≤ℤ pos 0 = subst (λ c. pos 1 ≤ℤ c) e sign in absurd (omega arith)
one_more low high (pos (suc n)) h w e =
    let fits : leb (suc n) (2 ^ 30) ≡ true = count_fits low high (suc n) w e in
    (n, rw fits refl, ap (λ c. low +ℤ c) (sym e) ∙ up_to low high)
one_more low high (negsuc n) h w e =
    let sign : pos 0 ≤ℤ high -ℤ low +ℤ pos 1 = omega int_laws in
    let negative : pos 0 ≤ℤ negsuc n = subst (λ c. pos 0 ≤ℤ c) e sign in absurd (omega arith)

-- For `low` not above `high`, and 2 ^ 30 numbers at most, a range holds the numbers from `low` to
-- `high`, in order.
range_lem :
    (low high : ℤ)
    → low ≤ℤ high
    → high ≤ℤ low +ℤ pos (2 ^ 30 - 1)
    → Counts low high (range low high)
unfolding range create_observable
range_lem low high h w =
    let (n, made, last) = one_more low high (high -ℤ low +ℤ pos 1) h w refl in
    (
      record create_observable { items = plain (fill low 0 (suc n)) },
      suc n,
      made,
      length-fill low 0 (suc n),
      last,
      λ j k.
          get_elem?-fill low 0 (suc n) j k
          ∙ ap (λ i. some (long_word (low +ℤ pos i))) (omega arith),
    )

-- The bounds of an `int`.
abbrev pub IsInt : ℤ → Type 0
IsInt n = (negsuc (2 ^ 31 - 1) ≤ℤ n) × (n ≤ℤ pos (2 ^ 31 - 1))

fill-NoToken :
    (low high : ℤ) (i left : ℕ)
    → IsInt low
    → IsInt high
    → low +ℤ pos (i + left) ≤ℤ high +ℤ pos 1
    → NoToken (fill low i left)
unfolding fill
fill-NoToken low high i zero h k le = tt
fill-NoToken low high i (suc left) h k le =
    let next : i + 1 + left ≡ i + suc left = omega arith in
    (
      int_word-not_token (low +ℤ pos i) (omega int_laws) (omega int_laws),
      fill-NoToken low high (i + 1) left h k (rw next le),
    )

subscribe-streamed :
    (blocks : ℕ → ℕ) (q : Query) (qs : List Query) (x : Value) (xs : List Value)
    → AllPass (q ∷ qs)
    → NoToken (x ∷ xs)
    → (after : List Query) × (out : Batch) × (o : Observable) × (run_queries false blocks 0
          (q ∷ qs)
          (plain (x ∷ xs))
        ≡ some (after, out))
      × (subscribe blocks none (pipe (record create_observable { items = plain (x ∷ xs) }) (q ∷ qs))
          ≡ some (o, out.items))
      × (o.complete ≡ false)
unfolding subscribe pop_all pipe create_observable compiled ensure_compiled_pipeline
subscribe-streamed blocks q qs x xs p h =
    let (after, out, stages, queries, streamed, fused) =
      streaming-eq-run_queries false blocks (q ∷ qs) (plain (x ∷ xs)) p h in
    let ended : Observable = record create_observable {
      subscriber = true;
      handlers = q ∷ qs;
      compiled_pipeline = some (record (ensure_compiled_pipeline (q ∷ qs)) { stages = stages });
    } in
    (after, out, ended, queries, rw (streamable-AllPass (q ∷ qs) p) (rw streamed refl), refl)

-- For `int` bounds with `low` not above `high` and 2 ^ 30 numbers at most: subscribing to the range
-- from `low` to `high`, piped through queries that pass items on, emits what the queries make one
-- after the other of its numbers, and does not complete it.
pub subscribe-range :
    (blocks : ℕ → ℕ) (low high : ℤ) (q : Query) (qs : List Query)
    → IsInt low
    → IsInt high
    → low ≤ℤ high
    → high ≤ℤ low +ℤ pos (2 ^ 30 - 1)
    → AllPass (q ∷ qs)
    → (o : Observable) × (after : List Query) × (out : Batch) × (o' : Observable) × (range low high
        ≡ some o)
      × (run_queries false blocks 0 (q ∷ qs) o.items ≡ some (after, out))
      × (subscribe blocks none (pipe o (q ∷ qs)) ≡ some (o', out.items))
      × (o'.complete ≡ false)
unfolding range fill
subscribe-range blocks low high q qs h k le w p =
    let (n, made, last) = one_more low high (high -ℤ low +ℤ pos 1) le w refl in
    let start : 0 + suc n ≡ suc n = omega arith in
    let bound : low +ℤ pos (0 + suc n) ≤ℤ high +ℤ pos 1 = rw start (rw last (omega arith)) in
    let numbers = fill-NoToken low high 0 (suc n) h k bound in
    let (after, out, o', queries, emitted, open_still) =
      subscribe-streamed blocks q qs (long_word (low +ℤ pos 0)) (fill low 1 n) p numbers in
    (
      record create_observable { items = plain (fill low 0 (suc n)) },
      after,
      out,
      o',
      made,
      queries,
      emitted,
      open_still,
    )
