-- ===== src/Runtime/Observable/Leaks.antt =====
-- core/src/observable.c: where the end marker of `take` is lost, and the limit with it.
use functional_c.Prelude.{
  ℕ, ◌+◌, ◌≤◌, ◌<◌, ◌^◌, length, ◌≡◌, refl, Bool, false, Option, none, some, List, [], ◌∷◌, map,
  Bool-cases, inl, inr, arith, ◌==◌,
}
use functional_c.Runtime.Value.{Value, NoToken, complete_token, is_stream_complete}
use functional_c.Runtime.Query.{Query, plain, apply, filter_items, take_until_items, kind}
use functional_c.Runtime.Pipeline.{CompiledPipeline, ensure_compiled_pipeline, run_queries}
use functional_c.Runtime.Observable.{Observable, compiled, push_each}
use functional_c.Runtime.Observable.Take.{
  waiting, IsGeneric, push-generic, push_each-cons, drain_one, take_one_more,
}

push_each-take_past :
    (blocks : ℕ → ℕ) (amt count : ℕ) (cp : Option CompiledPipeline) (xs : List Value)
    → amt ≤ count
    → IsGeneric (Query.take amt count ∷ []) cp
    → NoToken xs
    → (o : Observable) × (push_each blocks (waiting (Query.take amt count ∷ []) cp) xs
        ≡ some (o, xs))
      × (o.complete ≡ false)
unfolding compiled
push_each-take_past blocks amt count cp [] e g h =
    (waiting (Query.take amt count ∷ []) cp, unfold push_each in refl, refl)
push_each-take_past blocks amt count cp (x ∷ xs) e g h =
    let c = compiled (waiting (Query.take amt count ∷ []) cp) in
    let (o, ran, done) =
      push_each-take_past blocks amt (count + 1) (some c) xs (omega arith) g h.1 in
    (
      o,
      push_each-cons blocks _ _ o x xs (x ∷ []) _
          (push-generic blocks (Query.take amt count) [] cp x _ (x ∷ []) (x ∷ []) [] false g
            (take_one_more amt count blocks x (omega arith)) (drain_one x h.0))
          ran,
      done,
    )

-- `take(0)` takes everything, of less than 2 ^ 31 items pushed one at a time, and does not complete:
-- the count is compared after it was raised, and only for equality. (With more the count, an `int`,
-- overflows.)
pub push_each-take_zero :
    (blocks : ℕ → ℕ) (xs : List Value)
    → length xs < 2 ^ 31
    → NoToken xs
    → (o : Observable) × (push_each blocks (waiting (Query.take 0 0 ∷ []) none) xs ≡ some (o, xs))
      × (o.complete ≡ false)
unfolding compiled ensure_compiled_pipeline kind
push_each-take_zero blocks xs few h =
    push_each-take_past blocks 0 0 none xs (omega arith) (refl, refl) h

module _ (f : Value → Value) (clean : (v : Value) → is_stream_complete (f v) ≡ false) where
  take_map_one :
      (amt count : ℕ) (blocks : ℕ → ℕ) (x : Value)
      → is_stream_complete x ≡ false
      → run_queries false blocks 0 (Query.take amt count ∷ Query.map f ∷ []) (plain (x ∷ []))
        ≡ some (Query.take amt (count + 1) ∷ Query.map f ∷ [], plain (f x ∷ []))
  unfolding run_queries apply
  take_map_one amt count blocks x h = elim (Bool-cases (amt == (count + 1))) [
    | inl e ↦ rw e (rw h)
    | inr e ↦ rw e (rw h)
  ]

  push_each-take-map_from :
      (blocks : ℕ → ℕ) (amt count : ℕ) (cp : Option CompiledPipeline) (xs : List Value)
      → IsGeneric (Query.take amt count ∷ Query.map f ∷ []) cp
      → NoToken xs
      → (o : Observable) × (push_each blocks
            (waiting (Query.take amt count ∷ Query.map f ∷ []) cp)
            xs
          ≡ some (o, map f xs))
        × (o.complete ≡ false)
  unfolding compiled
  push_each-take-map_from blocks amt count cp [] g h =
      (waiting (Query.take amt count ∷ Query.map f ∷ []) cp, unfold push_each in refl, refl)
  push_each-take-map_from blocks amt count cp (x ∷ xs) g h =
      let c = compiled (waiting (Query.take amt count ∷ Query.map f ∷ []) cp) in
      let (o, ran, done) = push_each-take-map_from blocks amt (count + 1) (some c) xs g h.1 in
      (
        o,
        push_each-cons blocks _ _ o x xs (f x ∷ []) _
            (push-generic blocks (Query.take amt count) (Query.map f ∷ []) cp x _ (f x ∷ [])
              (f x ∷ []) [] false g (take_map_one amt count blocks x h.0)
              (drain_one (f x) (clean x)))
            ran,
        done,
      )

  -- With a `map` behind it `take(n)` does not limit the items that are pushed one at a time: `map`
  -- drops the end marker, so all of them come through, whatever n is.
  pub push_each-take-map :
      (blocks : ℕ → ℕ) (n : ℕ) (xs : List Value)
      → NoToken xs
      → (o : Observable) × (push_each blocks (waiting (Query.take n 0 ∷ Query.map f ∷ []) none) xs
          ≡ some (o, map f xs))
        × (o.complete ≡ false)
  unfolding compiled ensure_compiled_pipeline kind
  push_each-take-map blocks n xs h = push_each-take-map_from blocks n 0 none xs (refl, refl) h

-- A `filter` that refuses the end marker undoes `takeUntil` before it: what comes out of one list is
-- what comes out with no `takeUntil` at all.
pub filter-take_until :
    (p : Value → Bool) (test : Value → Value → Bool) (endat : Value) (xs : List Value)
    → p complete_token ≡ false
    → NoToken xs
    → filter_items p (take_until_items test endat xs) ≡ filter_items p xs
unfolding filter_items take_until_items
filter-take_until p test endat [] h k = refl
filter-take_until p test endat (x ∷ xs) h k = elim (Bool-cases (test x endat)) [
  | inl e ↦ rw k.0 (rw e (rw h (rw (filter-take_until p test endat xs h k.1))))
  | inr e ↦ rw k.0 (rw e (rw (filter-take_until p test endat xs h k.1)))
]
