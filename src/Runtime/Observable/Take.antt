-- ===== src/Runtime/Observable/Take.antt =====
-- core/src/observable.c: `take` alone and in front of `map`, over items pushed one at a time.
use functional_c.Prelude.{
  ℕ, zero, suc, ◌+◌, ◌<◌, ◌≡◌, ◌≢◌, refl, Bool, true, false, Option, none, some, List, [], ◌∷◌,
  ◌++◌, arith, length, leb, ◌==◌, take,
}
use functional_c.Runtime.Value.{Value, NoToken, complete_token, is_stream_complete}
use functional_c.Runtime.Query.{Query, plain, apply, kind}
use functional_c.Runtime.Pipeline.{CompiledPipeline, ensure_compiled_pipeline, run_queries}
use functional_c.Runtime.Observable.{
  Observable, compiled, drain, pop_all, push_observable, push_each,
}

-- A subscribed observable with nothing waiting, before or after its pipeline is compiled.
abbrev pub waiting : List Query → Option CompiledPipeline → Observable
waiting handlers cp = record {
  items = plain [];
  complete = false;
  ready = false;
  subscriber = true;
  handlers = handlers;
  compiled_pipeline = cp;
}

-- The pipeline is run query by query.
abbrev pub IsGeneric : List Query → Option CompiledPipeline → Type 0
IsGeneric handlers cp =
    ((compiled (waiting handlers cp)).streamable ≡ false)
    × ((compiled (waiting handlers cp)).mergemap_then_streamable ≡ false)

-- One push into a generic pipeline: the queries run over the one item, and what they make is
-- drained.
pub push-generic :
    (blocks : ℕ → ℕ) (q : Query) (qs : List Query) (cp : Option CompiledPipeline) (x : Value)
    (after : List Query) (out emitted rest : List Value) (completed : Bool)
    → IsGeneric (q ∷ qs) cp
    → run_queries false blocks 0 (q ∷ qs) (plain (x ∷ [])) ≡ some (after, plain out)
    → drain out ≡ (emitted, completed, rest)
    → push_observable blocks (waiting (q ∷ qs) cp) x
      ≡ some (
        record (waiting after (some (compiled (waiting (q ∷ qs) cp)))) {
          items = plain rest;
          complete = completed;
        },
        emitted,
      )
unfolding push_observable pop_all
push-generic blocks q qs cp x after out emitted rest completed g ran drained =
    rw (g.0, g.1, ran) (rw drained)

pub push_each-cons :
    (blocks : ℕ → ℕ) (o o' o'' : Observable) (x : Value) (xs first later : List Value)
    → push_observable blocks o x ≡ some (o', first)
    → push_each blocks o' xs ≡ some (o'', later)
    → push_each blocks o (x ∷ xs) ≡ some (o'', first ++ later)
unfolding push_each
push_each-cons blocks o o' o'' x xs first later p q = rw p (rw q)

pub drain_one : (x : Value) → is_stream_complete x ≡ false → drain (x ∷ []) ≡ (x ∷ [], false, [])
unfolding drain
drain_one x h = rw h

drain_last :
    (x : Value)
    → is_stream_complete x ≡ false
    → drain (x ∷ complete_token ∷ []) ≡ (x ∷ [], true, [])
unfolding drain
drain_last x h = rw h

-- An observable that is complete takes nothing more.
pub push_each-complete :
    (blocks : ℕ → ℕ) (o : Observable) (xs : List Value)
    → o.complete ≡ true
    → push_each blocks o xs ≡ some (o, [])
unfolding push_each push_observable
push_each-complete blocks o [] h = refl
push_each-complete blocks o (x ∷ xs) h = ground (arith, push_each-complete blocks o xs h)

take_one_last :
    (amt count : ℕ) (blocks : ℕ → ℕ) (x : Value)
    → amt ≡ count + 1
    → run_queries false blocks 0 (Query.take amt count ∷ []) (plain (x ∷ []))
      ≡ some (Query.take amt (count + 1) ∷ [], plain (x ∷ complete_token ∷ []))
unfolding run_queries apply
take_one_last amt count blocks x e = let t : (amt == (count + 1)) ≡ true = ground arith in rw t

pub take_one_more :
    (amt count : ℕ) (blocks : ℕ → ℕ) (x : Value)
    → amt ≢ count + 1
    → run_queries false blocks 0 (Query.take amt count ∷ []) (plain (x ∷ []))
      ≡ some (Query.take amt (count + 1) ∷ [], plain (x ∷ []))
unfolding run_queries apply
take_one_more amt count blocks x e = let t : (amt == (count + 1)) ≡ false = ground arith in rw t

-- The state after a number of pushes, and what they emitted.
push_each-take_from :
    (blocks : ℕ → ℕ) (amt count k : ℕ) (cp : Option CompiledPipeline) (xs : List Value)
    → amt ≡ count + suc k
    → IsGeneric (Query.take amt count ∷ []) cp
    → NoToken xs
    → (o : Observable) × (push_each blocks (waiting (Query.take amt count ∷ []) cp) xs
        ≡ some (o, take (suc k) xs))
      × (o.complete ≡ leb (suc k) (length xs))
unfolding compiled
push_each-take_from blocks amt count k cp [] e g h =
    (waiting (Query.take amt count ∷ []) cp, unfold push_each in refl, ground arith)
push_each-take_from blocks amt count zero cp (x ∷ xs) e g h =
    let c = compiled (waiting (Query.take amt count ∷ []) cp) in
    let o : Observable = record (waiting (Query.take amt (count + 1) ∷ []) (some c)) {
      complete = true;
    } in
    (
      o,
      push_each-cons blocks _ o o x xs (x ∷ []) []
          (push-generic blocks (Query.take amt count) [] cp x _ (x ∷ complete_token ∷ []) (x ∷ [])
            [] true g (take_one_last amt count blocks x e) (drain_last x h.0))
          (push_each-complete blocks o xs refl),
      ground arith,
    )
push_each-take_from blocks amt count (suc k) cp (x ∷ xs) e g h =
    let c = compiled (waiting (Query.take amt count ∷ []) cp) in
    let (o, ran, done) =
      push_each-take_from blocks amt (count + 1) k (some c) xs (omega arith) g h.1 in
    (
      o,
      push_each-cons blocks _ _ o x xs (x ∷ []) _
          (push-generic blocks (Query.take amt count) [] cp x _ (x ∷ []) (x ∷ []) [] false g
            (take_one_more amt count blocks x (omega arith)) (drain_one x h.0))
          ran,
      ground arith,
    )

take-IsGeneric : (amt count : ℕ) → IsGeneric (Query.take amt count ∷ []) none
unfolding compiled ensure_compiled_pipeline kind
take-IsGeneric amt count = (refl, refl)

-- A subscribed observable that is piped through `take(n)`, n not 0, emits the first n of the items
-- that are pushed into it, and is complete from the n-th on.
pub push_each-take :
    (blocks : ℕ → ℕ) (n : ℕ) (xs : List Value)
    → 0 < n
    → NoToken xs
    → (o : Observable) × (push_each blocks (waiting (Query.take n 0 ∷ []) none) xs
        ≡ some (o, take n xs))
      × (o.complete ≡ leb n (length xs))
push_each-take blocks zero xs h k = absurd (omega arith)
push_each-take blocks (suc n) xs h k =
    push_each-take_from blocks (suc n) 0 n none xs (omega arith) (take-IsGeneric (suc n) 0) k
