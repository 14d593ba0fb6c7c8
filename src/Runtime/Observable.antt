-- ===== src/Runtime/Observable.antt =====
-- core/src/observable.c: observables, and `pop_all`, which runs the pipeline of one.
pub mod Leaks
pub mod Take
mod Tests
use functional_c.Prelude.{
  ◌>>=◌, ℕ, zero, suc, ◌+◌, ◌-◌, ◌*◌, Bool, true, false, not, ◌&&◌, ◌||◌, Option, none, some, List,
  [], ◌∷◌, ◌++◌, if◌then◌else◌, ltb, leb, length,
}
use functional_c.Runtime.Value.{Value, word, null, is_stream_complete}
use functional_c.Runtime.Query.{Query, Batch, plain, apply}
use functional_c.Runtime.Pipeline.{
  CompiledStage, CompiledPipeline, ensure_compiled_pipeline, pop_all_streaming_compiled,
  run_queries, behind_first,
}

-- `struct Observable`, with the chain of `emit_handler`s along `pipe` as a list. `subscriber` says
-- whether one is set. From the compilation on, the contexts of a pipeline that is streamed live in
-- the compiled stages; in C both copies point to the same contexts, and only one is ever run.
-- `on_subscription` is in `subscribe`, and the `cache` field is never used.
pub record Observable : Type 0 where
  pub items : Batch
  pub complete : Bool
  pub ready : Bool
  pub subscriber : Bool
  pub handlers : List Query
  pub compiled_pipeline : Option CompiledPipeline

unfoldable pub create_observable : Observable
create_observable = record {
  items = plain [];
  complete = false;
  ready = false;
  subscriber = false;
  handlers = [];
  compiled_pipeline = none;
}

pub empty : Observable
unfolding create_observable
empty = record create_observable { complete = true }

-- `pipe(self, count, ...)` on an observable that has no handlers yet.
unfoldable pub pipe : Observable → List Query → Observable
pipe o queries = record o { handlers = queries }

-- The pipeline as `ensure_compiled_pipeline` leaves it: compiled at most once.
unfoldable pub compiled : Observable → CompiledPipeline
compiled o = elim o.compiled_pipeline [ none ↦ ensure_compiled_pipeline o.handlers | some c ↦ c ]

-- The drain loop: the items before the first end marker, whether one was met, and what is left.
pub drain : List Value → List Value × Bool × List Value
drain [] = ([], false, [])
drain (x ∷ xs) =
    let (out, complete, rest) = drain xs in
    if is_stream_complete x then ([], true, xs) else (x ∷ out, complete, rest)

-- What reaches the subscriber.
pub delivered : Observable → List Value → List Value
delivered o out = if o.subscriber then out else []

-- What a call of `pop_all` ends with: the observable and the values that the subscriber was called
-- with, in order. (The subscriber itself does not call back into the observable.)
abbrev pub Emitted : Type 0
Emitted = Observable × List Value

-- The end of the streaming branches: the data is freed and replaced by a new list.
after_streaming :
    Observable → CompiledPipeline → List Query → List CompiledStage × List Value × Bool → Emitted
unfolding delivered
after_streaming o c handlers (stages, out, completed) = (
  record o {
    items = plain [];
    complete = completed;
    handlers = handlers;
    compiled_pipeline = some (record c { stages = stages });
  },
  delivered o out,
)

-- The drain loop over the list that the queries made.
drain_all : Observable → Batch → Emitted
unfolding drain delivered
drain_all o b =
    let (out, completed, rest) = drain b.items in
    (
      record o { items = record b { items = rest }; complete = completed; ready = false },
      delivered o out,
    )

-- The branch that streams the whole pipeline.
pop_streamed : Observable → CompiledPipeline → Emitted
unfolding after_streaming
pop_streamed o c =
    after_streaming o c o.handlers (pop_all_streaming_compiled c.stages o.items.items)

-- `merge_map` over the whole list, then the stages behind it in the streaming loop.
pop_merged : (ℕ → ℕ) → Observable → CompiledPipeline → List Query → Option Emitted
unfolding after_streaming behind_first
pop_merged blocks o c [] = some (pop_streamed o c)
pop_merged blocks o c (q ∷ qs) = do
  r ← apply o.ready (blocks 0) q o.items
  let (stages, out, completed) = pop_all_streaming_compiled (behind_first c.stages) r.0.items
  let all : List CompiledStage = put_back c.stages stages
  some (after_streaming o c (r.1 ∷ qs) (all, out, completed))
  where
    put_back : List CompiledStage → List CompiledStage → List CompiledStage
    put_back [] stages = stages
    put_back (s ∷ old) stages = s ∷ stages

-- One query after the other, then the drain loop.
pop_generic : (ℕ → ℕ) → Observable → CompiledPipeline → Option Emitted
unfolding drain_all
pop_generic blocks o c = do
  r ← run_queries o.ready blocks 0 o.handlers o.items
  some (drain_all (record o { handlers = r.0; compiled_pipeline = some c }) r.1)

-- `pop_all`. `none` is a read out of bounds.
pop_piped : (ℕ → ℕ) → Observable → CompiledPipeline → Option Emitted
unfolding pop_streamed pop_merged pop_generic
pop_piped blocks o c =
    if c.streamable
    then some (pop_streamed o c)
    else if c.mergemap_then_streamable
    then pop_merged blocks o c o.handlers
    else pop_generic blocks o c

no_items : Batch → Bool
no_items b = elim b.items [ [] ↦ true | _ ∷ _ ↦ false ]

pop_handled : (ℕ → ℕ) → Observable → List Query → Option Emitted
unfolding drain_all pop_piped compiled
pop_handled blocks o [] = some (drain_all o o.items)
pop_handled blocks o (q ∷ qs) = pop_piped blocks o (compiled o)

unfoldable pub pop_all : (ℕ → ℕ) → Observable → Option Emitted
unfolding pop_handled no_items
pop_all blocks o =
    if o.complete
    then some (o, [])
    else if no_items o.items && not o.ready
    then some (o, [])
    else pop_handled blocks o o.handlers

-- `push_observable`: nothing is taken by an observable that is complete.
unfoldable pub push_observable : (ℕ → ℕ) → Observable → Value → Option Emitted
push_observable blocks o item =
    if o.complete
    then some (o, [])
    else pop_all blocks
        (record o { items = record o.items { items = o.items.items ++ (item ∷ []) } })

-- `subscribe`: a factory's observable is pushed as a value before the first run.
unfoldable pub subscribe : (ℕ → ℕ) → Option Value → Observable → Option Emitted
subscribe blocks on_subscription o =
    pop_all blocks (record (made on_subscription) { subscriber = true })
  where
    made : Option Value → Observable
    made none = o
    made (some v) = record o { items = record o.items { items = o.items.items ++ (v ∷ []) } }

-- `push_observable` for each item in turn, with all that is emitted.
pub push_each : (ℕ → ℕ) → Observable → List Value → Option Emitted
push_each blocks o [] = some (o, [])
push_each blocks o (x ∷ xs) = do
  r ← push_observable blocks o x
  rest ← push_each blocks r.0 xs
  some (rest.0, r.1 ++ rest.1)
