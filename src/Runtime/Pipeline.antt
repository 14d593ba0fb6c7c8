-- ===== src/Runtime/Pipeline.antt =====
-- core/src/observable.c: the compiled pipeline (`ensure_compiled_pipeline`), which joins runs of
-- `map`, and the streaming loop (`pop_all_streaming_compiled`), which takes one item at a time
-- through all the stages and makes no intermediate list.
pub mod Stages
pub mod Equivalence
pub mod Terminal
pub mod Streamable
mod Tests
use functional_c.Prelude.{
  ◌>>=◌, ℕ, zero, suc, ◌+◌, Bool, true, false, not, ◌&&◌, ◌||◌, Option, none, some, List, [], ◌∷◌,
  ◌++◌, if◌then◌else◌, length,
}
use functional_c.Runtime.Value.{Value, same_pointer, null, is_stream_complete}
use functional_c.Runtime.Query.{Query, QueryKind, Batch, kind, apply}

-- `CompiledStage`: a query with its kind and context, or (`query` NULL) a `CompiledMapChain`.
pub data CompiledStage : Type 0 where
  single : Query → CompiledStage
  chain : List (Value → Value) → CompiledStage

pub record CompiledPipeline : Type 0 where
  pub stages : List CompiledStage
  pub streamable : Bool
  pub mergemap_then_streamable : Bool

-- The run of `map` queries at the head, and the queries behind it.
pub map_run : List Query → List (Value → Value) × List Query
map_run [] = ([], [])
map_run (Query.map f ∷ qs) = let (fs, rest) = map_run qs in (f ∷ fs, rest)
map_run (q ∷ qs) = ([], q ∷ qs)

stage_kind : CompiledStage → QueryKind
unfolding kind
stage_kind (single q) = kind q
stage_kind (chain fs) = QueryKind.map_chain

-- The stage of a `map` with the run `fs` behind it, before the stages of what follows: alone if the
-- run is empty (`map_count == 1`), else a joined chain.
pub join_stage :
    (Value → Value)
    → List (Value → Value)
    → List CompiledStage
    → List CompiledStage
    → List CompiledStage
join_stage f [] alone joined = single (Query.map f) ∷ alone
join_stage f (g ∷ gs) alone joined = chain (f ∷ g ∷ gs) ∷ joined

-- The main loop of `ensure_compiled_pipeline`, on the count of handlers that its first loop makes.
unfoldable pub compile_from : ℕ → List Query → List CompiledStage
unfolding map_run join_stage
compile_from zero qs = []
compile_from (suc count) [] = []
compile_from (suc count) (Query.map f ∷ qs) =
    let (fs, rest) = map_run qs in
    let alone = compile_from count qs in
    let joined = compile_from count rest in join_stage f fs alone joined
compile_from (suc count) (q ∷ qs) = single q ∷ compile_from count qs

unfoldable pub compile_stages : List Query → List CompiledStage
unfolding compile_from
compile_stages qs = compile_from (length qs) qs

-- One round of `stage_chain_is_streamable`: a kind that can be streamed, and (`seen`) nothing
-- behind a reduce or a last.
streamable_kind : QueryKind → Bool
streamable_kind QueryKind.generic = false
streamable_kind _ = true

is_terminal : QueryKind → Bool
is_terminal QueryKind.reduce = true
is_terminal QueryKind.last = true
is_terminal _ = false

streamable_from : Bool → List CompiledStage → Bool
unfolding streamable_kind is_terminal stage_kind
streamable_from seen [] = true
streamable_from seen (s ∷ stages) =
    streamable_kind (stage_kind s)
    && not seen
    && streamable_from (is_terminal (stage_kind s)) stages

unfoldable pub stage_chain_is_streamable : List CompiledStage → Bool
unfolding streamable_from
stage_chain_is_streamable stages = streamable_from false stages

-- `compiled->count > 1` and the first stage's function is `mergemap_apply`.
starts_with_mergemap : List CompiledStage → Bool
starts_with_mergemap (single (Query.merge_map outer) ∷ _ ∷ _) = true
starts_with_mergemap _ = false

unfoldable pub behind_first : List CompiledStage → List CompiledStage
behind_first [] = []
behind_first (s ∷ stages) = stages

unfoldable pub ensure_compiled_pipeline : List Query → CompiledPipeline
unfolding compile_stages stage_chain_is_streamable starts_with_mergemap behind_first
ensure_compiled_pipeline qs =
    let stages = compile_stages qs in
    record {
      stages = stages;
      streamable = stage_chain_is_streamable stages;
      mergemap_then_streamable =
          starts_with_mergemap stages && stage_chain_is_streamable (behind_first stages);
    }

-- The local variables of the streaming loop that outlive an item.
pub record Locals : Type 0 where
  pub has_reduce : Bool
  pub has_last : Bool
  pub last_set : Bool
  pub reduced : Value
  pub last_value : Value

abbrev pub no_locals : Locals
no_locals = record {
  has_reduce = false;
  has_last = false;
  last_set = false;
  reduced = null;
  last_value = null;
}

unfoldable pub run_chain : List (Value → Value) → Value → Value
run_chain [] v = v
run_chain (f ∷ fs) v = run_chain fs (f v)

-- What the loop over the stages leaves behind: the stages with their contexts, the locals, and
-- the value that is emitted, if the item is kept.
abbrev pub Passed : Type 0
Passed = List CompiledStage × Locals × Option Value

abbrev pub behind : CompiledStage → Passed → Passed
behind s (stages, l, v) = (s ∷ stages, l, v)

-- One item through the stages. The branches that `break` out of the loop leave the later stages
-- as they are; `last` clears `keep_item` and goes on.
unfoldable pub run_item : Bool → List CompiledStage → Value → Locals → Passed
unfolding run_chain
run_item keep [] v l = ([], l, if keep then some v else none)
run_item keep (chain fs ∷ r) v l = behind (chain fs) (run_item keep r (run_chain fs v) l)
run_item keep (single (Query.map f) ∷ r) v l =
    behind (single (Query.map f)) (run_item keep r (f v) l)
run_item keep (single (Query.filter p) ∷ r) v l =
    let passed = behind (single (Query.filter p)) (run_item keep r v l) in
    if p v then passed else (single (Query.filter p) ∷ r, l, none)
run_item keep (single (Query.reduce f) ∷ r) v l =
    (single (Query.reduce f) ∷ r, record l { reduced = f l.reduced v; has_reduce = true }, none)
run_item keep (single (Query.scan f accum) ∷ r) v l =
    behind (single (Query.scan f (f accum v))) (run_item keep r (f accum v) l)
run_item keep (single (Query.distinct_until_changed f key) ∷ r) v l =
    let passed = behind (single (Query.distinct_until_changed f (f v))) (run_item keep r v l) in
    if same_pointer (f v) key
    then (single (Query.distinct_until_changed f key) ∷ r, l, none)
    else passed
run_item keep (single (Query.skip_while p passed_now) ∷ r) v l =
    let passed = behind (single (Query.skip_while p true)) (run_item keep r v l) in
    if not passed_now && p v then (single (Query.skip_while p passed_now) ∷ r, l, none) else passed
run_item keep (single Query.last ∷ r) v l =
    behind (single Query.last)
      (run_item false r v (record l { last_value = v; last_set = true; has_last = true }))
run_item keep (single q ∷ r) v l = behind (single q) (run_item keep r v l)

-- The loop over the items up to the end marker: the stages and the locals at the end, the values
-- emitted, and whether the marker was met.
pub record Streamed : Type 0 where
  pub stages : List CompiledStage
  pub locals : Locals
  pub emitted : List Value
  pub completed : Bool

abbrev pub emit : Option Value → Streamed → Streamed
emit none r = r
emit (some v) r = record r { emitted = v ∷ r.emitted }

unfoldable pub stream_items : List CompiledStage → List Value → Locals → Streamed
unfolding run_item
stream_items stages [] l = record { stages = stages; locals = l; emitted = []; completed = false }
stream_items stages (x ∷ xs) l =
    let (stages', l', v) = run_item true stages x l in
    let rest = stream_items stages' xs l' in
    if is_stream_complete x
    then record { stages = stages; locals = l; emitted = []; completed = true }
    else emit v rest

-- What is emitted behind the loop.
unfoldable pub final_value : Locals → List Value
final_value l =
    if l.has_reduce
    then l.reduced ∷ []
    else if l.has_last && l.last_set
    then l.last_value ∷ []
    else []

-- `pop_all_streaming_compiled`: the stages as they are left, what a subscriber gets, and whether
-- the stream is complete.
unfoldable pub pop_all_streaming_compiled :
    List CompiledStage → List Value → List CompiledStage × List Value × Bool
unfolding stream_items final_value
pop_all_streaming_compiled stages items =
    let r = stream_items stages items no_locals in
    (r.stages, r.emitted ++ final_value r.locals, r.completed)

-- The other way, which `pop_all` takes for the rest: one query after the other over whole lists.
-- `blocks i` is what `malloc` answers if the query at place `i` asks for a block.
unfoldable pub run_queries : Bool → (ℕ → ℕ) → ℕ → List Query → Batch → Option (List Query × Batch)
unfolding apply
run_queries ready blocks i [] b = some ([], b)
run_queries ready blocks i (q ∷ qs) b = do
  r ← apply ready (blocks i) q b
  rest ← run_queries ready blocks (i + 1) qs r.0
  some (r.1 ∷ rest.0, rest.1)
