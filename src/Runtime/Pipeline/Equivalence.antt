-- ===== src/Runtime/Pipeline/Equivalence.antt =====
-- The streaming loop gives what running one query after the other gives.
use functional_c.Prelude.{
  ◌>>=◌, append-nil, ℕ, zero, suc, ◌+◌, ◌≡◌, ◌≤◌, refl, ap, ap₂, sym, subst, ◌∙◌, Bool, false,
  Option, none, some, List, [], ◌∷◌, ◌++◌, arith, length,
}
use functional_c.Runtime.Value.{Value, NoToken}
use functional_c.Runtime.Query.{
  Query, Batch, plain, apply, filter_items, map_items, scan_items, distinct_until_changed_items,
  skip_while_items,
}
use functional_c.Runtime.Pipeline.{
  CompiledStage, single, chain, Locals, no_locals, Streamed, emit, run_item, stream_items,
  final_value, pop_all_streaming_compiled, run_queries, map_run, join_stage, compile_from,
  compile_stages,
}
use functional_c.Runtime.Pipeline.Stages.{
  Passes, under, stream-cons, stream-nil, stream-map, stream-filter, stream-scan,
  stream-distinct_until_changed, stream-skip_while, map_items-NoToken, filter_items-NoToken,
  chain_items, stream-chain, AllClean, chain_items-NoToken, scan_items-NoToken,
  distinct_until_changed_items-NoToken, skip_while_items-NoToken,
}

abbrev pub map_queries : List (Value → Value) → List Query → List Query
map_queries [] qs = qs
map_queries (f ∷ fs) qs = Query.map f ∷ map_queries fs qs

-- The stages that a list of queries may be compiled to: runs of `map` are joined or left alone.
pub data Fused : List Query → List CompiledStage → Type 0 where
  nil : Fused [] []
  one :
      (q : Query) {qs : List Query} {st : List CompiledStage}
      → Fused qs st
      → Fused (q ∷ qs) (single q ∷ st)
  run :
      (fs : List (Value → Value)) {qs all : List Query} {st : List CompiledStage}
      → all ≡ map_queries fs qs
      → Fused qs st
      → Fused all (chain fs ∷ st)

abbrev pub AllPass : List Query → Type 0
AllPass [] = Unit
AllPass (q ∷ qs) = Passes q × AllPass qs

-- A query that passes items on, as a step over whole lists: its new self, its list, and the
-- streaming loop over that list behind it.
record Step (ready : Bool) (block : ℕ) (q : Query) (b : Batch) : Type 0 where
  after : Query
  out : Batch
  applied : apply ready block q b ≡ some (out, after)
  clean : NoToken out.items
  streamed :
      (st : List CompiledStage) (l : Locals)
      → stream_items (single q ∷ st) b.items l ≡ under (single after) (stream_items st out.items l)

step :
    (ready : Bool) (block : ℕ) (q : Query) (b : Batch)
    → Passes q
    → NoToken b.items
    → Step ready block q b
unfolding apply
step ready block (Query.map f) b p h = record {
  after = Query.map f;
  out = plain (map_items f b.items);
  applied = refl;
  clean = map_items-NoToken f p b.items h;
  streamed = λ st l. stream-map f p b.items st l h;
}
step ready block (Query.filter f) b p h = record {
  after = Query.filter f;
  out = plain (filter_items f b.items);
  applied = refl;
  clean = filter_items-NoToken f b.items h;
  streamed = λ st l. stream-filter f b.items st l h;
}
step ready block (Query.scan f a) b p h = record {
  after = Query.scan f (scan_items f a b.items).0;
  out = plain (scan_items f a b.items).1;
  applied = refl;
  clean = scan_items-NoToken f p a b.items h;
  streamed = λ st l. stream-scan f p a b.items st l h;
}
step ready block (Query.distinct_until_changed f k) b p h = record {
  after = Query.distinct_until_changed f (distinct_until_changed_items f k b.items).0;
  out = plain (distinct_until_changed_items f k b.items).1;
  applied = refl;
  clean = distinct_until_changed_items-NoToken f k b.items h;
  streamed = λ st l. stream-distinct_until_changed f k b.items st l h;
}
step ready block (Query.skip_while f passed) b p h = record {
  after = Query.skip_while f (skip_while_items f passed b.items).0;
  out = plain (skip_while_items f passed b.items).1;
  applied = refl;
  clean = skip_while_items-NoToken f passed b.items h;
  streamed = λ st l. stream-skip_while f passed b.items st l h;
}
step ready block _ b p h = absurd p

abbrev pub infront : List CompiledStage → Streamed → Streamed
infront st r = record r { stages = st ++ r.stages }

abbrev pub continue : List Query → Option (List Query × Batch) → Option (List Query × Batch)
continue after r = r >>= λ r. some (after ++ r.0, r.1)

-- Passing queries at the head of a pipeline, in both ways of running it, with any stages behind.
pub record Split (ready : Bool) (blocks : ℕ → ℕ) (i : ℕ) (qs : List Query) (st : List CompiledStage)
    (b : Batch) : Type 0 where
  pub after : List Query
  pub out : Batch
  pub next : ℕ
  pub stages : List CompiledStage
  pub fused : Fused after stages
  pub clean : NoToken out.items
  pub ran :
      (tail : List Query)
      → run_queries ready blocks i (qs ++ tail) b
        ≡ continue after (run_queries ready blocks next tail out)
  pub streamed :
      (tail : List CompiledStage) (l : Locals)
      → stream_items (st ++ tail) b.items l ≡ infront stages (stream_items tail out.items l)

continue-cons :
    (q : Query) (after : List Query) (r : Option (List Query × Batch))
    → (continue after r >>= λ rest. some (q ∷ rest.0, rest.1)) ≡ continue (q ∷ after) r
continue-cons q after none = refl
continue-cons q after (some r) = refl

continue_nil : (r : Option (List Query × Batch)) → r ≡ continue [] r
continue_nil none = refl
continue_nil (some r) = refl

map_queries-append :
    (fs : List (Value → Value)) (qs tail : List Query)
    → map_queries fs qs ++ tail ≡ map_queries fs (qs ++ tail)
map_queries-append [] qs tail = refl
map_queries-append (f ∷ fs) qs tail = ap (λ r. Query.map f ∷ r) (map_queries-append fs qs tail)

continue-map_queries :
    (fs : List (Value → Value)) (after : List Query) (r : Option (List Query × Batch))
    → continue (map_queries fs []) (continue after r) ≡ continue (map_queries fs after) r
continue-map_queries fs after none = refl
continue-map_queries fs after (some (qs, b)) =
    ap (λ all. some (all, b))
      (map_queries-append fs [] (after ++ qs) ∙ sym (map_queries-append fs after qs))

AllPass-map_queries :
    (fs : List (Value → Value)) (qs : List Query)
    → AllPass (map_queries fs qs)
    → AllClean fs × AllPass qs
AllPass-map_queries [] qs p = (tt, p)
AllPass-map_queries (f ∷ fs) qs p =
    let (clean, rest) = AllPass-map_queries fs qs p.1 in ((p.0, clean), rest)

module _ (ready : Bool) (blocks : ℕ → ℕ) where
  -- The queries of a joined run, one after the other.
  ran_chain :
      (fs : List (Value → Value)) (i : ℕ) (b : Batch)
      → (next : ℕ) × (out : Batch) × (out.items ≡ chain_items fs b.items)
        × ((tail : List Query)
            → run_queries ready blocks i (map_queries fs tail) b
              ≡ continue (map_queries fs []) (run_queries ready blocks next tail out))
  unfolding chain_items run_queries apply
  ran_chain [] i b = (i, b, refl, λ tail. continue_nil _)
  ran_chain (f ∷ fs) i b =
      let (next, out, same, ran) = ran_chain fs (i + 1) (plain (map_items f b.items)) in
      (next, out, same, λ tail. rw (ran tail) (continue-cons (Query.map f) _ _))

  pub split :
      (i : ℕ) {qs : List Query} {st : List CompiledStage} (b : Batch)
      → Fused qs st
      → AllPass qs
      → NoToken b.items
      → Split ready blocks i qs st b
  unfolding run_queries
  split i b nil p h = record {
    after = [];
    out = b;
    next = i;
    stages = [];
    fused = nil;
    clean = h;
    ran = λ tail. continue_nil _;
    streamed = λ tail l. refl;
  }
  split i b (one q f) p h =
      let s = step ready (blocks i) q b p.0 h in
      let r = split (i + 1) s.out f p.1 s.clean in
      record {
        after = s.after ∷ r.after;
        out = r.out;
        next = r.next;
        stages = single s.after ∷ r.stages;
        fused = one s.after r.fused;
        clean = r.clean;
        ran = λ tail. rw s.applied (rw (r.ran tail) (continue-cons s.after r.after _));
        streamed = λ tail l. s.streamed _ l ∙ ap (under (single s.after)) (r.streamed tail l);
      }
  split i {qs = all} b (run fs {qs} {st = st} e f) p h =
      let (clean, passes) = AllPass-map_queries fs qs (subst AllPass e p) in
      let (next, out, same, ran) = ran_chain fs i b in
      let none_left : NoToken out.items =
        subst NoToken (sym same) (chain_items-NoToken fs b.items clean h) in
      let r = split next out f passes none_left in
      record {
        after = map_queries fs r.after;
        out = r.out;
        next = r.next;
        stages = chain fs ∷ r.stages;
        fused = run fs refl r.fused;
        clean = r.clean;
        ran = λ tail.
            rw (e, map_queries-append fs qs tail, ran (qs ++ tail), r.ran tail)
              (continue-map_queries fs r.after _);
        streamed = λ tail l.
            stream-chain fs b.items _ l clean h
            ∙ ap (λ xs. under (chain fs) (stream_items (st ++ tail) xs l)) (sym same)
            ∙ ap (under (chain fs)) (r.streamed tail l);
      }

-- What `compile_from` makes of the queries is one of those stage lists.
pub map_run-split :
    (qs : List Query)
    → (qs ≡ map_queries (map_run qs).0 (map_run qs).1) × (length (map_run qs).1 ≤ length qs)
unfolding map_run
map_run-split [] = (refl, omega arith)
map_run-split (Query.map f ∷ qs) =
    let (e, less) = map_run-split qs in (ap (λ r. Query.map f ∷ r) e, omega arith)
map_run-split (_ ∷ qs) = (refl, omega arith)

join_run :
    (f : Value → Value) (qs rest : List Query) (fs : List (Value → Value))
    (joined alone : List CompiledStage)
    → qs ≡ map_queries fs rest
    → Fused rest joined
    → Fused qs alone
    → Fused (Query.map f ∷ qs) (join_stage f fs alone joined)
unfolding join_stage
join_run f qs rest [] joined alone e j a = one (Query.map f) a
join_run f qs rest (g ∷ fs) joined alone e j a = run (f ∷ g ∷ fs) (ap (λ r. Query.map f ∷ r) e) j

compile_from-Fused : (n : ℕ) (qs : List Query) → length qs ≤ n → Fused qs (compile_from n qs)
unfolding compile_from
compile_from-Fused zero [] h = nil
compile_from-Fused zero (q ∷ qs) h = absurd (omega arith)
compile_from-Fused (suc n) [] h = nil
compile_from-Fused (suc n) (Query.map f ∷ qs) h =
    let (e, less) = map_run-split qs in
    join_run f qs (map_run qs).1 (map_run qs).0 (compile_from n (map_run qs).1) (compile_from n qs)
      e (compile_from-Fused n (map_run qs).1 (omega arith)) (compile_from-Fused n qs (omega arith))
compile_from-Fused (suc n) (q ∷ qs) h = one q (compile_from-Fused n qs (omega arith))

pub compile_stages-Fused : (qs : List Query) → Fused qs (compile_stages qs)
unfolding compile_stages
compile_stages-Fused qs = compile_from-Fused (length qs) qs (omega arith)

stream-no_stages :
    (xs : List Value) (l : Locals)
    → NoToken xs
    → stream_items [] xs l ≡ record { stages = []; locals = l; emitted = xs; completed = false }
unfolding run_item
stream-no_stages [] l h = stream-nil [] l
stream-no_stages (x ∷ xs) l h =
    stream-cons [] x xs l h.0 ∙ ap (emit (some x)) (stream-no_stages xs l h.1)

abbrev pub finish : Streamed → List CompiledStage × List Value × Bool
finish r = (r.stages, r.emitted ++ final_value r.locals, r.completed)

-- With passing queries only, the streaming loop over the compiled stages emits exactly the list
-- that the queries make one after the other, leaves stages that the changed queries compile to,
-- and does not complete the stream.
pub streaming-eq-run_queries :
    (ready : Bool) (blocks : ℕ → ℕ) (qs : List Query) (b : Batch)
    → AllPass qs
    → NoToken b.items
    → (after : List Query) × (out : Batch) × (stages : List CompiledStage) × (run_queries ready
          blocks 0 qs b
        ≡ some (after, out))
      × (pop_all_streaming_compiled (compile_stages qs) b.items ≡ (stages, out.items, false))
      × Fused after stages
unfolding pop_all_streaming_compiled final_value run_queries
streaming-eq-run_queries ready blocks qs b p h =
    let s = split ready blocks 0 b (compile_stages-Fused qs) p h in
    (
      s.after,
      s.out,
      s.stages,
      ap (λ q. run_queries ready blocks 0 q b) (sym (append-nil qs))
          ∙ s.ran []
          ∙ ap (λ a. some (a, s.out)) (append-nil s.after),
      ap (λ st. finish (stream_items st b.items no_locals)) (sym (append-nil (compile_stages qs)))
          ∙ ap finish (
              s.streamed [] no_locals
              ∙ ap (infront s.stages) (stream-no_stages s.out.items no_locals s.clean))
          ∙ ap₂ (λ st (out : List Value). (st, out, false)) (append-nil s.stages)
              (append-nil s.out.items),
      s.fused,
    )
