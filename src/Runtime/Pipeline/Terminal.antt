-- ===== src/Runtime/Pipeline/Terminal.antt =====
-- A `reduce` or `last` behind a streamed pipeline: what the streaming loop emits at its end.
use functional_c.Prelude.{
  append-nil, ℕ, zero, suc, ◌≡◌, ◌≤◌, refl, ap, sym, ◌∙◌, Bool, true, false, Option, none, some,
  List, [], ◌∷◌, ◌++◌, arith, length, length-append,
}
use functional_c.Runtime.Value.{Value, NoToken, null}
use functional_c.Runtime.Query.{Query, Batch, plain, apply, reduce_items, last_item, peeked}
use functional_c.Runtime.Pipeline.{
  CompiledStage, single, chain, Locals, no_locals, run_item, stream_items, final_value,
  pop_all_streaming_compiled, run_queries, map_run, join_stage, compile_from, compile_stages,
}
use functional_c.Runtime.Pipeline.Stages.{stream-cons, stream-nil}
use functional_c.Runtime.Pipeline.Equivalence.{
  AllPass, continue, finish, split, map_run-split, compile_stages-Fused,
}

-- A terminal query at the end of a streamed pipeline: its stage behind the stages of the others.
abbrev pub IsTerminal : Query → Type 0
IsTerminal (Query.reduce f) = Unit
IsTerminal Query.last = Unit
IsTerminal _ = ⊥

map_run-snoc :
    (qs : List Query) (t : Query)
    → IsTerminal t
    → map_run (qs ++ (t ∷ [])) ≡ ((map_run qs).0, (map_run qs).1 ++ (t ∷ []))
unfolding map_run
map_run-snoc [] (Query.reduce f) h = refl
map_run-snoc [] Query.last h = refl
map_run-snoc [] _ h = absurd h
map_run-snoc (Query.map f ∷ qs) t h =
    ap (λ (r : List (Value → Value) × List Query). (f ∷ r.0, r.1)) (map_run-snoc qs t h)
map_run-snoc (_ ∷ qs) t h = refl

compile_alone :
    (n : ℕ) (t : Query)
    → IsTerminal t
    → compile_from (suc n) (t ∷ []) ≡ compile_from n [] ++ (single t ∷ [])
unfolding compile_from
compile_alone zero (Query.reduce f) h = refl
compile_alone zero Query.last h = refl
compile_alone (suc n) (Query.reduce f) h = refl
compile_alone (suc n) Query.last h = refl
compile_alone n _ h = absurd h

join-snoc :
    (f : Value → Value) (fs : List (Value → Value)) (s : CompiledStage)
    (alone alone' joined joined' : List CompiledStage)
    → alone' ≡ alone ++ (s ∷ [])
    → joined' ≡ joined ++ (s ∷ [])
    → join_stage f fs alone' joined' ≡ join_stage f fs alone joined ++ (s ∷ [])
unfolding join_stage
join-snoc f [] s alone alone' joined joined' e j = ap (λ r. single (Query.map f) ∷ r) e
join-snoc f (g ∷ gs) s alone alone' joined joined' e j = ap (λ r. chain (f ∷ g ∷ gs) ∷ r) j

compile_from-snoc :
    (n : ℕ) (qs : List Query) (t : Query)
    → IsTerminal t
    → length qs ≤ n
    → compile_from (suc n) (qs ++ (t ∷ [])) ≡ compile_from n qs ++ (single t ∷ [])
unfolding compile_from
compile_from-snoc n [] t h k = compile_alone n t h
compile_from-snoc zero (q ∷ qs) t h k = absurd (omega arith)
compile_from-snoc (suc n) (Query.map f ∷ qs) t h k =
    let less = (map_run-split qs).1 in
    rw (map_run-snoc qs t h, compile_from)
      (join-snoc f (map_run qs).0 (single t) _ _ _ _ (compile_from-snoc n qs t h (omega arith))
        (compile_from-snoc n (map_run qs).1 t h (omega arith)))
compile_from-snoc (suc n) (q ∷ qs) t h k =
    ap (λ r. single q ∷ r) (compile_from-snoc n qs t h (omega arith))

compile_stages-snoc :
    (qs : List Query) (t : Query)
    → IsTerminal t
    → compile_stages (qs ++ (t ∷ [])) ≡ compile_stages qs ++ (single t ∷ [])
unfolding compile_stages
compile_stages-snoc qs t h =
    ap (λ n. compile_from n (qs ++ (t ∷ []))) {y = suc (length qs)}
      (omega (arith, length-append qs (t ∷ [])))
    ∙ compile_from-snoc (length qs) qs t h (omega arith)

-- The terminal stages: what the streaming loop emits at its end, from items it did receive.
stream-reduce :
    (f : Value → Value → Value) (x : Value) (xs : List Value) (l : Locals)
    → NoToken (x ∷ xs)
    → stream_items (single (Query.reduce f) ∷ []) (x ∷ xs) l ≡ record {
      stages = single (Query.reduce f) ∷ [];
      locals = record l { reduced = reduce_items f l.reduced (x ∷ xs); has_reduce = true };
      emitted = [];
      completed = false;
    }
unfolding run_item reduce_items
stream-reduce f x [] l h =
    stream-cons (single (Query.reduce f) ∷ []) x [] l h.0 ∙ rw h.0 (stream-nil _ _)
stream-reduce f x (y ∷ xs) l h =
    stream-cons (single (Query.reduce f) ∷ []) x (y ∷ xs) l h.0
    ∙ rw h.0 (stream-reduce f y xs (record l { reduced = f l.reduced x; has_reduce = true }) h.1)

stream-last :
    (x : Value) (xs : List Value) (l : Locals)
    → NoToken (x ∷ xs)
    → stream_items (single Query.last ∷ []) (x ∷ xs) l ≡ record {
      stages = single Query.last ∷ [];
      locals = record l { last_value = peeked x xs; last_set = true; has_last = true };
      emitted = [];
      completed = false;
    }
unfolding run_item peeked
stream-last x [] l h = stream-cons (single Query.last ∷ []) x [] l h.0 ∙ stream-nil _ _
stream-last x (y ∷ xs) l h =
    stream-cons (single Query.last ∷ []) x (y ∷ xs) l h.0
    ∙ stream-last y xs (record l { last_value = x; last_set = true; has_last = true }) h.1

last_item-peeked :
    (before : Option Value) (x : Value) (xs : List Value)
    → NoToken (x ∷ xs)
    → last_item before (x ∷ xs) ≡ some (peeked x xs)
unfolding last_item peeked
last_item-peeked before x [] h = rw h.0
last_item-peeked before x (y ∷ xs) h = last_item-peeked (some x) y xs h.1

last_item-terminal : (xs : List Value) → NoToken xs → last_item none xs ≡ some (peeked null xs)
unfolding last_item peeked
last_item-terminal [] h = refl
last_item-terminal (x ∷ xs) h = last_item-peeked none x xs h

-- What a terminal query makes of a list with no end marker: the fold from NULL, or the last item
-- (NULL of an empty list).
abbrev pub terminal_value : Query → List Value → Value
terminal_value (Query.reduce f) xs = reduce_items f null xs
terminal_value _ xs = peeked null xs

-- The value, unless there was no item.
abbrev pub unless_empty : List Value → Value → List Value
unless_empty [] v = []
unless_empty (x ∷ xs) v = v ∷ []

run-terminal :
    (ready : Bool) (blocks : ℕ → ℕ) (i : ℕ) (t : Query) (b : Batch)
    → IsTerminal t
    → NoToken b.items
    → run_queries ready blocks i (t ∷ []) b ≡ some (t ∷ [], plain (terminal_value t b.items ∷ []))
unfolding run_queries apply
run-terminal ready blocks i (Query.reduce f) b h k = refl
run-terminal ready blocks i Query.last b h k = rw (last_item-terminal b.items k)
run-terminal ready blocks i _ b h k = absurd h

stream-terminal :
    (t : Query) (xs : List Value)
    → IsTerminal t
    → NoToken xs
    → let r = stream_items (single t ∷ []) xs no_locals in
      r.emitted ++ final_value r.locals ≡ unless_empty xs (terminal_value t xs)
unfolding final_value peeked
stream-terminal (Query.reduce f) [] h k = rw (stream-nil (single (Query.reduce f) ∷ []) no_locals)
stream-terminal (Query.reduce f) (x ∷ xs) h k = rw (stream-reduce f x xs no_locals k)
stream-terminal Query.last [] h k = rw (stream-nil (single Query.last ∷ []) no_locals)
stream-terminal Query.last (x ∷ xs) h k = rw (stream-last x xs no_locals k)
stream-terminal _ xs h k = absurd h

-- With passing queries and a `reduce` or `last` behind them, the streaming loop emits the value
-- that the queries make one after the other if an item reaches the terminal query. If none does,
-- it emits nothing, where the queries make a list of one value all the same.
pub streaming-terminal :
    (ready : Bool) (blocks : ℕ → ℕ) (qs : List Query) (t : Query) (b : Batch)
    → AllPass qs
    → IsTerminal t
    → NoToken b.items
    → (after : List Query) × (mid : Batch) × (run_queries ready blocks 0 qs b ≡ some (after, mid))
      × (run_queries ready blocks 0 (qs ++ (t ∷ [])) b
          ≡ some (after ++ (t ∷ []), plain (terminal_value t mid.items ∷ [])))
      × ((pop_all_streaming_compiled (compile_stages (qs ++ (t ∷ []))) b.items).1
          ≡ unless_empty mid.items (terminal_value t mid.items))
unfolding pop_all_streaming_compiled run_queries
streaming-terminal ready blocks qs t b p h k =
    let s = split ready blocks 0 b (compile_stages-Fused qs) p k in
    (
      s.after,
      s.out,
      ap (λ q. run_queries ready blocks 0 q b) (sym (append-nil qs))
          ∙ s.ran []
          ∙ ap (λ a. some (a, s.out)) (append-nil s.after),
      s.ran (t ∷ []) ∙ ap (continue s.after) (run-terminal ready blocks s.next t s.out h s.clean),
      ap (λ st. (finish (stream_items st b.items no_locals)).1) (compile_stages-snoc qs t h)
          ∙ ap (λ r. (finish r).1) (s.streamed (single t ∷ []) no_locals)
          ∙ stream-terminal t s.out.items h s.clean,
    )
