-- ===== src/Runtime/Pipeline/Tests.antt =====
-- Concrete runs of the streaming loop of core/src/observable.c, and the theorems at them.
use functional_c.Prelude.{ℕ, ◌≡◌, refl, Bool, true, false, not, some, List, [], ◌∷◌, ◌++◌}
use functional_c.Runtime.Value.{Value, word, pair, same_pointer, null, NoToken}
use functional_c.Runtime.Query.{Query, Batch, plain}
use functional_c.Runtime.Pipeline.{
  CompiledStage, compile_stages, pop_all_streaming_compiled, run_queries, stage_chain_is_streamable,
}
use functional_c.Runtime.Pipeline.Equivalence.{AllPass, Fused, streaming-eq-run_queries}
use functional_c.Runtime.Pipeline.Terminal.{streaming-terminal, terminal_value, unless_empty}

abbrev not_two : Value → Bool
not_two v = not (same_pointer v (word 2))

abbrev wrap : Value → Value
wrap v = pair 64 v null

abbrev gather : Value → Value → Value
gather u v = pair 96 u v

abbrev queries : List Query
queries =
    Query.filter not_two
    ∷ Query.map wrap
    ∷ Query.map wrap
    ∷ Query.scan gather null
    ∷ Query.skip_while (same_pointer (word 7)) false
    ∷ []

abbrev batch : Batch
batch = plain (word 1 ∷ word 2 ∷ word 3 ∷ [])

abbrev no_blocks : ℕ → ℕ
no_blocks i = 0

queries-AllPass : AllPass queries
queries-AllPass = (tt, ((λ v. refl), ((λ v. refl), ((λ u v. refl), (tt, tt)))))

batch-NoToken : NoToken batch.items
batch-NoToken = (refl, (refl, (refl, tt)))

streaming-eq-run_queries_example :
    (after : List Query) × (out : Batch) × (stages : List CompiledStage) × (run_queries false
        no_blocks 0 queries batch
      ≡ some (after, out))
    × (pop_all_streaming_compiled (compile_stages queries) batch.items ≡ (stages, out.items, false))
    × Fused after stages
streaming-eq-run_queries_example =
    streaming-eq-run_queries false no_blocks queries batch queries-AllPass batch-NoToken

streaming-terminal_example :
    (after : List Query) × (mid : Batch) × (run_queries false no_blocks 0 queries batch
      ≡ some (after, mid))
    × (run_queries false no_blocks 0 (queries ++ (Query.last ∷ [])) batch
        ≡ some (after ++ (Query.last ∷ []), plain (terminal_value Query.last mid.items ∷ [])))
    × ((pop_all_streaming_compiled (compile_stages (queries ++ (Query.last ∷ []))) batch.items).1
        ≡ unless_empty mid.items (terminal_value Query.last mid.items))
streaming-terminal_example =
    streaming-terminal false no_blocks queries Query.last batch queries-AllPass tt batch-NoToken

-- Two of the three items come through.
streamed :
    (pop_all_streaming_compiled (compile_stages queries) batch.items).1
    ≡ pair 96 null (pair 64 (pair 64 (word 1) null) null)
      ∷ pair 96
          (pair 96 null (pair 64 (pair 64 (word 1) null) null))
          (pair 64 (pair 64 (word 3) null) null)
      ∷ []
unfolding pop_all_streaming_compiled compile_stages
streamed = refl

-- The pipeline is one that the source streams.
queries-streamable : stage_chain_is_streamable (compile_stages queries) ≡ true
unfolding stage_chain_is_streamable compile_stages
queries-streamable = refl
