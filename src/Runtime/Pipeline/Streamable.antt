-- ===== src/Runtime/Pipeline/Streamable.antt =====
-- core/src/observable.c: pipelines that only pass items on are streamed.
use functional_c.Prelude.{◌≡◌, refl, subst, true, List, [], ◌∷◌}
use functional_c.Runtime.Value.{Value}
use functional_c.Runtime.Query.{Query, kind}
use functional_c.Runtime.Pipeline.{
  CompiledStage, stage_kind, streamable_kind, is_terminal, stage_chain_is_streamable,
  compile_stages,
}
use functional_c.Runtime.Pipeline.Equivalence.{
  Fused, nil, one, run, AllPass, map_queries, compile_stages-Fused,
}

behind_maps :
    (fs : List (Value → Value)) (qs : List Query) → AllPass (map_queries fs qs) → AllPass qs
behind_maps [] qs h = h
behind_maps (f ∷ fs) qs h = behind_maps fs qs h.1

streamable-Fused :
    {qs : List Query} {st : List CompiledStage}
    → Fused qs st
    → AllPass qs
    → stage_chain_is_streamable st ≡ true
unfolding stage_chain_is_streamable stage_kind kind streamable_kind is_terminal
streamable-Fused nil h = refl
streamable-Fused (one (Query.filter p) f) h = streamable-Fused f h.1
streamable-Fused (one (Query.map g) f) h = streamable-Fused f h.1
streamable-Fused (one (Query.scan g a) f) h = streamable-Fused f h.1
streamable-Fused (one (Query.distinct_until_changed g k) f) h = streamable-Fused f h.1
streamable-Fused (one (Query.skip_while p b) f) h = streamable-Fused f h.1
streamable-Fused (one q f) h = absurd h.0
streamable-Fused (run fs {qs = qs} e f) h =
    streamable-Fused f (behind_maps fs qs (subst AllPass e h))

pub streamable-AllPass :
    (qs : List Query) → AllPass qs → stage_chain_is_streamable (compile_stages qs) ≡ true
streamable-AllPass qs h = streamable-Fused (compile_stages-Fused qs) h
