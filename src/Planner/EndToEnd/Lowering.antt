-- ===== src/Planner/EndToEnd/Lowering.antt =====
-- lower.c on a pipeline that simplify.c takes.
use functional_c.Prelude.{
  ℕ, ◌+◌, true, false, none, some, List, [], ◌∷◌, ◌++◌, length, map, arith, ◌≡◌, refl, sym, ap, ◌∙◌,
  length-append, length-map, take, if◌then◌else◌, Option-cases, inl, inr,
}
use functional_c.Planner.PipelineIr.{PipelineIr, PlannedStage, PlannedPipeline, DiagnosticBag}
use functional_c.Planner.Simplify.{
  source_is_self_contained, planned_stage, no_diagnostics, pipeline_diagnostics, whole_segment,
  planned,
}
use functional_c.Planner.Lower.{
  StateSlot, LoopOp, LoweredPipeline, LoweredSource, Lowered, lower_source, lower_kind, first_slot,
  second_slot, lower_stages, finish, rx_lower_pipeline_segment, lower_only, lower_planned,
}
use functional_c.Planner.EndToEnd.Stages.{
  is_some-lem, AreLowerable, pipeline_diagnostics-AreLowerable,
  lower_source-source_is_self_contained,
}

-- A loop program for each stage, with no new diagnostic.
lower_stages_lem :
    (index : ℕ) (stages : List PlannedStage) (slots : List StateSlot) (ops : List LoopOp)
    (bag : DiagnosticBag)
    → AreLowerable stages
    → (done : Lowered) × (lower_stages index stages (slots, ops) bag ≡ (some done, bag))
      × (length done.1 ≡ length ops + length stages)
unfolding lower_stages AreLowerable
lower_stages_lem index [] slots ops bag h = ((slots, ops), refl, omega arith)
lower_stages_lem index (s ∷ stages) slots ops bag h = elim (Option-cases (lower_kind s.kind s)) [
  | inl e ↦ let none_is_some : false ≡ true = rw e at h.0 in ground arith
  | inr ((kind, new), e) ↦
      let op : LoopOp = record {
        kind = kind;
        stage = s;
        state_slot_index = first_slot (length slots) new;
        aux_state_slot_index = second_slot (length slots) new;
      } in
      let (done, run, count) =
        lower_stages_lem (index + 1) stages (slots ++ new) (ops ++ (op ∷ [])) bag h.1 in
      (done, rw (e, lower_stages) run, omega (arith, length-append ops (op ∷ [])))
]

take-length {ℓ} : {A : Type ℓ} (xs : List A) → take (length xs) xs ≡ xs
take-length [] = refl
take-length (x ∷ xs) = ap (λ ys. x ∷ ys) (take-length xs)

finish_lem :
    (p : PlannedPipeline) (source : LoweredSource) (done : Lowered) (bag : DiagnosticBag)
    → bag.has_error ≡ false
    → (l : LoweredPipeline) × (finish p 0 source (some done, bag) ≡ (some l, bag))
      × (l.ops ≡ done.1)
unfolding finish
finish_lem p (kind, count, inner_n) (slots, ops) bag clean =
    let l : LoweredPipeline = record {
      pipeline_name = p.name;
      segment_index = 0;
      source_kind = kind;
      source_count = count;
      source_inner_n = inner_n;
      state_slots = slots;
      ops = ops;
      returns_scalar = true;
      preserves_observable_layout = false;
    } in
    (l, ap (λ b. if b then (none, bag) else (some l, bag)) clean, refl)

-- A pipeline that the planner takes is lowered, one operation for a stage, with no diagnostic.
pub lower_planned_lem :
    (chain chain' : ℕ) (p : PipelineIr) (bag : DiagnosticBag)
    → no_diagnostics (pipeline_diagnostics chain p) ≡ true
    → source_is_self_contained p.source ≡ true
    → bag.has_error ≡ false
    → (l : LoweredPipeline) × (lower_planned chain' (planned p true) bag ≡ (some l, bag))
      × (length l.ops ≡ length p.stages)
unfolding lower_planned lower_only rx_lower_pipeline_segment planned whole_segment
lower_planned_lem chain chain' p bag h source clean =
    let lowerable = pipeline_diagnostics-AreLowerable chain p h in
    let stages = map planned_stage p.stages in
    let (source, e) =
      is_some-lem (lower_source p.source) (lower_source-source_is_self_contained p.source source) in
    let (done, run, counted) = lower_stages_lem 0 stages [] [] bag lowerable in
    let all : take (length p.stages) stages ≡ stages =
      ap (λ n. take n stages) (sym (length-map p.stages planned_stage)) ∙ take-length stages in
    let (l, finished, same) = finish_lem (planned p true) source done bag clean in
    (
      l,
      rw (e, rx_lower_pipeline_segment) (rw (all, rx_lower_pipeline_segment) (rw run finished)),
      omega (arith, ap length same, counted, length-map p.stages planned_stage),
    )
