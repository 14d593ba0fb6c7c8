-- ===== src/Planner/EndToEnd.antt =====
-- The planner's passes composed, simplify.c, lower.c and planner_ir.c, as main.c runs them.
pub mod Stages
pub mod Lowering
use Prim.Native.String.{String}
use text.Mathlib.Text.{◌==◌ as str_eq}
use functional_c.Prelude.{
  ℕ, zero, suc, ◌+◌, Bool, true, false, not, ◌&&◌, ◌||◌, Option, none, some, List, [], ◌∷◌, ◌++◌,
  length, ◌==◌, map, arith, ◌≡◌, refl, sym, ap, ap₂, ◌∙◌, subst, length-append, length-map, take,
  if◌then◌else◌, Bool-cases, Option-cases, inl, inr,
}
use functional_c.Planner.PipelineIr
use functional_c.Planner.PipelineIr.{
  SourceCall, StageCall, PipelineIr, StageKind, PlannedStage, PlannedPipeline, Diagnostic,
  DiagnosticBag, FunctionSignature, Binding, by_name, rx_diagnostic_bag_append,
}
use functional_c.Planner.Simplify.{
  source_names, source_is_self_contained, kind_is_self_contained, planned_stage_kind, is_candidate,
  stage_is_self_contained, planned_stage, unless, stage_diagnostics, stages_diagnostics,
  no_diagnostics, pipeline_diagnostics, whole_segment, planned, plan_pipeline, append_all,
  plan_from, rx_build_execution_plan,
}
use functional_c.Planner.Lower.{
  StateSlot, LoopOp, OpKind, LoweredPipeline, LoweredSource, Lowered, source_table, lower_source,
  lower_kind, first_slot, second_slot, lower_stages, finish, rx_lower_pipeline_segment, lower_only,
  lower_planned, onto, and_then, lower_from, unless_error, rx_lower_execution_plan,
}
use functional_c.Planner.PlannerIr.{rx_build_planner_ir, rx_validate_planner_ir}
use functional_c.Planner.PlannerIr.Validation.{rx_validate_planner_ir-rx_build_planner_ir}
use functional_c.Planner.EndToEnd.Lowering.{lower_planned_lem}

append_all-has_error :
    (bag : DiagnosticBag) (ds : List Diagnostic)
    → bag.has_error ≡ true
    → (append_all bag ds).has_error ≡ true
unfolding append_all rx_diagnostic_bag_append
append_all-has_error bag [] h = h
append_all-has_error bag (d ∷ ds) h = append_all-has_error (rx_diagnostic_bag_append bag d) ds refl

-- A bag that holds no error after an append had none, and nothing was appended.
append_all_lem :
    (bag : DiagnosticBag) (ds : List Diagnostic)
    → (append_all bag ds).has_error ≡ false
    → (append_all bag ds ≡ bag) × (no_diagnostics ds ≡ true)
unfolding append_all rx_diagnostic_bag_append no_diagnostics
append_all_lem bag [] h = (refl, refl)
append_all_lem bag (d ∷ ds) h =
    let error = append_all-has_error (rx_diagnostic_bag_append bag d) ds refl in ground arith

plan_pipeline_lem :
    (chain : ℕ) (p : PipelineIr)
    → no_diagnostics (plan_pipeline chain p).1 ≡ true
    → (source_is_self_contained p.source ≡ true)
      × (no_diagnostics (pipeline_diagnostics chain p) ≡ true)
      × ((plan_pipeline chain p).0 ≡ planned p true)
unfolding plan_pipeline no_diagnostics
plan_pipeline_lem chain p h = elim (Bool-cases (source_is_self_contained p.source)) [
  | inl e ↦
      let clean : no_diagnostics (pipeline_diagnostics chain p) ≡ true = rw e at h in
      (e, clean, rw (e, plan_pipeline) (ap (planned p) clean))
  | inr e ↦ let failed : false ≡ true = rw e at h in ground arith
]

-- The pipelines that the planner takes, from an index on.
AreTaken : ℕ → List PipelineIr → Type 0
AreTaken chain [] = Unit
AreTaken chain (p ∷ ps) =
    (source_is_self_contained p.source ≡ true)
    × (no_diagnostics (pipeline_diagnostics chain p) ≡ true)
    × AreTaken (chain + 1) ps

plan_from-has_error :
    (chain : ℕ) (ps : List PipelineIr) (bag : DiagnosticBag)
    → bag.has_error ≡ true
    → (plan_from chain ps bag).1.has_error ≡ true
unfolding plan_from
plan_from-has_error chain [] bag h = h
plan_from-has_error chain (p ∷ ps) bag h =
    plan_from-has_error (chain + 1) ps (append_all bag (plan_pipeline chain p).1)
      (append_all-has_error bag (plan_pipeline chain p).1 h)

plan_from_lem :
    (chain : ℕ) (ps : List PipelineIr) (bag : DiagnosticBag)
    → (plan_from chain ps bag).1.has_error ≡ false
    → (plan_from chain ps bag ≡ (map (λ p. planned p true) ps, bag))
      × (bag.has_error ≡ false)
      × AreTaken chain ps
unfolding plan_from AreTaken
plan_from_lem chain [] bag h = (refl, h, tt)
plan_from_lem chain (p ∷ ps) bag h =
    let found = (plan_pipeline chain p).1 in
    let (rest, clean, taken) = plan_from_lem (chain + 1) ps (append_all bag found) h in
    let (same, none_found) = append_all_lem bag found clean in
    let (source, stages, first) = plan_pipeline_lem chain p none_found in
    (
      ap₂ (λ x r. (x ∷ r.0, r.1)) first (rest ∙ ap (λ b. (map (λ q. planned q true) ps, b)) same),
      subst (λ b. b.has_error ≡ false) same clean,
      (source, stages, taken),
    )

lower_from_lem :
    (chain chain' : ℕ) (ps : List PipelineIr) (bag : DiagnosticBag)
    → bag.has_error ≡ false
    → AreTaken chain ps
    → (ls : List LoweredPipeline) × (lower_from chain' (map (λ p. planned p true) ps) bag
        ≡ (some ls, bag))
      × (map (λ l. length l.ops) ls ≡ map (λ p. length p.stages) ps)
unfolding lower_from AreTaken
lower_from_lem chain chain' [] bag clean h = ([], refl, refl)
lower_from_lem chain chain' (p ∷ ps) bag clean h =
    let (l, first, count) = lower_planned_lem chain chain' p bag h.1 h.0 clean in
    let (ls, rest, counts) = lower_from_lem (chain + 1) (chain' + 1) ps bag clean h.2 in
    let later : DiagnosticBag → Option (List LoweredPipeline) × DiagnosticBag =
      lower_from (chain' + 1) (map (λ q. planned q true) ps) in
    (l ∷ ls, ap (λ r. and_then r later) first ∙ ap (onto l) rest, ap₂ (λ n ns. n ∷ ns) count counts)

unless_error_lem :
    (ls : List LoweredPipeline) (bag : DiagnosticBag)
    → bag.has_error ≡ false
    → (unless_error (some ls, bag)).0 ≡ some ls
unfolding unless_error
unless_error_lem ls bag clean = rw clean

-- Whenever planning a program succeeds, whatever its pipelines and the diagnostics so far, lowering
-- the plan succeeds too, each lowered pipeline has one operation for each stage of the program's, and
-- the planner IR built from it passes the validation.
pub rx_lower_execution_plan-rx_build_execution_plan :
    (ps : List PipelineIr) (bag : DiagnosticBag)
    → (rx_build_execution_plan ps bag).2 ≡ true
    → (ls : List LoweredPipeline) × ((rx_lower_execution_plan
          (rx_build_execution_plan ps bag).0
          (rx_build_execution_plan ps bag).1).0
        ≡ some ls)
      × (map (λ l. length l.ops) ls ≡ map (λ p. length p.stages) ps)
      × (rx_validate_planner_ir (rx_build_planner_ir ls) ≡ true)
unfolding rx_build_execution_plan rx_lower_execution_plan
rx_lower_execution_plan-rx_build_execution_plan [] bag h =
    ([], refl, refl, rx_validate_planner_ir-rx_build_planner_ir [] bag [] refl)
rx_lower_execution_plan-rx_build_execution_plan (p ∷ ps) bag h =
    let (same, clean, taken) = plan_from_lem 0 (p ∷ ps) bag (ground arith) in
    let (ls, run, counts) = lower_from_lem 0 0 (p ∷ ps) bag clean taken in
    let plan = (rx_build_execution_plan (p ∷ ps) bag).0 in
    let bag' = (rx_build_execution_plan (p ∷ ps) bag).1 in
    let ran : (rx_lower_execution_plan plan bag').0 ≡ some ls =
      ap (λ r. (rx_lower_execution_plan r.0 r.1).0) same
      ∙ (ap (λ r. (unless_error r).0) run ∙ unless_error_lem ls bag clean) in
    (ls, ran, counts, rx_validate_planner_ir-rx_build_planner_ir plan bag' ls ran)
