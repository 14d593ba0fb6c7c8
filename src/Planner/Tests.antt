-- ===== src/Planner/Tests.antt =====
-- A concrete program through the passes of core/planner, and the theorems at it.
use functional_c.Prelude.{◌≡◌, refl, true, false, Option, some, none, List, [], ◌∷◌, length, map}
use functional_c.Planner.PipelineIr.{
  BindingValue, ArgumentType, StageKind, StageCall, PipelineIr, PlannedPipeline, DiagnosticBag,
  FunctionSignature,
}
use functional_c.Planner.Simplify.{rx_build_execution_plan, kind_is_self_contained, planned_stage}
use functional_c.Planner.Lower.{LoweredPipeline, rx_lower_execution_plan, lower_kind}
use functional_c.Planner.PlannerIr.{rx_build_planner_ir, rx_validate_planner_ir}
use functional_c.Planner.PlannerIr.Validation.{rx_validate_planner_ir-rx_build_planner_ir}
use functional_c.Planner.EndToEnd.{rx_lower_execution_plan-rx_build_execution_plan}
use functional_c.Planner.EndToEnd.Stages.{is_some, kind_is_self_contained-lower_kind}

abbrev stage : FunctionSignature → BindingValue → StageCall
stage signature argument = record {
  signature = some signature;
  arguments = record { value = argument; value_type = ArgumentType.int } ∷ [];
  can_start_segment = true;
  can_end_segment = true;
  must_remain_whole = false;
  preserves_runtime_layout = false;
}

-- range(0, 9) with map(double), distinctUntilChanged(key) and reduce(sum)
abbrev pipeline : PipelineIr
pipeline = record {
  name = none;
  source = record {
    signature = some (record { name = "range"; transpile_candidate = true });
    arguments = [];
  };
  stages =
      stage (record { name = "map"; transpile_candidate = true })
        (BindingValue.function_name "double")
      ∷ stage (record { name = "distinctUntilChanged"; transpile_candidate = true })
          (BindingValue.function_name "key")
      ∷ stage (record { name = "reduce"; transpile_candidate = true })
          (BindingValue.function_name "sum")
      ∷ [];
}

abbrev program : List PipelineIr
program = pipeline ∷ []

abbrev no_diagnostics_yet : DiagnosticBag
no_diagnostics_yet = record { items = []; has_error = false }

program-succeeds : (rx_build_execution_plan program no_diagnostics_yet).2 ≡ true
unfolding rx_build_execution_plan
program-succeeds = refl

rx_lower_execution_plan-rx_build_execution_plan_example :
    (ls : List LoweredPipeline) × ((rx_lower_execution_plan
        (rx_build_execution_plan program no_diagnostics_yet).0
        (rx_build_execution_plan program no_diagnostics_yet).1).0
      ≡ some ls)
    × (map (λ l. length l.ops) ls ≡ map (λ p. length p.stages) program)
    × (rx_validate_planner_ir (rx_build_planner_ir ls) ≡ true)
rx_lower_execution_plan-rx_build_execution_plan_example =
    rx_lower_execution_plan-rx_build_execution_plan program no_diagnostics_yet program-succeeds

abbrev plan : List PlannedPipeline × DiagnosticBag
unfolding rx_build_execution_plan
plan = let (planned, bag, ok) = rx_build_execution_plan program no_diagnostics_yet in (planned, bag)

abbrev lowered_or : Option (List LoweredPipeline) → List LoweredPipeline
lowered_or none = []
lowered_or (some ls) = ls

abbrev lowered : List LoweredPipeline
lowered = lowered_or (rx_lower_execution_plan plan.0 plan.1).0

lowered-some : (rx_lower_execution_plan plan.0 plan.1).0 ≡ some lowered
unfolding rx_lower_execution_plan rx_build_execution_plan
lowered-some = refl

rx_validate_planner_ir-rx_build_planner_ir_example :
    rx_validate_planner_ir (rx_build_planner_ir lowered) ≡ true
rx_validate_planner_ir-rx_build_planner_ir_example =
    rx_validate_planner_ir-rx_build_planner_ir plan.0 plan.1 lowered lowered-some

kind_is_self_contained-lower_kind_example :
    is_some (
      lower_kind StageKind.scan (
        planned_stage
          (stage (record { name = "scan"; transpile_candidate = true }) BindingValue.unbound)))
    ≡ kind_is_self_contained StageKind.scan
kind_is_self_contained-lower_kind_example = kind_is_self_contained-lower_kind StageKind.scan (
    planned_stage
      (stage (record { name = "scan"; transpile_candidate = true }) BindingValue.unbound))
