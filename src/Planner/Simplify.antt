-- ===== src/Planner/Simplify.antt =====
-- core/planner/simplify.c: which pipelines the planner takes, and the execution plan of each.
use Prim.Native.String.{String}
use functional_c.Prelude.{
  ℕ, ◌+◌, Bool, true, false, not, ◌&&◌, ◌||◌, Option, none, some, List, [], ◌∷◌, ◌++◌,
  if◌then◌else◌, ◌==◌, length, get_or, map,
}
use functional_c.Planner.PipelineIr.{
  FunctionSignature, Binding, BindingValue, SourceCall, StageCall, PipelineIr, StageKind,
  PlannedStage, no_binding, PipelineSegment, PlannedPipeline, Diagnostic, DiagnosticCode,
  DiagnosticBag, symbol_of, by_name, rx_diagnostic_bag_append, unsupported_source,
  unsupported_operator, dynamic_runtime_value, unlowerable_pipeline, runtime, specialized_c,
}

abbrev stage_names : List (String × StageKind)
stage_names =
    ("map", StageKind.map)
    ∷ ("mapInto", StageKind.map_into)
    ∷ ("pairMap", StageKind.pair_map)
    ∷ ("tripleMap", StageKind.triple_map)
    ∷ ("filter", StageKind.filter)
    ∷ ("scan", StageKind.scan)
    ∷ ("scanfrom", StageKind.scan_from)
    ∷ ("scanMut", StageKind.scan_mut)
    ∷ ("reduce", StageKind.reduce)
    ∷ ("reduceMut", StageKind.reduce_mut)
    ∷ ("mapTo", StageKind.map_to)
    ∷ ("take", StageKind.take)
    ∷ ("skip", StageKind.skip)
    ∷ ("takeWhile", StageKind.take_while)
    ∷ ("skipWhile", StageKind.skip_while)
    ∷ ("distinctUntilChanged", StageKind.distinct_until_changed)
    ∷ ("last", StageKind.last)
    ∷ ("first", StageKind.first)
    ∷ []

unfoldable pub planned_stage_kind : Option FunctionSignature → StageKind
planned_stage_kind none = StageKind.unsupported
planned_stage_kind (some s) = by_name s.name stage_names StageKind.unsupported

abbrev pub source_names : List (String × Bool)
source_names =
    ("range", true)
    ∷ ("synthetic_records", true)
    ∷ ("external_buffer", true)
    ∷ ("external_window", true)
    ∷ ("zip", true)
    ∷ ("zip_range", true)
    ∷ ("zip_merge_map_range", true)
    ∷ []

unfoldable pub source_is_self_contained : SourceCall → Bool
source_is_self_contained source = elim source.signature [
  | none ↦ false
  | some s ↦ by_name s.name source_names false
]

-- The `switch` of `stage_is_self_contained`.
unfoldable pub kind_is_self_contained : StageKind → Bool
kind_is_self_contained StageKind.map_chain = false
kind_is_self_contained StageKind.distinct = false
kind_is_self_contained StageKind.merge_map = false
kind_is_self_contained StageKind.zip = false
kind_is_self_contained StageKind.unsupported = false
kind_is_self_contained _ = true

unfoldable pub is_candidate : Option FunctionSignature → Bool
is_candidate none = false
is_candidate (some s) = s.transpile_candidate

unfoldable pub stage_is_self_contained : StageCall → Bool
unfolding is_candidate kind_is_self_contained planned_stage_kind
stage_is_self_contained stage =
    is_candidate stage.signature && kind_is_self_contained (planned_stage_kind stage.signature)

is_runtime_value : Binding → Bool
is_runtime_value b = elim b.value [ BindingValue.runtime_value s ↦ true | _ ↦ false ]

is_terminal_kind : StageKind → Bool
is_terminal_kind StageKind.reduce = true
is_terminal_kind StageKind.reduce_mut = true
is_terminal_kind StageKind.last = true
is_terminal_kind StageKind.first = true
is_terminal_kind _ = false

unfoldable pub argument : StageCall → ℕ → Binding
argument stage i = get_or stage.arguments i no_binding

unfoldable pub planned_stage : StageCall → PlannedStage
unfolding planned_stage_kind argument
planned_stage stage = record {
  kind = planned_stage_kind stage.signature;
  signature = stage.signature;
  primary_argument = argument stage 0;
  secondary_argument = argument stage 1;
  chain_length = 1;
  can_start_segment = stage.can_start_segment;
  can_end_segment = stage.can_end_segment;
  must_remain_whole = stage.must_remain_whole;
  preserves_runtime_layout = stage.preserves_runtime_layout;
}

-- A diagnostic if the test fails.
abbrev pub unless : Bool → Diagnostic → List Diagnostic
unless ok d = if ok then [] else d ∷ []

diagnostic : DiagnosticCode → Option String → ℕ → Option ℕ → Diagnostic
diagnostic code symbol chain stage = record {
  code = code;
  symbol_name = symbol;
  chain_index = chain;
  stage_index = stage;
}

-- The three tests of a stage; `is_last` says that it is the pipeline's last.
unfoldable pub stage_diagnostics : ℕ → ℕ → Bool → StageCall → List Diagnostic
unfolding stage_is_self_contained is_runtime_value is_terminal_kind planned_stage_kind argument
    diagnostic
stage_diagnostics chain index is_last stage =
    unless (stage_is_self_contained stage)
      (diagnostic unsupported_operator (symbol_of stage.signature) chain (some index))
    ++ (unless (not (is_runtime_value (argument stage 0) || is_runtime_value (argument stage 1)))
          (diagnostic dynamic_runtime_value (symbol_of stage.signature) chain (some index))
        ++ unless (not (is_terminal_kind (planned_stage_kind stage.signature)) || is_last)
            (diagnostic unlowerable_pipeline (symbol_of stage.signature) chain (some index)))

unfoldable pub stages_diagnostics : ℕ → ℕ → List StageCall → List Diagnostic
unfolding stage_diagnostics
stages_diagnostics chain index [] = []
stages_diagnostics chain index (s ∷ rest) =
    stage_diagnostics chain index (length rest == 0) s ++ stages_diagnostics chain (index + 1) rest

-- The first stage that a zipped source needs to become scalar, by the source's name.
pub data FirstStage : Type 0 where
  any_stage : FirstStage
  must_be : StageKind → FirstStage

abbrev first_stages : List (String × FirstStage)
first_stages =
    ("zip", must_be StageKind.pair_map)
    ∷ ("zip_range", must_be StageKind.pair_map)
    ∷ ("zip_merge_map_range", must_be StageKind.triple_map)
    ∷ []

unfoldable pub required_first_stage : SourceCall → FirstStage
required_first_stage source = elim source.signature [
  | none ↦ any_stage
  | some s ↦ by_name s.name first_stages any_stage
]

is_pair_map : StageKind → Bool
is_pair_map StageKind.pair_map = true
is_pair_map _ = false

is_triple_map : StageKind → Bool
is_triple_map StageKind.triple_map = true
is_triple_map _ = false

starts_with : FirstStage → List PlannedStage → Bool
unfolding is_pair_map is_triple_map
starts_with any_stage stages = true
starts_with (must_be k) [] = false
starts_with (must_be StageKind.triple_map) (s ∷ stages) = is_triple_map s.kind
starts_with (must_be k) (s ∷ stages) = is_pair_map s.kind

unfoldable pub no_diagnostics : List Diagnostic → Bool
no_diagnostics [] = true
no_diagnostics (d ∷ ds) = false

-- The tests after the stages run only while the pipeline is a candidate.
unfoldable pub pipeline_diagnostics : ℕ → PipelineIr → List Diagnostic
unfolding stages_diagnostics required_first_stage starts_with no_diagnostics planned_stage
    diagnostic
pipeline_diagnostics chain p =
    let found = stages_diagnostics chain 0 p.stages in
    if no_diagnostics found
    then unless (starts_with (required_first_stage p.source) (map planned_stage p.stages))
        (diagnostic unlowerable_pipeline p.name chain (some 0))
    else found

-- The segment of a pipeline that the planner takes: all its stages.
unfoldable pub whole_segment : ℕ → PipelineSegment
whole_segment count = record {
  kind = specialized_c;
  start_stage_index = 0;
  stage_count = count;
  preserves_observable_layout = false;
  requires_runtime_bridge = false;
}

-- What the planner makes of a pipeline whose source it takes: its stages, and a segment with all of
-- them if no test failed.
unfoldable pub planned : PipelineIr → Bool → PlannedPipeline
unfolding whole_segment planned_stage
planned p taken = record {
  name = p.name;
  backend = if taken then specialized_c else runtime;
  source = p.source;
  stages = map planned_stage p.stages;
  segments = if taken then whole_segment (length p.stages) ∷ [] else [];
  transpile_candidate = taken;
  needs_runtime_fallback = not taken;
}

-- A pipeline whose source it does not take.
left_out : PipelineIr → PlannedPipeline
left_out p = record {
  name = p.name;
  backend = runtime;
  source = p.source;
  stages = [];
  segments = [];
  transpile_candidate = false;
  needs_runtime_fallback = true;
}

-- One round of the loop of `rx_build_execution_plan`.
unfoldable pub plan_pipeline : ℕ → PipelineIr → PlannedPipeline × List Diagnostic
unfolding source_is_self_contained pipeline_diagnostics no_diagnostics planned left_out diagnostic
plan_pipeline chain p =
    let found = pipeline_diagnostics chain p in
    if source_is_self_contained p.source
    then (planned p (no_diagnostics found), found)
    else (left_out p, diagnostic unsupported_source (symbol_of p.source.signature) chain none ∷ [])

unfoldable pub append_all : DiagnosticBag → List Diagnostic → DiagnosticBag
unfolding rx_diagnostic_bag_append
append_all bag [] = bag
append_all bag (d ∷ ds) = append_all (rx_diagnostic_bag_append bag d) ds

unfoldable pub plan_from :
    ℕ → List PipelineIr → DiagnosticBag → List PlannedPipeline × DiagnosticBag
unfolding plan_pipeline append_all
plan_from chain [] bag = ([], bag)
plan_from chain (p ∷ ps) bag =
    let (planned, found) = plan_pipeline chain p in
    let (rest, bag') = plan_from (chain + 1) ps (append_all bag found) in (planned ∷ rest, bag')

-- `rx_build_execution_plan`: the plan, the diagnostics, and whether there is no error. A program
-- with no pipeline succeeds whatever the bag holds.
unfoldable pub rx_build_execution_plan :
    List PipelineIr → DiagnosticBag → List PlannedPipeline × DiagnosticBag × Bool
unfolding plan_from
rx_build_execution_plan [] bag = ([], bag, true)
rx_build_execution_plan (p ∷ ps) bag =
    let (plan, bag') = plan_from 0 (p ∷ ps) bag in (plan, bag', not bag'.has_error)
