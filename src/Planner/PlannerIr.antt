-- ===== src/Planner/PlannerIr.antt =====
-- core/planner/planner_ir.c: the loop program copied to strings of its own, and its validation. An
-- allocation that fails is not modelled, and a copied string is the string.
pub mod Validation
use Prim.Native.String.{String}
use functional_c.Prelude.{
  ℕ, zero, suc, ltb, ◌+◌, Bool, true, false, ◌&&◌, Option, none, some, List, [], ◌∷◌, length, map,
}
use functional_c.Prelude.Int.{ℤ}
use functional_c.Planner.Lower.{SourceKind, StateSlot, LoopOp, LoweredPipeline}

-- `RxPlannerIrPipeline`; its slots and operations have the fields of those lowered.
pub record IrPipeline : Type 0 where
  pub pipeline_name : Option String
  pub segment_index : ℕ
  pub source_kind : SourceKind
  pub source_count : ℤ
  pub source_inner_n : ℤ
  pub state_slots : List StateSlot
  pub ops : List LoopOp
  pub returns_scalar : Bool
  pub preserves_observable_layout : Bool

name_or : Option String → String → String
name_or none otherwise = otherwise
name_or (some name) otherwise = name

unfoldable pub build_pipeline : LoweredPipeline → IrPipeline
unfolding name_or
build_pipeline p = record {
  pipeline_name = some (name_or p.pipeline_name "pipeline");
  segment_index = p.segment_index;
  source_kind = p.source_kind;
  source_count = p.source_count;
  source_inner_n = p.source_inner_n;
  state_slots = p.state_slots;
  ops = p.ops;
  returns_scalar = p.returns_scalar;
  preserves_observable_layout = p.preserves_observable_layout;
}

unfoldable pub rx_build_planner_ir : List LoweredPipeline → List IrPipeline
unfolding build_pipeline
rx_build_planner_ir lowered = map build_pipeline lowered

-- An index of -1 is below every count.
abbrev pub slot_below : ℕ → Option ℕ → Bool
slot_below count none = true
slot_below count (some i) = ltb i count

unfoldable pub ops_are_valid : ℕ → List LoopOp → Bool
ops_are_valid count [] = true
ops_are_valid count (op ∷ ops) =
    slot_below count op.state_slot_index
    && (slot_below count op.aux_state_slot_index && ops_are_valid count ops)

is_named : Option String → Bool
is_named none = false
is_named (some name) = true

unfoldable pub pipeline_is_valid : IrPipeline → Bool
unfolding is_named ops_are_valid
pipeline_is_valid p = is_named p.pipeline_name && ops_are_valid (length p.state_slots) p.ops

unfoldable pub rx_validate_planner_ir : List IrPipeline → Bool
unfolding pipeline_is_valid
rx_validate_planner_ir [] = true
rx_validate_planner_ir (p ∷ ps) = pipeline_is_valid p && rx_validate_planner_ir ps
