-- ===== src/Tools/Plan.antt =====
-- core/tools/planner.c: the backend of each chain.
pub mod Backends
use functional_c.Prelude.{
  Bool, true, false, ◌&&◌, Option, none, some, List, [], ◌∷◌, if◌then◌else◌, map,
}
use functional_c.Tools.Ast.{
  SourceKind, range, of, empty, SourceAst, source, OperatorAst, ChainIr, ProgramIr,
}
use functional_c.Tools.Registry.{OperatorInfo, find_operator_info}

pub data BackendKind : Type 0 where
  fused runtime : BackendKind

pub record ExecutionPlan : Type 0 where
  pub ir : ProgramIr
  pub chains : List BackendKind

unfoldable pub fusible_kind : SourceKind → Bool
fusible_kind range = true
fusible_kind of = true
fusible_kind empty = true
fusible_kind _ = false

unfoldable pub source_is_fusible : SourceAst → Bool
unfolding fusible_kind
source_is_fusible (source kind values inner) = fusible_kind kind

unfoldable pub info_is_fusible : Option OperatorInfo → Bool
info_is_fusible none = false
info_is_fusible (some info) = info.fusible

-- The loop over the operators ends at the first that cannot be fused.
unfoldable pub operators_are_fusible : List OperatorAst → Bool
unfolding info_is_fusible
operators_are_fusible [] = true
operators_are_fusible (op ∷ ops) =
    info_is_fusible (find_operator_info op.kind) && operators_are_fusible ops

unfoldable pub backend_of : ChainIr → BackendKind
unfolding source_is_fusible operators_are_fusible
backend_of chain =
    if source_is_fusible chain.source && operators_are_fusible chain.ops then fused else runtime

unfoldable pub build_execution_plan : ProgramIr → ExecutionPlan
unfolding backend_of
build_execution_plan ir = record { ir = ir; chains = map backend_of ir.chains }
