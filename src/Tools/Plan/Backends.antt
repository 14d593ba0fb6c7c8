-- ===== src/Tools/Plan/Backends.antt =====
-- core/tools/planner.c: which chains are fused, with no look at the table of the operators.
use functional_c.Prelude.{
  ◌≡◌, refl, ap, ap₂, Bool, true, false, not, ◌&&◌, List, [], ◌∷◌, if◌then◌else◌,
}
use functional_c.Tools.Ast.{
  SourceKind, range, of, empty, SourceAst, source, OperatorKind, OperatorAst, ChainIr, distinct,
  merge_map, buffer, throttle_time,
}
use functional_c.Tools.Registry.{find_operator_info}
use functional_c.Tools.Plan.{
  BackendKind, fused, runtime, source_is_fusible, info_is_fusible, operators_are_fusible,
  backend_of,
}

-- The operators that keep more than a number between two values, or that wait.
abbrev pub needs_runtime : OperatorKind → Bool
needs_runtime distinct = true
needs_runtime merge_map = true
needs_runtime buffer = true
needs_runtime throttle_time = true
needs_runtime _ = false

-- The sources whose values are known before the chain runs.
abbrev pub is_finite : SourceKind → Bool
is_finite range = true
is_finite of = true
is_finite empty = true
is_finite _ = false

abbrev pub none_needs_runtime : List OperatorAst → Bool
none_needs_runtime [] = true
none_needs_runtime (op ∷ ops) = not (needs_runtime op.kind) && none_needs_runtime ops

abbrev pub source_kind : SourceAst → SourceKind
source_kind (source kind values inner) = kind

abbrev pub expected_backend : SourceAst → List OperatorAst → BackendKind
expected_backend s ops =
    if is_finite (source_kind s) && none_needs_runtime ops then fused else runtime

info_is_fusible-kind :
    (kind : OperatorKind) → info_is_fusible (find_operator_info kind) ≡ not (needs_runtime kind)
unfolding info_is_fusible find_operator_info
info_is_fusible-kind distinct = refl
info_is_fusible-kind _ = refl

operators_are_fusible-kinds :
    (ops : List OperatorAst) → operators_are_fusible ops ≡ none_needs_runtime ops
unfolding operators_are_fusible
operators_are_fusible-kinds [] = refl
operators_are_fusible-kinds (op ∷ ops) =
    ap₂ ◌&&◌ (info_is_fusible-kind op.kind) (operators_are_fusible-kinds ops)

source_is_fusible-kind : (s : SourceAst) → source_is_fusible s ≡ is_finite (source_kind s)
unfolding source_is_fusible
source_is_fusible-kind (source range values inner) = refl
source_is_fusible-kind (source _ values inner) = refl

pub backend_of-expected :
    (chain : ChainIr) → backend_of chain ≡ expected_backend chain.source chain.ops
unfolding backend_of
backend_of-expected chain =
    ap (λ b. if b then fused else runtime)
      (ap₂ ◌&&◌ (source_is_fusible-kind chain.source) (operators_are_fusible-kinds chain.ops))
