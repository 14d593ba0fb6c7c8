-- ===== src/Planner/PipelineIr.antt =====
-- core/planner: the data that the passes hand on (pipeline_ir.h, pipeline_plan.h,
-- function_registry.h) and the diagnostics (diagnostics.c).
use Prim.Native.String.{String}
use text.Mathlib.Text.{◌==◌ as str_eq}
use functional_c.Prelude.{ℕ, Bool, true, Option, none, some, List, [], ◌∷◌, ◌++◌, if◌then◌else◌}
use functional_c.Prelude.Int.{ℤ}

-- `RxArgumentType`
pub data ArgumentType : Type 0 where
  no_argument int long void_ptr list_ptr observable_ptr query_ptr subscriber_fn boolean_fn :
      ArgumentType
  modifier_fn accumulator_fn comparison_fn factory_fn variadic_void_ptr : ArgumentType
  variadic_observable_ptr : ArgumentType

-- `RxFunctionSignature`: the fields that the passes read.
pub record FunctionSignature : Type 0 where
  pub name : String
  pub transpile_candidate : Bool

-- `RxLiteral`; a pointer is its address.
pub data Literal : Type 0 where
  no_literal : Literal
  int_value : ℤ → Literal
  long_value : ℤ → Literal
  pointer_value : ℕ → Literal
  symbol_name : String → Literal

-- `RxBinding` is its kind with its payload, and its type.
pub data BindingValue : Type 0 where
  unbound : BindingValue
  literal : Literal → BindingValue
  function_name : String → BindingValue
  source_ref : ℕ → BindingValue
  runtime_value : String → BindingValue

pub record Binding : Type 0 where
  pub value : BindingValue
  pub value_type : ArgumentType

-- The arguments past those given are zero: unbound.
abbrev pub no_binding : Binding
no_binding = record { value = unbound; value_type = no_argument }

pub record SourceCall : Type 0 where
  pub signature : Option FunctionSignature
  pub arguments : List Binding

pub record StageCall : Type 0 where
  pub signature : Option FunctionSignature
  pub arguments : List Binding
  pub can_start_segment : Bool
  pub can_end_segment : Bool
  pub must_remain_whole : Bool
  pub preserves_runtime_layout : Bool

pub record PipelineIr : Type 0 where
  pub name : Option String
  pub source : SourceCall
  pub stages : List StageCall

-- `RxPlannedStageKind`
pub data StageKind : Type 0 where
  map map_into pair_map triple_map map_chain filter scan scan_from scan_mut reduce : StageKind
  reduce_mut map_to take skip take_while skip_while distinct distinct_until_changed : StageKind
  last first merge_map zip unsupported : StageKind

pub record PlannedStage : Type 0 where
  pub kind : StageKind
  pub signature : Option FunctionSignature
  pub primary_argument : Binding
  pub secondary_argument : Binding
  pub chain_length : ℕ
  pub can_start_segment : Bool
  pub can_end_segment : Bool
  pub must_remain_whole : Bool
  pub preserves_runtime_layout : Bool

pub data Backend : Type 0 where
  runtime specialized_c : Backend

pub record PipelineSegment : Type 0 where
  pub kind : Backend
  pub start_stage_index : ℕ
  pub stage_count : ℕ
  pub preserves_observable_layout : Bool
  pub requires_runtime_bridge : Bool

pub record PlannedPipeline : Type 0 where
  pub name : Option String
  pub backend : Backend
  pub source : SourceCall
  pub stages : List PlannedStage
  pub segments : List PipelineSegment
  pub transpile_candidate : Bool
  pub needs_runtime_fallback : Bool

-- `RxDiagnosticCode`, those that the passes use.
pub data DiagnosticCode : Type 0 where
  unsupported_source unsupported_operator dynamic_runtime_value unlowerable_pipeline :
      DiagnosticCode

-- A diagnostic of level error; the message is left out. No stage index is -1 in the source.
pub record Diagnostic : Type 0 where
  pub code : DiagnosticCode
  pub symbol_name : Option String
  pub chain_index : ℕ
  pub stage_index : Option ℕ

-- `RxDiagnosticBag`, its capacity left out.
pub record DiagnosticBag : Type 0 where
  pub items : List Diagnostic
  pub has_error : Bool

unfoldable pub rx_diagnostic_bag_append : DiagnosticBag → Diagnostic → DiagnosticBag
rx_diagnostic_bag_append bag d = record { items = bag.items ++ (d ∷ []); has_error = true }

abbrev pub symbol_of : Option FunctionSignature → Option String
symbol_of none = none
symbol_of (some s) = some s.name

-- A chain of `strcmp(name, ...) == 0` tests, and what each answers.
abbrev pub by_name {ℓ} : {A : Type ℓ} → String → List (String × A) → A → A
by_name name [] otherwise = otherwise
by_name name ((s, a) ∷ rest) otherwise = if str_eq name s then a else by_name name rest otherwise
