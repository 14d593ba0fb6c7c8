-- ===== src/Planner/Lower.antt =====
-- core/planner/lower.c, with core/planner/loop_ir.h: the loop program of a planned pipeline. An
-- allocation that fails is not modelled. Where a pass fails, what it has built is not read: `none`.
use Prim.Native.String.{String}
use functional_c.Prelude.{
  ℕ, ◌+◌, Bool, true, false, Option, none, some, List, [], ◌∷◌, ◌++◌, length, get_or, take, drop,
  if◌then◌else◌,
}
use functional_c.Prelude.Int.{ℤ, pos}
use functional_c.Planner.PipelineIr.{
  ArgumentType, Literal, BindingValue, SourceCall, StageKind, PlannedStage, PipelineSegment,
  PlannedPipeline, Diagnostic, DiagnosticBag, symbol_of, by_name, no_binding,
  rx_diagnostic_bag_append, unsupported_source, unlowerable_pipeline,
}

-- `RxLoopSourceKind`, those that lowering makes.
pub data SourceKind : Type 0 where
  range synthetic_records zip_synthetic_records external_buffer external_window : SourceKind
  zip_range zip_merge_map_range : SourceKind

-- `RxStateSlotKind`, those that lowering makes; the slot's name is the kind's.
pub data SlotKind : Type 0 where
  scan_accum reduce_accum take_count skip_count skip_while_passed last_value : SlotKind
  has_last_value last_key has_last_key : SlotKind

-- `RxStateSlot`
pub record StateSlot : Type 0 where
  pub kind : SlotKind
  pub name : String
  pub value_type : ArgumentType
  pub initial_value : Literal

-- `RxLoopOpKind`, those that lowering makes.
pub data OpKind : Type 0 where
  call_pair_map call_triple_map call_map call_map_into call_filter call_scan call_scan_mut : OpKind
  call_reduce call_reduce_mut call_map_to apply_take apply_skip apply_take_while : OpKind
  apply_skip_while apply_distinct_until_changed apply_last apply_first : OpKind

-- `RxLoopOp`; no slot is -1 in the source.
pub record LoopOp : Type 0 where
  pub kind : OpKind
  pub stage : PlannedStage
  pub state_slot_index : Option ℕ
  pub aux_state_slot_index : Option ℕ

pub record LoweredPipeline : Type 0 where
  pub pipeline_name : Option String
  pub segment_index : ℕ
  pub source_kind : SourceKind
  pub source_count : ℤ
  pub source_inner_n : ℤ
  pub state_slots : List StateSlot
  pub ops : List LoopOp
  pub returns_scalar : Bool
  pub preserves_observable_layout : Bool

-- An argument of the source if it is an int literal, else the 0 that `memset` left.
int_argument : SourceCall → ℕ → ℤ
int_argument source i = elim (get_or source.arguments i no_binding).value [
  | BindingValue.literal (Literal.int_value n) ↦ n
  | _ ↦ pos 0
]

-- The kind of the source, its count and its inner count.
abbrev pub LoweredSource : Type 0
LoweredSource = SourceKind × ℤ × ℤ

unfoldable pub source_table : SourceCall → List (String × Option LoweredSource)
unfolding int_argument
source_table s =
    ("range", some (range, pos 0, pos 0))
    ∷ ("synthetic_records", some (synthetic_records, int_argument s 0, pos 0))
    ∷ ("external_buffer", some (external_buffer, pos 0, pos 0))
    ∷ ("external_window", some (external_window, pos 0, int_argument s 0))
    ∷ ("zip", some (zip_synthetic_records, int_argument s 1, int_argument s 2))
    ∷ ("zip_range", some (zip_range, pos 0, pos 0))
    ∷ ("zip_merge_map_range", some (zip_merge_map_range, pos 0, int_argument s 0))
    ∷ []

unfoldable pub lower_source : SourceCall → Option LoweredSource
unfolding source_table
lower_source s = elim s.signature [ none ↦ none | some f ↦ by_name f.name (source_table s) none ]

is_void_ptr : ArgumentType → Bool
is_void_ptr ArgumentType.void_ptr = true
is_void_ptr _ = false

is_literal : BindingValue → Bool
is_literal (BindingValue.literal l) = true
is_literal _ = false

state_slot_value_type : PlannedStage → ArgumentType
unfolding is_void_ptr is_literal
state_slot_value_type stage =
    if is_literal stage.secondary_argument.value
    then if is_void_ptr stage.secondary_argument.value_type
      then ArgumentType.void_ptr
      else ArgumentType.int
    else ArgumentType.int

literal_int : ℤ → Literal
literal_int n = Literal.int_value n

initial : PlannedStage → Literal
unfolding literal_int
initial stage = elim stage.secondary_argument.value [
  | BindingValue.literal l ↦ l
  | _ ↦ literal_int (pos 0)
]

-- A slot that holds an int and starts at 0.
int_slot : SlotKind → String → StateSlot
unfolding literal_int
int_slot k name = record {
  kind = k;
  name = name;
  value_type = ArgumentType.int;
  initial_value = literal_int (pos 0);
}

-- A slot for an accumulator that the stage's second argument starts.
seeded_slot : SlotKind → String → PlannedStage → StateSlot
unfolding state_slot_value_type initial
seeded_slot k name stage = record {
  kind = k;
  name = name;
  value_type = state_slot_value_type stage;
  initial_value = initial stage;
}

-- The `switch` of the loop: the operation of a stage and the slots it asks for.
unfoldable pub lower_kind : StageKind → PlannedStage → Option (OpKind × List StateSlot)
unfolding int_slot seeded_slot
lower_kind StageKind.pair_map stage = some (call_pair_map, [])
lower_kind StageKind.triple_map stage = some (call_triple_map, [])
lower_kind StageKind.map stage = some (call_map, [])
lower_kind StageKind.map_into stage = some (call_map_into, [])
lower_kind StageKind.filter stage = some (call_filter, [])
lower_kind StageKind.scan stage = some (call_scan, int_slot scan_accum "scan_accum" ∷ [])
lower_kind StageKind.scan_from stage =
    some (call_scan, seeded_slot scan_accum "scan_accum" stage ∷ [])
lower_kind StageKind.scan_mut stage =
    some (call_scan_mut, seeded_slot scan_accum "scan_accum" stage ∷ [])
lower_kind StageKind.reduce stage =
    some (call_reduce, seeded_slot reduce_accum "reduce_accum" stage ∷ [])
lower_kind StageKind.reduce_mut stage =
    some (call_reduce_mut, seeded_slot reduce_accum "reduce_accum" stage ∷ [])
lower_kind StageKind.map_to stage = some (call_map_to, [])
lower_kind StageKind.take stage = some (apply_take, int_slot take_count "take_count" ∷ [])
lower_kind StageKind.skip stage = some (apply_skip, int_slot skip_count "skip_count" ∷ [])
lower_kind StageKind.take_while stage = some (apply_take_while, [])
lower_kind StageKind.skip_while stage =
    some (apply_skip_while, int_slot skip_while_passed "skip_while_passed" ∷ [])
lower_kind StageKind.distinct_until_changed stage = some (
  apply_distinct_until_changed,
  int_slot last_key "last_key" ∷ int_slot has_last_key "has_last_key" ∷ [],
)
lower_kind StageKind.last stage =
    some
      (apply_last, int_slot last_value "last_value" ∷ int_slot has_last_value "has_last_value" ∷ [])
lower_kind StageKind.first stage = some (apply_first, [])
lower_kind _ stage = none

-- The indices that `append_state_slot` hands out when `count` slots are there.
abbrev pub first_slot : ℕ → List StateSlot → Option ℕ
first_slot count [] = none
first_slot count (s ∷ slots) = some count

abbrev pub second_slot : ℕ → List StateSlot → Option ℕ
second_slot count [] = none
second_slot count (s ∷ []) = none
second_slot count (s ∷ s' ∷ slots) = some (count + 1)

abbrev pub Lowered : Type 0
Lowered = List StateSlot × List LoopOp

lower_error : Option String → ℕ → Diagnostic
lower_error symbol index = record {
  code = unlowerable_pipeline;
  symbol_name = symbol;
  chain_index = 0;
  stage_index = some index;
}

-- The loop of `rx_lower_pipeline_segment`, from a stage's index, with what is lowered so far.
unfoldable pub lower_stages :
    ℕ → List PlannedStage → Lowered → DiagnosticBag → Option Lowered × DiagnosticBag
unfolding lower_kind lower_error rx_diagnostic_bag_append
lower_stages index [] done bag = (some done, bag)
lower_stages index (s ∷ stages) (slots, ops) bag = elim (lower_kind s.kind s) [
  | none ↦ (none, rx_diagnostic_bag_append bag (lower_error (symbol_of s.signature) index))
  | some (kind, new) ↦
      lower_stages (index + 1) stages
        (
          slots ++ new,
          ops
              ++ (record {
                kind = kind;
                stage = s;
                state_slot_index = first_slot (length slots) new;
                aux_state_slot_index = second_slot (length slots) new;
              }
                  ∷ []),
        )
        bag
]

unfoldable pub finish :
    PlannedPipeline
    → ℕ
    → LoweredSource
    → Option Lowered × DiagnosticBag
    → Option LoweredPipeline × DiagnosticBag
finish p index source (none, bag) = (none, bag)
finish p index (kind, count, inner_n) (some (slots, ops), bag) =
    if bag.has_error then (none, bag) else (
      some (record {
        pipeline_name = p.name;
        segment_index = index;
        source_kind = kind;
        source_count = count;
        source_inner_n = inner_n;
        state_slots = slots;
        ops = ops;
        returns_scalar = true;
        preserves_observable_layout = false;
      }),
      bag,
    )

source_error : SourceCall → Diagnostic
source_error source = record {
  code = unsupported_source;
  symbol_name = symbol_of source.signature;
  chain_index = 0;
  stage_index = none;
}

-- The segment is given with its index; its stages are those of the pipeline from its start.
unfoldable pub rx_lower_pipeline_segment :
    PlannedPipeline → ℕ → PipelineSegment → DiagnosticBag → Option LoweredPipeline × DiagnosticBag
unfolding lower_source lower_stages finish source_error rx_diagnostic_bag_append
rx_lower_pipeline_segment p index segment bag = elim (lower_source p.source) [
  | none ↦ (none, rx_diagnostic_bag_append bag (source_error p.source))
  | some source ↦ finish p index source (
      lower_stages segment.start_stage_index
        (take segment.stage_count (drop segment.start_stage_index p.stages)) ([], []) bag)
]

not_self_contained : PlannedPipeline → ℕ → Diagnostic
not_self_contained p chain = record {
  code = unlowerable_pipeline;
  symbol_name = p.name;
  chain_index = chain;
  stage_index = none;
}

-- The one segment lowered; a count other than one is refused.
unfoldable pub lower_only :
    ℕ
    → PlannedPipeline
    → DiagnosticBag
    → List PipelineSegment
    → Option LoweredPipeline × DiagnosticBag
unfolding rx_lower_pipeline_segment not_self_contained rx_diagnostic_bag_append
lower_only chain p bag (segment ∷ []) = rx_lower_pipeline_segment p 0 segment bag
lower_only chain p bag _ = (none, rx_diagnostic_bag_append bag (not_self_contained p chain))

-- One round of the loop of `rx_lower_execution_plan`.
unfoldable pub lower_planned :
    ℕ → PlannedPipeline → DiagnosticBag → Option LoweredPipeline × DiagnosticBag
unfolding lower_only not_self_contained rx_diagnostic_bag_append
lower_planned chain p bag =
    if p.transpile_candidate
    then lower_only chain p bag p.segments
    else (none, rx_diagnostic_bag_append bag (not_self_contained p chain))

abbrev pub onto {ℓ} :
    {A : Type ℓ} → A → Option (List A) × DiagnosticBag → Option (List A) × DiagnosticBag
onto a (none, bag) = (none, bag)
onto a (some rest, bag) = (some (a ∷ rest), bag)

-- The rest of the loop runs only after a success.
abbrev pub and_then {ℓ} :
    {A : Type ℓ}
    → Option A × DiagnosticBag
    → (DiagnosticBag → Option (List A) × DiagnosticBag)
    → Option (List A) × DiagnosticBag
and_then (none, bag) rest = (none, bag)
and_then (some a, bag) rest = onto a (rest bag)

unfoldable pub lower_from :
    ℕ → List PlannedPipeline → DiagnosticBag → Option (List LoweredPipeline) × DiagnosticBag
unfolding lower_planned
lower_from chain [] bag = (some [], bag)
lower_from chain (p ∷ ps) bag =
    and_then (lower_planned chain p bag) (λ bag'. lower_from (chain + 1) ps bag')

unfoldable pub unless_error :
    Option (List LoweredPipeline) × DiagnosticBag → Option (List LoweredPipeline) × DiagnosticBag
unless_error (lowered, bag) = if bag.has_error then (none, bag) else (lowered, bag)

unfoldable pub rx_lower_execution_plan :
    List PlannedPipeline → DiagnosticBag → Option (List LoweredPipeline) × DiagnosticBag
unfolding lower_from unless_error
rx_lower_execution_plan [] bag = (some [], bag)
rx_lower_execution_plan (p ∷ ps) bag = unless_error (lower_from 0 (p ∷ ps) bag)
