-- ===== src/Planner/PlannerIr/Validation.antt =====
-- What lowering makes passes the planner IR's validation.
use functional_c.Prelude.{
  ℕ, ◌+◌, ◌≤◌, Bool, true, false, Option, none, some, List, [], ◌∷◌, ◌++◌, length, arith, ◌≡◌, refl,
  subst, length-append, take, drop, if◌then◌else◌, Bool-cases, Option-cases, inl, inr,
}
use functional_c.Planner.PipelineIr.{PlannedStage, PlannedPipeline, DiagnosticBag, PipelineSegment}
use functional_c.Planner.Lower.{
  StateSlot, LoopOp, LoweredPipeline, Lowered, first_slot, second_slot, lower_stages, lower_kind,
  rx_lower_pipeline_segment, lower_source, finish, lower_planned, lower_from, unless_error,
  rx_lower_execution_plan, onto, and_then, lower_only,
}
use functional_c.Planner.PlannerIr.{
  slot_below, ops_are_valid, pipeline_is_valid, rx_validate_planner_ir, rx_build_planner_ir,
  build_pipeline,
}

slot_below_mono : (n m : ℕ) (i : Option ℕ) → n ≤ m → slot_below n i ≡ true → slot_below m i ≡ true
slot_below_mono n m none h e = refl
slot_below_mono n m (some i) h e = ground arith

ops_are_valid_mono :
    (n m : ℕ) (ops : List LoopOp) → n ≤ m → ops_are_valid n ops ≡ true → ops_are_valid m ops ≡ true
unfolding ops_are_valid
ops_are_valid_mono n m [] h e = refl
ops_are_valid_mono n m (op ∷ ops) h e =
    let below = slot_below_mono n m op.state_slot_index h in
    let aux = slot_below_mono n m op.aux_state_slot_index h in
    let rest = ops_are_valid_mono n m ops h in grind arith

ops_are_valid-append :
    (n : ℕ) (ops ops' : List LoopOp)
    → ops_are_valid n ops ≡ true
    → ops_are_valid n ops' ≡ true
    → ops_are_valid n (ops ++ ops') ≡ true
unfolding ops_are_valid
ops_are_valid-append n [] ops' h h' = h'
ops_are_valid-append n (op ∷ ops) ops' h h' =
    let rest = ops_are_valid-append n ops ops' in grind arith

first_slot-below :
    (slots new : List StateSlot)
    → slot_below (length (slots ++ new)) (first_slot (length slots) new) ≡ true
first_slot-below slots [] = refl
first_slot-below slots (s ∷ new) = let n = length-append slots (s ∷ new) in ground arith

second_slot-below :
    (slots new : List StateSlot)
    → slot_below (length (slots ++ new)) (second_slot (length slots) new) ≡ true
second_slot-below slots [] = refl
second_slot-below slots (s ∷ []) = refl
second_slot-below slots (s ∷ s' ∷ new) = let n = length-append slots (s ∷ s' ∷ new) in ground arith

-- Every operation's indices are below the slot count.
IsSound : Option Lowered → Type 0
IsSound none = Unit
IsSound (some (slots, ops)) = ops_are_valid (length slots) ops ≡ true

lower_stages-IsSound :
    (index : ℕ) (stages : List PlannedStage) (slots : List StateSlot) (ops : List LoopOp)
    (bag : DiagnosticBag)
    → ops_are_valid (length slots) ops ≡ true
    → IsSound (lower_stages index stages (slots, ops) bag).0
unfolding lower_stages IsSound ops_are_valid
lower_stages-IsSound index [] slots ops bag h = h
lower_stages-IsSound index (s ∷ stages) slots ops bag h =
    elim (Option-cases (lower_kind s.kind s)) [
      | inl e ↦ rw (e, IsSound) tt
      | inr ((kind, new), e) ↦
          rw (e, IsSound)
            (lower_stages-IsSound (index + 1) stages (slots ++ new)
              (ops
                ++ (record {
                  kind = kind;
                  stage = s;
                  state_slot_index = first_slot (length slots) new;
                  aux_state_slot_index = second_slot (length slots) new;
                }
                    ∷ []))
              bag
              (let longer =
                  ops_are_valid_mono (length slots) (length (slots ++ new)) ops
                    (omega (arith, length-append slots new)) h in
                let first = first_slot-below slots new in
                let second = second_slot-below slots new in
                ops_are_valid-append (length (slots ++ new)) ops _ longer (rw first (rw second))))
    ]

IsValidPipeline : Option LoweredPipeline → Type 0
IsValidPipeline none = Unit
IsValidPipeline (some l) = pipeline_is_valid (build_pipeline l) ≡ true

finish-IsValid :
    (p : PlannedPipeline) (index : ℕ) (source : _) (r : Option Lowered × DiagnosticBag)
    → IsSound r.0
    → IsValidPipeline (finish p index source r).0
unfolding finish IsSound IsValidPipeline pipeline_is_valid build_pipeline
finish-IsValid p index source (none, bag) h = tt
finish-IsValid p index (kind, count, inner_n) (some (slots, ops), bag) h =
    elim (Bool-cases bag.has_error) [ inl e ↦ rw e tt | inr e ↦ rw e h ]

rx_lower_pipeline_segment-IsValid :
    (p : PlannedPipeline) (index : ℕ) (segment : PipelineSegment) (bag : DiagnosticBag)
    → IsValidPipeline (rx_lower_pipeline_segment p index segment bag).0
unfolding rx_lower_pipeline_segment IsValidPipeline ops_are_valid
rx_lower_pipeline_segment-IsValid p index segment bag =
    elim (Option-cases (lower_source p.source)) [
      | inl e ↦ rw (e, IsValidPipeline) tt
      | inr (source, e) ↦
          rw (e, IsValidPipeline)
            (finish-IsValid p index source _ (
              lower_stages-IsSound segment.start_stage_index
                (take segment.stage_count (drop segment.start_stage_index p.stages)) [] [] bag
                refl))
    ]

lower_only-IsValid :
    (chain : ℕ) (p : PlannedPipeline) (bag : DiagnosticBag) (segments : List PipelineSegment)
    → IsValidPipeline (lower_only chain p bag segments).0
unfolding lower_only IsValidPipeline
lower_only-IsValid chain p bag [] = tt
lower_only-IsValid chain p bag (segment ∷ []) = rx_lower_pipeline_segment-IsValid p 0 segment bag
lower_only-IsValid chain p bag (segment ∷ segment' ∷ segments) = tt

if_then_else-IsValid :
    (b : Bool) (r r' : Option LoweredPipeline × DiagnosticBag)
    → IsValidPipeline r.0
    → IsValidPipeline r'.0
    → IsValidPipeline (if b then r else r').0
if_then_else-IsValid true r r' h h' = h
if_then_else-IsValid false r r' h h' = h'

lower_planned-IsValid :
    (chain : ℕ) (p : PlannedPipeline) (bag : DiagnosticBag)
    → IsValidPipeline (lower_planned chain p bag).0
unfolding lower_planned IsValidPipeline
lower_planned-IsValid chain p bag =
    if_then_else-IsValid p.transpile_candidate _ _ (lower_only-IsValid chain p bag p.segments) tt

IsValidProgram : Option (List LoweredPipeline) → Type 0
IsValidProgram none = Unit
IsValidProgram (some ls) = rx_validate_planner_ir (rx_build_planner_ir ls) ≡ true

onto-IsValid :
    (l : LoweredPipeline) (r : Option (List LoweredPipeline) × DiagnosticBag)
    → IsValidPipeline (some l)
    → IsValidProgram r.0
    → IsValidProgram (onto l r).0
unfolding IsValidPipeline IsValidProgram rx_validate_planner_ir rx_build_planner_ir
onto-IsValid l (none, bag) h h' = tt
onto-IsValid l (some ls, bag) h h' = ground arith

and_then-IsValid :
    (r : Option LoweredPipeline × DiagnosticBag)
    (rest : DiagnosticBag → Option (List LoweredPipeline) × DiagnosticBag)
    → IsValidPipeline r.0
    → ((bag : DiagnosticBag) → IsValidProgram (rest bag).0)
    → IsValidProgram (and_then r rest).0
unfolding IsValidProgram
and_then-IsValid (none, bag) rest h h' = tt
and_then-IsValid (some l, bag) rest h h' = onto-IsValid l (rest bag) h (h' bag)

lower_from-IsValid :
    (chain : ℕ) (ps : List PlannedPipeline) (bag : DiagnosticBag)
    → IsValidProgram (lower_from chain ps bag).0
unfolding lower_from IsValidProgram rx_validate_planner_ir rx_build_planner_ir
lower_from-IsValid chain [] bag = refl
lower_from-IsValid chain (p ∷ ps) bag =
    and_then-IsValid (lower_planned chain p bag) (lower_from (chain + 1) ps)
      (lower_planned-IsValid chain p bag) (lower_from-IsValid (chain + 1) ps)

unless_error-IsValid :
    (r : Option (List LoweredPipeline) × DiagnosticBag)
    → IsValidProgram r.0
    → IsValidProgram (unless_error r).0
unfolding unless_error IsValidProgram
unless_error-IsValid (lowered, bag) h = elim (Bool-cases bag.has_error) [
  | inl e ↦ rw e tt
  | inr e ↦ rw e h
]

lowered-IsValid :
    (plan : List PlannedPipeline) (bag : DiagnosticBag)
    → IsValidProgram (rx_lower_execution_plan plan bag).0
unfolding rx_lower_execution_plan IsValidProgram rx_validate_planner_ir rx_build_planner_ir
lowered-IsValid [] bag = refl
lowered-IsValid (p ∷ ps) bag =
    unless_error-IsValid (lower_from 0 (p ∷ ps) bag) (lower_from-IsValid 0 (p ∷ ps) bag)

-- Whatever the plan and the diagnostics so far, if lowering it succeeds then the planner IR built
-- from the result passes the validation: every operation's slot indices are below its pipeline's
-- slot count, and every pipeline has a name.
pub rx_validate_planner_ir-rx_build_planner_ir :
    (plan : List PlannedPipeline) (bag : DiagnosticBag) (lowered : List LoweredPipeline)
    → (rx_lower_execution_plan plan bag).0 ≡ some lowered
    → rx_validate_planner_ir (rx_build_planner_ir lowered) ≡ true
unfolding IsValidProgram
rx_validate_planner_ir-rx_build_planner_ir plan bag lowered e =
    subst IsValidProgram e (lowered-IsValid plan bag)
