-- ===== src/Planner/GraphOpt/LoopBody.antt =====
-- core/planner/graph_opt.c: `rx_try_emit_graph_optimized_loop_body` for the sources that start with
-- a number (`range`, `synthetic_records`). The C text is a list of lines; `print` gives each line's
-- text. The appends to the string builder do not fail.
pub mod Run
pub mod Passing
pub mod Reduced
mod Tests
use functional_c.Prelude.{
  ◌>>=◌, ℕ, ◌+◌, Bool, true, false, ◌||◌, Option, none, some, List, [], ◌∷◌, ◌++◌, get_elem?,
  if◌then◌else◌,
}
use functional_c.Prelude.Text.{Text, codes}
use functional_c.Prelude.Int.{ℤ, pos}
use functional_c.Planner.PipelineIr.{Literal, BindingValue, PlannedStage}
use functional_c.Planner.Lower.{
  StateSlot, LoopOp, OpKind, call_pair_map, call_triple_map, call_map, call_filter, call_scan,
  call_reduce, apply_take, apply_skip, apply_take_while, apply_skip_while,
  apply_distinct_until_changed, apply_last, apply_first,
}
use functional_c.Planner.GraphOpt.{Expr, var, rx_expr_is_named_var, rx_expr_uses_named_var}
use functional_c.Planner.GraphOpt.Parse.{rx_emit_expr, print_int}
use functional_c.Planner.GraphOpt.Extract.{try_parse_function_expression}

pub data Line : Type 0 where
  declare assign : Text → Expr → Line
  set_true increment : Text → Line
  continue_unless break_unless : Expr → Line
  break_from flag_from skip_below : Text → ℤ → Line
  continue_if_same : Text → Text → Line
  continue_until_passed : Text → Expr → Line
  flag break_if_flagged : Line

-- The texts that are appended for a line.
unfoldable pub print : Line → Text
print (declare name e) =
    codes "        intptr_t " ++ (name ++ (codes " = " ++ (rx_emit_expr e ++ codes ";\n")))
print (assign name e) =
    codes "        " ++ (name ++ (codes " = " ++ (rx_emit_expr e ++ codes ";\n")))
print (set_true name) = codes "        " ++ (name ++ codes " = true;\n")
print (increment name) = codes "        " ++ (name ++ codes " += 1;\n")
print (continue_unless e) = codes "        if (!(" ++ (rx_emit_expr e ++ codes ")) { continue; }\n")
print (break_unless e) = codes "        if (!(" ++ (rx_emit_expr e ++ codes ")) { break; }\n")
print (break_from name n) =
    codes "        if (" ++ (name ++ (codes " >= " ++ (print_int n ++ codes ") { break; }\n")))
print (flag_from name n) =
    codes "        if ("
    ++ (name ++ (codes " >= " ++ (print_int n ++ codes ") { should_break = true; }\n")))
print (skip_below name n) =
    codes "        if ("
    ++ (name
        ++ (codes " < "
            ++ (print_int n
                ++ (codes ") {\n            "
                    ++ (name ++ codes " += 1;\n            continue;\n        }\n")))))
print (continue_if_same has last) =
    codes "        if (" ++ (has ++ (codes " && key == " ++ (last ++ codes ") { continue; }\n")))
print (continue_until_passed passed e) =
    codes "        if (!"
    ++ (passed ++ (codes " && " ++ (rx_emit_expr e ++ codes ") { continue; }\n")))
print flag = codes "        should_break = true;\n"
print break_if_flagged = codes "        if (should_break) { break; }\n"

-- The lines so far, `current` (not NULL for these sources) and `has_value_decl`.
pub record Emission : Type 0 where
  pub lines : List Line
  pub current : Expr
  pub has_value_decl : Bool

then_lines : Emission → List Line → Emission
then_lines g new = record g { lines = g.lines ++ new }

unfoldable pub rx_materialize_current_expr : Emission → Emission
unfolding then_lines
rx_materialize_current_expr g =
    if rx_expr_is_named_var g.current (codes "value")
    then g
    else if g.has_value_decl || rx_expr_uses_named_var g.current (codes "value")
    then record (then_lines g (assign (codes "value") g.current ∷ [])) {
      current = var (codes "value");
    }
    else record (then_lines g (declare (codes "value") g.current ∷ [])) {
      current = var (codes "value");
      has_value_decl = true;
    }

is_breaking : OpKind → Bool
is_breaking apply_take = true
is_breaking apply_take_while = true
is_breaking apply_first = true
is_breaking _ = false

unfoldable pub pipeline_has_breaking_op : List LoopOp → Bool
unfolding is_breaking
pipeline_has_breaking_op [] = false
pipeline_has_breaking_op (op ∷ ops) = is_breaking op.kind || pipeline_has_breaking_op ops

literal_value : Literal → Option ℤ
literal_value (Literal.int_value n) = some n
literal_value (Literal.long_value n) = some n
literal_value _ = none

-- A literal of another kind, whose union member would be read as an int, is `none`.
unfoldable pub op_literal_value : LoopOp → Option ℤ
unfolding literal_value
op_literal_value op = elim op.stage.primary_argument.value [
  | BindingValue.literal l ↦ literal_value l
  | _ ↦ some (pos 0)
]

-- The function's name, if the argument is one.
function_of : LoopOp → Option Text
function_of op = elim op.stage.primary_argument.value [
  | BindingValue.function_name name ↦ some (codes name)
  | _ ↦ none
]

pub slot_name : List StateSlot → Option ℕ → Option Text
slot_name slots none = none
slot_name slots (some i) = elim (get_elem? slots i) [ none ↦ none | some s ↦ some (codes s.name) ]

pub call_op : Text → LoopOp → List (Text × Expr) → Option Expr
unfolding function_of
call_op source op params = try_parse_function_expression source (function_of op) params

unfoldable pub with_raw : Emission → List (Text × Expr)
with_raw g = (codes "raw", g.current) ∷ []

-- The result of a mapping replaces `current`.
mapped : Text → LoopOp → List (Text × Expr) → Emission → Option Emission
unfolding call_op
mapped source op params g = do
  e ← call_op source op params
  some (record g { current = e; has_value_decl = false })

folded : Text → List StateSlot → LoopOp → Emission → Option Emission
unfolding call_op slot_name then_lines
folded source slots op g = do
  name ← slot_name slots op.state_slot_index
  e ← call_op source op ((codes "raw_accum", var name) ∷ (codes "raw_next", g.current) ∷ [])
  some (record (then_lines g (assign name e ∷ [])) { current = var name; has_value_decl = false })

-- The lines that a test of the materialized value makes.
tested : Text → LoopOp → (Expr → List Line) → Emission → Option Emission
unfolding call_op with_raw then_lines rx_materialize_current_expr
tested source op new g = do
  e ← call_op source op (with_raw (rx_materialize_current_expr g))
  some (then_lines (rx_materialize_current_expr g) (new e))

-- One round of the loop over the operations, by the operation's kind.
unfoldable pub emit_op : Text → List StateSlot → LoopOp → OpKind → Emission → Option Emission
unfolding mapped folded tested slot_name then_lines rx_materialize_current_expr op_literal_value
    with_raw
emit_op source slots op call_pair_map g =
    mapped source op
      ((codes "left_raw", var (codes "left")) ∷ (codes "right_raw", var (codes "right")) ∷ []) g
emit_op source slots op call_triple_map g =
    mapped source op
      ((codes "zipped_left_raw", var (codes "zipped_left"))
        ∷ (codes "zipped_right_raw", var (codes "zipped_right"))
        ∷ (codes "right_raw", var (codes "right"))
        ∷ [])
      g
emit_op source slots op call_map g = mapped source op (with_raw g) g
emit_op source slots op call_filter g = tested source op (λ e. continue_unless e ∷ []) g
emit_op source slots op call_scan g = folded source slots op g
emit_op source slots op call_reduce g = folded source slots op g
emit_op source slots op apply_take g = do
  name ← slot_name slots op.state_slot_index
  limit ← op_literal_value op
  some (then_lines g (break_from name limit ∷ increment name ∷ flag_from name limit ∷ []))
emit_op source slots op apply_skip g = do
  name ← slot_name slots op.state_slot_index
  limit ← op_literal_value op
  some (then_lines g (skip_below name limit ∷ []))
emit_op source slots op apply_take_while g = tested source op (λ e. break_unless e ∷ []) g
emit_op source slots op apply_distinct_until_changed g = do
  last ← slot_name slots op.state_slot_index
  has ← slot_name slots op.aux_state_slot_index
  tested source op
      (λ e.
        declare (codes "key") e
        ∷ continue_if_same has last
        ∷ assign last (var (codes "key"))
        ∷ set_true has
        ∷ [])
      g
emit_op source slots op apply_skip_while g = do
  passed ← slot_name slots op.state_slot_index
  tested source op (λ e. continue_until_passed passed e ∷ set_true passed ∷ []) g
emit_op source slots op apply_last g = do
  last ← slot_name slots op.state_slot_index
  has ← slot_name slots op.aux_state_slot_index
  let g' : Emission = rx_materialize_current_expr g
  some (then_lines g' (assign last g'.current ∷ set_true has ∷ []))
emit_op source slots op apply_first g =
    some (then_lines (rx_materialize_current_expr g) (flag ∷ []))
emit_op source slots op _ g = none

unfoldable pub emit_ops : Text → List StateSlot → List LoopOp → Emission → Option Emission
unfolding emit_op
emit_ops source slots [] g = some g
emit_ops source slots (op ∷ ops) g = do
  next ← emit_op source slots op op.kind g
  emit_ops source slots ops next

-- `current` is the loop's variable at first.
abbrev pub start : Emission
start = record { lines = []; current = var (codes "src"); has_value_decl = false }

-- The lines between the head of the loop (with its declaration of `should_break`) and its end.
unfoldable pub loop_lines : Text → List StateSlot → List LoopOp → Option (List Line)
unfolding emit_ops pipeline_has_breaking_op
loop_lines source slots ops = do
  g ← emit_ops source slots ops start
  some (if pipeline_has_breaking_op ops then g.lines ++ (break_if_flagged ∷ []) else g.lines)
