-- ===== src/Planner/GraphOpt/LoopBody/Tests.antt =====
-- A concrete pipeline through the loop of core/planner/graph_opt.c, and the theorem at it.
use functional_c.Prelude.{
  ◌++◌, ℕ, ◌≡◌, refl, ap, Bool, true, false, none, some, List, [], ◌∷◌, Option,
}
use functional_c.Prelude.Text.{Text, codes}
use functional_c.Prelude.Int.{ℤ, pos, ◌+ℤ◌, ◌*ℤ◌, ltb_ℤ}
use functional_c.Planner.PipelineIr.{Literal, BindingValue, ArgumentType, StageKind}
use functional_c.Planner.Lower.{
  StateSlot, SlotKind, call_reduce, LoopOp, OpKind, call_map, call_filter,
}
use functional_c.Planner.GraphOpt.{
  Expr, const, var, node, mul, add, lt, truth, rx_simplify_expr, fold_constants,
  rx_expr_is_named_var, rx_expr_uses_named_var,
}
use functional_c.Planner.GraphOpt.Meaning.{eval}
use functional_c.Planner.GraphOpt.Parse.{
  strip_prefix, is_ident_char, rx_skip_space, span, rx_parse_expr_cmp, rx_parse_add, rx_parse_mul,
  rx_parse_primary, rx_consume, rx_parse_atom, starts_number, rx_parse_ident, operands, strtoll,
  compared, resolve, parse_expression, rx_emit_expr,
}
use functional_c.Planner.GraphOpt.Extract.{
  try_parse_function_expression, try_extract_graph_function, rx_extract_return_expression, strchr,
  matching, parse_parameters, find_function_name, copy_trimmed_range, strip_return_wrapper,
  statement, returned, stored, pieces,
}
use functional_c.Planner.GraphOpt.LoopBody.{
  slot_name, Line, declare, continue_unless, print, loop_lines, start, call_op, with_raw, emit_op,
  emit_ops, rx_materialize_current_expr, pipeline_has_breaking_op,
}
use functional_c.Planner.GraphOpt.LoopBody.Run.{Variables}
use functional_c.Planner.GraphOpt.LoopBody.Reduced.{
  ReduceCalled, run_emitted, compiles, declared_once, reduce_numbers, loop_lines-reduce,
}
use functional_c.Planner.GraphOpt.LoopBody.Passing.{Step, map, filter, Called, AllCalled}

abbrev source : Text
source =
    codes
      "s(void*raw){return raw<9;}t(void*raw){return raw*2;}u(void*raw_accum,void*raw_next){return raw_accum+raw_next;}"

abbrev operation : OpKind → BindingValue → LoopOp
operation kind argument = record {
  kind = kind;
  stage = record {
    kind = StageKind.map;
    signature = none;
    primary_argument = record { value = argument; value_type = ArgumentType.modifier_fn };
    secondary_argument = record { value = BindingValue.unbound; value_type = ArgumentType.int };
    chain_length = 1;
    can_start_segment = true;
    can_end_segment = true;
    must_remain_whole = false;
    preserves_runtime_layout = false;
  };
  state_slot_index = none;
  aux_state_slot_index = none;
}

-- filter(s), map(t)
abbrev ops : List LoopOp
ops =
    operation call_filter (BindingValue.function_name "s")
    ∷ operation call_map (BindingValue.function_name "t")
    ∷ []

abbrev slots : List StateSlot
slots =
    (record {
      kind = SlotKind.reduce_accum;
      name = "reduce_accum";
      value_type = ArgumentType.int;
      initial_value = Literal.int_value (pos 0);
    })
    ∷ []

abbrev sum : LoopOp
sum = record (operation call_reduce (BindingValue.function_name "u")) { state_slot_index = some 0 }

abbrev below : ℤ → Bool
below v = ltb_ℤ v (pos 9)

abbrev double : ℤ → ℤ
double v = v *ℤ pos 2

abbrev steps : List Step
steps = filter below ∷ map double ∷ []

calls :
    (try_parse_function_expression source
        (some (codes "s"))
        ((codes "raw", var (codes "value")) ∷ [])
      ≡ some (node lt (var (codes "value")) (const (pos 9))))
    × (try_parse_function_expression source
          (some (codes "t"))
          ((codes "raw", var (codes "value")) ∷ [])
        ≡ some (node mul (var (codes "value")) (const (pos 2))))
unfolding try_parse_function_expression try_extract_graph_function find_function_name strchr
    matching parse_parameters copy_trimmed_range strip_prefix span rx_skip_space is_ident_char
    pieces rx_extract_return_expression stored returned statement strip_return_wrapper
    parse_expression rx_parse_expr_cmp rx_parse_add rx_parse_mul rx_parse_primary rx_consume
    rx_parse_atom starts_number rx_parse_ident operands strtoll compared resolve rx_simplify_expr
calls = (refl, refl)

value_of : Option ℤ → ℤ
value_of none = pos 0
value_of (some v) = v

eval-below :
    (env : Variables) (v : ℤ)
    → eval env (var (codes "value")) ≡ some v
    → eval env (node lt (var (codes "value")) (const (pos 9))) ≡ some (truth (below v))
unfolding eval fold_constants value_of
eval-below env v h = ap (λ o. some (truth (below (value_of o)))) h

eval-double :
    (env : Variables) (v : ℤ)
    → eval env (var (codes "value")) ≡ some v
    → eval env (node mul (var (codes "value")) (const (pos 2))) ≡ some (double v)
unfolding eval fold_constants value_of
eval-double env v h = ap (λ o. some (double (value_of o))) h

ops-AllCalled : AllCalled source slots ops steps start
unfolding AllCalled Called call_op with_raw emit_op rx_materialize_current_expr rx_expr_is_named_var
    rx_expr_uses_named_var
ops-AllCalled = (
  (refl, node lt (var (codes "value")) (const (pos 9)), calls.0, eval-below),
  rw (calls.0) (
    (refl, node mul (var (codes "value")) (const (pos 2)), calls.1, eval-double),
    rw (calls.1) tt,
  ),
)

printed :
    print (continue_unless (node lt (var (codes "value")) (const (pos 9))))
    ≡ codes "        if (!((value < 9))) { continue; }\n"
unfolding print rx_emit_expr
printed = refl

-- filter(s), map(k) with a constant, filter(s): `value` is declared twice.
redeclared :
    loop_lines (codes "s(void*raw){return raw;}k(void*raw){return 1;}") [] (
      operation call_filter (BindingValue.function_name "s")
      ∷ operation call_map (BindingValue.function_name "k")
      ∷ operation call_filter (BindingValue.function_name "s")
      ∷ [])
    ≡ some (
        declare (codes "value") (var (codes "src"))
        ∷ continue_unless (var (codes "value"))
        ∷ declare (codes "value") (const (pos 1))
        ∷ continue_unless (var (codes "value"))
        ∷ [])
unfolding loop_lines emit_ops emit_op with_raw rx_materialize_current_expr rx_expr_is_named_var
    rx_expr_uses_named_var pipeline_has_breaking_op try_parse_function_expression
    try_extract_graph_function find_function_name strchr matching parse_parameters
    copy_trimmed_range strip_prefix span rx_skip_space is_ident_char pieces
    rx_extract_return_expression stored returned statement strip_return_wrapper parse_expression
    rx_parse_expr_cmp rx_parse_add rx_parse_mul rx_parse_primary rx_consume rx_parse_atom
    starts_number rx_parse_ident operands strtoll compared resolve rx_simplify_expr
redeclared = refl

summed :
    try_parse_function_expression source (some (codes "u")) (
      (codes "raw_accum", var (codes "reduce_accum"))
      ∷ (codes "raw_next", node mul (var (codes "value")) (const (pos 2)))
      ∷ [])
    ≡ some (node add (var (codes "reduce_accum")) (node mul (var (codes "value")) (const (pos 2))))
unfolding try_parse_function_expression try_extract_graph_function find_function_name strchr
    matching parse_parameters copy_trimmed_range strip_prefix span rx_skip_space is_ident_char
    pieces rx_extract_return_expression stored returned statement strip_return_wrapper
    parse_expression rx_parse_expr_cmp rx_parse_add rx_parse_mul rx_parse_primary rx_consume
    rx_parse_atom starts_number rx_parse_ident operands strtoll compared resolve rx_simplify_expr
summed = refl

eval-sum :
    (env : Variables) (x : Expr) (w : ℤ)
    → eval env x ≡ some w
    → eval env (node add (var (codes "reduce_accum")) x) ≡ some (env (codes "reduce_accum") +ℤ w)
unfolding eval fold_constants
eval-sum env x w h = rw h refl

sum-ReduceCalled :
    ReduceCalled source sum (codes "reduce_accum") (λ a b. a +ℤ b) (emit_ops source slots ops start)
unfolding ReduceCalled emit_ops emit_op call_op with_raw rx_materialize_current_expr
    rx_expr_is_named_var rx_expr_uses_named_var
sum-ReduceCalled = rw (calls.0) (
    rw (calls.1) (
      node add (var (codes "reduce_accum")) (node mul (var (codes "value")) (const (pos 2))),
      summed,
      λ env w h. eval-sum env (node mul (var (codes "value")) (const (pos 2))) w h,
    ))

no_break : pipeline_has_breaking_op (ops ++ (sum ∷ [])) ≡ false
unfolding pipeline_has_breaking_op
no_break = refl

-- `value` is declared once.
once : compiles (loop_lines source slots (ops ++ (sum ∷ []))) ≡ true
unfolding loop_lines emit_ops emit_op call_op with_raw rx_materialize_current_expr
    rx_expr_is_named_var rx_expr_uses_named_var pipeline_has_breaking_op declared_once slot_name
once = rw (calls.0) (rw (calls.1) (rw summed refl))

-- The lines that declare `value` twice have no result.
redeclared_twice :
    declared_once (
      declare (codes "value") (var (codes "src"))
      ∷ continue_unless (var (codes "value"))
      ∷ declare (codes "value") (const (pos 1))
      ∷ [])
    ≡ false
unfolding declared_once
redeclared_twice = refl

sum-slot : slot_name slots sum.state_slot_index ≡ some (codes "reduce_accum")
unfolding slot_name
sum-slot = refl

loop_lines-reduce_example :
    (lines : List Line) × (loop_lines source slots (ops ++ (sum ∷ [])) ≡ some lines)
    × ((env : Variables) (n : ℕ)
        → (env' : Variables) × (run_emitted lines n env ≡ some env')
          × (env' (codes "reduce_accum")
              ≡ reduce_numbers (λ a b. a +ℤ b) steps n 1 (env (codes "reduce_accum"))))
loop_lines-reduce_example =
    loop_lines-reduce source slots ops steps sum (codes "reduce_accum") (λ a b. a +ℤ b)
      ops-AllCalled refl sum-slot sum-ReduceCalled refl refl no_break once
