-- ===== src/Tools/Tests.antt =====
-- core/tools: programs that are compiled, and the theorems at these programs.
use functional_c.Prelude.{◌≡◌, ◌≢◌, refl, true, false, none, [], ◌∷◌, map, arith}
use functional_c.Prelude.Text.{Text, codes}
use functional_c.Tools.Ast.{
  Expr, no_args, arg, FnDef, range, source, no_sources, OperatorKind, OperatorAst, ChainAst,
  source_count, ProgramAst, ProgramIr, value,
}
use functional_c.Tools.Registry.{find_operator_info}
use functional_c.Tools.Lexer.{
  isspace, isdigit, isalpha, starts_word, is_word, heads, skip_ws, symbol, copy_text, scan_token,
  moved, lexer_next, lexer_init,
}
use functional_c.Tools.Reader.{
  kind_number, same_kind, advance, accept, expect, copied, expect_ident, expect_value,
  unless_closed, keyword,
}
use functional_c.Tools.Parser.Functions.{
  more_args, parse_args, call_or_name, expr_at, parse_expr, more_params, parse_params, parse_fn_def,
}
use functional_c.Tools.Parser.Sources.{
  source_kind_of, is_some, is_source_name, more_source_args, source_arg, source_args,
  parse_source_arg_list, is_zip, source_of, parse_source,
}
use functional_c.Tools.Parser.Chains.{
  operator, end_operator, with_literal, operator_arguments, operator_of, parse_operator,
  more_operators, parse_operators, assign_form, lambda_form, parse_subscribe, piped, parse_chain,
}
use functional_c.Tools.Parser.Programs.{
  function_then, chain_then, parse_program, parse_from, parse_program_text,
}
use functional_c.Planner.GraphOpt.Parse.{span}
use functional_c.Tools.Registry.{k_operator_table, find_operator_info_by_name}
use functional_c.Tools.Lexer.Feeds.{render, IsEnd}
use functional_c.Tools.Reader.{ok, failed, out_of_fuel, too_many, expected}
use functional_c.Tools.Parser.Total.Programs.{parse_program_text-fuel}
use functional_c.Tools.Parser.Printer.{IsFunction}
use functional_c.Tools.Parser.ChainPrinter.{print_program, IsProgram}
use functional_c.Tools.Parser.RoundTrip.Words.{checks, checks→IsWord}
use functional_c.Tools.Parser.RoundTrip.Programs.{parse_program_text-render}
use functional_c.Tools.Lowering.{
  mark_function_usage, validate_source, takes_function, unknown_function, conflicting_kinds,
  lowered, refused, lower_program, lower_chain, unused,
}
use functional_c.Tools.Lowering.Typing.{IsTyped, lower_program-IsTyped}
use functional_c.Tools.Lowering.Complete.{ChainsUse, lower_program_complete}
use functional_c.Tools.Lowering.Refusals.{Explains, lower_program-refused}
use functional_c.Tools.Plan.{ExecutionPlan, backend_of}
use functional_c.Tools.Plan.Backends.{expected_backend, backend_of-expected}
use functional_c.Tools.Compile.{compile, planned}
use functional_c.Tools.Compile.EndToEnd.{IsPlanFor, compile-render}

abbrev squares_text : Text
squares_text =
    codes
      "fn sq(x) { return mul(x, x); } // a comment\nrange(1, 10).pipe(map(sq), take(3)).subscribe(x => total = x);"

abbrev square : FnDef
square = record {
  name = codes "sq";
  params = codes "x" ∷ [];
  body =
      Expr.call (codes "mul") (arg (Expr.ident (codes "x")) (arg (Expr.ident (codes "x")) no_args));
}

abbrev apply_map : Text → OperatorAst
apply_map name = record {
  kind = OperatorKind.map;
  symbol = name;
  extra = [];
  source_arg = none;
  has_extra = false;
}

abbrev take_three : OperatorAst
take_three = record {
  kind = OperatorKind.take;
  symbol = [];
  extra = codes "3";
  source_arg = none;
  has_extra = true;
}

abbrev chain_of : Text → ChainAst
chain_of name = record {
  source = source range (codes "1" ∷ codes "10" ∷ []) no_sources;
  ops = apply_map name ∷ take_three ∷ [];
  subscriber_target = codes "total";
}

abbrev squares : ProgramAst
squares = record { functions = square ∷ []; chains = chain_of (codes "sq") ∷ [] }

-- A program, a character that begins no token, a missing bracket and a third parameter.
texts_parsed :
    (parse_program_text squares_text ≡ ok squares)
    × (parse_program_text (codes "# range(1, 2)") ≡ ok (record { functions = []; chains = [] }))
    × (parse_program_text (codes "range 1") ≡ failed (expected (codes "'('") (codes "1")))
    × (parse_program_text (codes "fn f(a, b, c) { return a; }") ≡ failed too_many)
unfolding isspace isdigit isalpha starts_word is_word heads skip_ws symbol copy_text scan_token
    moved lexer_next lexer_init kind_number same_kind advance accept expect copied expect_ident
    expect_value unless_closed keyword more_args parse_args call_or_name expr_at parse_expr
    more_params parse_params parse_fn_def source_kind_of is_some is_source_name more_source_args
    source_arg source_args parse_source_arg_list is_zip source_of parse_source operator end_operator
    with_literal operator_arguments operator_of parse_operator more_operators parse_operators
    assign_form lambda_form parse_subscribe piped parse_chain function_then chain_then parse_program
    parse_from parse_program_text span find_operator_info_by_name k_operator_table
texts_parsed = (refl, refl, refl, refl)

parse_program_text-fuel_example : parse_program_text squares_text ≢ out_of_fuel
parse_program_text-fuel_example = parse_program_text-fuel squares_text

square-IsFunction : IsFunction square
unfolding checks starts_word is_word
square-IsFunction = record {
  name_is = checks→IsWord (codes "sq") refl;
  name_fits = omega arith;
  params_are = (checks→IsWord (codes "x") refl, omega arith, tt);
  few = omega arith;
  body_is = (
    checks→IsWord (codes "mul") refl,
    omega arith,
    (checks→IsWord (codes "x") refl, (checks→IsWord (codes "x") refl, tt)),
  );
}

squares-IsProgram : IsProgram squares
unfolding checks starts_word is_word isdigit find_operator_info source_count is_zip
squares-IsProgram = record {
  functions_are = (square-IsFunction, tt);
  chains_are =
      ((
        (
          ((refl, tt, omega arith), refl, ((refl, (refl, tt), omega arith), refl, tt)),
          omega arith,
          tt,
          omega arith,
          tt,
        ),
        (
          (checks→IsWord (codes "sq") refl, refl, refl, refl),
          ((refl, (refl, tt, omega arith), refl, refl), tt),
        ),
        checks→IsWord (codes "total") refl,
        tt,
      ));
}

comment_IsEnd : IsEnd (codes "# whatever stands here")
unfolding scan_token skip_ws
comment_IsEnd = (codes "#", codes " whatever stands here", refl)

parse_program_text-render_example :
    parse_program_text (render (print_program squares) (codes "# whatever stands here"))
    ≡ ok squares
parse_program_text-render_example =
    parse_program_text-render squares (codes "# whatever stands here") squares-IsProgram
      comment_IsEnd

abbrev squares_ir : ProgramIr
squares_ir = record {
  functions = record { def = square; kind = value; used = true } ∷ [];
  chains = map lower_chain squares.chains;
}

squares-lowered : lower_program squares ≡ lowered squares_ir
unfolding lower_program find_operator_info mark_function_usage
squares-lowered = refl

lower_program-IsTyped_example : IsTyped squares squares_ir
lower_program-IsTyped_example = lower_program-IsTyped squares squares-lowered

squares-ChainsUse : ChainsUse (λ name. value) (map unused squares.functions) squares.chains
unfolding validate_source find_operator_info takes_function unused
squares-ChainsUse = (refl, ((tt, refl), (tt, tt)), tt)

lower_program_complete_example : (ir : ProgramIr) × (lower_program squares ≡ lowered ir)
lower_program_complete_example = lower_program_complete (λ name. value) squares squares-ChainsUse

abbrev cubes : ProgramAst
cubes = record { functions = square ∷ []; chains = chain_of (codes "cube") ∷ [] }

cubes_refused : lower_program cubes ≡ refused (unknown_function (codes "cube"))
unfolding lower_program find_operator_info mark_function_usage
cubes_refused = refl

-- `sq` is used by a `map` and, in the other chain, by a `filter`.
abbrev apply_filter : OperatorAst
apply_filter = record (apply_map (codes "sq")) { kind = OperatorKind.filter }

abbrev mixed : ProgramAst
mixed = record squares {
  chains = chain_of (codes "sq") ∷ record (chain_of (codes "sq")) { ops = apply_filter ∷ [] } ∷ [];
}

mixed_refused : lower_program mixed ≡ refused (conflicting_kinds (codes "sq"))
unfolding lower_program find_operator_info mark_function_usage
mixed_refused = refl

lower_program-refused_example : Explains mixed (conflicting_kinds (codes "sq"))
lower_program-refused_example = lower_program-refused mixed mixed_refused

compile-render_example :
    (plan : ExecutionPlan) × (compile
        (render (print_program squares) (codes "# whatever stands here"))
      ≡ planned plan)
    × IsPlanFor squares plan
compile-render_example =
    compile-render (λ name. value) squares (codes "# whatever stands here") squares-IsProgram
      comment_IsEnd squares-ChainsUse

backend_of-expected_example :
    backend_of (lower_chain (chain_of (codes "sq")))
    ≡ expected_backend
        (lower_chain (chain_of (codes "sq"))).source
        (lower_chain (chain_of (codes "sq"))).ops
backend_of-expected_example = backend_of-expected (lower_chain (chain_of (codes "sq")))
