-- ===== src/Tools/Parser/Chains.antt =====
-- core/tools/dsl_parser.c: recursive descent over the lexer: operators, subscriptions
-- and chains
use functional_c.Prelude.{
  ℕ, zero, suc, Bool, true, false, ◌&&◌, Option, none, some, List, [], ◌∷◌, if◌then◌else◌,
}
use functional_c.Prelude.Text.{Text, codes, same_text}
use functional_c.Tools.Ast.{SourceAst, OperatorKind, OperatorAst, ChainAst}
use functional_c.Tools.Registry.{
  OperatorArgumentKind, no_argument, function, literal, function_and_literal, source_argument,
  OperatorInfo, find_operator_info_by_name,
}
use functional_c.Tools.Lexer.{ident, lparen, rparen, comma, dot, semi, equal, arrow}
use functional_c.Tools.Reader.{
  unsupported_operator, expected_subscribe, other_parameter, out_of_fuel, Parser, pure, fail, ◌>>=◌,
  ◌>>◌, current_kind, current_text, same_kind, advance, accept, expect, expect_ident, expect_value,
  unless_closed, keyword,
}
use functional_c.Tools.Parser.Sources.{parse_source}

unfoldable pub operator : OperatorKind → Text → Text → Option SourceAst → Bool → OperatorAst
operator kind symbol extra source_arg has_extra = record {
  kind = kind;
  symbol = symbol;
  extra = extra;
  source_arg = source_arg;
  has_extra = has_extra;
}

unfoldable pub end_operator : OperatorAst → Parser OperatorAst
end_operator op = do expect rparen (codes "')'"); pure op

-- Behind the function of an operator that also takes a literal.
unfoldable pub with_literal : OperatorKind → Text → Bool → Parser OperatorAst
unfolding end_operator operator
with_literal kind symbol again =
    if again
    then (do extra ← expect_value 64; end_operator (operator kind symbol extra none true))
    else end_operator (operator kind symbol [] none false)

-- The switch of `parse_operator`.
unfoldable pub operator_arguments :
    Parser SourceAst → OperatorKind → OperatorArgumentKind → Parser OperatorAst
unfolding with_literal end_operator operator
operator_arguments parse kind no_argument = end_operator (operator kind [] [] none false)
operator_arguments parse kind function = do
  symbol ← expect_ident true 64
  end_operator (operator kind symbol [] none false)
operator_arguments parse kind literal = do
  extra ← expect_value 64
  end_operator (operator kind [] extra none true)
operator_arguments parse kind function_and_literal = do
  symbol ← expect_ident true 64
  again ← accept comma
  with_literal kind symbol again
operator_arguments parse kind source_argument = do
  s ← parse
  end_operator (operator kind [] [] (some s) false)

unfoldable pub operator_of : Parser SourceAst → Text → Option OperatorInfo → Parser OperatorAst
unfolding operator_arguments
operator_of parse name none = fail (unsupported_operator name)
operator_of parse name (some info) = operator_arguments parse info.kind info.argument_kind

unfoldable pub parse_operator : ℕ → Parser OperatorAst
unfolding operator_of
parse_operator fuel = do
  name ← expect_ident false 64
  expect lparen (codes "'('")
  operator_of (parse_source fuel) name (find_operator_info_by_name name)

unfoldable pub more_operators :
    Parser (List OperatorAst) → OperatorAst → Bool → Parser (List OperatorAst)
more_operators next op again =
    if again
    then (do rest ← next; pure (op ∷ rest))
    else (expect rparen (codes "')'") >> pure (op ∷ []))

-- The loop over the operators.
unfoldable pub parse_operators : ℕ → Parser OperatorAst → Parser (List OperatorAst)
unfolding more_operators
parse_operators zero parse lexer = out_of_fuel
parse_operators (suc fuel) parse lexer =
    let read : Parser (List OperatorAst) = do
      op ← parse
      again ← accept comma
      more_operators (parse_operators fuel parse) op again
    in read lexer

-- `assign(target))`
unfoldable pub assign_form : Parser Text
assign_form = do
  advance
  expect lparen (codes "'('")
  target ← expect_ident true 64
  expect rparen (codes "')'")
  expect rparen (codes "')'")
  expect semi (codes "';'")
  pure target

-- `x => target = x)`; the two local buffers were not cleared.
unfoldable pub lambda_form : Parser Text
lambda_form = do
  lambda_param ← expect_ident false 32
  expect arrow (codes "'=>'")
  target ← expect_ident true 64
  expect equal (codes "'='")
  assigned_from ← expect_ident false 32
  if same_text lambda_param assigned_from then pure tt else fail other_parameter
  expect rparen (codes "')'")
  expect semi (codes "';'")
  pure target

unfoldable pub parse_subscribe : Parser Text
unfolding assign_form lambda_form
parse_subscribe = do
  expect lparen (codes "'('")
  kind ← current_kind
  text ← current_text
  if same_kind kind ident && same_text text (codes "assign") then assign_form else lambda_form

-- `pipe(...).`, where the word is there.
unfoldable pub piped : ℕ → Bool → Parser (List OperatorAst)
unfolding unless_closed parse_operators
piped fuel true = do
  advance
  expect lparen (codes "'('")
  ops ← unless_closed [] (parse_operators fuel (parse_operator fuel))
  expect dot (codes "'.'")
  pure ops
piped fuel false = pure []

unfoldable pub parse_chain : ℕ → Parser ChainAst
unfolding piped keyword
parse_chain fuel = do
  s ← parse_source fuel
  expect dot (codes "'.'")
  text ← current_text
  ops ← piped fuel (same_text text (codes "pipe"))
  keyword (codes "subscribe") expected_subscribe
  target ← parse_subscribe
  pure (record { source = s; ops = ops; subscriber_target = target })
