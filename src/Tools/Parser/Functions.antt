-- ===== src/Tools/Parser/Functions.antt =====
-- core/tools/dsl_parser.c: recursive descent over the lexer: expressions and functions.
-- Each loop and each recursion costs a unit of fuel. Allocation succeeds.
use functional_c.Prelude.{ℕ, zero, suc, Bool, false, List, [], ◌∷◌, leb, if◌then◌else◌, take}
use functional_c.Prelude.Text.{Text, codes}
use functional_c.Tools.Ast.{Expr, Args, no_args, arg, FnDef}
use functional_c.Tools.Lexer.{TokenKind, ident, number, lparen, rparen, lbrace, rbrace, comma, semi}
use functional_c.Tools.Reader.{
  unsupported_expression, expected_return, too_many, failed, out_of_fuel, Parser, pure, fail, ◌>>=◌,
  ◌>>◌, advance, accept, expect, expect_ident, unless_closed, keyword,
}

-- `new_expr` copies at most 63 characters into a cleared buffer.
abbrev pub expr_text : Text → Text
expr_text = take 63

-- Behind an argument: a comma and the next one, or the end of the call.
unfoldable pub more_args : Parser Args → Expr → Bool → Parser Args
more_args next e again =
    if again
    then (do rest ← next; pure (arg e rest))
    else (expect rparen (codes "')'") >> pure (arg e no_args))

-- The loop over the arguments; the number says how many were read.
unfoldable pub parse_args : ℕ → Parser Expr → ℕ → Parser Args
unfolding more_args
parse_args zero parse count lexer = out_of_fuel
parse_args (suc fuel) parse count lexer =
    let read : Parser Args = do
      e ← parse
      again ← accept comma
      more_args (parse_args fuel parse (suc count)) e again
    in if leb 8 count then failed too_many else read lexer

-- Behind the "(" of a call, or behind a name where there is none.
unfoldable pub call_or_name : Parser Args → Text → Bool → Parser Expr
call_or_name args name called =
    if called
    then (do read ← unless_closed no_args args; pure (Expr.call (expr_text name) read))
    else pure (Expr.ident (expr_text name))

-- The three branches of `parse_expr`.
unfoldable pub expr_at : TokenKind → Text → Parser Args → Parser Expr
unfolding call_or_name
expr_at ident text args = do advance; called ← accept lparen; call_or_name args text called
expr_at number text args = do advance; pure (Expr.number (expr_text text))
expr_at _ text args = fail (unsupported_expression text)

unfoldable pub parse_expr : ℕ → Parser Expr
unfolding expr_at parse_args
parse_expr zero lexer = out_of_fuel
parse_expr (suc fuel) lexer =
    expr_at lexer.current.kind lexer.current.text (parse_args fuel (parse_expr fuel) 0) lexer

unfoldable pub more_params : Parser (List Text) → Text → Bool → Parser (List Text)
more_params next p again =
    if again
    then (do rest ← next; pure (p ∷ rest))
    else (expect rparen (codes "')'") >> pure (p ∷ []))

-- The loop over the parameters; the buffers of a function were not cleared.
unfoldable pub parse_params : ℕ → ℕ → Parser (List Text)
unfolding more_params
parse_params zero count lexer = out_of_fuel
parse_params (suc fuel) count lexer =
    let read : Parser (List Text) = do
      p ← expect_ident false 32
      again ← accept comma
      more_params (parse_params fuel (suc count)) p again
    in if leb 2 count then failed too_many else read lexer

unfoldable pub parse_fn_def : ℕ → Parser FnDef
unfolding unless_closed keyword
parse_fn_def fuel = do
  advance
  name ← expect_ident false 64
  expect lparen (codes "'('")
  params ← unless_closed [] (parse_params fuel 0)
  expect lbrace (codes "'{'")
  keyword (codes "return") expected_return
  body ← parse_expr fuel
  expect semi (codes "';'")
  expect rbrace (codes "'}'")
  pure (record { name = name; params = params; body = body })
