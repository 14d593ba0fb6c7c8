-- ===== src/Tools/Parser/Programs.antt =====
-- core/tools/dsl_parser.c: recursive descent over the lexer: whole programs
use functional_c.Prelude.{ℕ, zero, suc, ◌&&◌, Option, none, some, [], ◌∷◌, if◌then◌else◌, length}
use functional_c.Prelude.Text.{Text, codes, same_text}
use functional_c.Tools.Ast.{ProgramAst}
use functional_c.Tools.Lexer.{ident, eof, Lexer, lexer_init}
use functional_c.Tools.Reader.{
  Outcome, ok, bind, undefined, out_of_fuel, Parser, pure, ◌>>=◌, same_kind,
}
use functional_c.Tools.Parser.Functions.{parse_fn_def}
use functional_c.Tools.Parser.Chains.{parse_chain}

-- The two branches of the loop, with the rest of the program behind each.
unfoldable pub function_then : ℕ → Parser ProgramAst → Parser ProgramAst
function_then fuel next = do
  fn ← parse_fn_def fuel
  rest ← next
  pure (record rest { functions = fn ∷ rest.functions })

unfoldable pub chain_then : ℕ → Parser ProgramAst → Parser ProgramAst
chain_then fuel next = do
  chain ← parse_chain fuel
  rest ← next
  pure (record rest { chains = chain ∷ rest.chains })

-- The loop of `parse_program_text`.
unfoldable pub parse_program : ℕ → Parser ProgramAst
unfolding function_then chain_then
parse_program zero lexer = out_of_fuel
parse_program (suc fuel) lexer =
    if same_kind lexer.current.kind eof
    then ok (record { functions = []; chains = [] }, lexer)
    else if same_kind lexer.current.kind ident && same_text lexer.current.text (codes "fn")
    then function_then (suc fuel) (parse_program fuel) lexer
    else chain_then (suc fuel) (parse_program fuel) lexer

unfoldable pub parse_from : ℕ → Option Lexer → Outcome ProgramAst
parse_from fuel none = undefined
parse_from fuel (some lexer) = bind (parse_program fuel lexer) λ (program, rest). ok program

unfoldable pub parse_program_text : Text → Outcome ProgramAst
unfolding parse_from
parse_program_text text = parse_from (suc (length text)) (lexer_init text)
