-- ===== src/Tools/Parser/ChainPrinter.antt =====
-- Operators, chains and programs as the tokens that the grammar of core/tools/dsl_parser.c gives
-- them, and the ones that can be written so.
use functional_c.Prelude.{◌≡◌, true, false, Option, none, some, List, [], ◌∷◌, if◌then◌else◌}
use functional_c.Prelude.Text.{Text, codes}
use functional_c.Tools.Ast.{SourceAst, OperatorAst, ChainAst, ProgramAst, FnDef}
use functional_c.Tools.Registry.{
  OperatorArgumentKind, no_argument, function, literal, function_and_literal, source_argument,
  OperatorInfo, find_operator_info,
}
use functional_c.Tools.Lexer.Feeds.{Tok, IsWord}
use functional_c.Tools.Parser.Printer.{
  open_paren, close_paren, comma_tok, dot_tok, semi_tok, word, value, print_source, print_function,
  IsValue, IsSource, IsFunction,
}

unfoldable pub print_optional : Option SourceAst → List Tok → List Tok
print_optional none k = k
print_optional (some s) k = print_source s k

unfoldable pub print_argument : OperatorArgumentKind → OperatorAst → List Tok → List Tok
unfolding print_optional
print_argument no_argument op k = close_paren ∷ k
print_argument function op k = word op.symbol ∷ close_paren ∷ k
print_argument literal op k = value op.extra ∷ close_paren ∷ k
print_argument function_and_literal op k =
    word op.symbol
    ∷ (if op.has_extra then comma_tok ∷ value op.extra ∷ close_paren ∷ k else close_paren ∷ k)
print_argument source_argument op k = print_optional op.source_arg (close_paren ∷ k)

unfoldable pub print_operator_as : Option OperatorInfo → OperatorAst → List Tok → List Tok
unfolding print_argument
print_operator_as none op k = k
print_operator_as (some info) op k =
    word info.dsl_name ∷ open_paren ∷ print_argument info.argument_kind op k

unfoldable pub print_operator : OperatorAst → List Tok → List Tok
unfolding print_operator_as
print_operator op k = print_operator_as (find_operator_info op.kind) op k

unfoldable pub print_more_operators : List OperatorAst → List Tok → List Tok
print_more_operators [] k = close_paren ∷ k
print_more_operators (op ∷ ops) k = comma_tok ∷ print_operator op (print_more_operators ops k)

-- A chain without operators is written without `pipe`.
unfoldable pub print_pipe : List OperatorAst → List Tok → List Tok
unfolding print_more_operators
print_pipe [] k = k
print_pipe (op ∷ ops) k =
    word (codes "pipe") ∷ open_paren ∷ print_operator op (print_more_operators ops (dot_tok ∷ k))

unfoldable pub print_subscribe : Text → List Tok → List Tok
print_subscribe target k =
    word (codes "subscribe")
    ∷ open_paren
    ∷ word (codes "assign")
    ∷ open_paren
    ∷ word target
    ∷ close_paren
    ∷ close_paren
    ∷ semi_tok
    ∷ k

unfoldable pub print_chain : ChainAst → List Tok → List Tok
unfolding print_pipe print_subscribe
print_chain chain k =
    print_source chain.source
      (dot_tok ∷ print_pipe chain.ops (print_subscribe chain.subscriber_target k))

unfoldable pub print_chains : List ChainAst → List Tok
unfolding print_chain
print_chains [] = []
print_chains (chain ∷ chains) = print_chain chain (print_chains chains)

unfoldable pub print_functions : List FnDef → List Tok → List Tok
print_functions [] k = k
print_functions (fn ∷ fns) k = print_function fn (print_functions fns k)

unfoldable pub print_program : ProgramAst → List Tok
unfolding print_functions print_chains
print_program program = print_functions program.functions (print_chains program.chains)

-- The fields that an operator of this kind of argument leaves empty are empty.
abbrev pub HasArgument : OperatorArgumentKind → OperatorAst → Type 0
HasArgument no_argument op =
    (op.symbol ≡ []) × (op.extra ≡ []) × (op.source_arg ≡ none) × (op.has_extra ≡ false)
HasArgument function op =
    IsWord op.symbol × (op.extra ≡ []) × (op.source_arg ≡ none) × (op.has_extra ≡ false)
HasArgument literal op =
    (op.symbol ≡ []) × IsValue op.extra × (op.source_arg ≡ none) × (op.has_extra ≡ true)
HasArgument function_and_literal op =
    IsWord op.symbol
    × (op.source_arg ≡ none)
    × (if op.has_extra then IsValue op.extra else op.extra ≡ [])
HasArgument source_argument op =
    (op.symbol ≡ [])
    × (op.extra ≡ [])
    × (op.has_extra ≡ false)
    × ((s : SourceAst) × (op.source_arg ≡ some s) × IsSource s)

abbrev pub IsOperatorAs : Option OperatorInfo → OperatorAst → Type 0
IsOperatorAs none op = ⊥
IsOperatorAs (some info) op = HasArgument info.argument_kind op

abbrev pub AreOperators : List OperatorAst → Type 0
AreOperators [] = Unit
AreOperators (op ∷ ops) = IsOperatorAs (find_operator_info op.kind) op × AreOperators ops

abbrev pub AreChains : List ChainAst → Type 0
AreChains [] = Unit
AreChains (chain ∷ chains) =
    IsSource chain.source
    × AreOperators chain.ops
    × IsWord chain.subscriber_target
    × AreChains chains

abbrev pub AreFunctions : List FnDef → Type 0
AreFunctions [] = Unit
AreFunctions (fn ∷ fns) = IsFunction fn × AreFunctions fns

-- The programs that can be written: identifiers and numbers are ones, they fit into their buffers, no
-- list is longer than its array, only zips have nested sources, and none of a zip's values has the
-- name of a source.
pub record IsProgram (program : ProgramAst) : Type 0 where
  pub functions_are : AreFunctions program.functions
  pub chains_are : AreChains program.chains
