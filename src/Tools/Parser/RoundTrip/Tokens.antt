-- ===== src/Tools/Parser/RoundTrip/Tokens.antt =====
-- core/tools/dsl_parser.c: the tokens of a printed program are tokens of the lexer.
use functional_c.Prelude.{
  ◌≡◌, refl, sym, subst, ◌∙◌, Bool, true, false, Option, none, some, List, [], ◌∷◌, if◌then◌else◌,
}
use functional_c.Prelude.Text.{Text, codes, all}
use functional_c.Tools.Ast.{FnDef, OperatorKind, OperatorAst, ChainAst, ProgramAst}
use functional_c.Tools.Registry.{
  OperatorArgumentKind, no_argument, function, literal, function_and_literal, source_argument,
  OperatorInfo, find_operator_info,
}
use functional_c.Tools.Lexer.{starts_word, is_word}
use functional_c.Tools.Lexer.Feeds.{Tok, IsWord, AllToks}
use functional_c.Tools.Parser.Printer.{close_paren, comma_tok, dot_tok, value, IsValue}
use functional_c.Tools.Parser.ChainPrinter.{
  print_optional, print_argument, print_operator_as, print_operator, print_more_operators,
  print_pipe, print_subscribe, print_chain, print_chains, print_functions, print_program,
  HasArgument, IsOperatorAs, AreOperators, AreChains, AreFunctions, IsProgram,
}
use functional_c.Tools.Parser.RoundTrip.Words.{
  checks, checks→IsWord, AllToks-print_function, AllToks-print_source,
}

-- The name of an operator in the table.
entry-checks :
    (kind : OperatorKind)
    → (info : OperatorInfo) × (find_operator_info kind ≡ some info) × (checks info.dsl_name ≡ true)
unfolding find_operator_info checks starts_word is_word
entry-checks OperatorKind.map = (_, refl, refl)
entry-checks _ = (_, refl, refl)

dsl_name-IsWord :
    (kind : OperatorKind) (info : OperatorInfo)
    → find_operator_info kind ≡ some info
    → IsWord info.dsl_name
dsl_name-IsWord kind info e =
    let (info', e', c) = entry-checks kind in
    subst (λ (i : OperatorInfo). IsWord i.dsl_name) (same info' (sym e' ∙ e))
      (checks→IsWord info'.dsl_name c)
  where
    same : (info' : OperatorInfo) → some info' ≡ some info → info' ≡ info
    same info' e = cc

AllToks-print_argument :
    (argument : OperatorArgumentKind) (op : OperatorAst) (k : List Tok)
    → HasArgument argument op
    → AllToks k
    → AllToks (print_argument argument op k)
unfolding print_argument print_optional
AllToks-print_argument no_argument op k h all = (refl, all)
AllToks-print_argument function op k h all = (h.0, (refl, all))
AllToks-print_argument literal op k h all = (h.1, (refl, all))
AllToks-print_argument function_and_literal op k (w, src, x) all = (w, both op.has_extra x)
  where
    both :
        (b : Bool)
        → (if b then IsValue op.extra else op.extra ≡ [])
        → AllToks (if b then comma_tok ∷ value op.extra ∷ close_paren ∷ k else close_paren ∷ k)
    both true v = (refl, (v, (refl, all)))
    both false v = (refl, all)
AllToks-print_argument source_argument op k (s, x, has, (src, e, is)) all =
    subst (λ o. AllToks (print_optional o (close_paren ∷ k))) (sym e)
      (AllToks-print_source src (close_paren ∷ k) is (refl, all))

AllToks-operator :
    (op : OperatorAst) (k : List Tok)
    → IsOperatorAs (find_operator_info op.kind) op
    → AllToks k
    → AllToks (print_operator op k)
unfolding print_operator print_operator_as
AllToks-operator op k h all = at (find_operator_info op.kind) refl h
  where
    at :
        (o : Option OperatorInfo)
        → find_operator_info op.kind ≡ o
        → IsOperatorAs o op
        → AllToks (print_operator_as o op k)
    at none e h = absurd h
    at (some info) e h = (
      dsl_name-IsWord op.kind info e,
      (refl, AllToks-print_argument info.argument_kind op k h all),
    )

AllToks-more_operators :
    (ops : List OperatorAst) (k : List Tok)
    → AreOperators ops
    → AllToks k
    → AllToks (print_more_operators ops k)
unfolding print_more_operators
AllToks-more_operators [] k is all = (refl, all)
AllToks-more_operators (op ∷ ops) k (i, is) all =
    (refl, AllToks-operator op (print_more_operators ops k) i (AllToks-more_operators ops k is all))

AllToks-print_pipe :
    (ops : List OperatorAst) (k : List Tok)
    → AreOperators ops
    → AllToks k
    → AllToks (print_pipe ops k)
unfolding print_pipe checks starts_word is_word
AllToks-print_pipe [] k is all = all
AllToks-print_pipe (op ∷ ops) k (i, is) all = (
  checks→IsWord (codes "pipe") refl,
  (
    refl,
    AllToks-operator op (print_more_operators ops (dot_tok ∷ k)) i
        (AllToks-more_operators ops (dot_tok ∷ k) is (refl, all)),
  ),
)

AllToks-print_subscribe :
    (target : Text) (k : List Tok) → IsWord target → AllToks k → AllToks (print_subscribe target k)
unfolding print_subscribe checks starts_word is_word
AllToks-print_subscribe target k w all = (
  checks→IsWord (codes "subscribe") refl,
  (refl, (checks→IsWord (codes "assign") refl, (refl, (w, (refl, (refl, (refl, all))))))),
)

AllToks-print_chains : (chains : List ChainAst) → AreChains chains → AllToks (print_chains chains)
unfolding print_chains print_chain
AllToks-print_chains [] is = tt
AllToks-print_chains (chain ∷ chains) (src, ops, target, more) =
    let k = print_chains chains in
    let end = print_subscribe chain.subscriber_target k in
    AllToks-print_source chain.source (dot_tok ∷ print_pipe chain.ops end) src (
      refl,
      AllToks-print_pipe chain.ops end ops (
          AllToks-print_subscribe chain.subscriber_target k target
            (AllToks-print_chains chains more)),
    )

AllToks-print_functions :
    (fns : List FnDef) (k : List Tok)
    → AreFunctions fns
    → AllToks k
    → AllToks (print_functions fns k)
unfolding print_functions
AllToks-print_functions [] k is all = all
AllToks-print_functions (fn ∷ fns) k (i, is) all =
    AllToks-print_function fn (print_functions fns k) i (AllToks-print_functions fns k is all)

-- The lexer gives the tokens of a printed program back.
pub AllToks-print_program :
    (program : ProgramAst) → IsProgram program → AllToks (print_program program)
unfolding print_program
AllToks-print_program program h =
    AllToks-print_functions program.functions (print_chains program.chains) h.functions_are
      (AllToks-print_chains program.chains h.chains_are)
