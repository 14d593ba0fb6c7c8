-- ===== src/Tools/Parser/RoundTrip/Programs.antt =====
-- core/tools/dsl_parser.c: a program that was printed is parsed back from its text.
use functional_c.Prelude.{
  ℕ, zero, suc, ◌≡◌, refl, ap, ap₂, subst, ◌∙◌, Bool, true, false, ◌&&◌, some, List, [], ◌∷◌,
  if◌then◌else◌, length,
}
use functional_c.Prelude.Text.{Text, codes, same_text}
use functional_c.Tools.Ast.{SourceKind, range, FnDef, ChainAst, ProgramAst}
use functional_c.Tools.Registry.{source_kind_name}
use functional_c.Tools.Lexer.{ident, eof, Lexer, lexer_init}
use functional_c.Tools.Lexer.Feeds.{Tok, Feeds, render, IsEnd, Feeds-render}
use functional_c.Tools.Reader.{ok, same_kind}
use functional_c.Tools.Reader.Reads.{Reads, dry, gives, Reads-bind, Reads-ok}
use functional_c.Tools.Parser.Programs.{
  function_then, chain_then, parse_program, parse_from, parse_program_text,
}
use functional_c.Tools.Parser.Total.Programs.{parse_program_text-fuel}
use functional_c.Tools.Parser.Printer.{
  open_paren, open_brace, close_brace, semi_tok, dot_tok, word, print_expr, print_params,
  print_function,
}
use functional_c.Tools.Parser.ChainPrinter.{
  print_pipe, print_subscribe, print_chain, print_chains, print_functions, print_program, AreChains,
  AreFunctions, IsProgram,
}
use functional_c.Tools.Parser.RoundTrip.Functions.{parse_fn_def-Reads}
use functional_c.Tools.Parser.RoundTrip.Sources.{print_source-head, kind_of}
use functional_c.Tools.Parser.RoundTrip.Tokens.{AllToks-print_program}
use functional_c.Tools.Parser.RoundTrip.Chains.{parse_chain-Reads}

-- The branch that the loop takes at an identifier.
loop-at :
    (fuel : ℕ) (text : Text) (toks : List Tok) (lexer : Lexer) (b : Bool)
    → Feeds lexer ((ident, text) ∷ toks)
    → same_text text (codes "fn") ≡ b
    → parse_program (suc fuel) lexer ≡ (
        if b
        then function_then (suc fuel) (parse_program fuel) lexer
        else chain_then (suc fuel) (parse_program fuel) lexer)
unfolding parse_program same_kind
loop-at fuel text toks lexer b h e =
    ap₂
      (λ kd t.
        if same_kind kd eof
        then ok (record { functions = []; chains = [] }, lexer)
        else if same_kind kd ident && same_text t (codes "fn")
        then function_then (suc fuel) (parse_program fuel) lexer
        else chain_then (suc fuel) (parse_program fuel) lexer)
      h.0 h.1
    ∙ ap
        (λ c.
          if c
          then function_then (suc fuel) (parse_program fuel) lexer
          else chain_then (suc fuel) (parse_program fuel) lexer)
        e

-- No source is called `fn`.
source-ne-fn : (kind : SourceKind) → same_text (source_kind_name kind) (codes "fn") ≡ false
unfolding source_kind_name
source-ne-fn range = refl
source-ne-fn _ = refl

chains-Reads :
    (chains : List ChainAst) (fuel : ℕ) (lexer : Lexer)
    → AreChains chains
    → Feeds lexer (print_chains chains)
    → Reads (record { functions = []; chains = chains }) [] (parse_program fuel lexer)
unfolding print_chains print_chain chain_then
chains-Reads chains zero lexer is h = unfold parse_program in dry
chains-Reads [] (suc fuel) lexer is h =
    unfold parse_program same_kind in rw (ap (λ k. same_kind k eof) h) (gives h)
chains-Reads (chain ∷ chains) (suc fuel) lexer (src, ops, target, more) h =
    let k = print_chains chains in
    let end = print_pipe chain.ops (print_subscribe chain.subscriber_target k) in
    let (toks, e) = print_source-head chain.source (dot_tok ∷ end) in
    rw
      (loop-at fuel (source_kind_name (kind_of chain.source)) toks lexer false
        (subst (Feeds lexer) e h) (source-ne-fn (kind_of chain.source)))
      (Reads-bind _ (parse_chain-Reads chain (suc fuel) k lexer src ops target h)
        λ l₁ h₁. Reads-bind _ (chains-Reads chains fuel l₁ more h₁) λ l₂ h₂. gives h₂)

program-Reads :
    (functions : List FnDef) (chains : List ChainAst) (fuel : ℕ) (lexer : Lexer)
    → AreFunctions functions
    → AreChains chains
    → Feeds lexer (print_functions functions (print_chains chains))
    → Reads (record { functions = functions; chains = chains }) [] (parse_program fuel lexer)
unfolding print_functions print_function function_then
program-Reads functions chains zero lexer fs cs h = unfold parse_program in dry
program-Reads [] chains (suc fuel) lexer fs cs h = chains-Reads chains (suc fuel) lexer cs h
program-Reads (fn ∷ functions) chains (suc fuel) lexer fs cs h =
    let k = print_functions functions (print_chains chains) in
    let toks =
      word fn.name
      ∷ open_paren
      ∷ print_params fn.params
          (open_brace ∷ word (codes "return") ∷ print_expr fn.body (semi_tok ∷ close_brace ∷ k)) in
    rw (loop-at fuel (codes "fn") toks lexer true h refl) (
      Reads-bind _ (parse_fn_def-Reads fn (suc fuel) k lexer fs.0 h)
        λ l₁ h₁. Reads-bind _ (program-Reads functions chains fuel l₁ fs.1 cs h₁) λ l₂ h₂. gives h₂)

-- A program that can be written is what the parser makes of its text: the tokens with a space behind
-- each, and then nothing, or whatever stands behind a character that begins no token.
pub parse_program_text-render :
    (program : ProgramAst) (rest : Text)
    → IsProgram program
    → IsEnd rest
    → parse_program_text (render (print_program program) rest) ≡ ok program
unfolding lexer_init parse_program_text parse_from print_program
parse_program_text-render program rest h end =
    let text = render (print_program program) rest in
    let before : Lexer = record {
      left = text;
      pos = 0;
      current = record { kind = eof; text = []; start = 0; end = 0 };
    } in
    let (first, e, feeds) =
      Feeds-render (print_program program) rest before (AllToks-print_program program h) end refl in
    let started : lexer_init text ≡ some first = e in
    let enough = parse_program_text-fuel text in
    let (l, e', _) =
      Reads-ok
        (program-Reads program.functions program.chains (suc (length text)) first h.functions_are
          h.chains_are feeds)
        (λ dry_run. enough (rw started (rw dry_run refl))) in
    rw started (rw e' refl)
