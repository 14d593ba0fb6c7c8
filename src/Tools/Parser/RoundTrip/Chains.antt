-- ===== src/Tools/Parser/RoundTrip/Chains.antt =====
-- core/tools/dsl_parser.c: a chain that was printed is parsed back.
use functional_c.Prelude.{
  ℕ, zero, suc, ◌≡◌, refl, ap, ap₂, subst, ◌∙◌, Bool, true, false, ◌&&◌, Option, none, some, List,
  [], ◌∷◌,
}
use functional_c.Prelude.Text.{Text, codes, same_text}
use functional_c.Tools.Ast.{OperatorAst, ChainAst}
use functional_c.Tools.Registry.{OperatorInfo, find_operator_info}
use functional_c.Tools.Lexer.{TokenKind, ident, lparen, rparen, comma, dot, semi, Lexer}
use functional_c.Tools.Lexer.Feeds.{Tok, Feeds, IsWord}
use functional_c.Tools.Reader.{expected_subscribe, same_kind, unless_closed}
use functional_c.Tools.Reader.Reads.{
  Reads, dry, gives, Reads-bind, advance-Reads, accept-hit, accept-miss, expect-Reads,
  expect_ident-Reads, keyword-Reads,
}
use functional_c.Tools.Parser.Chains.{
  parse_operator, parse_operators, assign_form, parse_subscribe, piped, parse_chain,
}
use functional_c.Tools.Parser.Printer.{
  open_paren, close_paren, comma_tok, dot_tok, semi_tok, word, IsSource,
}
use functional_c.Tools.Parser.ChainPrinter.{
  print_argument, print_operator_as, print_operator, print_more_operators, print_pipe,
  print_subscribe, print_chain, IsOperatorAs, AreOperators,
}
use functional_c.Tools.Parser.RoundTrip.{close-Reads, IsWord-length}
use functional_c.Tools.Parser.RoundTrip.Sources.{parse_source-Reads}
use functional_c.Tools.Parser.RoundTrip.Operators.{operator_as-Reads}

-- An operator begins with its name.
print_operator-head :
    (op : OperatorAst) (k : List Tok)
    → IsOperatorAs (find_operator_info op.kind) op
    → (name : Text) × (toks : List Tok) × (print_operator op k ≡ word name ∷ toks)
unfolding print_operator print_operator_as
print_operator-head op k is = head (find_operator_info op.kind) is
  where
    head :
        (o : Option OperatorInfo)
        → IsOperatorAs o op
        → (name : Text) × (toks : List Tok) × (print_operator_as o op k ≡ word name ∷ toks)
    head none is = absurd is
    head (some info) is = (info.dsl_name, open_paren ∷ print_argument info.argument_kind op k, refl)

operators-Reads :
    (op : OperatorAst) (ops : List OperatorAst) (loop fuel : ℕ) (k : List Tok) (lexer : Lexer)
    → AreOperators (op ∷ ops)
    → Feeds lexer (print_operator op (print_more_operators ops k))
    → Reads (op ∷ ops) k (parse_operators loop (parse_operator fuel) lexer)
unfolding parse_operators print_more_operators print_operator same_kind
operators-Reads op ops zero fuel k lexer is h = dry
operators-Reads op [] (suc loop) fuel k lexer is h =
    Reads-bind _
      (operator_as-Reads fuel op (find_operator_info op.kind) (close_paren ∷ k) lexer refl is.0 h)
      λ l₁ h₁.
        rw (accept-miss rparen (codes ")") k l₁ h₁ comma refl)
          (close-Reads (op ∷ []) (codes "')'") k l₁ h₁)
operators-Reads op (op' ∷ ops) (suc loop) fuel k lexer is h =
    let toks = print_operator op' (print_more_operators ops k) in
    Reads-bind _
      (operator_as-Reads fuel op (find_operator_info op.kind) (comma_tok ∷ toks) lexer refl is.0 h)
      λ l₁ h₁.
        Reads-bind _ (accept-hit comma (codes ",") toks l₁ h₁)
          λ l₂ h₂. Reads-bind _ (operators-Reads op' ops loop fuel k l₂ is.1 h₂) λ l₃ h₃. gives h₃

opened-Reads :
    (op : OperatorAst) (ops : List OperatorAst) (fuel : ℕ) (k : List Tok) (lexer : Lexer)
    → AreOperators (op ∷ ops)
    → Feeds lexer (print_operator op (print_more_operators ops k))
    → Reads (op ∷ ops) k (unless_closed [] (parse_operators fuel (parse_operator fuel)) lexer)
unfolding unless_closed same_kind
opened-Reads op ops fuel k lexer is h =
    let (name, rest, e) = print_operator-head op (print_more_operators ops k) is.0 in
    rw (accept-miss ident name rest lexer (subst (Feeds lexer) e h) rparen refl)
      (operators-Reads op ops fuel fuel k lexer is h)

-- The test for `pipe`, at a known token.
piped-at :
    (kind : TokenKind) (text : Text) (toks : List Tok) (fuel : ℕ) (lexer : Lexer) (b : Bool)
    → Feeds lexer ((kind, text) ∷ toks)
    → same_text text (codes "pipe") ≡ b
    → piped fuel (same_text lexer.current.text (codes "pipe")) lexer ≡ piped fuel b lexer
piped-at kind text toks fuel lexer b h e =
    ap (λ c. piped fuel c lexer) (ap (λ t. same_text t (codes "pipe")) h.1 ∙ e)

pipe-Reads :
    (ops : List OperatorAst) (fuel : ℕ) (toks : List Tok) (lexer : Lexer)
    → AreOperators ops
    → Feeds lexer (print_pipe ops (word (codes "subscribe") ∷ toks))
    → Reads ops
        (word (codes "subscribe") ∷ toks)
        (piped fuel (same_text lexer.current.text (codes "pipe")) lexer)
unfolding print_pipe
pipe-Reads [] fuel toks lexer is h =
    rw (piped-at ident (codes "subscribe") toks fuel lexer false h refl) (unfold piped in gives h)
pipe-Reads (op ∷ ops) fuel toks lexer is h =
    let k = word (codes "subscribe") ∷ toks in
    let inner = print_operator op (print_more_operators ops (dot_tok ∷ k)) in
    rw (piped-at ident (codes "pipe") (open_paren ∷ inner) fuel lexer true h refl) (
      unfold piped in
      Reads-bind _ (advance-Reads ident (codes "pipe") (open_paren ∷ inner) lexer h) λ l₁ h₁.
        Reads-bind _ (expect-Reads lparen (codes "(") inner l₁ h₁ (codes "'('")) λ l₂ h₂.
          Reads-bind _ (opened-Reads op ops fuel (dot_tok ∷ k) l₂ is h₂) λ l₃ h₃.
            Reads-bind _ (expect-Reads dot (codes ".") k l₃ h₃ (codes "'.'")) λ l₄ h₄. gives h₄)

subscribe-Reads :
    (target : Text) (k : List Tok) (lexer : Lexer)
    → IsWord target
    → Feeds lexer (
        open_paren
        ∷ word (codes "assign")
        ∷ open_paren
        ∷ word target
        ∷ close_paren
        ∷ close_paren
        ∷ semi_tok
        ∷ k)
    → Reads target k (parse_subscribe lexer)
unfolding parse_subscribe assign_form
subscribe-Reads target k lexer w h =
    let end = close_paren ∷ close_paren ∷ semi_tok ∷ k in
    let form = open_paren ∷ word target ∷ end in
    Reads-bind _
      (expect-Reads lparen (codes "(") (word (codes "assign") ∷ form) lexer h (codes "'('"))
      λ l₁ h₁. rw (ap₂ (λ kd t. same_kind kd ident && same_text t (codes "assign")) h₁.0 h₁.1) (
        rw (is_assign) (
          Reads-bind _ (advance-Reads ident (codes "assign") form l₁ h₁) λ l₂ h₂.
            Reads-bind _ (expect-Reads lparen (codes "(") (word target ∷ end) l₂ h₂ (codes "'('"))
              λ l₃ h₃.
                Reads-bind _ (expect_ident-Reads true 64 target end l₃ h₃ (IsWord-length target w))
                  λ l₄ h₄.
                    Reads-bind _
                      (expect-Reads rparen (codes ")") (close_paren ∷ semi_tok ∷ k) l₄ h₄
                        (codes "')'"))
                      λ l₅ h₅.
                        Reads-bind _
                          (expect-Reads rparen (codes ")") (semi_tok ∷ k) l₅ h₅ (codes "')'"))
                          λ l₆ h₆.
                            Reads-bind _ (expect-Reads semi (codes ";") k l₆ h₆ (codes "';'"))
                              λ l₇ h₇. gives h₇))
  where
    is_assign : (same_kind ident ident && same_text (codes "assign") (codes "assign")) ≡ true
    is_assign = unfold same_kind in refl

-- A printed chain is read back.
pub parse_chain-Reads :
    (chain : ChainAst) (fuel : ℕ) (k : List Tok) (lexer : Lexer)
    → IsSource chain.source
    → AreOperators chain.ops
    → IsWord chain.subscriber_target
    → Feeds lexer (print_chain chain k)
    → Reads chain k (parse_chain fuel lexer)
unfolding parse_chain print_chain print_subscribe
parse_chain-Reads chain fuel k lexer src ops target h =
    let end = print_subscribe chain.subscriber_target k in
    let form =
      open_paren
      ∷ word (codes "assign")
      ∷ open_paren
      ∷ word chain.subscriber_target
      ∷ close_paren
      ∷ close_paren
      ∷ semi_tok
      ∷ k in
    let pipe = print_pipe chain.ops end in
    Reads-bind _ (parse_source-Reads chain.source fuel (dot_tok ∷ pipe) lexer src h) λ l₁ h₁.
      Reads-bind _ (expect-Reads dot (codes ".") pipe l₁ h₁ (codes "'.'")) λ l₂ h₂.
        Reads-bind _ (pipe-Reads chain.ops fuel form l₂ ops h₂) λ l₃ h₃.
          Reads-bind _ (keyword-Reads ident (codes "subscribe") expected_subscribe form l₃ h₃)
            λ l₄ h₄.
              Reads-bind _ (subscribe-Reads chain.subscriber_target k l₄ target h₄)
                λ l₅ h₅. gives h₅
