-- ===== src/Tools/Parser/RoundTrip.antt =====
-- core/tools/dsl_parser.c: an expression that was printed is parsed back.
pub mod Functions
pub mod Values
pub mod Turns
pub mod Sources
pub mod Operators
pub mod Chains
pub mod Programs
pub mod Words
pub mod Tokens
use functional_c.Prelude.{
  ℕ, zero, suc, ◌+◌, ◌≤◌, ◌<◌, ◌≡◌, ◌≢◌, refl, ap, ap₂, sym, ◌∙◌, Bool, true, false, List, [], ◌∷◌,
  leb, ltb, if◌then◌else◌, arith, length, take,
}
use functional_c.Prelude.Text.{Text, codes}
use functional_c.Tools.Ast.{Expr, Args, no_args, arg, FnDef}
use functional_c.Tools.Lexer.{
  TokenKind, ident, number, lparen, rparen, lbrace, rbrace, comma, semi, Lexer,
}
use functional_c.Tools.Lexer.Feeds.{Tok, Feeds, IsWord, IsNumber}
use functional_c.Tools.Reader.{
  expected_return, Outcome, ok, bind, Parser, pure, same_kind, kind_number, advance, accept, expect,
  expect_ident, unless_closed, keyword, ◌>>=◌, ◌>>◌,
}
use functional_c.Tools.Reader.Reads.{
  Reads, dry, gives, Reads-bind, advance-Reads, accept-hit, accept-miss, expect-Reads,
  expect_ident-Reads, keyword-Reads, take-all, head_kind, accept-other,
}
use functional_c.Tools.Parser.Functions.{
  more_args, parse_args, call_or_name, expr_at, parse_expr, more_params, parse_params, parse_fn_def,
}
use functional_c.Tools.Parser.Printer.{
  open_paren, close_paren, open_brace, close_brace, comma_tok, semi_tok, word, print_expr,
  print_more_args, print_more, print_params, print_function, argument_count, IsExpr, AreExprs,
  AreParams, IsFunction,
}

-- No call begins at these tokens.
abbrev pub NoCall : List Tok → Type 0
NoCall k = same_kind (head_kind k) lparen ≡ false

-- The end of a list that has one more item.
pub close-Reads :
    {A : Type 0} (a : A) (label : Text) (k : List Tok) (lexer : Lexer)
    → Feeds lexer (close_paren ∷ k)
    → Reads a k (bind (expect rparen label lexer) λ (_, l). ok (a, l))
close-Reads a label k lexer h =
    Reads-bind _ (expect-Reads rparen (codes ")") k lexer h label) λ l h'. gives h'

pub IsWord-length : (x : Text) → IsWord x → length x ≤ 63
IsWord-length [] w = absurd w
IsWord-length (c ∷ s) w = omega (arith, w.2)

IsNumber-length : (x : Text) → IsNumber x → length x ≤ 63
IsNumber-length [] w = absurd w
IsNumber-length (c ∷ s) w = omega (arith, w.2)

pub leb-false : (m n : ℕ) → n < m → leb m n ≡ false
leb-false m n h = ground arith

-- An expression begins with a name or a number.
print_expr-head : (e : Expr) (k : List Tok) → same_kind (head_kind (print_expr e k)) rparen ≡ false
unfolding print_expr same_kind
print_expr-head (Expr.ident x) k = refl
print_expr-head (Expr.number n) k = refl
print_expr-head (Expr.call f no_args) k = refl
print_expr-head (Expr.call f (arg e rest)) k = refl

-- The branch that `parse_expr` takes.
parse_expr-at :
    (fuel : ℕ) (kind : TokenKind) (text : Text) (toks : List Tok) (lexer : Lexer)
    → Feeds lexer ((kind, text) ∷ toks)
    → parse_expr (suc fuel) lexer ≡ expr_at kind text (parse_args fuel (parse_expr fuel) 0) lexer
unfolding parse_expr
parse_expr-at fuel kind text toks lexer h =
    ap₂ (λ kd t. expr_at kd t (parse_args fuel (parse_expr fuel) 0) lexer) h.0 h.1

-- A name that no bracket follows.
name-Reads :
    (x : Text) (args : Parser Args) (k : List Tok) (lexer : Lexer)
    → length x ≤ 63
    → NoCall k
    → Feeds lexer (word x ∷ k)
    → Reads (Expr.ident x) k (expr_at ident x args lexer)
unfolding expr_at
name-Reads x args k lexer short alone h =
    Reads-bind _ (advance-Reads ident x k lexer h)
      λ l h'. rw (accept-other lparen k l h' alone, take-all 63 x short) (gives h')

call-Reads :
    (f : Text) (args : Parser Args) (given : Args) (toks k : List Tok) (lexer : Lexer)
    → length f ≤ 63
    → Feeds lexer (word f ∷ open_paren ∷ toks)
    → ((l : Lexer) → Feeds l toks → Reads given k (unless_closed no_args args l))
    → Reads (Expr.call f given) k (expr_at ident f args lexer)
unfolding expr_at
call-Reads f args given toks k lexer short h read =
    Reads-bind _ (advance-Reads ident f (open_paren ∷ toks) lexer h) λ l₁ h₁.
      Reads-bind _ (accept-hit lparen (codes "(") toks l₁ h₁)
        λ l₂ h₂. rw (take-all 63 f short) (Reads-bind _ (read l₂ h₂) λ l₃ h₃. gives h₃)

-- A printed expression is read back, whatever fuel is given, unless the fuel runs out.
abbrev ExprReads : Expr → Type 0
ExprReads e =
    (fuel : ℕ) (k : List Tok) (lexer : Lexer)
    → IsExpr e
    → NoCall k
    → Feeds lexer (print_expr e k)
    → Reads e k (parse_expr fuel lexer)

-- So are the arguments from one on; the numbers are the loop's fuel, the fuel of each expression, and
-- the arguments that were read before.
abbrev ArgsRead : Args → Type 0
ArgsRead no_args = Unit
ArgsRead (arg e rest) =
    (loop fuel count : ℕ) (k : List Tok) (lexer : Lexer)
    → AreExprs (arg e rest)
    → count + argument_count (arg e rest) ≤ 8
    → Feeds lexer (print_expr e (print_more_args rest k))
    → Reads (arg e rest) k (parse_args loop (parse_expr fuel) count lexer)

args-step : (e : Expr) (rest : Args) → ExprReads e → ArgsRead rest → ArgsRead (arg e rest)
unfolding parse_args print_expr same_kind
args-step e rest he hr zero fuel count k lexer w few h = dry
args-step e no_args he hr (suc loop) fuel count k lexer w few h =
    rw (leb-false 8 count (omega arith)) (
      Reads-bind _ (he fuel (close_paren ∷ k) lexer w.0 refl h) λ l₁ h₁.
        rw (accept-miss rparen (codes ")") k l₁ h₁ comma refl)
          (close-Reads (arg e no_args) (codes "')'") k l₁ h₁))
args-step e (arg e' rest) he hr (suc loop) fuel count k lexer w few h =
    let toks = print_expr e' (print_more_args rest k) in
    rw (leb-false 8 count (omega arith)) (
      Reads-bind _ (he fuel (comma_tok ∷ toks) lexer w.0 refl h) λ l₁ h₁.
        Reads-bind _ (accept-hit comma (codes ",") toks l₁ h₁) λ l₂ h₂.
          Reads-bind _ (hr loop fuel (suc count) k l₂ w.1 (omega arith) h₂) λ l₃ h₃. gives h₃)

call-step : (f : Text) (args : Args) → ArgsRead args → ExprReads (Expr.call f args)
unfolding print_expr parse_expr
call-step f args hr zero k lexer w alone h = dry
call-step f no_args hr (suc fuel) k lexer (w, few, ws) alone h =
    rw (parse_expr-at fuel ident f (open_paren ∷ close_paren ∷ k) lexer h) (
      call-Reads f (parse_args fuel (parse_expr fuel) 0) no_args (close_paren ∷ k) k lexer
        (IsWord-length f w) h
        (λ l h'.
          unfold unless_closed in
          Reads-bind _ (accept-hit rparen (codes ")") k l h') λ l₂ h₂. gives h₂))
call-step f (arg e rest) hr (suc fuel) k lexer (w, few, ws) alone h =
    let toks = print_expr e (print_more_args rest k) in
    rw (parse_expr-at fuel ident f (open_paren ∷ toks) lexer h) (
      call-Reads f (parse_args fuel (parse_expr fuel) 0) (arg e rest) toks k lexer
        (IsWord-length f w) h
        (λ l h'.
          unfold unless_closed in
          rw (accept-other rparen toks l h' (print_expr-head e (print_more_args rest k)))
            (hr fuel fuel 0 k l ws (omega arith) h')))

leaf-ident : (x : Text) → ExprReads (Expr.ident x)
unfolding print_expr parse_expr
leaf-ident x zero k lexer w alone h = dry
leaf-ident x (suc fuel) k lexer w alone h =
    rw (parse_expr-at fuel ident x k lexer h)
      (name-Reads x (parse_args fuel (parse_expr fuel) 0) k lexer (IsWord-length x w) alone h)

leaf-number : (n : Text) → ExprReads (Expr.number n)
unfolding print_expr parse_expr
leaf-number n zero k lexer w alone h = dry
leaf-number n (suc fuel) k lexer w alone h = rw (parse_expr-at fuel number n k lexer h) (
    unfold expr_at in
    Reads-bind _ (advance-Reads number n k lexer h)
      λ l h'. rw (take-all 63 n (IsNumber-length n w)) (gives h'))

mutual
  pub parse_expr-Reads : (e : Expr) → ExprReads e
  parse_expr-Reads (Expr.ident x) = leaf-ident x
  parse_expr-Reads (Expr.number n) = leaf-number n
  parse_expr-Reads (Expr.call f args) = call-step f args (parse_args-Reads args)

  parse_args-Reads : (args : Args) → ArgsRead args
  parse_args-Reads no_args = tt
  parse_args-Reads (arg e rest) = args-step e rest (parse_expr-Reads e) (parse_args-Reads rest)
