-- ===== src/Tools/Parser/Total.antt =====
-- core/tools/dsl_parser.c: the parser ends on every input. A fuel above the number of characters
-- that are left is enough.
pub mod Sources
pub mod Chains
pub mod Programs
use functional_c.Prelude.{
  ℕ, zero, suc, ◌<◌, ◌≢◌, true, false, leb, Bool-cases, inl, inr, arith, [], ◌∷◌, take,
  if◌then◌else◌,
}
use functional_c.Prelude.Text.{Text, codes}
use functional_c.Tools.Ast.{Expr, Args}
use functional_c.Tools.Lexer.{
  TokenKind, ident, number, comma, lparen, rparen, lbrace, rbrace, semi, eof, Lexer,
}
use functional_c.Tools.Lexer.Progress.{left_over}
use functional_c.Tools.Reader.{expected_return, Parser, ok, bind, pure, ◌>>=◌, ◌>>◌, accept, expect}
use functional_c.Tools.Reader.Ends.{
  Ensures, holds, rejects, Ensures-bind, Left, Ends, Left-mono, Shorter, advance-Ends, accept-Ends,
  expect-Shorter, expect_ident-Ends, keyword-Ends, unless_closed-Ends, Ends-mono,
}
use functional_c.Tools.Parser.Functions.{
  parse_args, call_or_name, expr_at, parse_expr, parse_params, parse_fn_def,
}

-- The end of a list.
pub close-Ends :
    {A : Type 0} (kind : TokenKind) (label : Text) (n : ℕ) (a : A)
    → kind ≢ eof
    → (lexer : Lexer) → left_over lexer < n
    → Ensures (Left (left_over lexer)) (bind (expect kind label lexer) λ (_, l). ok (a, l))
close-Ends kind label n a k lexer h =
    Ensures-bind (expect-Shorter kind label k lexer) λ (_, l) p. holds {a = (a, l)} (omega arith)

-- Behind an item of a list: a comma and the rest, or the closing bracket.
pub again-Ends :
    {A B : Type 0} (n : ℕ) (next : Parser A) (with_rest : A → B) (alone : B)
    → Ends n next
    → (lexer : Lexer) → left_over lexer < suc n
    → Ensures (Left (left_over lexer)) (
        bind (accept comma lexer) λ (again, l).
          (if again
              then (do rest ← next; pure (with_rest rest))
              else (expect rparen (codes "')'") >> pure alone))
            l)
again-Ends n next with_rest alone h lexer k =
    accept-Ends comma n
      (λ again.
        if again
        then (do rest ← next; pure (with_rest rest))
        else (expect rparen (codes "')'") >> pure alone))
      (cc) (λ l le. Ensures-bind (h l le) λ (rest, m) p. holds {a = (with_rest rest, m)} p)
      (close-Ends rparen (codes "')'") (suc n) alone (cc)) lexer k

parse_args-Ends :
    (n : ℕ) (parse : Parser Expr) (count : ℕ) → Ends n parse → Ends n (parse_args n parse count)
unfolding parse_args
parse_args-Ends zero parse count h lexer k = absurd (omega arith)
parse_args-Ends (suc n) parse count h lexer k = elim (Bool-cases (leb 8 count)) [
  | inl full ↦ rw full rejects
  | inr room ↦ rw room (
      Ensures-bind (h lexer k) λ (e, l) p. Left-mono (left_over l) (left_over lexer) (omega arith) (
        again-Ends n (parse_args n parse (suc count)) (Args.arg e) (Args.arg e Args.no_args)
          (parse_args-Ends n parse (suc count) (Ends-mono n (suc n) (omega arith) h)) l
          (omega arith)))
]

call_or_name-Ends :
    (n : ℕ) (args : Parser Args) (name : Text)
    → Ends n args
    → Ends n (call_or_name args name true) × Ends (suc n) (call_or_name args name false)
unfolding call_or_name
call_or_name-Ends n args name h = (
  λ lexer k.
      Ensures-bind (unless_closed-Ends n Args.no_args args h lexer k)
        λ (read, l) p. holds {a = (Expr.call (take 63 name) read, l)} p,
  λ lexer k. holds (omega arith),
)

expr_at-Ends :
    (n : ℕ) (kind : TokenKind) (text : Text) (args : Parser Args)
    → Ends n args
    → Ends (suc n) (expr_at kind text args)
unfolding expr_at
expr_at-Ends n ident text args h lexer k = Ensures-bind (advance-Ends (suc n) lexer k) λ (_, l) p.
    let (called, named) = call_or_name-Ends n args text h in
    Left-mono (left_over l) (left_over lexer) (omega arith)
      (accept-Ends lparen n (call_or_name args text) (cc) called named l (omega arith))
expr_at-Ends n number text args h lexer k =
    Ensures-bind (advance-Ends (suc n) lexer k)
      λ (_, l) p. holds {a = (Expr.number (take 63 text), l)} p
expr_at-Ends n _ text args h lexer k = rejects

pub parse_expr-Ends : (n : ℕ) → Ends n (parse_expr n)
unfolding parse_expr
parse_expr-Ends zero lexer k = absurd (omega arith)
parse_expr-Ends (suc n) lexer k =
    expr_at-Ends n lexer.current.kind lexer.current.text (parse_args n (parse_expr n) 0)
      (parse_args-Ends n (parse_expr n) 0 (parse_expr-Ends n)) lexer k

parse_params-Ends : (n count : ℕ) → Ends n (parse_params n count)
unfolding parse_params
parse_params-Ends zero count lexer k = absurd (omega arith)
parse_params-Ends (suc n) count lexer k = elim (Bool-cases (leb 2 count)) [
  | inl full ↦ rw full rejects
  | inr room ↦ rw room (
      Ensures-bind (expect_ident-Ends false 32 (suc n) lexer k) λ (name, l) p.
        Left-mono (left_over l) (left_over lexer) (omega arith) (
          again-Ends n (parse_params n (suc count)) (◌∷◌ name) (name ∷ [])
            (parse_params-Ends n (suc count)) l (omega arith)))
]

-- A function uses up at least one token.
pub parse_fn_def-Shorter :
    (n : ℕ) (lexer : Lexer)
    → left_over lexer < n
    → Ensures (Shorter (left_over lexer)) (parse_fn_def n lexer)
unfolding parse_fn_def
parse_fn_def-Shorter n lexer k = Ensures-bind (advance-Ends n lexer k) λ (_, l₁) p₁.
    Ensures-bind (expect_ident-Ends false 64 n l₁ (omega arith)) λ (name, l₂) p₂.
      Ensures-bind (expect-Shorter lparen (codes "'('") (cc) l₂) λ (_, l₃) p₃.
        Ensures-bind
          (unless_closed-Ends n [] (parse_params n 0) (parse_params-Ends n 0) l₃ (omega arith))
          λ (params, l₄) p₄.
            Ensures-bind (expect-Shorter lbrace (codes "'{'") (cc) l₄) λ (_, l₅) p₅.
              Ensures-bind (keyword-Ends (codes "return") expected_return n l₅ (omega arith))
                λ (_, l₆) p₆. Ensures-bind (parse_expr-Ends n l₆ (omega arith)) λ (body, l₇) p₇.
                  Ensures-bind (expect-Shorter semi (codes "';'") (cc) l₇) λ (_, l₈) p₈.
                    Ensures-bind (expect-Shorter rbrace (codes "'}'") (cc) l₈) λ (_, l₉) p₉.
                      holds {a = (record { name = name; params = params; body = body }, l₉)}
                        (omega arith)
