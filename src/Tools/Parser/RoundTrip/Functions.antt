-- ===== src/Tools/Parser/RoundTrip/Functions.antt =====
-- core/tools/dsl_parser.c: a function that was printed is parsed back.
use functional_c.Prelude.{ℕ, zero, suc, ◌+◌, ◌≤◌, refl, false, List, [], ◌∷◌, arith, length}
use functional_c.Prelude.Text.{Text, codes}
use functional_c.Tools.Ast.{FnDef}
use functional_c.Tools.Lexer.{ident, lparen, rparen, lbrace, rbrace, comma, semi, Lexer}
use functional_c.Tools.Lexer.Feeds.{Tok, Feeds}
use functional_c.Tools.Reader.{expected_return, same_kind, unless_closed}
use functional_c.Tools.Reader.Reads.{
  Reads, dry, gives, Reads-bind, advance-Reads, accept-hit, accept-miss, expect-Reads,
  expect_ident-Reads, keyword-Reads,
}
use functional_c.Tools.Parser.Functions.{parse_params, parse_fn_def}
use functional_c.Tools.Parser.Printer.{
  open_paren, close_paren, open_brace, close_brace, comma_tok, semi_tok, word, print_expr,
  print_more, print_params, print_function, AreParams, IsFunction,
}
use functional_c.Tools.Parser.RoundTrip.{close-Reads, leb-false, parse_expr-Reads}

print_params-Reads :
    (x : Text) (xs : List Text) (fuel count : ℕ) (k : List Tok) (lexer : Lexer)
    → AreParams (x ∷ xs)
    → count + length (x ∷ xs) ≤ 2
    → Feeds lexer (word x ∷ print_more xs k)
    → Reads (x ∷ xs) k (parse_params fuel count lexer)
unfolding parse_params print_more same_kind
print_params-Reads x xs zero count k lexer w few h = dry
print_params-Reads x [] (suc fuel) count k lexer w few h = rw (leb-false 2 count (omega arith)) (
    Reads-bind _ (expect_ident-Reads false 32 x (close_paren ∷ k) lexer h (omega (arith, w.1)))
      λ l₁ h₁.
        rw (accept-miss rparen (codes ")") k l₁ h₁ comma refl)
          (close-Reads (x ∷ []) (codes "')'") k l₁ h₁))
print_params-Reads x (y ∷ ys) (suc fuel) count k lexer w few h =
    rw (leb-false 2 count (omega arith)) (
      Reads-bind _
        (expect_ident-Reads false 32 x (comma_tok ∷ word y ∷ print_more ys k) lexer h
          (omega (arith, w.1)))
        λ l₁ h₁.
          Reads-bind _ (accept-hit comma (codes ",") (word y ∷ print_more ys k) l₁ h₁) λ l₂ h₂.
            Reads-bind _ (print_params-Reads y ys fuel (suc count) k l₂ w.2 (omega arith) h₂)
              λ l₃ h₃. gives h₃)

params-Reads :
    (xs : List Text) (fuel : ℕ) (k : List Tok) (lexer : Lexer)
    → AreParams xs
    → length xs ≤ 2
    → Feeds lexer (print_params xs k)
    → Reads xs k (unless_closed [] (parse_params fuel 0) lexer)
unfolding unless_closed print_params same_kind
params-Reads [] fuel k lexer w few h =
    Reads-bind _ (accept-hit rparen (codes ")") k lexer h) λ l h'. gives h'
params-Reads (x ∷ xs) fuel k lexer w few h =
    rw (accept-miss ident x (print_more xs k) lexer h rparen refl)
      (print_params-Reads x xs fuel 0 k lexer w (omega arith) h)

-- A printed function is read back.
pub parse_fn_def-Reads :
    (fn : FnDef) (fuel : ℕ) (k : List Tok) (lexer : Lexer)
    → IsFunction fn
    → Feeds lexer (print_function fn k)
    → Reads fn k (parse_fn_def fuel lexer)
unfolding parse_fn_def print_function same_kind
parse_fn_def-Reads fn fuel k lexer w h =
    let after_body = semi_tok ∷ close_brace ∷ k in
    let body = print_expr fn.body after_body in
    let after_params = open_brace ∷ word (codes "return") ∷ body in
    let params = print_params fn.params after_params in
    Reads-bind _ (advance-Reads ident (codes "fn") (word fn.name ∷ open_paren ∷ params) lexer h)
      λ l₁ h₁.
        Reads-bind _ (expect_ident-Reads false 64 fn.name (open_paren ∷ params) l₁ h₁ w.name_fits)
          λ l₂ h₂.
            Reads-bind _ (expect-Reads lparen (codes "(") params l₂ h₂ (codes "'('")) λ l₃ h₃.
              Reads-bind _ (params-Reads fn.params fuel after_params l₃ w.params_are w.few h₃)
                λ l₄ h₄.
                  Reads-bind _
                    (expect-Reads lbrace (codes "{") (word (codes "return") ∷ body) l₄ h₄
                      (codes "'{'"))
                    λ l₅ h₅.
                      Reads-bind _ (keyword-Reads ident (codes "return") expected_return body l₅ h₅)
                        λ l₆ h₆.
                          Reads-bind _
                            (parse_expr-Reads fn.body fuel after_body l₆ w.body_is refl h₆)
                            λ l₇ h₇.
                              Reads-bind _
                                (expect-Reads semi (codes ";") (close_brace ∷ k) l₇ h₇
                                  (codes "';'"))
                                λ l₈ h₈.
                                  Reads-bind _
                                    (expect-Reads rbrace (codes "}") k l₈ h₈ (codes "'}'"))
                                    λ l₉ h₉. gives h₉
