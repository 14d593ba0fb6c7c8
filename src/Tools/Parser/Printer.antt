-- ===== src/Tools/Parser/Printer.antt =====
-- A program as the tokens that the grammar of core/tools/dsl_parser.c gives it, and the programs that
-- can be written so. Each printer takes the tokens that follow.
use functional_c.Prelude.{
  ℕ, suc, ◌≤◌, ◌<◌, ◌≡◌, Bool, true, false, ◌&&◌, List, [], ◌∷◌, if◌then◌else◌, length,
}
use functional_c.Prelude.Text.{Text, codes}
use functional_c.Tools.Ast.{
  Expr, Args, no_args, arg, FnDef, SourceAst, source, Sources, no_sources, nested, source_count,
}
use functional_c.Tools.Registry.{source_kind_name}
use functional_c.Tools.Lexer.{
  TokenKind, ident, number, lparen, rparen, lbrace, rbrace, comma, dot, semi, isdigit,
}
use functional_c.Tools.Lexer.Feeds.{Tok, IsTok, IsWord, IsNumber}
use functional_c.Tools.Parser.Sources.{is_source_name, is_zip}

abbrev pub open_paren : Tok
open_paren = (lparen, codes "(")

abbrev pub close_paren : Tok
close_paren = (rparen, codes ")")

abbrev pub open_brace : Tok
open_brace = (lbrace, codes "{")

abbrev pub close_brace : Tok
close_brace = (rbrace, codes "}")

abbrev pub comma_tok : Tok
comma_tok = (comma, codes ",")

abbrev pub dot_tok : Tok
dot_tok = (dot, codes ".")

abbrev pub semi_tok : Tok
semi_tok = (semi, codes ";")

abbrev pub word : Text → Tok
word text = (ident, text)

-- A value is a number where it begins with a digit.
abbrev pub value_kind : Text → TokenKind
value_kind [] = ident
value_kind (c ∷ s) = if isdigit c then number else ident

abbrev pub value : Text → Tok
value text = (value_kind text, text)

unfoldable mutual
  pub print_expr : Expr → List Tok → List Tok
  print_expr (Expr.ident x) k = word x ∷ k
  print_expr (Expr.number n) k = (number, n) ∷ k
  print_expr (Expr.call f no_args) k = word f ∷ open_paren ∷ close_paren ∷ k
  print_expr (Expr.call f (arg e rest)) k =
      word f ∷ open_paren ∷ print_expr e (print_more_args rest k)

  pub print_more_args : Args → List Tok → List Tok
  print_more_args no_args k = close_paren ∷ k
  print_more_args (arg e rest) k = comma_tok ∷ print_expr e (print_more_args rest k)

-- The other words of a list, each behind a comma.
unfoldable pub print_more : List Text → List Tok → List Tok
print_more [] k = close_paren ∷ k
print_more (x ∷ xs) k = comma_tok ∷ word x ∷ print_more xs k

unfoldable pub print_params : List Text → List Tok → List Tok
unfolding print_more
print_params [] k = close_paren ∷ k
print_params (x ∷ xs) k = word x ∷ print_more xs k

unfoldable pub print_function : FnDef → List Tok → List Tok
unfolding print_params print_expr
print_function fn k =
    word (codes "fn")
    ∷ word fn.name
    ∷ open_paren
    ∷ print_params fn.params
        (open_brace ∷ word (codes "return") ∷ print_expr fn.body (semi_tok ∷ close_brace ∷ k))

unfoldable pub print_more_values : List Text → List Tok → List Tok
print_more_values [] k = k
print_more_values (v ∷ values) k = comma_tok ∷ value v ∷ print_more_values values k

-- The values of a source, and then its nested sources.
unfoldable mutual
  pub print_source : SourceAst → List Tok → List Tok
  print_source (source kind [] inner) k =
      word (source_kind_name kind) ∷ open_paren ∷ print_sources inner k
  print_source (source kind (v ∷ values) inner) k =
      word (source_kind_name kind)
      ∷ open_paren
      ∷ value v
      ∷ print_more_values values (print_more_sources inner k)

  pub print_sources : Sources → List Tok → List Tok
  print_sources no_sources k = close_paren ∷ k
  print_sources (nested s inner) k = print_source s (print_more_sources inner k)

  pub print_more_sources : Sources → List Tok → List Tok
  print_more_sources no_sources k = close_paren ∷ k
  print_more_sources (nested s inner) k = comma_tok ∷ print_source s (print_more_sources inner k)

abbrev pub argument_count : Args → ℕ
argument_count no_args = 0
argument_count (arg e rest) = suc (argument_count rest)

-- Names, numbers, and calls of at most eight arguments.
abbrev mutual
  pub IsExpr : Expr → Type 0
  IsExpr (Expr.ident x) = IsWord x
  IsExpr (Expr.number n) = IsNumber n
  IsExpr (Expr.call f args) = IsWord f × (argument_count args ≤ 8) × AreExprs args

  pub AreExprs : Args → Type 0
  AreExprs no_args = Unit
  AreExprs (arg e rest) = IsExpr e × AreExprs rest

-- Parameters that leave their buffers, which are not cleared, an end.
abbrev pub AreParams : List Text → Type 0
AreParams [] = Unit
AreParams (x ∷ xs) = IsWord x × (length x < 31) × AreParams xs

pub record IsFunction (fn : FnDef) : Type 0 where
  pub name_is : IsWord fn.name
  pub name_fits : length fn.name < 63
  pub params_are : AreParams fn.params
  pub few : length fn.params ≤ 2
  pub body_is : IsExpr fn.body

abbrev pub IsValue : Text → Type 0
IsValue v = IsTok (value_kind v) v

-- Among the values of a zip none has the name of a source.
abbrev pub AreValues : Bool → List Text → Type 0
AreValues with_sources [] = Unit
AreValues with_sources (v ∷ values) =
    IsValue v × ((with_sources && is_source_name v) ≡ false) × AreValues with_sources values

-- Only a zip has nested sources.
abbrev pub Nesting : Bool → Sources → Type 0
Nesting true inner = Unit
Nesting false no_sources = Unit
Nesting false (nested s inner) = ⊥

abbrev mutual
  pub IsSource : SourceAst → Type 0
  IsSource (source kind values inner) =
      AreValues (is_zip kind) values
      × (length values ≤ 8)
      × Nesting (is_zip kind) inner
      × (source_count inner ≤ 8)
      × AreSources inner

  pub AreSources : Sources → Type 0
  AreSources no_sources = Unit
  AreSources (nested s inner) = IsSource s × AreSources inner
