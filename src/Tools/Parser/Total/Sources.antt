-- ===== src/Tools/Parser/Total/Sources.antt =====
-- core/tools/dsl_parser.c: the reading of a source ends.
use functional_c.Prelude.{
  ℕ, zero, suc, ◌<◌, Bool, true, false, ◌&&◌, Option, none, some, leb, Bool-cases, inl, inr, arith,
  [], ◌∷◌, if◌then◌else◌,
}
use functional_c.Prelude.Text.{Text, codes}
use functional_c.Tools.Ast.{SourceKind, SourceAst, source, no_sources, nested}
use functional_c.Tools.Lexer.{comma, lparen, rparen, ident, Lexer}
use functional_c.Tools.Lexer.Progress.{left_over}
use functional_c.Tools.Reader.{Parser, pure, same_kind, expect, ◌>>◌}
use functional_c.Tools.Reader.Ends.{
  Ensures, holds, rejects, Ensures-bind, Ensures-weaken, Ends, Shorter, Shorter→Left, accept-Ends,
  expect-Shorter, expect_ident-Ends, expect_value-Ends, unless_closed-Ends, Ends-mono,
}
use functional_c.Tools.Parser.Sources.{
  source_kind_of, SourceArgs, is_source_name, more_source_args, source_arg, source_args,
  parse_source_arg_list, is_zip, source_of, parse_source,
}
use functional_c.Tools.Parser.Total.{close-Ends}

more_source_args-Ends :
    (n : ℕ) (next : Parser SourceArgs) → Ends n next → Ends (suc n) (more_source_args next)
unfolding more_source_args
more_source_args-Ends n next h lexer k =
    accept-Ends comma n
      (λ again. if again then next else (expect rparen (codes "')'") >> pure ([], no_sources))) (cc)
      h (close-Ends rparen (codes "')'") (suc n) ([], no_sources) (cc)) lexer k

source_arg-Ends :
    (n : ℕ) (is_source : Bool) (parse : Parser SourceAst) (count : ℕ) (next : Parser SourceArgs)
    → Ends (suc n) parse
    → Ends n next
    → Ends (suc n) (source_arg is_source parse count next)
unfolding source_arg
source_arg-Ends n true parse count next h g lexer k = elim (Bool-cases (leb 8 count)) [
  | inl full ↦ rw full rejects
  | inr room ↦ rw room (
      Ensures-bind (h lexer k) λ (s, l) p.
        Ensures-bind (more_source_args-Ends n next g l (omega arith))
          λ ((values, inner), m) q. holds {a = ((values, nested s inner), m)} (omega arith))
]
source_arg-Ends n false parse count next h g lexer k = elim (Bool-cases (leb 8 count)) [
  | inl full ↦ rw full rejects
  | inr room ↦ rw room (
      Ensures-bind (expect_value-Ends 64 (suc n) lexer k) λ (v, l) p.
        Ensures-bind (more_source_args-Ends n next g l (omega arith))
          λ ((values, inner), m) q. holds {a = ((v ∷ values, inner), m)} (omega arith))
]

source_args-Ends :
    (n : ℕ) (nested_sources : Bool) (parse : Parser SourceAst) (values sources : ℕ)
    → Ends n parse
    → Ends n (source_args n nested_sources parse values sources)
unfolding source_args
source_args-Ends zero nested_sources parse values sources h lexer k = absurd (omega arith)
source_args-Ends (suc n) nested_sources parse values sources h lexer k =
    let is_source =
      nested_sources && (same_kind lexer.current.kind ident && is_source_name lexer.current.text) in
    source_arg-Ends n is_source parse (if is_source then sources else values)
      (source_args n nested_sources parse (if is_source then values else suc values)
        (if is_source then suc sources else sources))
      h
      (source_args-Ends n nested_sources parse (if is_source then values else suc values)
        (if is_source then suc sources else sources) (Ends-mono n (suc n) (omega arith) h))
      lexer k

parse_source_arg_list-Ends :
    (n : ℕ) (nested_sources : Bool) (parse : Parser SourceAst)
    → Ends n parse
    → Ends n (parse_source_arg_list n nested_sources parse)
unfolding parse_source_arg_list
parse_source_arg_list-Ends n nested_sources parse h =
    unless_closed-Ends n ([], no_sources) (source_args n nested_sources parse 0 0)
      (source_args-Ends n nested_sources parse 0 0 h)

source_of-Shorter :
    (n : ℕ) (parse : Parser SourceAst) (name : Text) (o : Option SourceKind)
    → Ends n parse
    → (lexer : Lexer) → left_over lexer < suc n
    → Ensures (Shorter (left_over lexer)) (source_of n parse name o lexer)
unfolding source_of
source_of-Shorter n parse name none h lexer k = rejects
source_of-Shorter n parse name (some kind) h lexer k =
    Ensures-bind (expect-Shorter lparen (codes "'('") (cc) lexer) λ (_, l) p.
      Ensures-bind (parse_source_arg_list-Ends n (is_zip kind) parse h l (omega arith))
        λ ((values, inner), m) q. holds {a = (source kind values inner, m)} (omega arith)

-- A source uses up at least one token.
pub parse_source-Shorter :
    (n : ℕ) (lexer : Lexer)
    → left_over lexer < n
    → Ensures (Shorter (left_over lexer)) (parse_source n lexer)
unfolding parse_source
parse_source-Shorter zero lexer k = absurd (omega arith)
parse_source-Shorter (suc n) lexer k =
    let inner : Ends n (parse_source n) =
      λ l le. Shorter→Left (left_over l) (parse_source-Shorter n l le) in
    Ensures-bind (expect_ident-Ends false 64 (suc n) lexer k) λ (name, l) p.
      Ensures-weaken (λ r q. omega arith)
        (source_of-Shorter n (parse_source n) name (source_kind_of name) inner l (omega arith))
