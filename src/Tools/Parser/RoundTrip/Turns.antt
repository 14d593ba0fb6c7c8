-- ===== src/Tools/Parser/RoundTrip/Turns.antt =====
-- core/tools/dsl_parser.c: one turn of the loop over the arguments of a source.
use functional_c.Prelude.{
  ℕ, suc, ◌<◌, ◌≡◌, refl, ap, ap₂, ◌∙◌, Bool, true, ◌&&◌, some, List, [], ◌∷◌, if◌then◌else◌, arith,
  length,
}
use functional_c.Prelude.Text.{Text, codes}
use functional_c.Tools.Ast.{SourceKind, range, SourceAst, no_sources}
use functional_c.Tools.Registry.{source_kind_name}
use functional_c.Tools.Lexer.{TokenKind, ident, rparen, comma, Lexer}
use functional_c.Tools.Lexer.Feeds.{Tok, Feeds}
use functional_c.Tools.Reader.{Parser, same_kind}
use functional_c.Tools.Reader.Reads.{Reads, Reads-bind, accept-hit, accept-miss}
use functional_c.Tools.Parser.Sources.{
  source_kind_of, SourceArgs, is_source_name, more_source_args, source_arg, source_args,
}
use functional_c.Tools.Parser.Printer.{close_paren, comma_tok}
use functional_c.Tools.Parser.RoundTrip.{close-Reads}

-- The name of a kind stands for that kind.
pub source_kind_of-name : (kind : SourceKind) → source_kind_of (source_kind_name kind) ≡ some kind
unfolding source_kind_of source_kind_name
source_kind_of-name range = refl
source_kind_of-name _ = refl

pub length-name : (kind : SourceKind) → length (source_kind_name kind) < 63
unfolding source_kind_name
length-name range = omega arith
length-name _ = omega arith

pub is_source_name-name : (kind : SourceKind) → is_source_name (source_kind_name kind) ≡ true
unfolding is_source_name
is_source_name-name kind = rw (source_kind_of-name kind) refl

pub more-hit :
    {a : SourceArgs} (next : Parser SourceArgs) (toks k : List Tok) (l : Lexer)
    → Feeds l (comma_tok ∷ toks)
    → ((m : Lexer) → Feeds m toks → Reads a k (next m))
    → Reads a k (more_source_args next l)
unfolding more_source_args
more-hit next toks k l h read =
    Reads-bind _ (accept-hit comma (codes ",") toks l h) λ m h'. read m h'

pub more-close :
    (next : Parser SourceArgs) (k : List Tok) (l : Lexer)
    → Feeds l (close_paren ∷ k)
    → Reads ([], no_sources) k (more_source_args next l)
unfolding more_source_args same_kind
more-close next k l h =
    rw (accept-miss rparen (codes ")") k l h comma refl)
      (close-Reads ([], no_sources) (codes "')'") k l h)

-- The test of the loop, at a known token.
abbrev pub is_nested : Bool → TokenKind → Text → Bool
is_nested with_sources kind text = with_sources && (same_kind kind ident && is_source_name text)

-- One turn of the loop, whichever branch its test takes.
pub turn :
    (loop : ℕ) (with_sources : Bool) (parse : Parser SourceAst) (values sources : ℕ)
    (kind : TokenKind) (text : Text) (toks : List Tok) (lexer : Lexer) (test : Bool)
    → Feeds lexer ((kind, text) ∷ toks)
    → is_nested with_sources kind text ≡ test
    → source_args (suc loop) with_sources parse values sources lexer
      ≡ source_arg test parse
          (if test then sources else values)
          (λ next.
            source_args loop with_sources parse
              (if test then values else suc values)
              (if test then suc sources else sources)
              next)
          lexer
unfolding source_args
turn loop with_sources parse values sources kind text toks lexer test h e =
    ap
      (λ b.
        source_arg b parse (if b then sources else values)
          (λ next.
            source_args loop with_sources parse (if b then values else suc values)
              (if b then suc sources else sources) next)
          lexer)
      (ap₂ (λ kd t. is_nested with_sources kd t) h.0 h.1 ∙ e)
