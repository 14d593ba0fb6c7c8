-- ===== src/Tools/Parser/Sources.antt =====
-- core/tools/dsl_parser.c: recursive descent over the lexer: the sources of a chain
use functional_c.Prelude.{
  ℕ, zero, suc, Bool, true, false, ◌&&◌, Option, none, some, List, [], ◌∷◌, leb, if◌then◌else◌,
}
use functional_c.Prelude.Text.{Text, codes, same_text}
use functional_c.Tools.Ast.{
  SourceKind, range, of, empty, never, interval, timer, defer, from, zip, SourceAst, source,
  Sources, no_sources, nested,
}
use functional_c.Tools.Lexer.{ident, lparen, rparen, comma}
use functional_c.Tools.Reader.{
  unsupported_source, too_many, out_of_fuel, Parser, pure, fail, ◌>>=◌, ◌>>◌, same_kind, accept,
  expect, expect_ident, expect_value, unless_closed,
}

-- The kind that a name stands for.
unfoldable pub source_kind_of : Text → Option SourceKind
source_kind_of name =
    if same_text name (codes "range")
    then some range
    else if same_text name (codes "of")
    then some of
    else if same_text name (codes "empty")
    then some empty
    else if same_text name (codes "never")
    then some never
    else if same_text name (codes "interval")
    then some interval
    else if same_text name (codes "timer")
    then some timer
    else if same_text name (codes "defer")
    then some defer
    else if same_text name (codes "from")
    then some from
    else if same_text name (codes "zip")
    then some zip
    else none

-- The values and the nested sources of a source.
abbrev pub SourceArgs : Type 0
SourceArgs = List Text × Sources

unfoldable pub is_some : {A : Type 0} → Option A → Bool
is_some none = false
is_some (some a) = true

unfoldable pub is_source_name : Text → Bool
unfolding source_kind_of is_some
is_source_name name = is_some (source_kind_of name)

-- Behind an argument the list goes on, from the new counts, or ends.
unfoldable pub more_source_args : Parser SourceArgs → Parser SourceArgs
more_source_args next = do
  again ← accept comma
  if again then next else (expect rparen (codes "')'") >> pure ([], no_sources))

-- A nested source, or a value, and what follows it.
unfoldable pub source_arg : Bool → Parser SourceAst → ℕ → Parser SourceArgs → Parser SourceArgs
unfolding more_source_args
source_arg true parse count next =
    if leb 8 count
    then fail too_many
    else (do s ← parse; (values, sources) ← more_source_args next; pure (values, nested s sources))
source_arg false parse count next = if leb 8 count then fail too_many else (do
  v ← expect_value 64
  (values, sources) ← more_source_args next
  pure (v ∷ values, sources))

-- The loop of `parse_source_arg_list`; the numbers count the values and the sources.
unfoldable pub source_args : ℕ → Bool → Parser SourceAst → ℕ → ℕ → Parser SourceArgs
unfolding source_arg is_source_name
source_args zero nested_sources parse values sources lexer = out_of_fuel
source_args (suc fuel) nested_sources parse values sources lexer =
    let is_source =
      nested_sources && (same_kind lexer.current.kind ident && is_source_name lexer.current.text) in
    source_arg is_source parse (if is_source then sources else values)
      (λ next.
        source_args fuel nested_sources parse (if is_source then values else suc values)
          (if is_source then suc sources else sources) next)
      lexer

unfoldable pub parse_source_arg_list : ℕ → Bool → Parser SourceAst → Parser SourceArgs
unfolding source_args unless_closed
parse_source_arg_list fuel nested_sources parse =
    unless_closed ([], no_sources) (source_args fuel nested_sources parse 0 0)

unfoldable pub is_zip : SourceKind → Bool
is_zip zip = true
is_zip _ = false

-- Behind the name of a source.
unfoldable pub source_of : ℕ → Parser SourceAst → Text → Option SourceKind → Parser SourceAst
unfolding is_zip
source_of fuel parse name none = fail (unsupported_source name)
source_of fuel parse name (some kind) = do
  expect lparen (codes "'('")
  (values, sources) ← parse_source_arg_list fuel (is_zip kind) parse
  pure (source kind values sources)

unfoldable pub parse_source : ℕ → Parser SourceAst
unfolding source_of
parse_source zero lexer = out_of_fuel
parse_source (suc fuel) lexer =
    let read : Parser SourceAst = do
      name ← expect_ident false 64
      source_of fuel (parse_source fuel) name (source_kind_of name)
    in read lexer
