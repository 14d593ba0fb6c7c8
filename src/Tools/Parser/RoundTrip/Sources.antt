-- ===== src/Tools/Parser/RoundTrip/Sources.antt =====
-- core/tools/dsl_parser.c: a source that was printed is parsed back.
use functional_c.Prelude.{
  ℕ, zero, suc, ◌+◌, ◌≤◌, ◌<◌, ◌≡◌, refl, subst, Bool, true, false, ◌&&◌, List, [], ◌∷◌, arith,
  length,
}
use functional_c.Prelude.Text.{Text, codes}
use functional_c.Tools.Ast.{
  SourceKind, SourceAst, source, Sources, no_sources, nested, source_count,
}
use functional_c.Tools.Registry.{source_kind_name}
use functional_c.Tools.Lexer.{ident, lparen, rparen, Lexer}
use functional_c.Tools.Lexer.Feeds.{Tok, Feeds}
use functional_c.Tools.Reader.{Parser, same_kind, unless_closed}
use functional_c.Tools.Reader.Reads.{
  Reads, dry, gives, Reads-bind, accept-hit, accept-miss, expect-Reads, expect_ident-Reads,
  expect_value-Reads,
}
use functional_c.Tools.Parser.Sources.{
  SourceArgs, is_source_name, more_source_args, source_arg, source_args, parse_source_arg_list,
  is_zip, source_of, parse_source,
}
use functional_c.Tools.Parser.Printer.{
  open_paren, close_paren, comma_tok, word, value_kind, value, print_more_values, print_source,
  print_sources, print_more_sources, IsValue, AreValues, Nesting, IsSource, AreSources,
}
use functional_c.Tools.Parser.RoundTrip.Values.{
  value_kind-IsValueKind, value_kind-ne, IsValue-length,
}
use functional_c.Tools.Parser.RoundTrip.{leb-false}
use functional_c.Tools.Parser.RoundTrip.Turns.{
  source_kind_of-name, length-name, is_source_name-name, more-hit, more-close, is_nested, turn,
}

-- A nested source is read back, and the sources behind it; the numbers are the loop's fuel, the fuel
-- of each source, and what was read before.
abbrev SourceReads : SourceAst → Type 0
SourceReads s =
    (fuel : ℕ) (k : List Tok) (lexer : Lexer)
    → IsSource s
    → Feeds lexer (print_source s k)
    → Reads s k (parse_source fuel lexer)

abbrev SourcesRead : Sources → Type 0
SourcesRead no_sources = Unit
SourcesRead (nested s inner) =
    (loop fuel values count : ℕ) (k : List Tok) (lexer : Lexer)
    → AreSources (nested s inner)
    → count + source_count (nested s inner) ≤ 8
    → Feeds lexer (print_source s (print_more_sources inner k))
    → Reads ([], nested s inner) k (source_args loop true (parse_source fuel) values count lexer)

abbrev pub kind_of : SourceAst → SourceKind
kind_of (source kind values inner) = kind

-- What a printed source begins with.
pub print_source-head :
    (s : SourceAst) (k : List Tok)
    → (toks : List Tok) × (print_source s k ≡ word (source_kind_name (kind_of s)) ∷ toks)
unfolding print_source
print_source-head (source kind [] inner) k = (_, refl)
print_source-head (source kind (v ∷ values) inner) k = (_, refl)

nested-name : (kind : SourceKind) → is_nested true ident (source_kind_name kind) ≡ true
unfolding same_kind
nested-name kind = is_source_name-name kind

sources-step :
    (s : SourceAst) (inner : Sources)
    → SourceReads s
    → SourcesRead inner
    → SourcesRead (nested s inner)
unfolding print_more_sources
sources-step s inner hs hr zero fuel values count k lexer w few h = unfold source_args in dry
sources-step s no_sources hs hr (suc loop) fuel values count k lexer w few h =
    let (toks, e) = print_source-head s (close_paren ∷ k) in
    rw
      (turn loop true (parse_source fuel) values count ident (source_kind_name (kind_of s)) toks
        lexer true (subst (Feeds lexer) e h) (nested-name (kind_of s)))
      (unfold source_arg in
        rw (leb-false 8 count (unfold source_count in omega arith)) (
          Reads-bind _ (hs fuel (close_paren ∷ k) lexer w.0 h) λ l₁ h₁.
            Reads-bind _
              (more-close
                (λ next. source_args loop true (parse_source fuel) values (suc count) next) k l₁ h₁)
              λ l₂ h₂. gives h₂))
sources-step s (nested s' inner) hs hr (suc loop) fuel values count k lexer w few h =
    let rest = print_source s' (print_more_sources inner k) in
    let (toks, e) = print_source-head s (comma_tok ∷ rest) in
    rw
      (turn loop true (parse_source fuel) values count ident (source_kind_name (kind_of s)) toks
        lexer true (subst (Feeds lexer) e h) (nested-name (kind_of s)))
      (unfold source_arg in
        rw (leb-false 8 count (unfold source_count in omega arith)) (
          Reads-bind _ (hs fuel (comma_tok ∷ rest) lexer w.0 h) λ l₁ h₁.
            Reads-bind _
              (more-hit (λ next. source_args loop true (parse_source fuel) values (suc count) next)
                rest k l₁ h₁
                (λ m h'.
                  hr loop fuel values (suc count) k m w.1 (unfold source_count in omega arith) h'))
              λ l₂ h₂. gives h₂))

and_middle : (a b c : Bool) → (a && c) ≡ false → (a && (b && c)) ≡ false
and_middle false b c h = refl
and_middle true false c h = refl
and_middle true true c h = h

-- The rest of the loop, behind a value.
abbrev behind_value : ℕ → Bool → ℕ → ℕ → Parser SourceArgs
behind_value loop with_sources fuel count next =
    source_args loop with_sources (parse_source fuel) (suc count) 0 next

value-step :
    (loop fuel count : ℕ) (with_sources : Bool) (v : Text) (values : List Text) (inner : Sources)
    (toks k : List Tok) (lexer : Lexer)
    → IsValue v
    → (with_sources && is_source_name v) ≡ false
    → count < 8
    → Feeds lexer (value v ∷ toks)
    → ((l : Lexer)
        → Feeds l toks
        → Reads (values, inner) k (more_source_args (behind_value loop with_sources fuel count) l))
    → Reads
        (v ∷ values, inner)
        k
        (source_args (suc loop) with_sources (parse_source fuel) count 0 lexer)
value-step loop fuel count with_sources v values inner toks k lexer w plain room h read =
    rw
      (turn loop with_sources (parse_source fuel) count 0 (value_kind v) v toks lexer false h
        (and_middle with_sources (same_kind (value_kind v) ident) (is_source_name v) plain))
      (unfold source_arg in
        rw (leb-false 8 count room) (
          Reads-bind _
            (expect_value-Reads 64 (value_kind v) v toks lexer h (value_kind-IsValueKind v)
              (omega (arith, IsValue-length v w)))
            λ l₁ h₁. Reads-bind _ (read l₁ h₁) λ l₂ h₂. gives h₂))

values-Reads :
    (v : Text) (values : List Text) (loop fuel count : ℕ) (with_sources : Bool) (inner : Sources)
    (k : List Tok) (lexer : Lexer)
    → AreValues with_sources (v ∷ values)
    → count + length (v ∷ values) ≤ 8
    → Nesting with_sources inner
    → source_count inner ≤ 8
    → AreSources inner
    → SourcesRead inner
    → Feeds lexer (value v ∷ print_more_values values (print_more_sources inner k))
    → Reads (v ∷ values, inner) k (source_args loop with_sources (parse_source fuel) count 0 lexer)
unfolding print_more_values
values-Reads v values zero fuel count b inner k lexer w few n m ws hr h = unfold source_args in dry
values-Reads v [] (suc loop) fuel count b no_sources k lexer w few n m ws hr h =
    value-step loop fuel count b v [] no_sources (close_paren ∷ k) k lexer w.0 w.1 (omega arith)
      (unfold print_more_sources in h) (λ l h'. more-close (behind_value loop b fuel count) k l h')
values-Reads v [] (suc loop) fuel count false (nested s inner) k lexer w few n m ws hr h = absurd n
values-Reads v [] (suc loop) fuel count true (nested s inner) k lexer w few n m ws hr h =
    let toks = print_source s (print_more_sources inner k) in
    value-step loop fuel count true v [] (nested s inner) (comma_tok ∷ toks) k lexer w.0 w.1
      (omega arith) (unfold print_more_sources in h)
      (λ l h'.
        more-hit (behind_value loop true fuel count) toks k l h'
          (λ l' h''. hr loop fuel (suc count) 0 k l' ws (omega arith) h''))
values-Reads v (v' ∷ values) (suc loop) fuel count b inner k lexer w few n m ws hr h =
    let toks = value v' ∷ print_more_values values (print_more_sources inner k) in
    value-step loop fuel count b v (v' ∷ values) inner (comma_tok ∷ toks) k lexer w.0 w.1
      (omega arith) h
      (λ l h'. more-hit (behind_value loop b fuel count) toks k l h' (λ l' h''.
        values-Reads v' values loop fuel (suc count) b inner k l' w.2 (omega arith) n m ws hr h''))

-- Behind the bracket of a source without values.
inner-Reads :
    (inner : Sources) (fuel : ℕ) (with_sources : Bool) (k : List Tok) (lexer : Lexer)
    → Nesting with_sources inner
    → source_count inner ≤ 8
    → AreSources inner
    → SourcesRead inner
    → Feeds lexer (print_sources inner k)
    → Reads ([], inner) k (parse_source_arg_list fuel with_sources (parse_source fuel) lexer)
unfolding parse_source_arg_list unless_closed print_sources same_kind
inner-Reads no_sources fuel b k lexer n m ws hr h =
    Reads-bind _ (accept-hit rparen (codes ")") k lexer h) λ l h'. gives h'
inner-Reads (nested s inner) fuel false k lexer n m ws hr h = absurd n
inner-Reads (nested s inner) fuel true k lexer n m ws hr h =
    let (toks, e) = print_source-head s (print_more_sources inner k) in
    rw
      (accept-miss ident (source_kind_name (kind_of s)) toks lexer (subst (Feeds lexer) e h) rparen
        refl)
      (hr fuel fuel 0 0 k lexer ws (omega arith) h)

-- The name and the bracket of a source, with its arguments behind them.
open-Reads :
    (fuel : ℕ) (kind : SourceKind) (values : List Text) (inner : Sources) (toks k : List Tok)
    (lexer : Lexer)
    → Feeds lexer (word (source_kind_name kind) ∷ open_paren ∷ toks)
    → ((l : Lexer)
        → Feeds l toks
        → Reads (values, inner) k (parse_source_arg_list fuel (is_zip kind) (parse_source fuel) l))
    → Reads (source kind values inner) k (parse_source (suc fuel) lexer)
unfolding parse_source
open-Reads fuel kind values inner toks k lexer h read =
    Reads-bind _
      (expect_ident-Reads false 64 (source_kind_name kind) (open_paren ∷ toks) lexer h
        (length-name kind))
      λ l₁ h₁. rw (source_kind_of-name kind) (
        unfold source_of in
        Reads-bind _ (expect-Reads lparen (codes "(") toks l₁ h₁ (codes "'('"))
          λ l₂ h₂. Reads-bind _ (read l₂ h₂) λ l₃ h₃. gives h₃)

source-step :
    (kind : SourceKind) (values : List Text) (inner : Sources)
    → SourcesRead inner
    → SourceReads (source kind values inner)
unfolding print_source
source-step kind values inner hr zero k lexer w h = unfold parse_source in dry
source-step kind [] inner hr (suc fuel) k lexer (plain, few, n, m, ws) h =
    open-Reads fuel kind [] inner (print_sources inner k) k lexer h
      (λ l h'. inner-Reads inner fuel (is_zip kind) k l n m ws hr h')
source-step kind (v ∷ values) inner hr (suc fuel) k lexer (plain, few, n, m, ws) h =
    let toks = print_more_values values (print_more_sources inner k) in
    open-Reads fuel kind (v ∷ values) inner (value v ∷ toks) k lexer h (λ l h'.
      unfold parse_source_arg_list unless_closed in
      rw (accept-miss (value_kind v) v toks l h' rparen (value_kind-ne v)) (
        values-Reads v values fuel fuel 0 (is_zip kind) inner k l plain (omega arith) n m ws hr h'))

mutual
  -- A printed source is read back, whatever fuel is given, unless the fuel runs out.
  pub parse_source-Reads : (s : SourceAst) → SourceReads s
  parse_source-Reads (source kind values inner) =
      source-step kind values inner (parse_sources-Reads inner)

  parse_sources-Reads : (inner : Sources) → SourcesRead inner
  parse_sources-Reads no_sources = tt
  parse_sources-Reads (nested s inner) =
      sources-step s inner (parse_source-Reads s) (parse_sources-Reads inner)
