-- ===== src/Tools/Parser/RoundTrip/Words.antt =====
-- core/tools/dsl_parser.c: the tokens of a printed function and of a printed source are tokens of the lexer.
use functional_c.Prelude.{◌≡◌, refl, Bool, true, false, ◌&&◌, List, [], ◌∷◌, ltb, ltb→lt, length}
use functional_c.Prelude.Text.{Text, codes, all, all→Every}
use functional_c.Tools.Ast.{
  Expr, Args, no_args, arg, FnDef, SourceKind, range, SourceAst, source, Sources, no_sources,
  nested,
}
use functional_c.Tools.Registry.{source_kind_name}
use functional_c.Tools.Lexer.{starts_word, is_word}
use functional_c.Tools.Lexer.Feeds.{Tok, IsWord, AllToks}
use functional_c.Tools.Parser.Printer.{
  open_brace, close_brace, semi_tok, word, print_expr, print_more_args, print_more, print_params,
  print_function, print_source, print_sources, print_more_sources, print_more_values, IsExpr,
  AreExprs, AreParams, IsFunction, AreValues, IsSource, AreSources,
}
use functional_c.Tools.Parser.Sources.{is_zip}

mutual
  unfolding print_expr

  AllToks-print_expr : (e : Expr) (k : List Tok) → IsExpr e → AllToks k → AllToks (print_expr e k)
  AllToks-print_expr (Expr.ident x) k w h = (w, h)
  AllToks-print_expr (Expr.number n) k w h = (w, h)
  AllToks-print_expr (Expr.call f no_args) k (w, few, ws) h = (w, (refl, (refl, h)))
  AllToks-print_expr (Expr.call f (arg e rest)) k (w, few, (we, ws)) h =
      (w, (refl, AllToks-print_expr e (print_more_args rest k) we (AllToks-more_args rest k ws h)))

  AllToks-more_args :
      (args : Args) (k : List Tok) → AreExprs args → AllToks k → AllToks (print_more_args args k)
  AllToks-more_args no_args k ws h = (refl, h)
  AllToks-more_args (arg e rest) k (we, ws) h =
      (refl, AllToks-print_expr e (print_more_args rest k) we (AllToks-more_args rest k ws h))

AllToks-print_more :
    (xs : List Text) (k : List Tok) → AreParams xs → AllToks k → AllToks (print_more xs k)
unfolding print_more
AllToks-print_more [] k ws h = (refl, h)
AllToks-print_more (x ∷ xs) k (w, short, ws) h = (refl, (w, AllToks-print_more xs k ws h))

AllToks-print_params :
    (xs : List Text) (k : List Tok) → AreParams xs → AllToks k → AllToks (print_params xs k)
unfolding print_params
AllToks-print_params [] k ws h = (refl, h)
AllToks-print_params (x ∷ xs) k (w, short, ws) h = (w, AllToks-print_more xs k ws h)

-- For a literal word, by computing.
unfoldable pub checks : Text → Bool
checks [] = false
checks (c ∷ s) = starts_word c && (all is_word s && ltb (length s) 63)

and_left : (a b : Bool) → (a && b) ≡ true → a ≡ true
and_left true b h = refl
and_left false b h = h

and_right : (a b : Bool) → (a && b) ≡ true → b ≡ true
and_right true b h = h
and_right false b h = cc

pub checks→IsWord : (s : Text) → checks s ≡ true → IsWord s
unfolding checks
checks→IsWord [] h = cc
checks→IsWord (c ∷ s) h =
    let rest = and_right (starts_word c) (all is_word s && ltb (length s) 63) h in
    (
      and_left (starts_word c) (all is_word s && ltb (length s) 63) h,
      all→Every is_word s (and_left (all is_word s) (ltb (length s) 63) rest),
      ltb→lt (length s) 63 (and_right (all is_word s) (ltb (length s) 63) rest),
    )

pub AllToks-print_function :
    (fn : FnDef) (k : List Tok) → IsFunction fn → AllToks k → AllToks (print_function fn k)
unfolding print_function checks starts_word is_word
AllToks-print_function fn k w h =
    let tail = semi_tok ∷ close_brace ∷ k in
    let body = AllToks-print_expr fn.body tail w.body_is (refl, (refl, h)) in
    let behind = open_brace ∷ word (codes "return") ∷ print_expr fn.body tail in
    let params =
      AllToks-print_params fn.params behind w.params_are
        (refl, (checks→IsWord (codes "return") refl, body)) in
    (checks→IsWord (codes "fn") refl, (w.name_is, (refl, params)))

name-IsWord : (kind : SourceKind) → IsWord (source_kind_name kind)
unfolding source_kind_name checks starts_word is_word
name-IsWord range = checks→IsWord (source_kind_name range) refl
name-IsWord kind = checks→IsWord (source_kind_name kind) refl

AllToks-values :
    (with_sources : Bool) (values : List Text) (k : List Tok)
    → AreValues with_sources values
    → AllToks k
    → AllToks (print_more_values values k)
unfolding print_more_values
AllToks-values b [] k ws h = h
AllToks-values b (v ∷ values) k (w, plain, ws) h = (refl, (w, AllToks-values b values k ws h))

mutual
  unfolding print_source

  pub AllToks-print_source :
      (s : SourceAst) (k : List Tok) → IsSource s → AllToks k → AllToks (print_source s k)
  AllToks-print_source (source kind [] inner) k (ws, few, n, m, is) h =
      (name-IsWord kind, (refl, AllToks-sources inner k is h))
  AllToks-print_source (source kind (v ∷ values) inner) k ((w, plain, ws), few, n, m, is) h = (
    name-IsWord kind,
    (
      refl,
      (
        w,
        AllToks-values (is_zip kind) values (print_more_sources inner k) ws
            (AllToks-more_sources inner k is h),
      ),
    ),
  )

  AllToks-sources :
      (inner : Sources) (k : List Tok)
      → AreSources inner
      → AllToks k
      → AllToks (print_sources inner k)
  AllToks-sources no_sources k is h = (refl, h)
  AllToks-sources (nested s inner) k (i, is) h =
      AllToks-print_source s (print_more_sources inner k) i (AllToks-more_sources inner k is h)

  AllToks-more_sources :
      (inner : Sources) (k : List Tok)
      → AreSources inner
      → AllToks k
      → AllToks (print_more_sources inner k)
  AllToks-more_sources no_sources k is h = (refl, h)
  AllToks-more_sources (nested s inner) k (i, is) h = (
    refl,
    AllToks-print_source s (print_more_sources inner k) i (AllToks-more_sources inner k is h),
  )
