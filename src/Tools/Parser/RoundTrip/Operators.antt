-- ===== src/Tools/Parser/RoundTrip/Operators.antt =====
-- core/tools/dsl_parser.c: an operator that was printed is parsed back.
use functional_c.Prelude.{
  ℕ, ◌<◌, ◌≡◌, refl, sym, subst, ◌∙◌, Bool, true, false, Option, none, some, List, [], ◌∷◌,
  if◌then◌else◌, arith, length,
}
use functional_c.Prelude.Text.{Text, codes}
use functional_c.Tools.Ast.{OperatorKind, SourceAst, OperatorAst}
use functional_c.Tools.Registry.{
  OperatorArgumentKind, no_argument, function, literal, function_and_literal, source_argument,
  OperatorInfo, find_operator_info, find_operator_info_by_name,
}
use functional_c.Tools.Lexer.{lparen, rparen, comma, Lexer}
use functional_c.Tools.Lexer.Feeds.{Tok, Feeds}
use functional_c.Tools.Reader.{same_kind}
use functional_c.Tools.Reader.Reads.{
  Reads, Reads-bind, accept-hit, accept-miss, expect-Reads, expect_ident-Reads, expect_value-Reads,
}
use functional_c.Tools.Parser.Sources.{parse_source}
use functional_c.Tools.Parser.Chains.{
  operator, end_operator, with_literal, operator_arguments, operator_of, parse_operator,
}
use functional_c.Tools.Parser.Printer.{
  open_paren, close_paren, comma_tok, word, value, value_kind, print_source, IsValue,
}
use functional_c.Tools.Parser.ChainPrinter.{
  print_argument, print_optional, print_operator_as, HasArgument, IsOperatorAs,
}
use functional_c.Tools.Parser.RoundTrip.{close-Reads, IsWord-length}
use functional_c.Tools.Parser.RoundTrip.Values.{value_kind-IsValueKind, IsValue-length}
use functional_c.Tools.Parser.RoundTrip.Sources.{parse_source-Reads}

-- What the table promises of an entry.
record IsEntry (kind : OperatorKind) (info : OperatorInfo) : Type 0 where
  same_kind_of : info.kind ≡ kind
  by_name : find_operator_info_by_name info.dsl_name ≡ some info
  fits : length info.dsl_name < 63

find_operator_info-IsEntry :
    (kind : OperatorKind)
    → (info : OperatorInfo) × (find_operator_info kind ≡ some info) × IsEntry kind info
unfolding find_operator_info find_operator_info_by_name
find_operator_info-IsEntry OperatorKind.map =
    (_, refl, record { same_kind_of = refl; by_name = refl; fits = omega arith })
find_operator_info-IsEntry _ =
    (_, refl, record { same_kind_of = refl; by_name = refl; fits = omega arith })

some-injective : {A : Type 0} (a b : A) → some a ≡ some b → a ≡ b
some-injective a b e = cc

IsEntry-find_operator_info :
    (kind : OperatorKind) (info : OperatorInfo)
    → find_operator_info kind ≡ some info
    → IsEntry kind info
IsEntry-find_operator_info kind info e =
    let (info', e', h) = find_operator_info-IsEntry kind in
    subst (IsEntry kind) (some-injective info' info (sym e' ∙ e)) h

operator-eq :
    (op : OperatorAst) {kind : OperatorKind} {symbol extra : Text} {s : Option SourceAst} {b : Bool}
    → kind ≡ op.kind
    → op.symbol ≡ symbol
    → op.extra ≡ extra
    → op.source_arg ≡ s
    → op.has_extra ≡ b
    → operator kind symbol extra s b ≡ op
unfolding operator
operator-eq op k e f g h = λ i. record {
  kind = k i;
  symbol = sym e i;
  extra = sym f i;
  source_arg = sym g i;
  has_extra = sym h i;
}

end-Reads :
    (op o : OperatorAst) (k : List Tok) (lexer : Lexer)
    → o ≡ op
    → Feeds lexer (close_paren ∷ k)
    → Reads op k (end_operator o lexer)
unfolding end_operator
end-Reads op o k lexer e h =
    subst (λ x. Reads x k (end_operator o lexer)) e (close-Reads o (codes "')'") k lexer h)

-- The switch of `parse_operator`, behind the bracket.
arguments-Reads :
    (fuel : ℕ) (argument : OperatorArgumentKind) (op : OperatorAst) (k : List Tok) (lexer : Lexer)
    → HasArgument argument op
    → Feeds lexer (print_argument argument op k)
    → Reads op k (operator_arguments (parse_source fuel) op.kind argument lexer)
unfolding operator_arguments print_argument
arguments-Reads fuel no_argument op k lexer (s, x, src, has) h =
    end-Reads op (operator op.kind [] [] none false) k lexer (operator-eq op refl s x src has) h
arguments-Reads fuel function op k lexer (s, x, src, has) h =
    Reads-bind _
      (expect_ident-Reads true 64 op.symbol (close_paren ∷ k) lexer h (IsWord-length op.symbol s))
      λ l₁ h₁.
        end-Reads op (operator op.kind op.symbol [] none false) k l₁
          (operator-eq op refl refl x src has) h₁
arguments-Reads fuel literal op k lexer (s, x, src, has) h =
    Reads-bind _
      (expect_value-Reads 64 (value_kind op.extra) op.extra (close_paren ∷ k) lexer h
        (value_kind-IsValueKind op.extra) (omega (arith, IsValue-length op.extra x)))
      λ l₁ h₁.
        end-Reads op (operator op.kind [] op.extra none true) k l₁
          (operator-eq op refl s refl src has) h₁
arguments-Reads fuel function_and_literal op k lexer (s, src, x) h = both op.has_extra refl x h
  where
    both :
        (b : Bool)
        → op.has_extra ≡ b
        → (if b then IsValue op.extra else op.extra ≡ [])
        → Feeds lexer (
            word op.symbol
            ∷ (if b then comma_tok ∷ value op.extra ∷ close_paren ∷ k else close_paren ∷ k))
        → Reads op k (operator_arguments (parse_source fuel) op.kind function_and_literal lexer)
    both true has v g =
        let toks = value op.extra ∷ close_paren ∷ k in
        Reads-bind _
          (expect_ident-Reads true 64 op.symbol (comma_tok ∷ toks) lexer g
            (IsWord-length op.symbol s))
          λ l₁ h₁. Reads-bind _ (accept-hit comma (codes ",") toks l₁ h₁) λ l₂ h₂.
            unfold with_literal in
            Reads-bind _
              (expect_value-Reads 64 (value_kind op.extra) op.extra (close_paren ∷ k) l₂ h₂
                (value_kind-IsValueKind op.extra) (omega (arith, IsValue-length op.extra v)))
              λ l₃ h₃.
                end-Reads op (operator op.kind op.symbol op.extra none true) k l₃
                  (operator-eq op refl refl refl src has) h₃
    both false has v g =
        Reads-bind _
          (expect_ident-Reads true 64 op.symbol (close_paren ∷ k) lexer g
            (IsWord-length op.symbol s))
          λ l₁ h₁.
            unfold with_literal same_kind in
            rw (accept-miss rparen (codes ")") k l₁ h₁ comma refl) (
              end-Reads op (operator op.kind op.symbol [] none false) k l₁
                (operator-eq op refl refl v src has) h₁)
arguments-Reads fuel source_argument op k lexer (s, x, has, (src, e, is)) h =
    let g : Feeds lexer (print_source src (close_paren ∷ k)) =
      subst (λ o. Feeds lexer (print_optional o (close_paren ∷ k))) e h in
    Reads-bind _ (parse_source-Reads src fuel (close_paren ∷ k) lexer is g) λ l₁ h₁.
      end-Reads op (operator op.kind [] [] (some src) false) k l₁ (operator-eq op refl s x e has) h₁

-- A printed operator is read back.
pub operator_as-Reads :
    (fuel : ℕ) (op : OperatorAst) (o : Option OperatorInfo) (k : List Tok) (lexer : Lexer)
    → find_operator_info op.kind ≡ o
    → IsOperatorAs o op
    → Feeds lexer (print_operator_as o op k)
    → Reads op k (parse_operator fuel lexer)
unfolding parse_operator print_operator_as
operator_as-Reads fuel op none k lexer e is h = absurd is
operator_as-Reads fuel op (some info) k lexer e is h =
    let toks = print_argument info.argument_kind op k in
    let entry = IsEntry-find_operator_info op.kind info e in
    Reads-bind _ (expect_ident-Reads false 64 info.dsl_name (open_paren ∷ toks) lexer h entry.fits)
      λ l₁ h₁. Reads-bind _ (expect-Reads lparen (codes "(") toks l₁ h₁ (codes "'('")) λ l₂ h₂.
        rw (entry.by_name) (
          unfold operator_of in
          rw (entry.same_kind_of) (arguments-Reads fuel info.argument_kind op k l₂ is h₂))
