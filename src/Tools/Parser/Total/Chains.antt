-- ===== src/Tools/Parser/Total/Chains.antt =====
-- core/tools/dsl_parser.c: the reading of a chain ends.
use functional_c.Prelude.{
  ℕ, zero, suc, ◌<◌, Bool, true, false, ◌&&◌, Option, none, some, Bool-cases, inl, inr, arith, [],
  ◌∷◌, if◌then◌else◌,
}
use functional_c.Prelude.Text.{Text, codes, same_text}
use functional_c.Tools.Ast.{OperatorKind, SourceAst, OperatorAst}
use functional_c.Tools.Registry.{
  OperatorArgumentKind, no_argument, function, literal, function_and_literal, source_argument,
  OperatorInfo, find_operator_info_by_name,
}
use functional_c.Tools.Lexer.{comma, lparen, rparen, dot, semi, equal, arrow, ident, Lexer}
use functional_c.Tools.Lexer.Progress.{left_over}
use functional_c.Tools.Reader.{
  expected_subscribe, other_parameter, fail, Outcome, Parser, bind, pure, same_kind,
}
use functional_c.Tools.Reader.Ends.{
  Ensures, holds, rejects, Ensures-bind, Left, Ends, Left-mono, Shorter, Shorter→Left, advance-Ends,
  accept-Ends, expect-Shorter, expect_ident-Ends, expect_value-Ends, unless_closed-Ends,
  keyword-Ends, Ends-mono,
}
use functional_c.Tools.Parser.Sources.{parse_source}
use functional_c.Tools.Parser.Chains.{
  operator, end_operator, with_literal, operator_arguments, operator_of, parse_operator,
  parse_operators, more_operators, assign_form, lambda_form, parse_subscribe, piped, parse_chain,
}
use functional_c.Tools.Parser.Total.{close-Ends, again-Ends}
use functional_c.Tools.Parser.Total.Sources.{parse_source-Shorter}

end_operator-Ends : (n : ℕ) (op : OperatorAst) → Ends n (end_operator op)
unfolding end_operator
end_operator-Ends n op = close-Ends rparen (codes "')'") n op (cc)

-- What follows a read ends with no more than that read left.
then_end :
    {A : Type 0} (n : ℕ) {r : Outcome (A × Lexer)} (op : A → OperatorAst) (m : ℕ)
    → m < n
    → Ensures (Left m) r
    → Ensures (Left m) (bind r λ (a, l). end_operator (op a) l)
then_end n op m h e =
    Ensures-bind e
      λ (a, l) p. Left-mono (left_over l) m p (end_operator-Ends n (op a) l (omega arith))

operator_arguments-Ends :
    (n : ℕ) (parse : Parser SourceAst) (kind : OperatorKind) (argument : OperatorArgumentKind)
    → Ends n parse
    → Ends n (operator_arguments parse kind argument)
unfolding operator_arguments
operator_arguments-Ends n parse kind no_argument h lexer k =
    end_operator-Ends n (operator kind [] [] none false) lexer k
operator_arguments-Ends n parse kind function h lexer k =
    then_end n (λ symbol. operator kind symbol [] none false) (left_over lexer) k
      (expect_ident-Ends true 64 n lexer k)
operator_arguments-Ends n parse kind literal h lexer k =
    then_end n (λ extra. operator kind [] extra none true) (left_over lexer) k
      (expect_value-Ends 64 n lexer k)
operator_arguments-Ends zero parse kind function_and_literal h lexer k = absurd (omega arith)
operator_arguments-Ends (suc n) parse kind function_and_literal h lexer k =
    Ensures-bind (expect_ident-Ends true 64 (suc n) lexer k) λ (symbol, l) p.
      Left-mono (left_over l) (left_over lexer) p (
        accept-Ends comma n (with_literal kind symbol) (cc)
          (λ m le.
            unfold with_literal in
            then_end n (λ extra. operator kind symbol extra none true) (left_over m) le
              (expect_value-Ends 64 n m le))
          (unfold with_literal in end_operator-Ends (suc n) (operator kind symbol [] none false)) l
          (omega arith))
operator_arguments-Ends n parse kind source_argument h lexer k =
    then_end n (λ s. operator kind [] [] (some s) false) (left_over lexer) k (h lexer k)

operator_of-Ends :
    (n : ℕ) (parse : Parser SourceAst) (name : Text) (o : Option OperatorInfo)
    → Ends n parse
    → Ends n (operator_of parse name o)
unfolding operator_of
operator_of-Ends n parse name none h lexer k = rejects
operator_of-Ends n parse name (some info) h lexer k =
    operator_arguments-Ends n parse info.kind info.argument_kind h lexer k

parse_operator-Ends : (n : ℕ) → Ends n (parse_operator n)
unfolding parse_operator
parse_operator-Ends n lexer k = Ensures-bind (expect_ident-Ends false 64 n lexer k) λ (name, l₁) p₁.
    Ensures-bind (expect-Shorter lparen (codes "'('") (cc) l₁) λ (_, l₂) p₂.
      Left-mono (left_over l₂) (left_over lexer) (omega arith) (
        operator_of-Ends n (parse_source n) name (find_operator_info_by_name name)
          (λ l le. Shorter→Left (left_over l) (parse_source-Shorter n l le)) l₂ (omega arith))

parse_operators-Ends :
    (n : ℕ) (parse : Parser OperatorAst) → Ends n parse → Ends n (parse_operators n parse)
unfolding parse_operators more_operators
parse_operators-Ends zero parse h lexer k = absurd (omega arith)
parse_operators-Ends (suc n) parse h lexer k = Ensures-bind (h lexer k) λ (op, l) p.
    Left-mono (left_over l) (left_over lexer) (omega arith) (
      again-Ends n (parse_operators n parse) (◌∷◌ op) (op ∷ [])
        (parse_operators-Ends n parse (Ends-mono n (suc n) (omega arith) h)) l (omega arith))

assign_form-Ends : (n : ℕ) → Ends n assign_form
unfolding assign_form
assign_form-Ends n lexer k = Ensures-bind (advance-Ends n lexer k) λ (_, l₁) p₁.
    Ensures-bind (expect-Shorter lparen (codes "'('") (cc) l₁) λ (_, l₂) p₂.
      Ensures-bind (expect_ident-Ends true 64 n l₂ (omega arith)) λ (target, l₃) p₃.
        Ensures-bind (expect-Shorter rparen (codes "')'") (cc) l₃) λ (_, l₄) p₄.
          Ensures-bind (expect-Shorter rparen (codes "')'") (cc) l₄) λ (_, l₅) p₅.
            Left-mono (left_over l₅) (left_over lexer) (omega arith)
              (close-Ends semi (codes "';'") n target (cc) l₅ (omega arith))

lambda_form-Ends : (n : ℕ) → Ends n lambda_form
unfolding lambda_form
lambda_form-Ends n lexer k =
    Ensures-bind (expect_ident-Ends false 32 n lexer k) λ (lambda_param, l₁) p₁.
      Ensures-bind (expect-Shorter arrow (codes "'=>'") (cc) l₁) λ (_, l₂) p₂.
        Ensures-bind (expect_ident-Ends true 64 n l₂ (omega arith)) λ (target, l₃) p₃.
          Ensures-bind (expect-Shorter equal (codes "'='") (cc) l₃) λ (_, l₄) p₄.
            Ensures-bind (expect_ident-Ends false 32 n l₄ (omega arith)) λ (assigned_from, l₅) p₅.
              Ensures-bind (compared (same_text lambda_param assigned_from) l₅) λ (_, l₆) p₆.
                Ensures-bind (expect-Shorter rparen (codes "')'") (cc) l₆) λ (_, l₇) p₇.
                  Left-mono (left_over l₇) (left_over lexer) (omega arith)
                    (close-Ends semi (codes "';'") n target (cc) l₇ (omega arith))
  where
    compared :
        (same : Bool) (l : Lexer)
        → Ensures (Left (left_over l)) ((if same then pure tt else fail other_parameter) l)
    compared true l = holds {a = (tt, l)} (omega arith)
    compared false l = rejects

parse_subscribe-Ends : (n : ℕ) → Ends n parse_subscribe
unfolding parse_subscribe
parse_subscribe-Ends n lexer k =
    Ensures-bind (expect-Shorter lparen (codes "'('") (cc) lexer) λ (_, l) p.
      Left-mono (left_over l) (left_over lexer) (omega arith)
        (elim (Bool-cases
          (same_kind l.current.kind ident && same_text l.current.text (codes "assign"))) [
            | inl h ↦ rw h (assign_form-Ends n l (omega arith))
            | inr h ↦ rw h (lambda_form-Ends n l (omega arith))
          ])

piped-Ends : (n : ℕ) (here : Bool) → Ends n (piped n here)
unfolding piped
piped-Ends n false lexer k = holds (omega arith)
piped-Ends n true lexer k = Ensures-bind (advance-Ends n lexer k) λ (_, l₁) p₁.
    Ensures-bind (expect-Shorter lparen (codes "'('") (cc) l₁) λ (_, l₂) p₂.
      Ensures-bind
        (unless_closed-Ends n [] (parse_operators n (parse_operator n))
          (parse_operators-Ends n (parse_operator n) (parse_operator-Ends n)) l₂ (omega arith))
        λ (ops, l₃) p₃.
          Left-mono (left_over l₃) (left_over lexer) (omega arith)
            (close-Ends dot (codes "'.'") n ops (cc) l₃ (omega arith))

-- A chain uses up at least one token.
pub parse_chain-Shorter :
    (n : ℕ) (lexer : Lexer)
    → left_over lexer < n
    → Ensures (Shorter (left_over lexer)) (parse_chain n lexer)
unfolding parse_chain
parse_chain-Shorter n lexer k = Ensures-bind (parse_source-Shorter n lexer k) λ (s, l₁) p₁.
    Ensures-bind (expect-Shorter dot (codes "'.'") (cc) l₁) λ (_, l₂) p₂.
      Ensures-bind (piped-Ends n (same_text l₂.current.text (codes "pipe")) l₂ (omega arith))
        λ (ops, l₃) p₃.
          Ensures-bind (keyword-Ends (codes "subscribe") expected_subscribe n l₃ (omega arith))
            λ (_, l₄) p₄. Ensures-bind (parse_subscribe-Ends n l₄ (omega arith)) λ (target, l₅) p₅.
              holds {a = (record { source = s; ops = ops; subscriber_target = target }, l₅)}
                (omega arith)
