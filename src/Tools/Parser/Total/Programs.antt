-- ===== src/Tools/Parser/Total/Programs.antt =====
-- core/tools/dsl_parser.c: the parser ends on every text.
use functional_c.Prelude.{
  ℕ, zero, suc, ◌<◌, ◌≢◌, ◌&&◌, Option, none, some, Bool-cases, inl, inr, arith, [], ◌∷◌, length,
}
use functional_c.Prelude.Text.{Text, codes, same_text}
use functional_c.Tools.Ast.{ProgramAst}
use functional_c.Tools.Lexer.{eof, ident, Lexer, lexer_next, lexer_init}
use functional_c.Tools.Lexer.Progress.{left_over, Leaves, lexer_next-Leaves}
use functional_c.Tools.Reader.{Outcome, Parser, ok, out_of_fuel, bind, same_kind}
use functional_c.Tools.Reader.Ends.{
  Ensures, holds, faults, Ensures-bind, Ensures-fuel, Left, Ends, Shorter,
}
use functional_c.Tools.Parser.Programs.{
  function_then, chain_then, parse_program, parse_from, parse_program_text,
}
use functional_c.Tools.Parser.Total.{parse_fn_def-Shorter}
use functional_c.Tools.Parser.Total.Chains.{parse_chain-Shorter}

-- One turn of the loop, and the rest of the program.
then_rest :
    {A : Type 0} (n m : ℕ) (next : Parser ProgramAst) {r : Outcome (A × Lexer)}
    (add : A → ProgramAst → ProgramAst)
    → m < suc n
    → Ends n next
    → Ensures (Shorter m) r
    → Ensures (Left m) (bind r λ (a, l). bind (next l) λ (rest, l'). ok (add a rest, l'))
then_rest n m next add k h e = Ensures-bind e λ (a, l) p.
    Ensures-bind (h l (omega arith)) λ (rest, l') q. holds {a = (add a rest, l')} (omega arith)

-- The loop ends: each function and each chain takes at least one token.
parse_program-Ends : (n : ℕ) → Ends n (parse_program n)
unfolding parse_program function_then chain_then
parse_program-Ends zero lexer k = absurd (omega arith)
parse_program-Ends (suc n) lexer k = elim (Bool-cases (same_kind lexer.current.kind eof)) [
  | inl h ↦ rw h (holds (omega arith))
  | inr h ↦
      rw h
        (elim (Bool-cases
          (same_kind lexer.current.kind ident && same_text lexer.current.text (codes "fn"))) [
            | inl fn ↦ rw fn (
                then_rest n (left_over lexer) (parse_program n)
                  (λ fn rest. record rest { functions = fn ∷ rest.functions }) k
                  (parse_program-Ends n) (parse_fn_def-Shorter (suc n) lexer k))
            | inr chain ↦ rw chain (
                then_rest n (left_over lexer) (parse_program n)
                  (λ chain rest. record rest { chains = chain ∷ rest.chains }) k
                  (parse_program-Ends n) (parse_chain-Shorter (suc n) lexer k))
          ])
]

parse_from-Ends :
    (n : ℕ) (o : Option Lexer) → Leaves n o → Ensures (λ program. Unit {0}) (parse_from (suc n) o)
unfolding parse_from
parse_from-Ends n none h = faults
parse_from-Ends n (some lexer) h =
    Ensures-bind (parse_program-Ends (suc n) lexer (omega arith)) λ (program, rest) p. holds tt

-- On every text the parser ends: the fuel that it is given is enough.
pub parse_program_text-fuel : (text : Text) → parse_program_text text ≢ out_of_fuel
unfolding parse_program_text lexer_init
parse_program_text-fuel text =
    let before : Lexer = record {
      left = text;
      pos = 0;
      current = record { kind = eof; text = []; start = 0; end = 0 };
    } in
    Ensures-fuel (parse_from-Ends (length text) (lexer_next before) (lexer_next-Leaves before))
