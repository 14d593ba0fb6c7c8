-- ===== src/Planner/GraphOpt/LoopBody/Run.antt =====
-- core/planner/graph_opt.c: what the emitted lines do when the C program runs them, on the values of
-- its variables. A bool is 0 or 1, and a division by 0 has no result.
use functional_c.Prelude.{
  ◌>>=◌, ◌≡◌, refl, Bool, not, ◌&&◌, Option, none, some, List, [], ◌∷◌, ◌++◌, if◌then◌else◌,
}
use functional_c.Prelude.Text.{Text, codes, same_text}
use functional_c.Prelude.Int.{ℤ, pos, ◌+ℤ◌, ltb_ℤ}
use functional_c.Planner.GraphOpt.{eq_ℤ}
use functional_c.Planner.GraphOpt.Meaning.{eval}
use functional_c.Planner.GraphOpt.LoopBody.{
  Line, declare, assign, set_true, increment, continue_unless, break_unless, break_from, flag_from,
  skip_below, continue_if_same, continue_until_passed, flag, break_if_flagged,
}

abbrev pub Variables : Type 0
Variables = Text → ℤ

abbrev pub with_value : Variables → Text → ℤ → Variables
with_value env x v y = if same_text y x then v else env y

-- How a line, or a round of the loop, ends.
pub data Outcome : Type 0 where
  fell continued broke : Variables → Outcome

abbrev is_set : Variables → Text → Bool
is_set env x = not (eq_ℤ (env x) (pos 0))

abbrev at_least : Variables → Text → ℤ → Bool
at_least env x n = not (ltb_ℤ (env x) n)

unfoldable pub run_line : Line → Variables → Option Outcome
unfolding eval ◌+ℤ◌
run_line (declare x e) env = do v ← eval env e; some (fell (with_value env x v))
run_line (assign x e) env = do v ← eval env e; some (fell (with_value env x v))
run_line (set_true x) env = some (fell (with_value env x (pos 1)))
run_line (increment x) env = some (fell (with_value env x (env x +ℤ pos 1)))
run_line (continue_unless e) env = do
  v ← eval env e
  some (if eq_ℤ v (pos 0) then continued env else fell env)
run_line (break_unless e) env = do
  v ← eval env e
  some (if eq_ℤ v (pos 0) then broke env else fell env)
run_line (break_from x n) env = some (if at_least env x n then broke env else fell env)
run_line (flag_from x n) env =
    some (fell (if at_least env x n then with_value env (codes "should_break") (pos 1) else env))
run_line (skip_below x n) env =
    some (if ltb_ℤ (env x) n then continued (with_value env x (env x +ℤ pos 1)) else fell env)
run_line (continue_if_same has last) env =
    some (if is_set env has && eq_ℤ (env (codes "key")) (env last) then continued env else fell env)
run_line (continue_until_passed passed e) env =
    let tested : Option Outcome = (do
      v ← eval env e
      some (if eq_ℤ v (pos 0) then fell env else continued env)) in
    if is_set env passed then some (fell env) else tested
run_line flag env = some (fell (with_value env (codes "should_break") (pos 1)))
run_line break_if_flagged env =
    some (if is_set env (codes "should_break") then broke env else fell env)

abbrev pub after : Option Outcome → (Variables → Option Outcome) → Option Outcome
after none k = none
after (some (fell env)) k = k env
after (some (continued env)) k = some (continued env)
after (some (broke env)) k = some (broke env)

unfoldable pub run_lines : List Line → Variables → Option Outcome
unfolding run_line
run_lines [] env = some (fell env)
run_lines (l ∷ ls) env = after (run_line l env) (run_lines ls)

pub run_lines-append :
    (ls ms : List Line) (env : Variables)
    → run_lines (ls ++ ms) env ≡ after (run_lines ls env) (run_lines ms)
unfolding run_lines
run_lines-append [] ms env = refl
run_lines-append (l ∷ ls) ms env =
    elim (run_line l env)
      as (λ o. after o (run_lines (ls ++ ms)) ≡ after (after o (run_lines ls)) (run_lines ms)) [
        | none ↦ refl
        | some (fell env') ↦ run_lines-append ls ms env'
        | some (continued env') ↦ refl
        | some (broke env') ↦ refl
      ]
