-- ===== src/Planner/GraphOpt/Parse/Total.antt =====
-- core/planner/graph_opt.c: the parser ends on every text. Each loop and each bracket takes a
-- character, so that a fuel above the length of the text is enough.
use functional_c.Prelude.{ℕ, zero, suc, ◌+◌, ◌≤◌, Option, none, some, [], ◌∷◌, arith, length}
use functional_c.Prelude.Text.{Text}
use functional_c.Planner.GraphOpt.{Kind, add, sub, mul, div, lt, eq, Expr, node}
use functional_c.Planner.GraphOpt.Parse.{
  rx_skip_space, rx_consume, strip_prefix, ident_at, rx_parse_ident, starts_number, strtoll, Names,
  Parsed, parsed, failed, out_of_fuel, then_parse, Reader, closed_by, named, rx_parse_atom,
  primary_at, rx_parse_primary, joined, operands, rx_parse_mul, rx_parse_add, compared,
  rx_parse_expr_cmp,
}
use functional_c.Planner.GraphOpt.Parse.Lengths.{
  Within, Taken, Ends, length-skip_space, Taken-mono, rx_consume-Taken, Within-mono,
  rx_parse_atom-Within,
}

then_parse-Within :
    (m n : ℕ) (p : Parsed) (k : Expr → Text → Parsed)
    → Within m p
    → ((e : Expr) (rest : Text) → length rest ≤ m → Within n (k e rest))
    → Within n (then_parse p k)
then_parse-Within m n (parsed e rest) k w h = h e rest w
then_parse-Within m n failed k w h = tt
then_parse-Within m n out_of_fuel k w h = absurd w

closed_by-Within : (n : ℕ) (e : Expr) (o : Option Text) → Taken n o → Within n (closed_by e o)
unfolding closed_by
closed_by-Within n e none t = tt
closed_by-Within n e (some rest) t = omega arith

primary_at-Within :
    (n : ℕ) (names : Names) (inner : Reader) (s : Text) (o : Option Text)
    → Ends n inner
    → length s ≤ suc n
    → Taken (length s) o
    → Within (length s) (primary_at names inner s o)
unfolding primary_at
primary_at-Within n names inner s none h k t = rx_parse_atom-Within names s
primary_at-Within n names inner s (some r) h k t =
    then_parse-Within (length r) (length s) (inner r)
      (λ e rest. closed_by e (rx_consume (b')' ∷ []) rest)) (h r (omega arith))
      (λ e rest le. closed_by-Within (length s) e (rx_consume (b')' ∷ []) rest) (
        Taken-mono (length rest) (length s) (rx_consume (b')' ∷ []) rest) (omega arith)
          (rx_consume-Taken b')' [] rest)))

rx_parse_primary-Ends :
    (n : ℕ) (names : Names) (inner : Reader)
    → Ends n inner
    → Ends (suc n) (rx_parse_primary names inner)
unfolding rx_parse_primary
rx_parse_primary-Ends n names inner h s k =
    let skipped = length-skip_space s in
    Within-mono (length (rx_skip_space s)) (length s)
      (primary_at names inner (rx_skip_space s) (rx_consume (b'(' ∷ []) (rx_skip_space s))) skipped
      (primary_at-Within n names inner (rx_skip_space s) (rx_consume (b'(' ∷ []) (rx_skip_space s))
        h (omega arith) (rx_consume-Taken b'(' [] (rx_skip_space s)))

joined-Within :
    (n m : ℕ) (k : Kind) (operand : Reader) (e : Expr) (next : Expr → Reader) (otherwise : Parsed)
    (o : Option Text)
    → Ends m operand
    → n ≤ suc m
    → Taken n o
    → ((e' : Expr) (s : Text) → suc (length s) ≤ n → Within (length s) (next e' s))
    → Within n otherwise
    → Within n (joined k operand e next otherwise o)
unfolding joined
joined-Within n m k operand e next otherwise none h le t go w = w
joined-Within n m k operand e next otherwise (some r) h le t go w =
    then_parse-Within (length r) n (operand r) (λ rhs rest. next (node k e rhs) rest)
      (h r (omega arith))
      (λ rhs rest shorter.
        Within-mono (length rest) n (next (node k e rhs) rest) (omega arith)
          (go (node k e rhs) rest (omega arith)))

-- One turn of a loop whose next turns end on what is left.
operands-turn :
    (first second : ℕ) (k l : Kind) (fuel n : ℕ) (operand : Reader) (e : Expr) (s : Text)
    → Ends n operand
    → length s ≤ n
    → ((e' : Expr) (t : Text)
        → suc (length t) ≤ length s
        → Within (length t) (operands first second k l fuel operand e' t))
    → Within (length s) (operands first second k l (suc fuel) operand e s)
unfolding operands
operands-turn first second k l fuel n operand e s h size go =
    let next = operands first second k l fuel operand in
    let skipped = length-skip_space s in
    joined-Within (length s) n k operand e next
      (joined l operand e next (parsed e (rx_skip_space s))
        (rx_consume (second ∷ []) (rx_skip_space s)))
      (rx_consume (first ∷ []) s) h (omega arith) (rx_consume-Taken first [] s) go
      (joined-Within (length s) n l operand e next (parsed e (rx_skip_space s))
        (rx_consume (second ∷ []) (rx_skip_space s)) h (omega arith)
        (Taken-mono (length (rx_skip_space s)) (length s)
          (rx_consume (second ∷ []) (rx_skip_space s)) skipped
          (rx_consume-Taken second [] (rx_skip_space s)))
        go skipped)

operands-Ends :
    (first second : ℕ) (k l : Kind) (fuel n : ℕ) (operand : Reader) (e : Expr)
    → Ends n operand
    → suc n ≤ fuel
    → Ends n (operands first second k l fuel operand e)
operands-Ends first second k l zero n operand e h le s size = absurd (omega arith)
operands-Ends first second k l (suc fuel) n operand e h le s size =
    operands-turn first second k l fuel n operand e s h size (λ e' t shorter.
      operands-Ends first second k l fuel (length t) operand e' (λ u v. h u (omega arith))
        (omega arith) t (omega arith))

compared-Within :
    (n : ℕ) (operand : Reader) (e : Expr) → Ends n operand → Ends n (compared operand e)
unfolding compared
compared-Within n operand e h s size =
    let skipped = length-skip_space s in
    joined-Within (length s) n eq operand e parsed
      (joined lt operand e parsed (parsed e (rx_skip_space s))
        (rx_consume (b'<' ∷ []) (rx_skip_space s)))
      (rx_consume (b'=' ∷ b'=' ∷ []) s) h (omega arith) (rx_consume-Taken b'=' (b'=' ∷ []) s)
      (λ e' t shorter. omega arith)
      (joined-Within (length s) n lt operand e parsed (parsed e (rx_skip_space s))
        (rx_consume (b'<' ∷ []) (rx_skip_space s)) h (omega arith)
        (Taken-mono (length (rx_skip_space s)) (length s) (rx_consume (b'<' ∷ []) (rx_skip_space s))
          skipped (rx_consume-Taken b'<' [] (rx_skip_space s)))
        (λ e' t shorter. omega arith) skipped)

-- A reader and then another one, which goes on with the expression.
then_parse-Ends :
    (n : ℕ) (reader : Reader) (k : Expr → Reader)
    → Ends n reader
    → ((e : Expr) → Ends n (k e))
    → Ends n (λ s. then_parse (reader s) k)
then_parse-Ends n reader k h go s size =
    then_parse-Within (length s) (length s) (reader s) k (h s size)
      (λ e rest le. Within-mono (length rest) (length s) (k e rest) le (go e rest (omega arith)))

sum-Ends :
    (fuel n : ℕ) (primary : Reader)
    → Ends n primary
    → suc n ≤ fuel
    → Ends n (rx_parse_add fuel (rx_parse_mul fuel primary))
unfolding rx_parse_add rx_parse_mul
sum-Ends fuel n primary h le =
    let product =
      then_parse-Ends n primary (operands b'*' b'/' mul div fuel primary) h
        (λ e. operands-Ends b'*' b'/' mul div fuel n primary e h le) in
    then_parse-Ends n (rx_parse_mul fuel primary)
      (operands b'+' b'-' add sub fuel (rx_parse_mul fuel primary)) product
      (λ e. operands-Ends b'+' b'-' add sub fuel n (rx_parse_mul fuel primary) e product le)

bracket-Ends :
    (names : Names) (n fuel : ℕ)
    → Ends n (rx_parse_primary names (rx_parse_expr_cmp fuel names))
    → suc n ≤ fuel
    → Ends n (rx_parse_expr_cmp (suc fuel) names)
unfolding rx_parse_expr_cmp
bracket-Ends names n fuel h le =
    let primary = rx_parse_primary names (rx_parse_expr_cmp fuel names) in
    let sum = rx_parse_add fuel (rx_parse_mul fuel primary) in
    let end = sum-Ends fuel n primary h le in
    then_parse-Ends n sum (compared sum) end (λ e. compared-Within n sum e end)

primary-Ends_zero : (names : Names) (inner : Reader) → Ends 0 (rx_parse_primary names inner)
unfolding rx_parse_primary rx_parse_atom named rx_parse_ident ident_at rx_skip_space rx_consume
    strip_prefix strtoll starts_number primary_at
primary-Ends_zero names inner [] size = tt
primary-Ends_zero names inner (c ∷ s) size = absurd (omega arith)

rx_parse_expr_cmp-Ends :
    (names : Names) (n fuel : ℕ) → n + 2 ≤ fuel → Ends n (rx_parse_expr_cmp fuel names)
rx_parse_expr_cmp-Ends names n zero le = absurd (omega arith)
rx_parse_expr_cmp-Ends names zero (suc fuel) le =
    bracket-Ends names 0 fuel (primary-Ends_zero names (rx_parse_expr_cmp fuel names)) (omega arith)
rx_parse_expr_cmp-Ends names (suc n) (suc fuel) le =
    bracket-Ends names (suc n) fuel
      (rx_parse_primary-Ends n names (rx_parse_expr_cmp fuel names)
        (rx_parse_expr_cmp-Ends names n fuel (omega arith)))
      (omega arith)

-- With a fuel of at least two more than the length of the text, the parser never stops for want of
-- fuel: it finds an expression and leaves no more than the text, or it fails.
pub rx_parse_expr_cmp-Within :
    (names : Names) (text : Text) (fuel : ℕ)
    → length text + 2 ≤ fuel
    → Within (length text) (rx_parse_expr_cmp fuel names text)
rx_parse_expr_cmp-Within names text fuel le =
    rx_parse_expr_cmp-Ends names (length text) fuel le text (omega arith)
