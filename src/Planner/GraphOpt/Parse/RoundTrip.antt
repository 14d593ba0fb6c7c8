-- ===== src/Planner/GraphOpt/Parse/RoundTrip.antt =====
-- core/planner/graph_opt.c: an expression that was emitted is parsed back, with the arguments put in
-- place of the parameters.
use functional_c.Prelude.{
  ℕ, zero, suc, ◌+◌, ◌≤◌, ◌≡◌, refl, ap, sym, ◌∙◌, true, some, [], ◌∷◌, ◌++◌, arith, length,
  length-append, append_assoc, append-nil,
}
use functional_c.Prelude.Text.{Text}
use functional_c.Prelude.Int.{pos, negsuc}
use functional_c.Planner.GraphOpt.{Kind, add, Expr, const, var, node, rx_simplify_expr}
use functional_c.Planner.GraphOpt.Parse.{
  is_ident_char, rx_skip_space, rx_consume, strip_prefix, Names, resolve, parsed, then_parse,
  Reader, closed_by, rx_parse_primary, operands, rx_parse_mul, rx_parse_add, compared,
  rx_parse_expr_cmp, parse_expression, print_int, operator, rx_emit_expr, whole_text, at_end,
}
use functional_c.Planner.GraphOpt.Parse.Decimal.{InRange, digits-head}
use functional_c.Planner.GraphOpt.Parse.Leaves.{IsName, ends, primary-const, primary-var}

-- The expression with every variable replaced by what it stands for.
unfoldable pub substitute : Names → Expr → Expr
substitute names (const c) = const c
substitute names (var x) = resolve names x
substitute names (node k l r) = node k (substitute names l) (substitute names r)

-- The variables are identifiers, and the constants fit a `long long`.
abbrev pub IsPrintable : Expr → Type 0
IsPrintable (const c) = InRange c
IsPrintable (var x) = IsName x
IsPrintable (node k l r) = IsPrintable l × IsPrintable r

rx_parse_primary-bracket :
    (names : Names) (inner : Reader) (s : Text)
    → rx_parse_primary names inner (b'(' ∷ s)
      ≡ then_parse (inner s) (λ e rest. closed_by e (rx_consume (b')' ∷ []) rest))
unfolding rx_parse_primary rx_consume strip_prefix rx_skip_space
rx_parse_primary-bracket names inner s = refl

rx_parse_primary-space :
    (names : Names) (inner : Reader) (s : Text)
    → rx_parse_primary names inner (b' ' ∷ s) ≡ rx_parse_primary names inner s
unfolding rx_parse_primary rx_skip_space
rx_parse_primary-space names inner s = refl

-- One operator between two operands that `operand` reads, and a closing bracket behind.
sum_of : ℕ → Reader → Reader
sum_of fuel primary = rx_parse_add fuel (rx_parse_mul fuel primary)

one_operator :
    (fuel : ℕ) (primary : Reader) (k : Kind) (l r : Expr) (left right rest : Text)
    → ((t : Text) → ends t ≡ true → primary (left ++ t) ≡ parsed l t)
    → ((t : Text) → ends t ≡ true → primary (b' ' ∷ (right ++ t)) ≡ parsed r t)
    → then_parse
        (sum_of
          (suc (suc fuel))
          primary
          (left ++ (b' ' ∷ (operator k ++ (b' ' ∷ (right ++ (b')' ∷ rest)))))))
        (compared (sum_of (suc (suc fuel)) primary))
      ≡ parsed (node k l r) (b')' ∷ rest)
unfolding sum_of rx_parse_add rx_parse_mul operands compared operator rx_consume strip_prefix
    rx_skip_space is_ident_char
one_operator fuel primary add l r left right rest hl hr =
    rw (hl (b' ' ∷ (operator add ++ (b' ' ∷ (right ++ (b')' ∷ rest))))) refl)
      (rw (hr (b')' ∷ rest) refl) refl)
one_operator fuel primary k l r left right rest hl hr =
    rw (hl (b' ' ∷ (operator k ++ (b' ' ∷ (right ++ (b')' ∷ rest))))) refl)
      (rw (hr (b')' ∷ rest) refl) refl)

emit-node :
    (k : Kind) (l r : Expr) (rest : Text)
    → rx_emit_expr (node k l r) ++ rest
      ≡ b'('
        ∷ (rx_emit_expr l ++ (b' ' ∷ (operator k ++ (b' ' ∷ (rx_emit_expr r ++ (b')' ∷ rest))))))
unfolding rx_emit_expr
emit-node k l r rest = simp append_assoc

operator-length : (k : Kind) → 1 ≤ length (operator k)
unfolding operator
operator-length add = omega arith
operator-length k = omega arith

length-emit_node :
    (k : Kind) (l r : Expr)
    → length (rx_emit_expr l) + length (rx_emit_expr r) + 5 ≤ length (rx_emit_expr (node k l r))
unfolding rx_emit_expr
length-emit_node k l r =
    let some_operator = operator-length k in
    rw (length-append, length-append, length-append) (omega arith)

-- Behind an opening bracket: a node whose operands are read, up to the closing bracket.
primary-node :
    (names : Names) (fuel : ℕ) (k : Kind) (l r left right : Expr) (rest : Text)
    → ((t : Text)
        → ends t ≡ true
        → rx_parse_primary names (rx_parse_expr_cmp (suc (suc fuel)) names) (rx_emit_expr l ++ t)
          ≡ parsed left t)
    → ((t : Text)
        → ends t ≡ true
        → rx_parse_primary names (rx_parse_expr_cmp (suc (suc fuel)) names) (rx_emit_expr r ++ t)
          ≡ parsed right t)
    → rx_parse_primary names
        (rx_parse_expr_cmp (suc (suc (suc fuel))) names)
        (rx_emit_expr (node k l r) ++ rest)
      ≡ parsed (node k left right) rest
unfolding rx_parse_expr_cmp sum_of rx_consume strip_prefix rx_skip_space closed_by
primary-node names fuel k l r left right rest hl hr =
    let inner = rx_parse_expr_cmp (suc (suc fuel)) names in
    let cursor =
      rx_emit_expr l ++ (b' ' ∷ (operator k ++ (b' ' ∷ (rx_emit_expr r ++ (b')' ∷ rest))))) in
    let run =
      one_operator fuel (rx_parse_primary names inner) k left right (rx_emit_expr l)
        (rx_emit_expr r) rest hl
        (λ t h. rx_parse_primary-space names inner (rx_emit_expr r ++ t) ∙ hr t h) in
    ap (rx_parse_primary names (rx_parse_expr_cmp (suc (suc (suc fuel))) names))
      (emit-node k l r rest)
    ∙ rx_parse_primary-bracket names (rx_parse_expr_cmp (suc (suc (suc fuel))) names) cursor
    ∙ ap (λ p. then_parse p (λ e s. closed_by e (rx_consume (b')' ∷ []) s))) run

pub primary-emit :
    (names : Names) (e : Expr) (fuel : ℕ) (rest : Text)
    → IsPrintable e
    → length (rx_emit_expr e) ≤ fuel
    → ends rest ≡ true
    → rx_parse_primary names (rx_parse_expr_cmp fuel names) (rx_emit_expr e ++ rest)
      ≡ parsed (substitute names e) rest
unfolding rx_emit_expr substitute
primary-emit names (const c) fuel rest p h k =
    primary-const names (rx_parse_expr_cmp fuel names) c rest p k
primary-emit names (var x) fuel rest p h k =
    primary-var names (rx_parse_expr_cmp fuel names) x rest p k
primary-emit names (node k l r) (suc (suc (suc fuel))) rest p h end =
    let size = length-emit_node k l r in
    primary-node names fuel k l r (substitute names l) (substitute names r) rest
      (λ t stop. primary-emit names l (suc (suc fuel)) t p.0 (omega arith) stop)
      (λ t stop. primary-emit names r (suc (suc fuel)) t p.1 (omega arith) stop)
primary-emit names (node k l r) fuel rest p h end =
    let size = length-emit_node k l r in absurd (omega arith)

-- One operand up to the end of the text.
lone_operand :
    (fuel : ℕ) (primary : Reader) (e : Expr) (s : Text)
    → primary s ≡ parsed e []
    → then_parse (sum_of (suc fuel) primary s) (compared (sum_of (suc fuel) primary)) ≡ parsed e []
unfolding sum_of rx_parse_add rx_parse_mul operands compared rx_consume strip_prefix rx_skip_space
lone_operand fuel primary e s h = rw h refl

emit-is_not_empty : (e : Expr) → IsPrintable e → 1 ≤ length (rx_emit_expr e)
unfolding rx_emit_expr print_int
emit-is_not_empty (const (pos n)) p =
    let (c, t, e, d) = digits-head n n [] in rw (ap length e) (omega arith)
emit-is_not_empty (const (negsuc n)) p = omega arith
emit-is_not_empty (var []) p = absurd p
emit-is_not_empty (var (c ∷ s)) p = omega arith
emit-is_not_empty (node k l r) p = omega arith

parse_expr-emit :
    (names : Names) (e : Expr) (n : ℕ)
    → IsPrintable e
    → length (rx_emit_expr e) ≤ n
    → rx_parse_expr_cmp (suc n) names (rx_emit_expr e) ≡ parsed (substitute names e) []
unfolding rx_parse_expr_cmp sum_of
parse_expr-emit names e zero p h = let some_text = emit-is_not_empty e p in absurd (omega arith)
parse_expr-emit names e (suc n) p h =
    lone_operand n (rx_parse_primary names (rx_parse_expr_cmp (suc n) names)) (substitute names e)
      (rx_emit_expr e)
      (ap (rx_parse_primary names (rx_parse_expr_cmp (suc n) names))
          (sym (append-nil (rx_emit_expr e)))
        ∙ primary-emit names e (suc n) [] p h refl)

-- The text of an expression whose variables are identifiers and whose constants fit a `long long` is
-- parsed to the simplified expression with every variable replaced by what it stands for.
pub parse_expression-emit :
    (names : Names) (e : Expr)
    → IsPrintable e
    → parse_expression names (rx_emit_expr e) ≡ some (rx_simplify_expr (substitute names e))
unfolding parse_expression whole_text at_end rx_skip_space
parse_expression-emit names e p =
    rw (parse_expr-emit names e (suc (length (rx_emit_expr e))) p (omega arith)) refl
