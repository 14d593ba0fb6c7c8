-- ===== src/Planner/GraphOpt/Shape.antt =====
-- core/planner/graph_opt.c: what `rx_simplify_expr` does to the tree.
use functional_c.Prelude.{zero, suc, ◌≡◌, refl, ap₂, false, arith}
use functional_c.Prelude.Text.{Text}
use functional_c.Prelude.Int.{ℤ, pos, negsuc}
use functional_c.Planner.GraphOpt.{
  Kind, add, sub, mul, div, Expr, const, var, node, rebase, merge, shift, unit_right, combine,
  fold_constants, rx_simplify_expr, rx_expr_uses_named_var,
}

-- No variable stands in the expression.
abbrev pub IsClosed : Expr → Type 0
IsClosed (const c) = Unit
IsClosed (var x) = ⊥
IsClosed (node k l r) = IsClosed l × IsClosed r

-- An expression with no variable becomes one constant.
pub rx_simplify_expr-const : (e : Expr) → IsClosed e → (c : ℤ) × (rx_simplify_expr e ≡ const c)
unfolding rx_simplify_expr combine
rx_simplify_expr-const (const c) h = (c, refl)
rx_simplify_expr-const (var x) h = absurd h
rx_simplify_expr-const (node k l r) h =
    let (a, p) = rx_simplify_expr-const l h.0 in
    let (b, q) = rx_simplify_expr-const r h.1 in (fold_constants k a b, ap₂ (combine k) p q)

module _ (name : Text) where
  -- The first expression has no variable `name` unless the second has.
  abbrev NoMore : Expr → Expr → Type 0
  NoMore e f = rx_expr_uses_named_var f name ≡ false → rx_expr_uses_named_var e name ≡ false

  uses-rebase : (base : Expr) (o : ℤ) → NoMore (rebase base o) base
  unfolding rebase rx_expr_uses_named_var
  uses-rebase base (pos zero) h = h
  uses-rebase base (pos (suc n)) h = rw h
  uses-rebase base (negsuc n) h = rw h

  uses-merge : (k : Kind) (l : Expr) (c : ℤ) → NoMore (merge k l c) l
  unfolding merge rx_expr_uses_named_var
  uses-merge k (node add base (const d)) c h = uses-rebase base _ (ground arith)
  uses-merge k (node sub base (const d)) c h = uses-rebase base _ (ground arith)
  uses-merge k l c h = ground arith

  uses-combine : (k : Kind) (l r : Expr) → NoMore (combine k l r) (node k l r)
  unfolding combine shift unit_right rx_expr_uses_named_var
  uses-combine k (const a) (const b) h = refl
  uses-combine add l (const c) h = ground (arith, uses-merge add l c)
  uses-combine sub l (const c) h = ground (arith, uses-merge sub l c)
  uses-combine mul l (const c) h = ground arith
  uses-combine div l (const c) h = ground arith
  uses-combine k l r h = h

  -- A variable that does not stand in an expression does not stand in the simplified one.
  uses_named_var-rx_simplify_expr :
      (e : Expr)
      → rx_expr_uses_named_var e name ≡ false
      → rx_expr_uses_named_var (rx_simplify_expr e) name ≡ false
  unfolding rx_simplify_expr rx_expr_uses_named_var
  uses_named_var-rx_simplify_expr (const c) h = h
  uses_named_var-rx_simplify_expr (var x) h = h
  uses_named_var-rx_simplify_expr (node k l r) h =
      uses-combine k (rx_simplify_expr l) (rx_simplify_expr r)
        (ground (arith, uses_named_var-rx_simplify_expr l, uses_named_var-rx_simplify_expr r))
