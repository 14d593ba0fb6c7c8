-- ===== src/Planner/GraphOpt/Tests.antt =====
-- Concrete expressions of core/planner/graph_opt.c, and the theorems at them.
use functional_c.Prelude.Text.{Text, codes}
use functional_c.Prelude.{◌≡◌, refl, false, some, suc}
use functional_c.Prelude.Int.{ℤ, pos, ◌+ℤ◌, ◌-ℤ◌, ◌*ℤ◌}
use functional_c.Planner.GraphOpt.{
  Expr, const, var, node, add, sub, mul, div, rx_simplify_expr, rx_expr_uses_named_var,
}
use functional_c.Planner.GraphOpt.Meaning.{
  eval, AvoidsDifference, eval-rx_simplify_expr, eval-difference,
}
use functional_c.Planner.GraphOpt.Shape.{rx_simplify_expr-const}

abbrev tens : Text → ℤ
tens name = pos 10

-- ((x + 2) - 5) * 1
abbrev shifted : Expr
shifted =
    node mul (node sub (node add (var (codes "x")) (const (pos 2))) (const (pos 5))) (const (pos 1))

simplified : rx_simplify_expr shifted ≡ node sub (var (codes "x")) (const (pos 3))
unfolding rx_simplify_expr ◌-ℤ◌
simplified = refl

shifted-AvoidsDifference : AvoidsDifference shifted
unfolding rx_simplify_expr ◌-ℤ◌
shifted-AvoidsDifference = (refl, (refl, (refl, tt, tt), tt), tt)

shifted-value : eval tens shifted ≡ some (pos 7)
unfolding eval ◌+ℤ◌ ◌-ℤ◌ ◌*ℤ◌
shifted-value = refl

eval-rx_simplify_expr_example : eval tens (rx_simplify_expr shifted) ≡ some (pos 7)
eval-rx_simplify_expr_example =
    eval-rx_simplify_expr tens shifted (pos 7) shifted-AvoidsDifference shifted-value

eval-difference_example :
    eval tens (
      rx_simplify_expr
        (node add (node sub (var (codes "x")) (const (pos (suc 2)))) (const (pos (suc 3)))))
    ≡ some (tens (codes "x") +ℤ pos (suc 2) +ℤ pos (suc 3))
eval-difference_example = eval-difference tens (codes "x") 2 3

-- (7 / 2) * 5
abbrev closed : Expr
closed = node mul (node div (const (pos 7)) (const (pos 2))) (const (pos 5))

rx_simplify_expr-const_example : (c : ℤ) × (rx_simplify_expr closed ≡ const c)
rx_simplify_expr-const_example = rx_simplify_expr-const closed ((tt, tt), tt)

shifted-no_accum : rx_expr_uses_named_var shifted (codes "accum") ≡ false
unfolding rx_expr_uses_named_var
shifted-no_accum = refl
