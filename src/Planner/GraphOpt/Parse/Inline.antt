-- ===== src/Planner/GraphOpt/Parse/Inline.antt =====
-- core/planner/graph_opt.c: an expression computes the same value with the arguments in place of the
-- parameters, and simplified.
use functional_c.Prelude.{◌≡◌, refl, ◌∙◌, some}
use functional_c.Prelude.Text.{Text}
use functional_c.Prelude.Int.{ℤ}
use functional_c.Planner.GraphOpt.{Expr, const, var, node, rx_simplify_expr}
use functional_c.Planner.GraphOpt.Meaning.{eval, AvoidsDifference, eval-rx_simplify_expr}
use functional_c.Planner.GraphOpt.Parse.{Names, resolve}
use functional_c.Planner.GraphOpt.Parse.RoundTrip.{substitute}

-- The variables of the body have the values of what stands in their place.
eval-substitute :
    (outer inner : Text → ℤ) (names : Names) (e : Expr)
    → ((x : Text) → eval outer (resolve names x) ≡ some (inner x))
    → eval outer (substitute names e) ≡ eval inner e
unfolding eval substitute
eval-substitute outer inner names (const c) h = refl
eval-substitute outer inner names (var x) h = h x
eval-substitute outer inner names (node k l r) h =
    rw (eval-substitute outer inner names l h, eval-substitute outer inner names r h) refl

pub eval-inlined :
    (outer inner : Text → ℤ) (names : Names) (body : Expr) (v : ℤ)
    → AvoidsDifference (substitute names body)
    → ((x : Text) → eval outer (resolve names x) ≡ some (inner x))
    → eval inner body ≡ some v
    → eval outer (rx_simplify_expr (substitute names body)) ≡ some v
eval-inlined outer inner names body v avoids h value =
    eval-rx_simplify_expr outer (substitute names body) v avoids
      (eval-substitute outer inner names body h ∙ value)
