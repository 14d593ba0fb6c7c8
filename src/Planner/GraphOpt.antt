-- ===== src/Planner/GraphOpt.antt =====
-- core/planner/graph_opt.c: the expressions of the graph optimiser, `rx_simplify_expr`, and what an
-- expression means. An `intptr_t` is an integer: an overflow is undefined in C and does not occur.
pub mod Meaning
pub mod Shape
pub mod Parse
pub mod Extract
pub mod LoopBody
mod Tests
use functional_c.Prelude.{
  ℕ, zero, suc, ◌+◌, ◌-◌, ◌*◌, ◌/◌, Bool, true, false, ◌&&◌, ◌||◌, Option, none, some, ltb, leb,
  ◌==◌, if◌then◌else◌,
}
use functional_c.Prelude.Text.{Text, same_text}
use functional_c.Prelude.Int.{ℤ, pos, negsuc, ◌+ℤ◌, ◌-ℤ◌, ◌*ℤ◌, ltb_ℤ}

-- `RxExprKind` without the leaves.
pub data Kind : Type 0 where
  add sub mul div lt eq : Kind

-- `RxExpr`: an operator node has both operands (the parser refuses one without).
pub data Expr : Type 0 where
  const : ℤ → Expr
  var : Text → Expr
  node : Kind → Expr → Expr → Expr

abbrev pub neg : ℕ → ℤ
neg zero = pos zero
neg (suc n) = negsuc n

-- C's `/`, which rounds towards zero.
pub div_ℤ : ℤ → ℤ → ℤ
div_ℤ (pos a) (pos b) = pos (a / b)
div_ℤ (pos a) (negsuc b) = neg (a / suc b)
div_ℤ (negsuc a) (pos b) = neg (suc a / b)
div_ℤ (negsuc a) (negsuc b) = pos (suc a / suc b)

abbrev pub eq_ℤ : ℤ → ℤ → Bool
eq_ℤ (pos a) (pos b) = a == b
eq_ℤ (pos a) (negsuc b) = false
eq_ℤ (negsuc a) (pos b) = false
eq_ℤ (negsuc a) (negsuc b) = a == b

abbrev pub truth : Bool → ℤ
truth true = pos 1
truth false = pos 0

-- The value that two constants are folded to; a division by 0 folds to 0.
pub fold_constants : Kind → ℤ → ℤ → ℤ
unfolding div_ℤ
fold_constants add a b = a +ℤ b
fold_constants sub a b = a -ℤ b
fold_constants mul a b = a *ℤ b
fold_constants div a b = if eq_ℤ b (pos 0) then pos 0 else div_ℤ a b
fold_constants lt a b = truth (ltb_ℤ a b)
fold_constants eq a b = truth (eq_ℤ a b)

-- `base` with an offset that is not 0, as a sum or a difference.
rebase : Expr → ℤ → Expr
rebase base (pos zero) = base
rebase base (pos (suc n)) = node add base (const (pos (suc n)))
rebase base (negsuc n) = node sub base (const (pos (suc n)))

abbrev pub shifted_by : Kind → ℤ → ℤ → ℤ
shifted_by add d c = d +ℤ c
shifted_by _ d c = d -ℤ c

-- A sum or difference with a constant on the right, over a sum or difference with a constant on the
-- right. As in the source, the inner constant counts with its sign as it stands, also under `sub`.
merge : Kind → Expr → ℤ → Expr
unfolding rebase
merge k (node add base (const d)) c = rebase base (shifted_by k d c)
merge k (node sub base (const d)) c = rebase base (shifted_by k d c)
merge k l c = node k l (const c)

shift : Kind → Expr → ℤ → Expr
unfolding merge
shift k l c = if eq_ℤ c (pos 0) then l else merge k l c

unit_right : Kind → Expr → ℤ → Expr
unit_right k l c = if eq_ℤ c (pos 1) then l else node k l (const c)

-- What `rx_simplify_expr` does to a node whose operands are simplified.
pub combine : Kind → Expr → Expr → Expr
unfolding fold_constants shift unit_right
combine k (const a) (const b) = const (fold_constants k a b)
combine add l (const c) = shift add l c
combine sub l (const c) = shift sub l c
combine mul l (const c) = unit_right mul l c
combine div l (const c) = unit_right div l c
combine k l r = node k l r

pub rx_simplify_expr : Expr → Expr
unfolding combine
rx_simplify_expr (const c) = const c
rx_simplify_expr (var x) = var x
rx_simplify_expr (node k l r) = combine k (rx_simplify_expr l) (rx_simplify_expr r)

pub rx_expr_is_named_var : Expr → Text → Bool
rx_expr_is_named_var (var x) name = same_text x name
rx_expr_is_named_var _ name = false

pub rx_expr_uses_named_var : Expr → Text → Bool
unfolding rx_expr_is_named_var
rx_expr_uses_named_var (const c) name = false
rx_expr_uses_named_var (var x) name = rx_expr_is_named_var (var x) name
rx_expr_uses_named_var (node k l r) name =
    rx_expr_uses_named_var l name || rx_expr_uses_named_var r name
