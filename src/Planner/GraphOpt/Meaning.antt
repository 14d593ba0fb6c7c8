-- ===== src/Planner/GraphOpt/Meaning.antt =====
-- core/planner/graph_opt.c: what an expression computes, and that simplifying it keeps that, except
-- in one shape, where it does not.
use functional_c.Prelude.{
  ◌>>=◌, ℕ, zero, suc, ◌/◌, ◌≡◌, refl, ap, sym, ◌∙◌, Bool, true, false, Bool-cases, inl, inr,
  Option, none, some, if◌then◌else◌, arith,
}
use functional_c.Prelude.Text.{Text}
use functional_c.Prelude.Int.{ℤ, pos, negsuc, ◌+ℤ◌, ◌-ℤ◌, ◌*ℤ◌, int_laws}
use functional_c.Planner.GraphOpt.{
  Kind, add, sub, mul, div, Expr, const, var, node, neg, div_ℤ, eq_ℤ, fold_constants, rebase, merge,
  shift, unit_right, combine, rx_simplify_expr,
}

-- The value of an operator of the emitted C code; a division by 0 has none.
abbrev pub operate : Kind → ℤ → ℤ → Option ℤ
operate div a b = if eq_ℤ b (pos 0) then none else some (div_ℤ a b)
operate k a b = some (fold_constants k a b)

unfoldable pub eval : (Text → ℤ) → Expr → Option ℤ
unfolding fold_constants
eval env (const c) = some c
eval env (var x) = some (env x)
eval env (node k l r) = do operate k (← eval env l) (← eval env r)

-- The shape that the optimiser gets wrong: a constant added to, or taken from, a difference with a
-- constant.
abbrev pub over_difference : Kind → Expr → Expr → Bool
over_difference add (node sub base (const d)) (const c) = true
over_difference sub (node sub base (const d)) (const c) = true
over_difference k l r = false

-- The shape occurs at no node once its operands are simplified.
abbrev pub AvoidsDifference : Expr → Type 0
AvoidsDifference (const c) = Unit
AvoidsDifference (var x) = Unit
AvoidsDifference (node k l r) =
    (over_difference k (rx_simplify_expr l) (rx_simplify_expr r) ≡ false)
    × AvoidsDifference l
    × AvoidsDifference r

eq_ℤ→≡ : (a b : ℤ) → eq_ℤ a b ≡ true → a ≡ b
eq_ℤ→≡ a b h = ground arith

div_one : (a : ℕ) → a / 1 ≡ a
div_one a = omega arith

div_ℤ-one : (a : ℤ) → div_ℤ a (pos 1) ≡ a
unfolding div_ℤ
div_ℤ-one (pos a) = ap pos (div_one a)
div_ℤ-one (negsuc a) = ap neg (div_one (suc a))

mul-one_ℤ : (a : ℤ) → a *ℤ pos 1 ≡ a
unfolding ◌*ℤ◌
mul-one_ℤ a = ground arith

add-zero_ℤ : (a : ℤ) → a +ℤ pos 0 ≡ a
add-zero_ℤ a = omega int_laws

sub-zero_ℤ : (a : ℤ) → a -ℤ pos 0 ≡ a
sub-zero_ℤ a = omega int_laws

regroup_add : (a d c : ℤ) → a +ℤ (d +ℤ c) ≡ a +ℤ d +ℤ c
regroup_add a d c = omega int_laws

regroup_sub : (a d c : ℤ) → a +ℤ (d -ℤ c) ≡ a +ℤ d -ℤ c
regroup_sub a d c = omega int_laws

sub-negsuc : (a : ℤ) (n : ℕ) → a -ℤ pos (suc n) ≡ a +ℤ negsuc n
sub-negsuc a n = omega int_laws

operate-fold_constants : (k : Kind) (a b v : ℤ) → operate k a b ≡ some v → fold_constants k a b ≡ v
unfolding fold_constants
operate-fold_constants div a b v e = ground arith
operate-fold_constants _ a b v e = ground arith

-- Mapping the value of an option.
bind_same :
    (o : Option ℤ) (g h : ℤ → ℤ)
    → ((a : ℤ) → g a ≡ h a)
    → (o >>= λ a. some (g a)) ≡ (o >>= λ a. some (h a))
bind_same none g h e = refl
bind_same (some a) g h e = ap some (e a)

bind_unit : (o : Option ℤ) (g : ℤ → ℤ) → ((a : ℤ) → g a ≡ a) → (o >>= λ a. some (g a)) ≡ o
bind_unit none g e = refl
bind_unit (some a) g e = ap some (e a)

bind_twice :
    (o : Option ℤ) (g h : ℤ → ℤ)
    → (o >>= (λ a. some (g a)) >>= λ a. some (h a)) ≡ (o >>= λ a. some (h (g a)))
bind_twice none g h = refl
bind_twice (some a) g h = refl

both :
    (o p : Option ℤ) (k : Kind) (v : ℤ)
    → (o >>= λ a. p >>= λ b. operate k a b) ≡ some v
    → (a b : ℤ) × (o ≡ some a) × (p ≡ some b) × (operate k a b ≡ some v)
both none p k v e = cc
both (some a) none k v e = cc
both (some a) (some b) k v e = (a, b, refl, refl, e)

pos_suc : (n : ℕ) → eq_ℤ (pos (suc n)) (pos 0) ≡ false
pos_suc n = ground arith

shift-difference :
    (x : Text) (d c : ℕ)
    → combine add (combine sub (var x) (const (pos (suc d)))) (const (pos (suc c)))
      ≡ rebase (var x) (pos (suc d) +ℤ pos (suc c))
unfolding combine shift merge
shift-difference x d c = rw (pos_suc d) (rw (pos_suc c) refl)

module _ (env : Text → ℤ) where
  eval-rebase :
      (base : Expr) (o : ℤ) → eval env (rebase base o) ≡ (eval env base >>= λ a. some (a +ℤ o))
  unfolding eval rebase fold_constants
  eval-rebase base (pos zero) = sym (bind_unit (eval env base) (λ a. a +ℤ pos 0) add-zero_ℤ)
  eval-rebase base (pos (suc n)) = refl
  eval-rebase base (negsuc n) =
      bind_same (eval env base) (λ a. a -ℤ pos (suc n)) (λ a. a +ℤ negsuc n) (λ a. sub-negsuc a n)

  eval-merge_add :
      (l : Expr) (c : ℤ)
      → over_difference add l (const c) ≡ false
      → eval env (merge add l c) ≡ eval env (node add l (const c))
  unfolding merge eval fold_constants
  eval-merge_add (node add base (const d)) c h =
      eval-rebase base (d +ℤ c)
      ∙ bind_same (eval env base) _ (λ a. a +ℤ d +ℤ c) (λ a. regroup_add a d c)
      ∙ sym (bind_twice (eval env base) (λ a. a +ℤ d) (λ a. a +ℤ c))
  eval-merge_add (node sub base (const d)) c h = cc
  eval-merge_add l c h = refl

  eval-merge_sub :
      (l : Expr) (c : ℤ)
      → over_difference sub l (const c) ≡ false
      → eval env (merge sub l c) ≡ eval env (node sub l (const c))
  unfolding merge eval fold_constants
  eval-merge_sub (node add base (const d)) c h =
      eval-rebase base (d -ℤ c)
      ∙ bind_same (eval env base) _ (λ a. a +ℤ d -ℤ c) (λ a. regroup_sub a d c)
      ∙ sym (bind_twice (eval env base) (λ a. a +ℤ d) (λ a. a -ℤ c))
  eval-merge_sub (node sub base (const d)) c h = cc
  eval-merge_sub l c h = refl

  eval-shift_add :
      (l : Expr) (c : ℤ)
      → over_difference add l (const c) ≡ false
      → eval env (shift add l c) ≡ eval env (node add l (const c))
  unfolding shift eval fold_constants
  eval-shift_add l c h = elim (Bool-cases (eq_ℤ c (pos 0))) [
    | inl e ↦ rw (e, eq_ℤ→≡ c (pos 0) e) (sym (bind_unit (eval env l) (λ a. a +ℤ pos 0) add-zero_ℤ))
    | inr e ↦ rw e (eval-merge_add l c h)
  ]

  eval-shift_sub :
      (l : Expr) (c : ℤ)
      → over_difference sub l (const c) ≡ false
      → eval env (shift sub l c) ≡ eval env (node sub l (const c))
  unfolding shift eval fold_constants
  eval-shift_sub l c h = elim (Bool-cases (eq_ℤ c (pos 0))) [
    | inl e ↦ rw (e, eq_ℤ→≡ c (pos 0) e) (sym (bind_unit (eval env l) (λ a. a -ℤ pos 0) sub-zero_ℤ))
    | inr e ↦ rw e (eval-merge_sub l c h)
  ]

  eval-unit_mul :
      (l : Expr) (c : ℤ) → eval env (unit_right mul l c) ≡ eval env (node mul l (const c))
  unfolding unit_right eval fold_constants
  eval-unit_mul l c = elim (Bool-cases (eq_ℤ c (pos 1))) [
    | inl e ↦ rw (e, eq_ℤ→≡ c (pos 1) e) (sym (bind_unit (eval env l) (λ a. a *ℤ pos 1) mul-one_ℤ))
    | inr e ↦ rw e refl
  ]

  eval-unit_div :
      (l : Expr) (c : ℤ) → eval env (unit_right div l c) ≡ eval env (node div l (const c))
  unfolding unit_right eval fold_constants
  eval-unit_div l c = elim (Bool-cases (eq_ℤ c (pos 1))) [
    | inl e ↦
        rw (e, eq_ℤ→≡ c (pos 1) e) (sym (bind_unit (eval env l) (λ a. div_ℤ a (pos 1)) div_ℤ-one))
    | inr e ↦ rw e refl
  ]

  eval-combine :
      (k : Kind) (l r : Expr) (v : ℤ)
      → over_difference k l r ≡ false
      → eval env (node k l r) ≡ some v
      → eval env (combine k l r) ≡ some v
  unfolding eval combine
  eval-combine k (const a) (const b) v h e = ap some (operate-fold_constants k a b v e)
  eval-combine add l (const c) v h e = eval-shift_add l c h ∙ e
  eval-combine sub l (const c) v h e = eval-shift_sub l c h ∙ e
  eval-combine mul l (const c) v h e = eval-unit_mul l c ∙ e
  eval-combine div l (const c) v h e = eval-unit_div l c ∙ e
  eval-combine k l r v h e = e

  operands :
      (k : Kind) (l r : Expr) (v : ℤ)
      → eval env (node k l r) ≡ some v
      → (a b : ℤ) × (eval env l ≡ some a) × (eval env r ≡ some b) × (operate k a b ≡ some v)
  unfolding eval
  operands k l r v e = both (eval env l) (eval env r) k v e

  eval-node :
      (k : Kind) (l r : Expr) (a b v : ℤ)
      → eval env l ≡ some a
      → eval env r ≡ some b
      → operate k a b ≡ some v
      → eval env (node k l r) ≡ some v
  unfolding eval
  eval-node k l r a b v p q e = rw (p, q) e

  -- Wherever an expression has a value, the simplified one has the same, if no node adds a constant
  -- to, or takes it from, a difference with a constant once its operands are simplified.
  pub eval-rx_simplify_expr :
      (e : Expr) (v : ℤ)
      → AvoidsDifference e
      → eval env e ≡ some v
      → eval env (rx_simplify_expr e) ≡ some v
  unfolding rx_simplify_expr
  eval-rx_simplify_expr (const c) v h e = e
  eval-rx_simplify_expr (var x) v h e = e
  eval-rx_simplify_expr (node k l r) v h e =
      let (a, b, el, er, op) = operands k l r v e in
      eval-combine k (rx_simplify_expr l) (rx_simplify_expr r) v h.0 (
        eval-node k (rx_simplify_expr l) (rx_simplify_expr r) a b v
          (eval-rx_simplify_expr l a h.1 el) (eval-rx_simplify_expr r b h.2 er) op)

  -- Where it does, the meaning changes: (x - d) + c becomes x + (d + c), for all d and c.
  pub eval-difference :
      (x : Text) (d c : ℕ)
      → eval env (
          rx_simplify_expr
            (node add (node sub (var x) (const (pos (suc d)))) (const (pos (suc c)))))
        ≡ some (env x +ℤ pos (suc d) +ℤ pos (suc c))
  unfolding eval rx_simplify_expr
  eval-difference x d c =
      ap (eval env) (shift-difference x d c)
      ∙ eval-rebase (var x) (pos (suc d) +ℤ pos (suc c))
      ∙ ap some (regroup_add (env x) (pos (suc d)) (pos (suc c)))
