-- ===== src/Planner/GraphOpt/LoopBody/Passing.antt =====
-- core/planner/graph_opt.c: the lines for maps and filters compute what the functions do.
use functional_c.Prelude.{
  ◌>>=◌, ◌≡◌, refl, ap, sym, ◌∙◌, Bool, false, ◌||◌, Bool-cases, inl, inr, Option, none, some, List,
  [], ◌∷◌, ◌++◌, append-nil, append_assoc, if◌then◌else◌,
}
use functional_c.Prelude.Text.{Text, codes, same_text}
use functional_c.Prelude.Int.{ℤ}
use functional_c.Planner.Lower.{StateSlot, LoopOp, call_map, call_filter}
use functional_c.Planner.GraphOpt.{Expr, truth, rx_expr_is_named_var, rx_expr_uses_named_var}
use functional_c.Planner.GraphOpt.Meaning.{eval}
use functional_c.Planner.GraphOpt.LoopBody.{
  Line, declare, assign, continue_unless, Emission, rx_materialize_current_expr, call_op, with_raw,
  mapped, tested, then_lines, emit_op, emit_ops,
}
use functional_c.Planner.GraphOpt.LoopBody.Run.{
  Variables, with_value, fell, continued, run_lines, run_lines-append, after, run_line,
}

-- No variable but `value` is changed.
unfoldable pub Keeps : Variables → Variables → Type 0
Keeps env' env = (x : Text) → same_text x (codes "value") ≡ false → env' x ≡ env x

-- The lines end with the value in `current`.
unfoldable pub Computes : List Line → Expr → Variables → ℤ → Type 0
unfolding Keeps
Computes ls e env v =
    (env' : Variables) × (run_lines ls env ≡ some (fell env'))
    × (eval env' e ≡ some v)
    × Keeps env' env

materialized :
    (g : Emission)
    → (new : List Line) × ((rx_materialize_current_expr g).lines ≡ g.lines ++ new)
      × ((env : Variables) (v : ℤ)
          → eval env g.current ≡ some v
          → Computes new (rx_materialize_current_expr g).current env v)
unfolding rx_materialize_current_expr then_lines Computes run_lines run_line eval
materialized g = elim (Bool-cases (rx_expr_is_named_var g.current (codes "value"))) [
  | inl h ↦ rw h ([], sym (append-nil g.lines), λ env v e. (env, refl, e, λ x k. refl))
  | inr h ↦
      elim (Bool-cases (g.has_value_decl || rx_expr_uses_named_var g.current (codes "value"))) [
        | inl k ↦
            rw (h, k)
              (
                assign (codes "value") g.current ∷ [],
                refl,
                λ env v e.
                    (with_value env (codes "value") v, rw e refl, refl, λ x other. rw other refl),
              )
        | inr k ↦
            rw (h, k)
              (
                declare (codes "value") g.current ∷ [],
                refl,
                λ env v e.
                    (with_value env (codes "value") v, rw e refl, refl, λ x other. rw other refl),
              )
      ]
]

-- What the functions do: a map, or a filter.
pub data Step : Type 0 where
  map : (ℤ → ℤ) → Step
  filter : (ℤ → Bool) → Step

unfoldable pub run_step : Step → ℤ → Option ℤ
run_step (map f) v = some (f v)
run_step (filter p) v = if p v then some v else none

unfoldable pub run_steps : List Step → ℤ → Option ℤ
run_steps [] v = some v
run_steps (s ∷ ss) v = do w ← run_step s v; run_steps ss w

-- The operation's function, called with the value where it stands, is replaced by an expression that
-- computes what the step does.
unfoldable pub Called : Text → LoopOp → Step → Emission → Type 0
Called source op (map f) g =
    (op.kind ≡ call_map)
    × (e : Expr) × (call_op source op (with_raw g) ≡ some e)
    × ((env : Variables) (v : ℤ) → eval env g.current ≡ some v → eval env e ≡ some (f v))
Called source op (filter p) g =
    (op.kind ≡ call_filter)
    × (e : Expr) × (call_op source op (with_raw (rx_materialize_current_expr g)) ≡ some e)
    × ((env : Variables) (v : ℤ)
        → eval env (rx_materialize_current_expr g).current ≡ some v
        → eval env e ≡ some (truth (p v)))

-- The lines run to their end with the result in `current`, or a filter ends the round.
unfoldable pub Ran : Option ℤ → List Line → Expr → Variables → Type 0
unfolding Computes
Ran (some w) ls e env = Computes ls e env w
Ran none ls e env = (env' : Variables) × (run_lines ls env ≡ some (continued env')) × Keeps env' env

guarded :
    (p : ℤ → Bool) (before : List Line) (e c : Expr) (env : Variables) (v : ℤ)
    → Computes before c env v
    → ((env' : Variables) → eval env' c ≡ some v → eval env' e ≡ some (truth (p v)))
    → Ran (if p v then some v else none) (before ++ (continue_unless e ∷ [])) c env
unfolding Ran Computes run_lines run_line
guarded p before e c env v (env', run, value, same) means =
    let test = means env' value in
    let first =
      run_lines-append before (continue_unless e ∷ []) env
      ∙ ap (λ o. after o (run_lines (continue_unless e ∷ []))) run in
    elim (Bool-cases (p v)) [
      | inl k ↦ rw k (env', first ∙ rw (test, k) refl, value, same)
      | inr k ↦ rw k (env', first ∙ rw (test, k) refl, same)
    ]

record Emitted (source : Text) (slots : List StateSlot) (op : LoopOp) (s : Step) (g : Emission)
    : Type 0 where
  next : Emission
  new : List Line
  emitted : emit_op source slots op op.kind g ≡ some next
  appended : next.lines ≡ g.lines ++ new
  ran :
      (env : Variables) (v : ℤ)
      → eval env g.current ≡ some v
      → Ran (run_step s v) new next.current env

emitted_op :
    (source : Text) (slots : List StateSlot) (op : LoopOp) (s : Step) (g : Emission)
    → Called source op s g
    → Emitted source slots op s g
unfolding Called emit_op mapped tested run_step Ran Computes run_lines run_line then_lines
emitted_op source slots op (map f) g (kind, e, call, means) = record {
  next = record g { current = e; has_value_decl = false };
  new = [];
  emitted = rw kind (rw call refl);
  appended = sym (append-nil g.lines);
  ran = λ env v h. (env, refl, means env v h, λ x k. refl);
}
emitted_op source slots op (filter p) g (kind, e, call, means) =
    let (before, lines, computes) = materialized g in
    record {
      next = then_lines (rx_materialize_current_expr g) (continue_unless e ∷ []);
      new = before ++ (continue_unless e ∷ []);
      emitted = rw kind (rw call refl);
      appended =
          ap (λ ls. ls ++ (continue_unless e ∷ [])) lines
          ∙ append_assoc g.lines before (continue_unless e ∷ []);
      ran = λ env v h.
          guarded p before e (rx_materialize_current_expr g).current env v (computes env v h)
            (λ env' value. means env' v value);
    }

-- The condition `Called` along the whole pipeline, each operation at what is emitted before it.
unfoldable pub AllCalled : Text → List StateSlot → List LoopOp → List Step → Emission → Type 0
AllCalled source slots [] [] g = Unit
AllCalled source slots [] (s ∷ ss) g = ⊥
AllCalled source slots (op ∷ ops) [] g = ⊥
AllCalled source slots (op ∷ ops) (s ∷ ss) g =
    Called source op s g × elim (emit_op source slots op op.kind g) [
      | none ↦ ⊥
      | some next ↦ AllCalled source slots ops ss next
    ]

behind_new :
    (o : Option ℤ) (new more : List Line) (c : Expr) (env env' : Variables)
    → run_lines new env ≡ some (fell env')
    → Keeps env' env
    → Ran o more c env'
    → Ran o (new ++ more) c env
unfolding Ran Computes
behind_new none new more c env env' run same (env'', rest, kept) = (
  env'',
  run_lines-append new more env ∙ ap (λ r. after r (run_lines more)) run ∙ rest,
  λ x other. kept x other ∙ same x other,
)
behind_new (some w) new more c env env' run same (env'', rest, value, kept) = (
  env'',
  run_lines-append new more env ∙ ap (λ r. after r (run_lines more)) run ∙ rest,
  value,
  λ x other. kept x other ∙ same x other,
)

-- One operation's lines, and then those of the others.
continued_by :
    (o : Option ℤ) (ss : List Step) (new more : List Line) (c c' : Expr) (env : Variables)
    → Ran o new c env
    → ((env' : Variables) (w : ℤ) → eval env' c ≡ some w → Ran (run_steps ss w) more c' env')
    → Ran (o >>= run_steps ss) (new ++ more) c' env
unfolding Ran Computes
continued_by none ss new more c c' env (env', run, same) later =
    (env', run_lines-append new more env ∙ ap (λ r. after r (run_lines more)) run, same)
continued_by (some w) ss new more c c' env (env', run, value, same) later =
    behind_new (run_steps ss w) new more c' env env' run same (later env' w value)

pub emit_ops-run :
    (source : Text) (slots : List StateSlot) (ops : List LoopOp) (ss : List Step) (g : Emission)
    → AllCalled source slots ops ss g
    → (next : Emission) × (new : List Line) × (emit_ops source slots ops g ≡ some next)
      × (next.lines ≡ g.lines ++ new)
      × ((env : Variables) (v : ℤ)
          → eval env g.current ≡ some v
          → Ran (run_steps ss v) new next.current env)
unfolding AllCalled emit_ops run_steps Ran Computes run_lines
emit_ops-run source slots [] [] g h =
    (g, [], refl, sym (append-nil g.lines), λ env v e. (env, refl, e, λ x k. refl))
emit_ops-run source slots [] (s ∷ ss) g h = absurd h
emit_ops-run source slots (op ∷ ops) [] g h = absurd h
emit_ops-run source slots (op ∷ ops) (s ∷ ss) g h =
    let first = emitted_op source slots op s g h.0 in
    let (next, more, emitted, appended, ran) =
      emit_ops-run source slots ops ss first.next (rw first.emitted at h.1) in
    (
      next,
      first.new ++ more,
      rw (first.emitted) emitted,
      appended ∙ ap (λ ls. ls ++ more) first.appended ∙ append_assoc g.lines first.new more,
      λ env v e.
          continued_by (run_step s v) ss first.new more first.next.current next.current env
            (first.ran env v e) ran,
    )
