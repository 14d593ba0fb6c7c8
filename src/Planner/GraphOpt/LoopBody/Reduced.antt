-- ===== src/Planner/GraphOpt/LoopBody/Reduced.antt =====
-- core/planner/graph_opt.c: the emitted loop of a pipeline of maps and filters with a reduce behind
-- them, over all numbers of a range.
use functional_c.Prelude.{
  ◌>>=◌, ℕ, zero, suc, ◌+◌, ◌≡◌, refl, ap, sym, ◌∙◌, Bool, not, ◌&&◌, ◌||◌, if◌then◌else◌, ◌⊎◌,
  arith, true, false, inl, inr, Option, none, some, List, [], ◌∷◌, ◌++◌,
}
use functional_c.Prelude.Text.{Text, codes, same_text}
use functional_c.Prelude.Int.{ℤ, pos}
use functional_c.Planner.Lower.{StateSlot, LoopOp, call_reduce}
use functional_c.Planner.GraphOpt.{Expr, var}
use functional_c.Planner.GraphOpt.Meaning.{eval}
use functional_c.Planner.GraphOpt.LoopBody.{
  Line, declare, assign, Emission, call_op, folded, slot_name, then_lines, emit_op, emit_ops, start,
  loop_lines, pipeline_has_breaking_op,
}
use functional_c.Planner.GraphOpt.LoopBody.Run.{
  Variables, with_value, fell, continued, broke, run_lines, run_lines-append, after, run_line,
}
use functional_c.Planner.GraphOpt.LoopBody.Passing.{
  Step, run_steps, AllCalled, Ran, Computes, Keeps, emit_ops-run,
}

-- The `for` loop over `src`, with `left` rounds to go from `i` on.
unfoldable pub run_loop : List Line → ℕ → ℕ → Variables → Option Variables
run_loop lines zero i env = some env
run_loop lines (suc left) i env = elim (run_lines lines (with_value env (codes "src") (pos i))) [
  | none ↦ none
  | some (fell env') ↦ run_loop lines left (i + 1) env'
  | some (continued env') ↦ run_loop lines left (i + 1) env'
  | some (broke env') ↦ some env'
]

-- A line declares the variable, and no variable is declared twice: two declarations of one name in
-- the loop's block are no C.
declares : Text → List Line → Bool
declares x [] = false
declares x (declare y e ∷ ls) = same_text x y || declares x ls
declares x (_ ∷ ls) = declares x ls

unfoldable pub declared_once : List Line → Bool
unfolding declares
declared_once [] = true
declared_once (declare x e ∷ ls) = not (declares x ls) && declared_once ls
declared_once (_ ∷ ls) = declared_once ls

-- The emitted lines, if any, compile.
abbrev pub compiles : Option (List Line) → Bool
compiles none = true
compiles (some lines) = declared_once lines

-- The loop over the numbers 1 to n. Lines that do not compile have no result.
unfoldable pub run_emitted : List Line → ℕ → Variables → Option Variables
unfolding run_loop
run_emitted lines n env = if declared_once lines then run_loop lines n 1 env else none

accumulated : (ℤ → ℤ → ℤ) → ℤ → Option ℤ → ℤ
accumulated f acc none = acc
accumulated f acc (some w) = f acc w

-- What the pipeline computes of the numbers from `i` on.
unfoldable pub reduce_numbers : (ℤ → ℤ → ℤ) → List Step → ℕ → ℕ → ℤ → ℤ
unfolding accumulated
reduce_numbers f ss zero i acc = acc
reduce_numbers f ss (suc left) i acc =
    reduce_numbers f ss left (i + 1) (accumulated f acc (run_steps ss (pos i)))

-- The reduce's function, called with the accumulator and the last value, is replaced by an
-- expression that computes `f`.
unfoldable pub ReduceCalled : Text → LoopOp → Text → (ℤ → ℤ → ℤ) → Option Emission → Type 0
ReduceCalled source op name f none = ⊥
ReduceCalled source op name f (some g) =
    (e : Expr) × (call_op source op
        ((codes "raw_accum", var name) ∷ (codes "raw_next", g.current) ∷ [])
      ≡ some e)
    × ((env : Variables) (w : ℤ) → eval env g.current ≡ some w → eval env e ≡ some (f (env name) w))

-- A round leaves the accumulated value in the slot, and is not a `break`.
unfoldable pub Accumulates : List Line → Text → Variables → ℤ → Type 0
Accumulates lines name env acc =
    (env' : Variables) × ((run_lines lines env ≡ some (fell env'))
      ⊎ (run_lines lines env ≡ some (continued env')))
    × (env' name ≡ acc)

same_text_self : (x : Text) → same_text x x ≡ true
same_text_self [] = refl
same_text_self (c ∷ x) = ground (arith, same_text_self x)

round :
    (o : Option ℤ) (new : List Line) (c e : Expr) (name : Text) (f : ℤ → ℤ → ℤ) (env : Variables)
    → same_text name (codes "value") ≡ false
    → Ran o new c env
    → ((env' : Variables) (w : ℤ) → eval env' c ≡ some w → eval env' e ≡ some (f (env' name) w))
    → Accumulates (new ++ (assign name e ∷ [])) name env (accumulated f (env name) o)
unfolding Ran Computes Keeps run_lines run_line Accumulates accumulated
round none new c e name f env other (env', run, same) means = (
  env',
  inr (
      run_lines-append new (assign name e ∷ []) env
      ∙ ap (λ r. after r (run_lines (assign name e ∷ []))) run),
  same name other,
)
round (some w) new c e name f env other (env', run, value, same) means =
    let assigned = means env' w value in
    (
      with_value env' name (f (env' name) w),
      inl (
          run_lines-append new (assign name e ∷ []) env
          ∙ ap (λ r. after r (run_lines (assign name e ∷ []))) run
          ∙ rw assigned refl),
      rw (same_text_self name) (ap (λ a. f a w) (same name other)),
    )

loop :
    (lines : List Line) (ss : List Step) (name : Text) (f : ℤ → ℤ → ℤ) (left i : ℕ)
    (env : Variables)
    → same_text name (codes "src") ≡ false
    → ((env' : Variables)
        → Accumulates lines name env'
            (accumulated f (env' name) (run_steps ss (env' (codes "src")))))
    → (env' : Variables) × (run_loop lines left i env ≡ some env')
      × (env' name ≡ reduce_numbers f ss left i (env name))
unfolding run_loop reduce_numbers Accumulates
loop lines ss name f zero i env other h = (env, refl, refl)
loop lines ss name f (suc left) i env other h =
    let first = with_value env (codes "src") (pos i) in
    let kept : first name ≡ env name = rw other refl in
    let (env', how, acc) = h first in
    let (env'', run, value) = loop lines ss name f left (i + 1) env' other h in
    let total =
      value
      ∙ ap (reduce_numbers f ss left (i + 1))
          (acc ∙ ap (λ a. accumulated f a (run_steps ss (pos i))) kept) in
    elim how [
      | inl r ↦ (env'', rw (r, run_loop) run, total)
      | inr r ↦ (env'', rw (r, run_loop) run, total)
    ]

emit_ops-append :
    (source : Text) (slots : List StateSlot) (ops more : List LoopOp) (g : Emission)
    → emit_ops source slots (ops ++ more) g
      ≡ (emit_ops source slots ops g >>= emit_ops source slots more)
unfolding emit_ops
emit_ops-append source slots [] more g = refl
emit_ops-append source slots (op ∷ ops) more g =
    elim (emit_op source slots op op.kind g)
      as (λ o.
        (o >>= emit_ops source slots (ops ++ more))
        ≡ ((o >>= emit_ops source slots ops) >>= emit_ops source slots more)) [
          | none ↦ refl
          | some next ↦ emit_ops-append source slots ops more next
        ]

-- For maps and filters with a reduce behind them, each with a function whose call is replaced by an
-- expression of its value, the reduce's slot not called `value` or `src`, and no variable declared
-- twice in the lines: the loop's lines are emitted, and the loop over the numbers 1 to n ends with the slot holding what reducing gives of
-- those numbers that pass the filters, mapped, from what it held before.
pub loop_lines-reduce :
    (source : Text) (slots : List StateSlot) (ops : List LoopOp) (ss : List Step) (op : LoopOp)
    (name : Text) (f : ℤ → ℤ → ℤ)
    → AllCalled source slots ops ss start
    → op.kind ≡ call_reduce
    → slot_name slots op.state_slot_index ≡ some name
    → ReduceCalled source op name f (emit_ops source slots ops start)
    → same_text name (codes "value") ≡ false
    → same_text name (codes "src") ≡ false
    → pipeline_has_breaking_op (ops ++ (op ∷ [])) ≡ false
    → compiles (loop_lines source slots (ops ++ (op ∷ []))) ≡ true
    → (lines : List Line) × (loop_lines source slots (ops ++ (op ∷ [])) ≡ some lines)
      × ((env : Variables) (n : ℕ)
          → (env' : Variables) × (run_emitted lines n env ≡ some env')
            × (env' name ≡ reduce_numbers f ss n 1 (env name)))
unfolding loop_lines emit_ops emit_op folded then_lines ReduceCalled eval run_emitted
loop_lines-reduce source slots ops ss op name f h kind slot called value src no_break once =
    let (next, new, emitted, appended, ran) = emit_ops-run source slots ops ss start h in
    let (e, call, means) : ReduceCalled source op name f (some next) = rw emitted at called in
    let lines = new ++ (assign name e ∷ []) in
    let run = λ (env' : Variables).
      round (run_steps ss (env' (codes "src"))) new next.current e name f env' value
        (ran env' (env' (codes "src")) refl) means in
    let made : loop_lines source slots (ops ++ (op ∷ [])) ≡ some lines = rw no_break (
      rw (emit_ops-append source slots ops (op ∷ []) start) (
        rw emitted
          (rw kind (rw slot (rw call (ap (λ ls. some (ls ++ (assign name e ∷ []))) appended)))))) in
    let is_c : declared_once lines ≡ true = sym (ap compiles made) ∙ once in
    (lines, made, λ env n. rw is_c (loop lines ss name f n 1 env src run))
