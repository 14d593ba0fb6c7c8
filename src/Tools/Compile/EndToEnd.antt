-- ===== src/Tools/Compile/EndToEnd.antt =====
-- core/tools/pipeline_codegen.c: a program whose functions can be given kinds is compiled from its
-- text.
use functional_c.Prelude.{◌≡◌, refl, ap, ap₂, ◌∙◌, List, [], ◌∷◌, map}
use functional_c.Prelude.Text.{Text}
use functional_c.Tools.Ast.{FunctionKind, ChainAst, ProgramAst}
use functional_c.Tools.Lexer.Feeds.{render, IsEnd}
use functional_c.Tools.Parser.ChainPrinter.{print_program, IsProgram}
use functional_c.Tools.Parser.RoundTrip.Programs.{parse_program_text-render}
use functional_c.Tools.Lowering.{lower_chain, unused}
use functional_c.Tools.Lowering.Typing.{IsTyped, lower_program-IsTyped}
use functional_c.Tools.Lowering.Complete.{ChainsUse, lower_program_complete}
use functional_c.Tools.Plan.{ExecutionPlan, backend_of, build_execution_plan}
use functional_c.Tools.Plan.Backends.{expected_backend, backend_of-expected}
use functional_c.Tools.Compile.{planned, plan_parsed, plan_lowered, compile}

-- What the compiler promises of the plan for a program.
pub record IsPlanFor (program : ProgramAst) (plan : ExecutionPlan) : Type 0 where
  pub typed : IsTyped program plan.ir
  pub backends :
      plan.chains ≡ map (λ (c : ChainAst). expected_backend c.source c.ops) program.chains

backends-lower_chain :
    (chains : List ChainAst)
    → map backend_of (map lower_chain chains)
      ≡ map (λ (c : ChainAst). expected_backend c.source c.ops) chains
unfolding lower_chain
backends-lower_chain [] = refl
backends-lower_chain (c ∷ chains) =
    ap₂ ◌∷◌ (backend_of-expected (lower_chain c)) (backends-lower_chain chains)

-- From the text of a program that can be written, and whose functions can be given kinds that fit
-- their uses, the compiler makes a plan: the program with its functions marked, and for each chain
-- the fused backend where its source is finite and no operator needs the runtime.
pub compile-render :
    (kind_of_function : Text → FunctionKind) (program : ProgramAst) (rest : Text)
    → IsProgram program
    → IsEnd rest
    → ChainsUse kind_of_function (map unused program.functions) program.chains
    → (plan : ExecutionPlan) × (compile (render (print_program program) rest) ≡ planned plan)
      × IsPlanFor program plan
unfolding compile plan_parsed plan_lowered build_execution_plan
compile-render kind_of_function program rest is end uses =
    let parsed = parse_program_text-render program rest is end in
    let (ir, made) = lower_program_complete kind_of_function program uses in
    let typed = lower_program-IsTyped program made in
    (
      build_execution_plan ir,
      rw parsed (rw made refl),
      record {
        typed = typed;
        backends = ap (map backend_of) typed.same_chains ∙ backends-lower_chain program.chains;
      },
    )
