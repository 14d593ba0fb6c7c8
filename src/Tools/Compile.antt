-- ===== src/Tools/Compile.antt =====
-- core/tools/pipeline_codegen.c: the stages of the compiler one after the other, up to the emission.
pub mod EndToEnd
use functional_c.Prelude.Text.{Text}
use functional_c.Tools.Ast.{ProgramAst, ProgramIr}
use functional_c.Tools.Reader.{ParseError, Outcome, ok, failed, undefined, out_of_fuel}
use functional_c.Tools.Parser.Programs.{parse_program_text}
use functional_c.Tools.Lowering.{LoweringError, Lowered, lowered, refused, lower_program}
use functional_c.Tools.Plan.{ExecutionPlan, build_execution_plan}

-- `parse_refused` and `lowering_refused` stand for an exit with status 1.
pub data Compiled : Type 0 where
  planned : ExecutionPlan → Compiled
  parse_refused : ParseError → Compiled
  lowering_refused : LoweringError → Compiled
  parse_undefined parse_out_of_fuel : Compiled

plan_lowered : Lowered ProgramIr → Compiled
plan_lowered (lowered ir) = planned (build_execution_plan ir)
plan_lowered (refused e) = lowering_refused e

plan_parsed : Outcome ProgramAst → Compiled
unfolding plan_lowered
plan_parsed (ok ast) = plan_lowered (lower_program ast)
plan_parsed (failed e) = parse_refused e
plan_parsed undefined = parse_undefined
plan_parsed out_of_fuel = parse_out_of_fuel

unfoldable pub compile : Text → Compiled
unfolding plan_parsed
compile dsl_source = plan_parsed (parse_program_text dsl_source)
