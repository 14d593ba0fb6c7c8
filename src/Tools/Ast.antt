-- ===== src/Tools/Ast.antt =====
-- core/tools/dsl_ast.h and ir.h: the syntax of a program in the pipeline language, and what the
-- lowering adds to it. An array with its count is a list; `char` arrays are texts.
use functional_c.Prelude.{ℕ, suc, Bool, Option, List}
use functional_c.Prelude.Text.{Text}

-- `Args` is the array `args` of an expression.
mutual
  pub data Expr : Type 0 where
    ident number : Text → Expr
    call : Text → Args → Expr

  pub data Args : Type 0 where
    no_args : Args
    arg : Expr → Args → Args

pub record FnDef : Type 0 where
  pub name : Text
  pub params : List Text
  pub body : Expr

pub data SourceKind : Type 0 where
  range of empty never interval timer defer from zip : SourceKind

-- `Sources` is the array `sources` of a source.
mutual
  pub data SourceAst : Type 0 where
    source : SourceKind → List Text → Sources → SourceAst

  pub data Sources : Type 0 where
    no_sources : Sources
    nested : SourceAst → Sources → Sources

unfoldable pub source_count : Sources → ℕ
source_count no_sources = 0
source_count (nested s rest) = suc (source_count rest)

pub data OperatorKind : Type 0 where
  map filter reduce scan scanfrom map_to take skip take_while skip_while : OperatorKind
  distinct distinct_until_changed take_until skip_until last first : OperatorKind
  merge_map buffer throttle_time : OperatorKind

pub record OperatorAst : Type 0 where
  pub kind : OperatorKind
  pub symbol : Text
  pub extra : Text
  pub source_arg : Option SourceAst
  pub has_extra : Bool

pub record ChainAst : Type 0 where
  pub source : SourceAst
  pub ops : List OperatorAst
  pub subscriber_target : Text

pub record ProgramAst : Type 0 where
  pub functions : List FnDef
  pub chains : List ChainAst

pub data FunctionKind : Type 0 where
  value predicate accumulator projector factory unknown : FunctionKind

pub record FunctionInfo : Type 0 where
  pub def : FnDef
  pub kind : FunctionKind
  pub used : Bool

pub record ChainIr : Type 0 where
  pub source : SourceAst
  pub ops : List OperatorAst
  pub subscriber_target : Text

pub record ProgramIr : Type 0 where
  pub functions : List FunctionInfo
  pub chains : List ChainIr
