-- ===== src/Tools/Lowering.antt =====
-- core/tools/lowering.c: what each function is used as, with the sources checked. Allocation
-- succeeds.
pub mod Marks
pub mod Typing
pub mod Complete
pub mod Blame
pub mod Uses
pub mod Refusals
use functional_c.Prelude.{
  ℕ, suc, Bool, true, false, Option, none, some, List, [], ◌∷◌, leb, ◌==◌, if◌then◌else◌, length,
  take, map,
}
use functional_c.Prelude.Text.{Text, same_text}
use functional_c.Tools.Ast.{
  FnDef, SourceKind, range, of, empty, never, interval, timer, defer, from, zip, SourceAst, source,
  Sources, source_count, no_sources, nested, OperatorAst, ChainAst, ProgramAst, FunctionKind, value,
  predicate, accumulator, projector, factory, unknown, FunctionInfo, ChainIr, ProgramIr,
}
use functional_c.Tools.Registry.{
  OperatorArgumentKind, function, function_and_literal, OperatorInfo, find_operator_info,
}

-- What is printed behind "lowering error: ". The name of a source is printed for its kind.
pub data LoweringError : Type 0 where
  unknown_function conflicting_kinds : Text → LoweringError
  invalid_source : SourceKind → LoweringError
  unknown_operator : LoweringError

pub data Lowered (A : Type 0) : Type 0 where
  lowered : A → Lowered A
  refused : LoweringError → Lowered A

infixl 1 ◌>>=◌
abbrev pub ◌>>=◌ : {A B : Type 0} → Lowered A → (A → Lowered B) → Lowered B
lowered a >>= f = f a
refused e >>= f = refused e

-- The enumerator's value.
unfoldable pub function_number : FunctionKind → ℕ
function_number value = 0
function_number predicate = 1
function_number accumulator = 2
function_number projector = 3
function_number factory = 4
function_number unknown = 5

-- A kind that the entry takes up: its own, or any where it has none.
unfoldable pub agrees : FunctionKind → FunctionKind → Bool
unfolding function_number
agrees unknown expected = true
agrees kind expected = function_number kind == function_number expected

unfoldable pub found :
    Text → FunctionKind → FunctionInfo → List FunctionInfo → Lowered (List FunctionInfo)
unfolding agrees
found name expected info rest =
    if agrees info.kind expected
    then lowered (record info { kind = expected; used = true } ∷ rest)
    else refused (conflicting_kinds name)

-- `find_function_index` and the change of the entry at that index, the first of that name.
unfoldable pub mark_function_usage :
    List FunctionInfo → Text → FunctionKind → Lowered (List FunctionInfo)
unfolding found
mark_function_usage [] name expected = refused (unknown_function name)
mark_function_usage (info ∷ rest) name expected =
    let later = mark_function_usage rest name expected >>= λ marked. lowered (info ∷ marked) in
    if same_text info.def.name name then found name expected info rest else later

unfoldable pub validate_source : SourceAst → Bool
unfolding source_count
validate_source (source range values inner) = length values == 2
validate_source (source of values inner) = leb 1 (length values)
validate_source (source empty values inner) = true
validate_source (source never values inner) = true
validate_source (source interval values inner) = length values == 1
validate_source (source timer values inner) = length values == 2
validate_source (source defer values inner) = length values == 1
validate_source (source from values inner) = length values == 1
validate_source (source zip values inner) = leb 2 (source_count inner)

abbrev pub kind_of : SourceAst → SourceKind
kind_of (source kind values inner) = kind

unfoldable pub takes_function : OperatorArgumentKind → Bool
takes_function function = true
takes_function function_and_literal = true
takes_function _ = false

unfoldable pub mark_operator :
    List FunctionInfo → OperatorAst → Option OperatorInfo → Lowered (List FunctionInfo)
unfolding takes_function
mark_operator functions op none = refused unknown_operator
mark_operator functions op (some info) =
    if takes_function info.argument_kind
    then mark_function_usage functions op.symbol info.expected_function_kind
    else lowered functions

-- The loop over the operators of a chain, as far as it changes the functions.
unfoldable pub mark_operators : List FunctionInfo → List OperatorAst → Lowered (List FunctionInfo)
unfolding mark_operator
mark_operators functions [] = lowered functions
mark_operators functions (op ∷ ops) =
    mark_operator functions op (find_operator_info op.kind) >>= λ marked. mark_operators marked ops

unfoldable pub lower_chain : ChainAst → ChainIr
lower_chain chain = record {
  source = chain.source;
  ops = chain.ops;
  subscriber_target = take 63 chain.subscriber_target;
}

-- The loop over the chains.
unfoldable pub lower_chains : List FunctionInfo → List ChainAst → Lowered (List FunctionInfo)
unfolding mark_operators validate_source
lower_chains functions [] = lowered functions
lower_chains functions (chain ∷ chains) =
    let marked = mark_operators functions chain.ops >>= λ marked. lower_chains marked chains in
    if validate_source chain.source then marked else refused (invalid_source (kind_of chain.source))

unfoldable pub unused : FnDef → FunctionInfo
unused fn = record { def = fn; kind = unknown; used = false }

unfoldable pub lower_program : ProgramAst → Lowered ProgramIr
unfolding lower_chains lower_chain unused
lower_program ast = lower_chains (map unused ast.functions) ast.chains >>= λ functions.
    lowered (record { functions = functions; chains = map lower_chain ast.chains })
