-- ===== src/Tools/Lowering/Typing.antt =====
-- core/tools/lowering.c: a program that is lowered uses each function in one way, and a program that
-- uses each function in one way is lowered.
use functional_c.Prelude.{
  ◌≡◌, ◌≢◌, refl, ap, subst, ◌∙◌, true, Option, none, some, List, [], ◌∷◌, if◌then◌else◌,
  Bool-cases, inl, inr, map,
}
use functional_c.Tools.Ast.{
  FnDef, unknown, FunctionInfo, OperatorKind, OperatorAst, ChainAst, ProgramAst, ProgramIr,
}
use functional_c.Tools.Registry.{OperatorInfo, find_operator_info}
use functional_c.Tools.Lowering.{
  LoweringError, kind_of, lowered, ◌>>=◌, validate_source, takes_function, mark_operator,
  mark_operators, lower_chains, lower_chain, unused, lower_program,
}
use functional_c.Tools.Lowering.Marks.{
  Holds, Holds-bind, Holds-weaken, Holds-if, HasKind, Extends, Extends-refl, Extends-trans,
  mark_function_usage-Marked,
}

-- The function that an operator names, if it names one, is used as the kind that the operator needs.
abbrev pub OpTyped : List FunctionInfo → Option OperatorInfo → OperatorAst → Type 0
OpTyped fs none op = ⊥
OpTyped fs (some info) op =
    if takes_function info.argument_kind
    then HasKind fs op.symbol info.expected_function_kind
    else Unit

abbrev pub OpsTyped : List FunctionInfo → List OperatorAst → Type 0
OpsTyped fs [] = Unit
OpsTyped fs (op ∷ ops) = OpTyped fs (find_operator_info op.kind) op × OpsTyped fs ops

abbrev pub ChainsTyped : List FunctionInfo → List ChainAst → Type 0
ChainsTyped fs [] = Unit
ChainsTyped fs (chain ∷ chains) =
    (validate_source chain.source ≡ true) × OpsTyped fs chain.ops × ChainsTyped fs chains

-- The table asks for a kind wherever an operator takes a function.
expected-ne-unknown :
    (kind : OperatorKind) {info : OperatorInfo}
    → find_operator_info kind ≡ some info
    → takes_function info.argument_kind ≡ true
    → info.expected_function_kind ≢ unknown
unfolding find_operator_info takes_function
expected-ne-unknown OperatorKind.map h t e = cc
expected-ne-unknown _ h t e = cc

OpTyped-Extends :
    {fs gs : List FunctionInfo} (op : OperatorAst) (o : Option OperatorInfo)
    → find_operator_info op.kind ≡ o
    → Extends fs gs
    → OpTyped fs o op
    → OpTyped gs o op
OpTyped-Extends op none e p h = h
OpTyped-Extends op (some info) e p h = elim (Bool-cases (takes_function info.argument_kind)) [
  | inl t ↦
      let typed = rw t at h in
      rw t (p.kept op.symbol info.expected_function_kind (expected-ne-unknown op.kind e t) typed)
  | inr f ↦ rw f tt
]

OpsTyped-Extends :
    {fs gs : List FunctionInfo} (ops : List OperatorAst)
    → Extends fs gs
    → OpsTyped fs ops
    → OpsTyped gs ops
OpsTyped-Extends [] p h = tt
OpsTyped-Extends (op ∷ ops) p (h, hs) =
    (OpTyped-Extends op (find_operator_info op.kind) refl p h, OpsTyped-Extends ops p hs)

mark_operator-Typed :
    (fs : List FunctionInfo) (op : OperatorAst) (o : Option OperatorInfo)
    → Holds (λ gs. OpTyped gs o op × Extends fs gs) (mark_operator fs op o)
unfolding mark_operator
mark_operator-Typed fs op none = tt
mark_operator-Typed fs op (some info) = elim (Bool-cases (takes_function info.argument_kind)) [
  | inl t ↦ rw t (mark_function_usage-Marked fs op.symbol info.expected_function_kind)
  | inr f ↦ rw f (tt, Extends-refl fs)
]

mark_operators-Typed :
    (fs : List FunctionInfo) (ops : List OperatorAst)
    → Holds (λ gs. OpsTyped gs ops × Extends fs gs) (mark_operators fs ops)
unfolding mark_operators
mark_operators-Typed fs [] = (tt, Extends-refl fs)
mark_operators-Typed fs (op ∷ ops) =
    Holds-bind (λ gs. OpTyped gs (find_operator_info op.kind) op × Extends fs gs)
      (λ hs. OpsTyped hs (op ∷ ops) × Extends fs hs)
      (mark_operator fs op (find_operator_info op.kind)) (λ gs. mark_operators gs ops)
      (mark_operator-Typed fs op (find_operator_info op.kind))
      (λ gs (typed, first).
        Holds-weaken (λ hs. OpsTyped hs ops × Extends gs hs)
          (λ hs. OpsTyped hs (op ∷ ops) × Extends fs hs) (mark_operators gs ops)
          (λ hs (others, more). (
            (OpTyped-Extends op (find_operator_info op.kind) refl more typed, others),
            Extends-trans first more,
          ))
          (mark_operators-Typed gs ops))

lower_chains-Typed :
    (fs : List FunctionInfo) (chains : List ChainAst)
    → Holds (λ gs. ChainsTyped gs chains × Extends fs gs) (lower_chains fs chains)
unfolding lower_chains
lower_chains-Typed fs [] = (tt, Extends-refl fs)
lower_chains-Typed fs (chain ∷ chains) =
    Holds-if (λ hs. ChainsTyped hs (chain ∷ chains) × Extends fs hs) (validate_source chain.source)
      (mark_operators fs chain.ops >>= λ gs. lower_chains gs chains)
      (LoweringError.invalid_source (kind_of chain.source))
      (λ v.
        Holds-bind (λ gs. OpsTyped gs chain.ops × Extends fs gs)
          (λ hs. ChainsTyped hs (chain ∷ chains) × Extends fs hs) (mark_operators fs chain.ops)
          (λ gs. lower_chains gs chains) (mark_operators-Typed fs chain.ops)
          (λ gs (typed, first).
            Holds-weaken (λ hs. ChainsTyped hs chains × Extends gs hs)
              (λ hs. ChainsTyped hs (chain ∷ chains) × Extends fs hs) (lower_chains gs chains)
              (λ hs (others, more).
                ((v, OpsTyped-Extends chain.ops more typed, others), Extends-trans first more))
              (lower_chains-Typed gs chains)))

map-unused : (fns : List FnDef) → map (λ (i : FunctionInfo). i.def) (map unused fns) ≡ fns
unfolding unused
map-unused [] = refl
map-unused (fn ∷ fns) = ap (◌∷◌ fn) (map-unused fns)

-- What `lower_program` promises of its result.
pub record IsTyped (ast : ProgramAst) (ir : ProgramIr) : Type 0 where
  pub same_functions : map (λ (i : FunctionInfo). i.def) ir.functions ≡ ast.functions
  pub same_chains : ir.chains ≡ map lower_chain ast.chains
  pub typed : ChainsTyped ir.functions ast.chains

lower_program-Holds : (ast : ProgramAst) → Holds (IsTyped ast) (lower_program ast)
unfolding lower_program
lower_program-Holds ast =
    Holds-bind (λ gs. ChainsTyped gs ast.chains × Extends (map unused ast.functions) gs)
      (IsTyped ast) (lower_chains (map unused ast.functions) ast.chains)
      (λ functions. lowered (record { functions = functions; chains = map lower_chain ast.chains }))
      (lower_chains-Typed (map unused ast.functions) ast.chains)
      (λ gs (typed, first). record {
        same_functions = first.same_defs ∙ map-unused ast.functions;
        same_chains = refl;
        typed = typed;
      })

-- A program that is lowered keeps its functions and its chains, each of its sources has the arguments
-- that its kind needs, and each operator that takes a function names one that is declared, marked as
-- used and recorded as the one kind that all of its uses need.
pub lower_program-IsTyped :
    (ast : ProgramAst) {ir : ProgramIr} → lower_program ast ≡ lowered ir → IsTyped ast ir
lower_program-IsTyped ast h = subst (Holds (IsTyped ast)) h (lower_program-Holds ast)
