-- ===== src/Tools/Lowering/Refusals.antt =====
-- core/tools/lowering.c: what each refusal says of the program.
use functional_c.Prelude.{
  ◌≡◌, refl, sym, subst, ◌∙◌, true, false, Option, none, some, List, [], ◌∷◌, arith, inl, inr,
  Bool-cases, map,
}
use functional_c.Prelude.Text.{Text, same_text}
use functional_c.Tools.Ast.{
  FnDef, FunctionKind, unknown, FunctionInfo, OperatorAst, ChainAst, ProgramAst, ProgramIr,
}
use functional_c.Tools.Registry.{OperatorInfo, find_operator_info, find_operator_info_lem}
use functional_c.Tools.Lowering.{
  LoweringError, unknown_function, conflicting_kinds, invalid_source, unknown_operator, Lowered,
  lowered, refused, ◌>>=◌, agrees, mark_function_usage, validate_source, takes_function,
  mark_operator, mark_operators, lower_chain, lower_chains, unused, lower_program,
}
use functional_c.Tools.Lowering.Complete.{Declared, agrees_self}
use functional_c.Tools.Lowering.Blame.{
  kind_at, Blamed, Follows-refl, Explained, Explained-mono, Explained-bind,
}
use functional_c.Tools.Lowering.Uses.{
  Use, No, HasInvalid, OpNames, OpsName, ChainsName, mark_function_usage-Explained,
}

mark_operator-Explained :
    (fs : List FunctionInfo) (op : OperatorAst) (o : Option OperatorInfo)
    → find_operator_info op.kind ≡ o
    → Explained (OpNames op o) No fs (mark_operator fs op o)
unfolding mark_operator
mark_operator-Explained fs op none e =
    let (info, found_info, _, _) = find_operator_info_lem op.kind in
    absurd (none_some (sym e ∙ found_info))
  where
    none_some : {info : OperatorInfo} → none ≡ some info → ⊥
    none_some h = cc
mark_operator-Explained fs op (some info) e =
    elim (Bool-cases (takes_function info.argument_kind)) [
      | inl t ↦ rw t (
          Explained-mono {N = Use op.symbol info.expected_function_kind} {I = No} {J = No}
            (λ n k u. (t, u.0, u.1)) (λ kind h. h) fs
            (mark_function_usage fs op.symbol info.expected_function_kind)
            (mark_function_usage-Explained fs op.symbol info.expected_function_kind))
      | inr f ↦ rw f (Follows-refl (OpNames op (some info)) fs)
    ]

mark_operators-Explained :
    (fs : List FunctionInfo) (ops : List OperatorAst)
    → Explained (OpsName ops) No fs (mark_operators fs ops)
unfolding mark_operators
mark_operators-Explained fs [] = Follows-refl (OpsName []) fs
mark_operators-Explained fs (op ∷ ops) =
    Explained-bind (OpsName (op ∷ ops)) No fs (mark_operator fs op (find_operator_info op.kind))
      (λ gs. mark_operators gs ops)
      (Explained-mono {N = OpNames op (find_operator_info op.kind)} {I = No} {J = No}
        (λ n k u. inl u) (λ kind h. h) fs (mark_operator fs op (find_operator_info op.kind))
        (mark_operator-Explained fs op (find_operator_info op.kind) refl))
      (λ gs.
        Explained-mono {N = OpsName ops} {I = No} {J = No} (λ n k u. inr u) (λ kind h. h) gs
          (mark_operators gs ops) (mark_operators-Explained gs ops))

lower_chains-Explained :
    (fs : List FunctionInfo) (chains : List ChainAst)
    → Explained (ChainsName chains) (HasInvalid chains) fs (lower_chains fs chains)
unfolding lower_chains
lower_chains-Explained fs [] = Follows-refl (ChainsName []) fs
lower_chains-Explained fs (chain ∷ chains) = elim (Bool-cases (validate_source chain.source)) [
  | inl v ↦
      rw (v, lower_chains)
        (Explained-bind (ChainsName (chain ∷ chains)) (HasInvalid (chain ∷ chains)) fs
          (mark_operators fs chain.ops) (λ gs. lower_chains gs chains)
          (Explained-mono {N = OpsName chain.ops} {I = No} {J = HasInvalid (chain ∷ chains)}
            (λ n k u. inl u) (λ kind h. absurd h) fs (mark_operators fs chain.ops)
            (mark_operators-Explained fs chain.ops))
          (λ gs.
            Explained-mono {N = ChainsName chains} {I = HasInvalid chains}
              {J = HasInvalid (chain ∷ chains)} (λ n k u. inr u) (λ kind h. inr h) gs
              (lower_chains gs chains) (lower_chains-Explained gs chains)))
  | inr bad ↦ rw (bad, lower_chains) (inl (bad, refl))
]

kind_at-unused : (name : Text) (fs : List FnDef) → kind_at name (map unused fs) ≡ unknown
unfolding unused
kind_at-unused name [] = refl
kind_at-unused name (fn ∷ fs) = elim (Bool-cases (same_text fn.name name)) [
  | inl m ↦ rw m refl
  | inr m ↦ rw m (kind_at-unused name fs)
]

-- What an error says of a program.
abbrev pub Explains : ProgramAst → LoweringError → Type 0
Explains ast (unknown_function n) =
    ((k : FunctionKind) × ChainsName ast.chains n k) × (Declared n (map unused ast.functions) → ⊥)
Explains ast (conflicting_kinds n) =
    Declared n (map unused ast.functions)
    × (j : FunctionKind) × (k : FunctionKind) × ChainsName ast.chains n j
    × ChainsName ast.chains n k
    × (j ≡ k → ⊥)
Explains ast (invalid_source kind) = HasInvalid ast.chains kind
Explains ast unknown_operator = ⊥

explained :
    (ast : ProgramAst) (e : LoweringError)
    → Blamed (map unused ast.functions) (ChainsName ast.chains) (HasInvalid ast.chains) e
    → Explains ast e
unfolding agrees
explained ast (unknown_function n) h = h
explained ast (conflicting_kinds n) c = (
  c.declared,
  c.first,
  c.second,
  elim (c.before) [
    | inl e ↦
        let new : c.first ≡ unknown = sym e ∙ kind_at-unused n ast.functions in
        let no_kind : agrees unknown c.second ≡ false = rw new at c.differ in absurd (cc)
    | inr u ↦ u
  ],
  c.used,
  λ same.
      let self : agrees c.second c.second ≡ false = rw same at c.differ in
      absurd (refused_self (sym (agrees_self c.second) ∙ self)),
)
  where
    refused_self : true ≡ false → ⊥
    refused_self h = cc
explained ast (invalid_source kind) h = h
explained ast unknown_operator h = h

-- A refusal is explained by the program: an unknown function is named by an operator that takes a
-- function, and is not declared; a function of conflicting kinds is declared, and operators that
-- take functions of two different kinds name it; an invalid source is that of a chain and lacks the
-- arguments of its kind. No operator is unknown.
pub lower_program-refused :
    (ast : ProgramAst) {e : LoweringError} → lower_program ast ≡ refused e → Explains ast e
unfolding lower_program
lower_program-refused ast {e} h =
    at_error (lower_chains (map unused ast.functions) ast.chains)
      (lower_chains-Explained (map unused ast.functions) ast.chains) h
  where
    at_error :
        (r : Lowered (List FunctionInfo))
        → Explained (ChainsName ast.chains) (HasInvalid ast.chains) (map unused ast.functions) r
        → ◌>>=◌ {B = ProgramIr} r
            (λ fs. lowered (record { functions = fs; chains = map lower_chain ast.chains }))
          ≡ refused e
        → Explains ast e
    at_error (lowered fs) x h = absurd (ground arith)
    at_error (refused e') x h = subst (Explains ast) (cc) (explained ast e' x)
