-- ===== src/Tools/Lowering/Complete.antt =====
-- core/tools/lowering.c: a program whose functions can be given kinds is lowered.
use functional_c.Prelude.{
  ◌≡◌, refl, ap, sym, ◌∙◌, true, Option, none, some, List, [], ◌∷◌, if◌then◌else◌, Bool-cases, inl,
  inr, arith, map,
}
use functional_c.Prelude.Text.{Text, same_text}
use functional_c.Tools.Ast.{
  FnDef, FunctionKind, value, FunctionInfo, OperatorAst, ChainAst, ProgramAst, ProgramIr,
}
use functional_c.Tools.Registry.{OperatorInfo, find_operator_info}
use functional_c.Tools.Lowering.{
  Lowered, lowered, ◌>>=◌, agrees, mark_function_usage, validate_source, takes_function,
  mark_operator, mark_operators, lower_chains, lower_chain, unused, lower_program,
}

-- A function of that name is there.
abbrev pub Declared : Text → List FunctionInfo → Type 0
Declared name [] = ⊥
Declared name (info ∷ rest) = if same_text info.def.name name then Unit else Declared name rest

module _ (kind_of_function : Text → FunctionKind) where
  -- The kinds recorded so far are the given ones.
  abbrev Agrees : List FunctionInfo → Type 0
  Agrees [] = Unit
  Agrees (info ∷ rest) = (agrees info.kind (kind_of_function info.def.name) ≡ true) × Agrees rest

  -- An operator that takes a function names one that is declared, of the kind that it needs.
  abbrev pub OpUses : List FunctionInfo → Option OperatorInfo → OperatorAst → Type 0
  OpUses fs none op = ⊥
  OpUses fs (some info) op =
      if takes_function info.argument_kind
      then Declared op.symbol fs × (kind_of_function op.symbol ≡ info.expected_function_kind)
      else Unit

  abbrev pub OpsUse : List FunctionInfo → List OperatorAst → Type 0
  OpsUse fs [] = Unit
  OpsUse fs (op ∷ ops) = OpUses fs (find_operator_info op.kind) op × OpsUse fs ops

  abbrev pub ChainsUse : List FunctionInfo → List ChainAst → Type 0
  ChainsUse fs [] = Unit
  ChainsUse fs (chain ∷ chains) =
      (validate_source chain.source ≡ true) × OpsUse fs chain.ops × ChainsUse fs chains

pub agrees_self : (kind : FunctionKind) → agrees kind kind ≡ true
unfolding agrees
agrees_self value = refl
agrees_self _ = refl

pub same_text→eq : (s t : Text) → same_text s t ≡ true → s ≡ t
same_text→eq [] [] h = refl
same_text→eq [] (d ∷ t) h = cc
same_text→eq (c ∷ s) [] h = cc
same_text→eq (c ∷ s) (d ∷ t) h = ground (arith, same_text→eq s t)

-- The same functions are declared.
SameNames : List FunctionInfo → List FunctionInfo → Type 0
SameNames fs gs = (name : Text) → Declared name fs → Declared name gs

module _ (kind_of_function : Text → FunctionKind) where
  -- The next step succeeds, and what was said of the functions is still so.
  abbrev Goes : List FunctionInfo → Lowered (List FunctionInfo) → Type 0
  Goes fs r =
      (gs : List FunctionInfo) × (r ≡ lowered gs) × Agrees kind_of_function gs × SameNames fs gs

  mark_function_usage-Goes :
      (fs : List FunctionInfo) (name : Text)
      → Declared name fs
      → Agrees kind_of_function fs
      → Goes fs (mark_function_usage fs name (kind_of_function name))
  unfolding mark_function_usage SameNames
  mark_function_usage-Goes [] name d a = absurd d
  mark_function_usage-Goes (info ∷ rest) name d a =
      elim (Bool-cases (same_text info.def.name name)) [
        | inl s ↦
            let e = same_text→eq info.def.name name s in
            let agree : agrees info.kind (kind_of_function name) ≡ true =
              ap (λ n. agrees info.kind (kind_of_function n)) (sym e) ∙ a.0 in
            (
              record info { kind = kind_of_function name; used = true } ∷ rest,
              rw (s, agree) refl,
              (
                ap (λ n. agrees (kind_of_function name) (kind_of_function n)) e
                    ∙ agrees_self (kind_of_function name),
                a.1,
              ),
              λ n h. h,
            )
        | inr differ ↦
            let d' = rw differ at d in
            let (gs, e, agree, same) = mark_function_usage-Goes rest name d' a.1 in
            (
              info ∷ gs,
              rw (differ, e) refl,
              (a.0, agree),
              λ n h. elim (Bool-cases (same_text info.def.name n)) [
                | inl s ↦ rw s tt
                | inr m ↦ let h' = rw m at h in rw m (same n h')
              ],
            )
      ]

  OpUses-SameNames :
      (fs gs : List FunctionInfo) (op : OperatorAst) (o : Option OperatorInfo)
      → SameNames fs gs
      → OpUses kind_of_function fs o op
      → OpUses kind_of_function gs o op
  unfolding SameNames
  OpUses-SameNames fs gs op none same h = h
  OpUses-SameNames fs gs op (some info) same h =
      elim (Bool-cases (takes_function info.argument_kind)) [
        | inl t ↦ let (d, k) = rw t at h in rw t (same op.symbol d, k)
        | inr f ↦ rw f tt
      ]

  OpsUse-SameNames :
      (fs gs : List FunctionInfo) (ops : List OperatorAst)
      → SameNames fs gs
      → OpsUse kind_of_function fs ops
      → OpsUse kind_of_function gs ops
  OpsUse-SameNames fs gs [] same h = tt
  OpsUse-SameNames fs gs (op ∷ ops) same (h, hs) = (
    OpUses-SameNames fs gs op (find_operator_info op.kind) same h,
    OpsUse-SameNames fs gs ops same hs,
  )

  ChainsUse-SameNames :
      (fs gs : List FunctionInfo) (chains : List ChainAst)
      → SameNames fs gs
      → ChainsUse kind_of_function fs chains
      → ChainsUse kind_of_function gs chains
  ChainsUse-SameNames fs gs [] same h = tt
  ChainsUse-SameNames fs gs (chain ∷ chains) same (v, h, hs) =
      (v, OpsUse-SameNames fs gs chain.ops same h, ChainsUse-SameNames fs gs chains same hs)

  -- One step, and what comes then.
  Goes-bind :
      (fs : List FunctionInfo) (r : Lowered (List FunctionInfo))
      (f : List FunctionInfo → Lowered (List FunctionInfo))
      → Goes fs r
      → ((gs : List FunctionInfo) → Agrees kind_of_function gs → SameNames fs gs → Goes gs (f gs))
      → Goes fs (r >>= f)
  unfolding SameNames
  Goes-bind fs r f (gs, e, a, same) k =
      let (hs, e', a', same') = k gs a same in (hs, rw e e', a', λ name d. same' name (same name d))

  mark_operator-Goes :
      (fs : List FunctionInfo) (op : OperatorAst) (o : Option OperatorInfo)
      → OpUses kind_of_function fs o op
      → Agrees kind_of_function fs
      → Goes fs (mark_operator fs op o)
  unfolding mark_operator SameNames
  mark_operator-Goes fs op none h a = absurd h
  mark_operator-Goes fs op (some info) h a = elim (Bool-cases (takes_function info.argument_kind)) [
    | inl t ↦ let (d, k) = rw t at h in rw (t, sym k) (mark_function_usage-Goes fs op.symbol d a)
    | inr f ↦ rw f (fs, refl, a, λ name d. d)
  ]

  mark_operators-Goes :
      (fs : List FunctionInfo) (ops : List OperatorAst)
      → OpsUse kind_of_function fs ops
      → Agrees kind_of_function fs
      → Goes fs (mark_operators fs ops)
  unfolding mark_operators SameNames
  mark_operators-Goes fs [] h a = (fs, refl, a, λ name d. d)
  mark_operators-Goes fs (op ∷ ops) (h, hs) a =
      Goes-bind fs (mark_operator fs op (find_operator_info op.kind)) (λ gs. mark_operators gs ops)
        (mark_operator-Goes fs op (find_operator_info op.kind) h a)
        (λ gs a' same. mark_operators-Goes gs ops (OpsUse-SameNames fs gs ops same hs) a')

  lower_chains-Goes :
      (fs : List FunctionInfo) (chains : List ChainAst)
      → ChainsUse kind_of_function fs chains
      → Agrees kind_of_function fs
      → Goes fs (lower_chains fs chains)
  unfolding lower_chains SameNames
  lower_chains-Goes fs [] h a = (fs, refl, a, λ name d. d)
  lower_chains-Goes fs (chain ∷ chains) (v, h, hs) a = rw v (
      Goes-bind fs (mark_operators fs chain.ops) (λ gs. lower_chains gs chains)
        (mark_operators-Goes fs chain.ops h a)
        (λ gs a' same. lower_chains-Goes gs chains (ChainsUse-SameNames fs gs chains same hs) a'))

  Agrees-unused : (fns : List FnDef) → Agrees kind_of_function (map unused fns)
  unfolding unused agrees
  Agrees-unused [] = tt
  Agrees-unused (fn ∷ fns) = (refl, Agrees-unused fns)

  -- A program is lowered where each function has a kind, each source has the arguments that its kind
  -- needs, and each operator that takes a function names one that is declared and has the kind that
  -- the operator needs.
  pub lower_program_complete :
      (ast : ProgramAst)
      → ChainsUse kind_of_function (map unused ast.functions) ast.chains
      → (ir : ProgramIr) × (lower_program ast ≡ lowered ir)
  unfolding lower_program
  lower_program_complete ast h =
      let (gs, e, a, same) =
        lower_chains-Goes (map unused ast.functions) ast.chains h (Agrees-unused ast.functions) in
      (record { functions = gs; chains = map lower_chain ast.chains }, rw e refl)
