-- ===== src/Tools/Lowering/Uses.antt =====
-- core/tools/lowering.c: the uses of functions in a program, and what an error says of one.
use functional_c.Prelude.{
  ◌≡◌, refl, ap, sym, ◌∙◌, true, false, Option, none, some, List, [], ◌∷◌, ◌⊎◌, inl, inr,
  Bool-cases,
}
use functional_c.Prelude.Text.{Text, same_text}
use functional_c.Tools.Ast.{SourceKind, FunctionKind, FunctionInfo, OperatorAst, ChainAst}
use functional_c.Tools.Registry.{OperatorInfo, find_operator_info}
use functional_c.Tools.Lowering.{
  unknown_function, conflicting_kinds, invalid_source, unknown_operator, kind_of, Lowered, lowered,
  refused, ◌>>=◌, agrees, found, mark_function_usage, validate_source, takes_function,
}
use functional_c.Tools.Lowering.Complete.{same_text→eq}
use functional_c.Tools.Lowering.Blame.{kind_at, Uses, Follows, Explained}

-- The use of this name as this kind.
abbrev pub Use : Text → FunctionKind → Uses
Use name kind n k = (n ≡ name) × (k ≡ kind)

-- Some chain has a source of this kind without the arguments that the kind needs.
abbrev pub HasInvalid : List ChainAst → SourceKind → Type 0
HasInvalid [] kind = ⊥
HasInvalid (chain ∷ chains) kind =
    ((validate_source chain.source ≡ false) × (kind_of chain.source ≡ kind))
    ⊎ HasInvalid chains kind

-- Some operator of a chain takes a function of this kind, and names this one.
abbrev pub OpNames : OperatorAst → Option OperatorInfo → Uses
OpNames op none name kind = ⊥
OpNames op (some info) name kind =
    (takes_function info.argument_kind ≡ true)
    × (name ≡ op.symbol)
    × (kind ≡ info.expected_function_kind)

abbrev pub OpsName : List OperatorAst → Uses
OpsName [] name kind = ⊥
OpsName (op ∷ ops) name kind =
    OpNames op (find_operator_info op.kind) name kind ⊎ OpsName ops name kind

abbrev pub ChainsName : List ChainAst → Uses
ChainsName [] name kind = ⊥
ChainsName (chain ∷ chains) name kind = OpsName chain.ops name kind ⊎ ChainsName chains name kind

abbrev pub No : SourceKind → Type 0
No kind = ⊥

pub mark_function_usage-Explained :
    (fs : List FunctionInfo) (name : Text) (kind : FunctionKind)
    → Explained (Use name kind) No fs (mark_function_usage fs name kind)
unfolding mark_function_usage found
mark_function_usage-Explained [] name kind = ((kind, (refl, refl)), λ d. d)
mark_function_usage-Explained (info ∷ rest) name kind =
    elim (Bool-cases (same_text info.def.name name)) [
      | inl s ↦ rw s (elim (Bool-cases (agrees info.kind kind)) [
        | inl a ↦ rw a (record { forth = λ n d. d; back = λ n d. d; kept = λ n. marked s n })
        | inr c ↦ rw c (record {
          declared = rw s tt;
          first = info.kind;
          second = kind;
          differ = c;
          used = (refl, refl);
          before = inl (rw s refl);
        })
      ])
      | inr d ↦ rw d (
          later d (mark_function_usage rest name kind)
            (mark_function_usage-Explained rest name kind))
    ]
  where
    marked :
        same_text info.def.name name ≡ true
        → (n : Text)
        → (kind_at n (record info { kind = kind; used = true } ∷ rest) ≡ kind_at n (info ∷ rest))
          ⊎ Use name kind n (kind_at n (record info { kind = kind; used = true } ∷ rest))
    marked s n = elim (Bool-cases (same_text info.def.name n)) [
      | inl m ↦
          rw m
            (inr ((sym (same_text→eq info.def.name n m) ∙ same_text→eq info.def.name name s), refl))
      | inr m ↦ rw m (inl refl)
    ]

    behind_info :
        (gs : List FunctionInfo)
        → Follows (Use name kind) rest gs
        → Follows (Use name kind) (info ∷ rest) (info ∷ gs)
    behind_info gs h = record {
      forth = λ n. elim (Bool-cases (same_text info.def.name n)) [
        | inl m ↦ rw m (λ d. tt)
        | inr m ↦ rw m (h.forth n)
      ];
      back = λ n. elim (Bool-cases (same_text info.def.name n)) [
        | inl m ↦ rw m (λ d. tt)
        | inr m ↦ rw m (h.back n)
      ];
      kept = λ n. elim (Bool-cases (same_text info.def.name n)) [
        | inl m ↦ rw m (inl refl)
        | inr m ↦ rw m (h.kept n)
      ];
    }

    later :
        same_text info.def.name name ≡ false
        → (r : Lowered (List FunctionInfo)) → Explained (Use name kind) No rest r
        → Explained (Use name kind) No (info ∷ rest) (r >>= λ gs. lowered (info ∷ gs))
    later d (lowered gs) h = behind_info gs h
    later d (refused (unknown_function n)) ((k, (e, e')), h) =
        ((k, (e, e')), λ x. h (rw (ap (same_text info.def.name) e ∙ d) at x))
    later d (refused (conflicting_kinds n)) c =
        let other : same_text info.def.name n ≡ false = ap (same_text info.def.name) c.used.0 ∙ d in
        record {
          declared = rw other c.declared;
          first = c.first;
          second = c.second;
          differ = c.differ;
          used = c.used;
          before = elim (c.before) [ inl e ↦ inl (rw other e) | inr u ↦ inr u ];
        }
    later d (refused (invalid_source k)) h = absurd h
    later d (refused unknown_operator) h = absurd h
