-- ===== src/Tools/Lowering/Marks.antt =====
-- core/tools/lowering.c: what a mark says of a function, and that it keeps what was known.
use functional_c.Prelude.{
  ◌≡◌, ◌≢◌, refl, ap, sym, ◌∙◌, Bool, true, false, List, [], ◌∷◌, if◌then◌else◌, Bool-cases, inl,
  inr, map,
}
use functional_c.Prelude.Text.{Text, same_text}
use functional_c.Tools.Ast.{
  FunctionKind, value, predicate, accumulator, projector, factory, unknown, FunctionInfo,
}
use functional_c.Tools.Lowering.{
  LoweringError, Lowered, lowered, refused, ◌>>=◌, agrees, mark_function_usage,
}

-- `P` holds of what is lowered, if anything is.
abbrev pub Holds : {A : Type 0} → (A → Type 0) → Lowered A → Type 0
Holds P (lowered a) = P a
Holds P (refused e) = Unit

pub Holds-bind :
    {A B : Type 0} (P : A → Type 0) (Q : B → Type 0) (r : Lowered A) (f : A → Lowered B)
    → Holds P r
    → ((a : A) → P a → Holds Q (f a))
    → Holds Q (r >>= f)
Holds-bind P Q (lowered a) f h k = k a h
Holds-bind P Q (refused e) f h k = tt

pub Holds-weaken :
    {A : Type 0} (P Q : A → Type 0) (r : Lowered A) → ((a : A) → P a → Q a) → Holds P r → Holds Q r
Holds-weaken P Q (lowered a) k h = k a h
Holds-weaken P Q (refused e) k h = tt

pub Holds-if :
    {A : Type 0} (P : A → Type 0) (b : Bool) (r : Lowered A) (e : LoweringError)
    → (b ≡ true → Holds P r)
    → Holds P (if b then r else refused e)
Holds-if P true r e h = h refl
Holds-if P false r e h = tt

-- The first function of that name is used, and as that kind.
abbrev pub HasKind : List FunctionInfo → Text → FunctionKind → Type 0
HasKind [] name kind = ⊥
HasKind (info ∷ rest) name kind =
    if same_text info.def.name name
    then (info.kind ≡ kind) × (info.used ≡ true)
    else HasKind rest name kind

-- What was known of the functions is still so.
pub record Extends (fs gs : List FunctionInfo) : Type 0 where
  pub kept :
      (name : Text) (kind : FunctionKind)
      → kind ≢ unknown
      → HasKind fs name kind
      → HasKind gs name kind
  pub same_defs : map (λ (i : FunctionInfo). i.def) gs ≡ map (λ (i : FunctionInfo). i.def) fs

pub Extends-refl : (fs : List FunctionInfo) → Extends fs fs
Extends-refl fs = record { kept = λ name kind ne h. h; same_defs = refl }

pub Extends-trans : {fs gs hs : List FunctionInfo} → Extends fs gs → Extends gs hs → Extends fs hs
Extends-trans p q = record {
  kept = λ name kind ne h. q.kept name kind ne (p.kept name kind ne h);
  same_defs = q.same_defs ∙ p.same_defs;
}

agrees→eq :
    (kind expected : FunctionKind) → kind ≢ unknown → agrees kind expected ≡ true → expected ≡ kind
unfolding agrees
agrees→eq unknown expected ne h = absurd (ne refl)
agrees→eq value value ne h = refl
agrees→eq value _ ne h = cc
agrees→eq predicate predicate ne h = refl
agrees→eq predicate _ ne h = cc
agrees→eq accumulator accumulator ne h = refl
agrees→eq accumulator _ ne h = cc
agrees→eq projector projector ne h = refl
agrees→eq projector _ ne h = cc
agrees→eq factory factory ne h = refl
agrees→eq factory _ ne h = cc

-- The entry that a mark changes.
abbrev pub marked : FunctionInfo → FunctionKind → FunctionInfo
marked info expected = record info { kind = expected; used = true }

Extends-found :
    (info : FunctionInfo) (rest : List FunctionInfo) (expected : FunctionKind)
    → agrees info.kind expected ≡ true
    → Extends (info ∷ rest) (marked info expected ∷ rest)
Extends-found info rest expected agree = record { kept = kept; same_defs = refl }
  where
    kept :
        (name : Text) (kind : FunctionKind)
        → kind ≢ unknown
        → HasKind (info ∷ rest) name kind
        → HasKind (marked info expected ∷ rest) name kind
    kept name kind ne h = elim (Bool-cases (same_text info.def.name name)) [
      | inl s ↦
          let (k, u) = rw s at h in
          rw s (agrees→eq info.kind expected (λ e. ne (sym k ∙ e)) agree ∙ k, refl)
      | inr d ↦ let later = rw d at h in rw d later
    ]

Extends-cons :
    (info : FunctionInfo) {fs gs : List FunctionInfo}
    → Extends fs gs
    → Extends (info ∷ fs) (info ∷ gs)
Extends-cons info {fs} {gs} p = record { kept = kept; same_defs = ap (◌∷◌ info.def) p.same_defs }
  where
    kept :
        (name : Text) (kind : FunctionKind)
        → kind ≢ unknown
        → HasKind (info ∷ fs) name kind
        → HasKind (info ∷ gs) name kind
    kept name kind ne h = elim (Bool-cases (same_text info.def.name name)) [
      | inl s ↦ let here = rw s at h in rw s here
      | inr d ↦ let later = rw d at h in rw d (p.kept name kind ne later)
    ]

abbrev Marked : List FunctionInfo → Text → FunctionKind → List FunctionInfo → Type 0
Marked fs name kind gs = HasKind gs name kind × Extends fs gs

pub mark_function_usage-Marked :
    (fs : List FunctionInfo) (name : Text) (kind : FunctionKind)
    → Holds (Marked fs name kind) (mark_function_usage fs name kind)
unfolding mark_function_usage
mark_function_usage-Marked [] name kind = tt
mark_function_usage-Marked (info ∷ rest) name kind =
    elim (Bool-cases (same_text info.def.name name)) [
      | inl s ↦ rw s (elim (Bool-cases (agrees info.kind kind)) [
        | inl agree ↦ rw agree (rw s (refl, refl), Extends-found info rest kind agree)
        | inr clash ↦ rw clash tt
      ])
      | inr d ↦ rw d (
          Holds-bind (Marked rest name kind) (Marked (info ∷ rest) name kind)
            (mark_function_usage rest name kind) (λ gs. lowered (info ∷ gs))
            (mark_function_usage-Marked rest name kind)
            (λ gs (h, more). (rw d h, Extends-cons info more)))
    ]
