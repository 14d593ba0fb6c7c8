-- ===== src/Tools/Lowering/Blame.antt =====
-- core/tools/lowering.c: what an error says of the uses of the functions.
use functional_c.Prelude.{
  ◌≡◌, refl, sym, subst, ◌∙◌, false, if◌then◌else◌, List, [], ◌∷◌, ◌⊎◌, inl, inr,
}
use functional_c.Prelude.Text.{Text, same_text}
use functional_c.Tools.Ast.{SourceKind, FunctionKind, unknown, FunctionInfo}
use functional_c.Tools.Lowering.{
  LoweringError, unknown_function, conflicting_kinds, invalid_source, unknown_operator, Lowered,
  lowered, refused, ◌>>=◌, agrees,
}
use functional_c.Tools.Lowering.Complete.{Declared}

-- The kind that is recorded for the first function of a name.
abbrev pub kind_at : Text → List FunctionInfo → FunctionKind
kind_at name [] = unknown
kind_at name (info ∷ rest) = if same_text info.def.name name then info.kind else kind_at name rest

-- Uses of functions: the name, and the kind that it is used as.
abbrev pub Uses : Type 1
Uses = Text → FunctionKind → Type 0

-- A declared function is used as one kind and used, or recorded before, as another.
pub record Conflict (fs : List FunctionInfo) (N : Uses) (name : Text) : Type 0 where
  pub declared : Declared name fs
  pub first : FunctionKind
  pub second : FunctionKind
  pub differ : agrees first second ≡ false
  pub used : N name second
  pub before : (kind_at name fs ≡ first) ⊎ N name first

-- What an error says, where these functions are declared, of these uses and invalid sources.
abbrev pub Blamed : List FunctionInfo → Uses → (SourceKind → Type 0) → LoweringError → Type 0
Blamed fs N I (unknown_function n) = ((k : FunctionKind) × N n k) × (Declared n fs → ⊥)
Blamed fs N I (conflicting_kinds n) = Conflict fs N n
Blamed fs N I (invalid_source kind) = I kind
Blamed fs N I unknown_operator = ⊥

-- The same names are declared, and a kind that is recorded was recorded before, or is that of a use.
pub record Follows (N : Uses) (fs gs : List FunctionInfo) : Type 0 where
  pub forth : (name : Text) → Declared name fs → Declared name gs
  pub back : (name : Text) → Declared name gs → Declared name fs
  pub kept : (name : Text) → (kind_at name gs ≡ kind_at name fs) ⊎ N name (kind_at name gs)

pub Follows-refl : (N : Uses) (fs : List FunctionInfo) → Follows N fs fs
Follows-refl N fs = record { forth = λ name d. d; back = λ name d. d; kept = λ name. inl refl }

-- A success that follows, or an error that is explained.
abbrev pub Explained :
    Uses → (SourceKind → Type 0) → List FunctionInfo → Lowered (List FunctionInfo) → Type 0
Explained N I fs (lowered gs) = Follows N fs gs
Explained N I fs (refused e) = Blamed fs N I e

module _ {N M : Uses} {I J : SourceKind → Type 0}
    (wider : (n : Text) (k : FunctionKind) → N n k → M n k)
    (wider_sources : (kind : SourceKind) → I kind → J kind) where
  -- More uses and invalid sources explain the same.
  pub Explained-mono :
      (fs : List FunctionInfo) (r : Lowered (List FunctionInfo))
      → Explained N I fs r
      → Explained M J fs r
  Explained-mono fs (lowered gs) h = record {
    forth = h.forth;
    back = h.back;
    kept =
        λ name. elim (h.kept name) [ inl e ↦ inl e | inr u ↦ inr (wider name (kind_at name gs) u) ];
  }
  Explained-mono fs (refused (unknown_function n)) ((k, u), h) = ((k, wider n k u), h)
  Explained-mono fs (refused (conflicting_kinds n)) c = record {
    declared = c.declared;
    first = c.first;
    second = c.second;
    differ = c.differ;
    used = wider n c.second c.used;
    before = elim (c.before) [ inl e ↦ inl e | inr u ↦ inr (wider n c.first u) ];
  }
  Explained-mono fs (refused (invalid_source kind)) h = wider_sources kind h
  Explained-mono fs (refused unknown_operator) h = absurd h

module _ (N : Uses) (I : SourceKind → Type 0) where
  -- What is explained behind a step is explained with the step.
  behind_step :
      (fs gs : List FunctionInfo) (r : Lowered (List FunctionInfo))
      → Follows N fs gs
      → Explained N I gs r
      → Explained N I fs r
  behind_step fs gs (lowered hs) s h = record {
    forth = λ name d. h.forth name (s.forth name d);
    back = λ name d. s.back name (h.back name d);
    kept = λ name. elim (h.kept name) [
      | inr u ↦ inr u
      | inl e ↦ elim (s.kept name) [
        | inl e' ↦ inl (e ∙ e')
        | inr u ↦ inr (subst (N name) (sym e) u)
      ]
    ];
  }
  behind_step fs gs (refused (unknown_function n)) s (u, h) = (u, λ d. h (s.forth n d))
  behind_step fs gs (refused (conflicting_kinds n)) s c = record {
    declared = s.back n c.declared;
    first = c.first;
    second = c.second;
    differ = c.differ;
    used = c.used;
    before = elim (c.before) [
      | inr u ↦ inr u
      | inl e ↦ elim (s.kept n) [ inl e' ↦ inl (sym e' ∙ e) | inr u ↦ inr (subst (N n) e u) ]
    ];
  }
  behind_step fs gs (refused (invalid_source kind)) s h = h
  behind_step fs gs (refused unknown_operator) s h = absurd h

  -- One step and the next.
  pub Explained-bind :
      (fs : List FunctionInfo) (r : Lowered (List FunctionInfo))
      (f : List FunctionInfo → Lowered (List FunctionInfo))
      → Explained N I fs r
      → ((gs : List FunctionInfo) → Explained N I gs (f gs))
      → Explained N I fs (r >>= f)
  Explained-bind fs (lowered gs) f h next = behind_step fs gs (f gs) h (next gs)
  Explained-bind fs (refused e) f h next = h
