-- ===== src/Planner/EndToEnd/Stages.antt =====
-- What simplify.c accepts, lower.c has a case for: the two switches on a stage's kind and the two
-- chains of tests on a source's name.
use Prim.Native.String.{String}
use text.Mathlib.Text.{◌==◌ as str_eq}
use functional_c.Prelude.{
  ℕ, ◌+◌, Bool, true, false, ◌&&◌, Option, none, some, List, [], ◌∷◌, ◌++◌, length, ◌==◌, map,
  arith, ◌≡◌, refl, ◌∙◌, Bool-cases, inl, inr,
}
use functional_c.Planner.PipelineIr.{
  SourceCall, StageCall, PipelineIr, StageKind, PlannedStage, Diagnostic, FunctionSignature,
  Binding, by_name,
}
use functional_c.Planner.Simplify.{
  source_names, source_is_self_contained, kind_is_self_contained, planned_stage_kind, is_candidate,
  stage_is_self_contained, planned_stage, unless, stage_diagnostics, stages_diagnostics,
  no_diagnostics, pipeline_diagnostics,
}
use functional_c.Planner.Lower.{source_table, lower_source, lower_kind}

abbrev pub is_some {ℓ} : {A : Type ℓ} → Option A → Bool
is_some none = false
is_some (some a) = true

-- The planner's test of a stage's kind accepts exactly the kinds that the lowering has a case for.
pub kind_is_self_contained-lower_kind :
    (k : StageKind) (stage : PlannedStage) → is_some (lower_kind k stage) ≡ kind_is_self_contained k
unfolding lower_kind kind_is_self_contained
kind_is_self_contained-lower_kind StageKind.map stage = refl
kind_is_self_contained-lower_kind StageKind.map_into stage = refl
kind_is_self_contained-lower_kind StageKind.pair_map stage = refl
kind_is_self_contained-lower_kind StageKind.triple_map stage = refl
kind_is_self_contained-lower_kind StageKind.map_chain stage = refl
kind_is_self_contained-lower_kind StageKind.filter stage = refl
kind_is_self_contained-lower_kind StageKind.scan stage = refl
kind_is_self_contained-lower_kind StageKind.scan_from stage = refl
kind_is_self_contained-lower_kind StageKind.scan_mut stage = refl
kind_is_self_contained-lower_kind StageKind.reduce stage = refl
kind_is_self_contained-lower_kind StageKind.reduce_mut stage = refl
kind_is_self_contained-lower_kind StageKind.map_to stage = refl
kind_is_self_contained-lower_kind StageKind.take stage = refl
kind_is_self_contained-lower_kind StageKind.skip stage = refl
kind_is_self_contained-lower_kind StageKind.take_while stage = refl
kind_is_self_contained-lower_kind StageKind.skip_while stage = refl
kind_is_self_contained-lower_kind StageKind.distinct stage = refl
kind_is_self_contained-lower_kind StageKind.distinct_until_changed stage = refl
kind_is_self_contained-lower_kind StageKind.last stage = refl
kind_is_self_contained-lower_kind StageKind.first stage = refl
kind_is_self_contained-lower_kind StageKind.merge_map stage = refl
kind_is_self_contained-lower_kind StageKind.zip stage = refl
kind_is_self_contained-lower_kind StageKind.unsupported stage = refl

pub is_some-lem {ℓ} : {A : Type ℓ} (o : Option A) → is_some o ≡ true → (a : A) × (o ≡ some a)
is_some-lem none h = ground arith
is_some-lem (some a) h = (a, refl)

-- Two tables with the same names; the second answers each with something.
SameNames {ℓ} : {A : Type ℓ} → List (String × Bool) → List (String × Option A) → Type 0
SameNames [] table = Unit
SameNames (x ∷ names) [] = ⊥
SameNames ((s, b) ∷ names) ((s', o) ∷ table) = (s ≡ s') × (is_some o ≡ true) × SameNames names table

by_name-SameNames {ℓ} :
    {A : Type ℓ} (name : String) (names : List (String × Bool)) (table : List (String × Option A))
    → SameNames names table
    → by_name name names false ≡ true
    → is_some (by_name name table none) ≡ true
unfolding SameNames
by_name-SameNames name [] table h e = ground arith
by_name-SameNames name (x ∷ names) [] h e = elim h [ ]
by_name-SameNames name ((s, b) ∷ names) ((s', o) ∷ table) h e = elim (Bool-cases (str_eq name s)) [
  | inl m ↦ rw (← h.0) (rw m h.1)
  | inr m ↦ rw (← h.0) (rw m (by_name-SameNames name names table h.2 (rw m at e)))
]

lower_source-of :
    (o : Option FunctionSignature) (args : List Binding)
    → source_is_self_contained (record { signature = o; arguments = args }) ≡ true
    → is_some (lower_source (record { signature = o; arguments = args })) ≡ true
unfolding source_is_self_contained lower_source source_table SameNames
lower_source-of none args h = h
lower_source-of (some f) args h =
    by_name-SameNames f.name source_names
      (source_table (record { signature = some f; arguments = args }))
      (
        refl,
        refl,
        (refl, refl, (refl, refl, (refl, refl, (refl, refl, (refl, refl, (refl, refl, tt)))))),
      )
      h

-- Each source that the planner takes has a loop.
pub lower_source-source_is_self_contained :
    (source : SourceCall)
    → source_is_self_contained source ≡ true
    → is_some (lower_source source) ≡ true
lower_source-source_is_self_contained source h = lower_source-of source.signature source.arguments h

-- What the lowering needs of a stage.
unfoldable pub AreLowerable : List PlannedStage → Type 0
AreLowerable [] = Unit
AreLowerable (s ∷ stages) = (is_some (lower_kind s.kind s) ≡ true) × AreLowerable stages

no_diagnostics-append :
    (ds ds' : List Diagnostic)
    → no_diagnostics (ds ++ ds') ≡ true
    → (no_diagnostics ds ≡ true) × (no_diagnostics ds' ≡ true)
unfolding no_diagnostics
no_diagnostics-append [] ds' h = (refl, h)
no_diagnostics-append (d ∷ ds) ds' h = ground arith

no_diagnostics-unless :
    (ok : Bool) (d : Diagnostic) → no_diagnostics (unless ok d) ≡ true → ok ≡ true
unfolding no_diagnostics
no_diagnostics-unless true d h = refl
no_diagnostics-unless false d h = h

and_right : (a b : Bool) → (a && b) ≡ true → b ≡ true
and_right a b h = ground arith

planned_stage-lowerable :
    (s : StageCall)
    → stage_is_self_contained s ≡ true
    → is_some (lower_kind (planned_stage s).kind (planned_stage s)) ≡ true
unfolding stage_is_self_contained planned_stage
planned_stage-lowerable s h =
    kind_is_self_contained-lower_kind (planned_stage_kind s.signature) (planned_stage s)
    ∙ and_right (is_candidate s.signature) _ h

stages_diagnostics-AreLowerable :
    (chain index : ℕ) (stages : List StageCall)
    → no_diagnostics (stages_diagnostics chain index stages) ≡ true
    → AreLowerable (map planned_stage stages)
unfolding stages_diagnostics stage_diagnostics AreLowerable
stages_diagnostics-AreLowerable chain index [] h = tt
stages_diagnostics-AreLowerable chain index (s ∷ stages) h =
    let parts = no_diagnostics-append (stage_diagnostics chain index (length stages == 0) s) _ h in
    let first = no_diagnostics-append (unless (stage_is_self_contained s) _) _ parts.0 in
    (
      planned_stage-lowerable s (no_diagnostics-unless _ _ first.0),
      stages_diagnostics-AreLowerable chain (index + 1) stages parts.1,
    )

pub pipeline_diagnostics-AreLowerable :
    (chain : ℕ) (p : PipelineIr)
    → no_diagnostics (pipeline_diagnostics chain p) ≡ true
    → AreLowerable (map planned_stage p.stages)
unfolding pipeline_diagnostics
pipeline_diagnostics-AreLowerable chain p h =
    elim (Bool-cases (no_diagnostics (stages_diagnostics chain 0 p.stages))) [
      | inl e ↦ stages_diagnostics-AreLowerable chain 0 p.stages e
      | inr e ↦ stages_diagnostics-AreLowerable chain 0 p.stages (rw e at h)
    ]
