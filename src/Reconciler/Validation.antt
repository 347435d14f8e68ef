-- ===== src/Reconciler/Validation.antt =====
-- When a Workflow spec is valid.
use kestrai.Prelude.{
  ◌≡◌, ◌≢◌, ◌↔◌, refl, true, false, Option, none, some, List, [], ◌∷◌, arith, All,
}
use kestrai.Text.{Str, is_empty}
use kestrai.Api.{WorkflowSpec, WorkflowPhase}
use kestrai.Reconciler.{validate_workflow_spec, check_phases, is_nil}

-- A goal, at least one phase, and a name for every phase.
abbrev pub IsRunnable : Option WorkflowSpec → Type 0
IsRunnable none = ⊥
IsRunnable (some spec) =
    (spec.goal ≢ []) × (spec.pipeline ≢ []) × All (λ phase. phase.name ≢ []) spec.pipeline

is_empty_iff : (s : Str) → (is_empty s ≡ false) ↔ (s ≢ [])
is_empty_iff [] = ((λ h. cc), (λ h. absurd (h refl)))
is_empty_iff (c ∷ s) = ((λ h e. cc), (λ h. refl))

is_nil_iff : {A : Type 0} (xs : List A) → (is_nil xs ≡ false) ↔ (xs ≢ [])
is_nil_iff [] = ((λ h. cc), (λ h. absurd (h refl)))
is_nil_iff (x ∷ xs) = ((λ h e. cc), (λ h. refl))

check_phases_iff :
    (phases : List WorkflowPhase)
    → ((check_phases phases).valid ≡ true) ↔ All (λ phase. phase.name ≢ []) phases
unfolding check_phases
check_phases_iff [] = ((λ h. tt), (λ h. refl))
check_phases_iff (phase ∷ phases) =
    let named = is_empty_iff phase.name in
    let rest = check_phases_iff phases in
    (
      (λ h. (named.0 (ground arith), rest.0 (ground arith))),
      (λ (h, hs). let a = named.1 h in let b = rest.1 hs in ground arith),
    )

-- A spec is valid exactly if it is there, has a goal and at least one phase, and names every phase.
pub validate_workflow_spec_iff :
    (spec : Option WorkflowSpec) → ((validate_workflow_spec spec).valid ≡ true) ↔ IsRunnable spec
validate_workflow_spec_iff none = unfold validate_workflow_spec in ((λ h. cc), (λ h. absurd h))
validate_workflow_spec_iff (some spec) =
    unfold validate_workflow_spec in
    let goal = is_empty_iff spec.goal in
    let pipeline = is_nil_iff spec.pipeline in
    let phases = check_phases_iff spec.pipeline in
    (
      (λ h. (goal.0 (ground arith), pipeline.0 (ground arith), phases.0 (ground arith))),
      (λ (g, p, all). rw (goal.1 g, pipeline.1 p, phases.1 all)),
    )
