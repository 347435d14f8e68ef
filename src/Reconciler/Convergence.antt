-- ===== src/Reconciler/Convergence.antt =====
-- The steady state of computeWorkflowStatus: the transition times, and the status computed again.
use kestrai.Prelude.{◌≡◌, refl, ℕ, Bool, true, false, Option, none, some, ◌↔◌, ◌∙◌, sym}
use kestrai.Text.{Str, codes, str_eq}
use kestrai.Api.{WorkflowSpec, WorkflowStatus}
use kestrai.Reconciler.{
  Clock, verdict, verdict_status, compute_workflow_status, condition, ready_condition, transition,
  find_condition, validate_workflow_spec,
}
use kestrai.Reconciler.Validation.{IsRunnable, validate_workflow_spec_iff}

verdict_status_idempotent :
    (clock later : Clock) (holds : Bool) (reason message : Str) (prev : Option WorkflowStatus)
    (generation : ℕ)
    → let v = verdict holds reason message in
      verdict_status later v (some (verdict_status clock v prev generation)) generation
      ≡ verdict_status clock v prev generation
unfolding verdict_status ready_condition condition find_condition transition str_eq
verdict_status_idempotent clock later true reason message prev generation = refl
verdict_status_idempotent clock later false reason message prev generation = refl

-- Computed again for the same spec and generation, at any later time, the status is the same: the
-- transition times are those of the first computation.
pub compute_workflow_status_idempotent :
    (clock later : Clock) (spec : Option WorkflowSpec) (prev : Option WorkflowStatus)
    (generation : ℕ)
    → compute_workflow_status later spec
        (some (compute_workflow_status clock spec prev generation))
        generation
      ≡ compute_workflow_status clock spec prev generation
unfolding compute_workflow_status
compute_workflow_status_idempotent clock later spec prev generation =
    let v = validate_workflow_spec spec in
    verdict_status_idempotent clock later v.valid v.reason v.message prev generation

-- Whether the condition of a type is there and holds.
unfoldable pub holds_in : WorkflowStatus → Str → Bool
holds_in st type = elim (find_condition st.conditions type) [
  | none ↦ false
  | some c ↦ str_eq c.status (codes "True")
]

verdict_status_holds :
    (clock : Clock) (holds : Bool) (reason message : Str) (prev : Option WorkflowStatus)
    (generation : ℕ)
    → let st = verdict_status clock (verdict holds reason message) prev generation in
      (holds_in st (codes "Validated") ≡ holds) × (holds_in st (codes "Ready") ≡ holds)
unfolding holds_in verdict_status ready_condition condition find_condition str_eq
verdict_status_holds clock true reason message prev generation = (refl, refl)
verdict_status_holds clock false reason message prev generation = (refl, refl)

-- The status says Validated, and Ready, exactly if the spec is there, has a goal and at least one
-- phase, and names every phase; whatever the status was before.
pub compute_workflow_status-IsRunnable :
    (clock : Clock) (spec : Option WorkflowSpec) (prev : Option WorkflowStatus) (generation : ℕ)
    → let st = compute_workflow_status clock spec prev generation in
      ((holds_in st (codes "Validated") ≡ true) ↔ IsRunnable spec)
      × ((holds_in st (codes "Ready") ≡ true) ↔ IsRunnable spec)
unfolding compute_workflow_status
compute_workflow_status-IsRunnable clock spec prev generation =
    let v = validate_workflow_spec spec in
    let (validated, ready) =
      verdict_status_holds clock v.valid v.reason v.message prev generation in
    let (there, back) = validate_workflow_spec_iff spec in
    (
      ((λ h. there (sym validated ∙ h)), (λ r. validated ∙ back r)),
      ((λ h. there (sym ready ∙ h)), (λ r. ready ∙ back r)),
    )
