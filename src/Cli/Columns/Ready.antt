-- ===== src/Cli/Columns/Ready.antt =====
-- The READY column of a Workflow that the reconciler has seen.
use kestrai.Prelude.{ℕ, ◌≡◌, ◌↔◌, refl, sym, ◌∙◌, Bool, true, false, Option, some}
use kestrai.Text.{Str, codes, str_eq}
use kestrai.Api.{WorkflowSpec, WorkflowStatus}
use kestrai.Reconciler.{
  Clock, verdict, verdict_status, compute_workflow_status, condition, ready_condition, status_text,
  validate_workflow_spec,
}
use kestrai.Reconciler.Validation.{IsRunnable, validate_workflow_spec_iff}
use kestrai.Cli.Columns.{condition_state}

shown_verdict :
    (clock : Clock) (holds : Bool) (reason message : Str) (prev : Option WorkflowStatus)
    (generation : ℕ)
    → condition_state (some (verdict_status clock (verdict holds reason message) prev generation))
      ≡ status_text holds
unfolding condition_state verdict_status ready_condition condition str_eq
shown_verdict clock true reason message prev generation = refl
shown_verdict clock false reason message prev generation = refl

status_text-true : (b : Bool) → (status_text b ≡ codes "True") ↔ (b ≡ true)
status_text-true true = ((λ e. refl), (λ e. refl))
status_text-true false = ((λ e. absurd cc), (λ e. absurd cc))

-- Once the reconciler has computed the status of a Workflow, `kestrai get workflow` shows True in the
-- READY column exactly if the spec is there, has a goal and at least one phase, and names every
-- phase.
pub condition_state-IsRunnable :
    (clock : Clock) (spec : Option WorkflowSpec) (prev : Option WorkflowStatus) (generation : ℕ)
    → (condition_state (some (compute_workflow_status clock spec prev generation)) ≡ codes "True")
      ↔ IsRunnable spec
unfolding compute_workflow_status
condition_state-IsRunnable clock spec prev generation =
    let v = validate_workflow_spec spec in
    let shown = shown_verdict clock v.valid v.reason v.message prev generation in
    let (there, back) = validate_workflow_spec_iff spec in
    let (to, from) = status_text-true v.valid in
    ((λ h. there (to (sym shown ∙ h))), (λ r. shown ∙ from (back r)))
