-- ===== src/Reconciler.antt =====
-- internal/reconciler/reconciler.go: one pass of the loop that brings the status of Workflows in
-- line with their specs. Logging is not modelled; an error is returned where the source logs it.
pub mod Validation
pub mod Convergence
pub mod Writes
pub mod Loop
pub mod Staleness
pub mod Passes
pub mod Steady
pub mod Reports
use kestrai.Prelude.{
  ℕ, ◌&&◌, Bool, true, false, Option, none, some, List, [], ◌∷◌, Result, ok, err, if◌then◌else◌,
}
use kestrai.Text.{Str, codes, str_eq, is_empty}
use kestrai.Store.{Record, Error, ListOptions}
use kestrai.Store.Contract.{Store}
use kestrai.Api.{
  Workflow, WorkflowSpec, WorkflowStatus, WorkflowPhase, Condition, empty_meta, get_conditions,
}
use kestrai.Server.Wire.{Wire, ProtoEqual}
use kestrai.Server.Resources.{kind_workflow, or_empty}
use kestrai.Auth.{default_tenant}

-- `Reconciler`, without its store and its logger; the interval is an int64 of nanoseconds.
pub record Settings : Type 0 where
  pub tenant : Str
  pub interval : ℕ

-- An `Option` of `New`.
pub data Setting : Type 0 where
  with_interval : ℕ → Setting
  with_logger : Setting

abbrev pub configured : Setting → Settings → Settings
configured (Setting.with_interval d) r = record r { interval = d }
configured Setting.with_logger r = r

abbrev pub configure_all : List Setting → Settings → Settings
configure_all [] r = r
configure_all (o ∷ opts) r = configure_all opts (configured o r)

-- `New`
unfoldable pub new_reconciler : List Setting → Settings
new_reconciler opts = configure_all opts (record { tenant = default_tenant; interval = 1000000000 })

-- What `validateWorkflowSpec` returns.
pub record Verdict : Type 0 where
  pub valid : Bool
  pub reason : Str
  pub message : Str

abbrev pub verdict : Bool → Str → Str → Verdict
verdict valid reason message = record { valid = valid; reason = reason; message = message }

-- The loop over the phases.
unfoldable pub check_phases : List WorkflowPhase → Verdict
check_phases [] = verdict true (codes "SpecValid") (codes "Workflow spec validated.")
check_phases (phase ∷ phases) =
    let rest = check_phases phases in
    if is_empty phase.name
    then verdict false (codes "UnnamedPhase") (codes "every pipeline phase requires a name.")
    else rest

abbrev pub is_nil : {A : Type 0} → List A → Bool
is_nil [] = true
is_nil (x ∷ xs) = false

unfoldable pub validate_workflow_spec : Option WorkflowSpec → Verdict
unfolding check_phases
validate_workflow_spec none = verdict false (codes "MissingSpec") (codes "Workflow has no spec.")
validate_workflow_spec (some spec) =
    if is_empty spec.goal
    then verdict false (codes "MissingGoal") (codes "spec.goal is required.")
    else if is_nil spec.pipeline
    then verdict false (codes "EmptyPipeline")
        (codes "spec.pipeline must declare at least one phase.")
    else check_phases spec.pipeline

-- `findCondition`
unfoldable pub find_condition : List Condition → Str → Option Condition
find_condition [] type = none
find_condition (c ∷ conditions) type =
    if str_eq c.type type then some c else find_condition conditions type

abbrev pub status_text : Bool → Str
status_text true = codes "True"
status_text false = codes "False"

-- The transition time: the prior one where the state is the same.
unfoldable pub transition : ℕ → Option Condition → Bool → Option ℕ
transition now none holds = some now
transition now (some prior) holds =
    if str_eq prior.status (status_text holds) then prior.last_transition_time else some now

-- `condition`; `now` is the clock at the call.
unfoldable pub condition : ℕ → Option WorkflowStatus → Str → Bool → Str → Str → ℕ → Condition
unfolding transition
condition now prev type holds reason message generation = record {
  type = type;
  status = status_text holds;
  reason = reason;
  message = message;
  last_transition_time = transition now (find_condition (get_conditions prev) type) holds;
  observed_generation = generation;
}

-- The clock at the two calls of `condition`.
pub record Clock : Type 0 where
  pub validated_at : ℕ
  pub ready_at : ℕ

abbrev active_run_count : Option WorkflowStatus → ℕ
active_run_count none = 0
active_run_count (some st) = st.active_run_count

abbrev last_run_ref : Option WorkflowStatus → Str
last_run_ref none = []
last_run_ref (some st) = st.last_run_ref

unfoldable pub ready_condition : ℕ → Option WorkflowStatus → Verdict → ℕ → Condition
ready_condition now prev v generation =
    if v.valid
    then condition now prev (codes "Ready") true (codes "WorkflowReady")
        (codes "Workflow is valid and ready to run.") generation
    else condition now prev (codes "Ready") false (codes "ValidationFailed") v.message generation

-- The status for a verdict.
unfoldable pub verdict_status : Clock → Verdict → Option WorkflowStatus → ℕ → WorkflowStatus
unfolding ready_condition
verdict_status clock v prev generation = record {
  conditions =
      condition clock.validated_at prev (codes "Validated") v.valid v.reason v.message generation
      ∷ ready_condition clock.ready_at prev v generation
      ∷ [];
  observed_generation = generation;
  active_run_count = active_run_count prev;
  last_run_ref = last_run_ref prev;
}

-- `computeWorkflowStatus`
unfoldable pub compute_workflow_status :
    Clock → Option WorkflowSpec → Option WorkflowStatus → ℕ → WorkflowStatus
compute_workflow_status clock spec prev generation =
    verdict_status clock (validate_workflow_spec spec) prev generation

-- A race with another write is not an error.
abbrev pub swallow : {S D : Type 0} → S × Result Error (Record D) → S × Option Error
swallow (s, ok r) = (s, none)
swallow (s, err Error.conflict) = (s, none)
swallow (s, err Error.not_found) = (s, none)
swallow (s, err Error.already_exists) = (s, some Error.already_exists)
swallow (s, err (Error.other e)) = (s, some (Error.other e))

module _ {S D : Type 0} (st : Store S D) (wire : Wire D Workflow)
    (eq : ProtoEqual (Option WorkflowStatus)) where
  -- The write of a status that changed.
  unfoldable pub write_status : S → Record D → Workflow → S × Option Error
  write_status s rec wf = elim (wire.marshal wf) [
    | err e ↦ (s, some (Error.other e))
    | ok body ↦ swallow (st.update s (record rec { body = body }))
  ]

  pub with_status : Workflow → WorkflowStatus → Workflow
  with_status wf status = record {
    metadata = some (or_empty wf.metadata);
    spec = wf.spec;
    status = some status;
  }

  unfoldable pub converge : Clock → S → Record D → Workflow → S × Option Error
  unfolding write_status with_status
  converge clock s rec wf =
      let desired = compute_workflow_status clock wf.spec wf.status rec.generation in
      if eq.equal wf.status (some desired)
      then (s, none)
      else write_status s rec (with_status wf desired)

  -- `reconcileWorkflow`; `none` is a nil error.
  unfoldable pub reconcile_workflow : Clock → S → Record D → S × Option Error
  unfolding converge
  reconcile_workflow clock s rec = elim (wire.unmarshal rec.body) [
    | err e ↦ (s, some (Error.other e))
    | ok wf ↦ converge clock s rec wf
  ]

  -- The loop of `reconcileAll`: an error of one Workflow does not stop the others. `clock` has the
  -- readings for each record, `others` what other clients do before its turn.
  unfoldable pub reconcile_records :
      (Record D → Clock) → (Record D → S → S) → S → List (Record D) → S
  reconcile_records clock others s [] = s
  reconcile_records clock others s (rec ∷ recs) =
      reconcile_records clock others (reconcile_workflow (clock rec) (others rec s) rec).0 recs

  unfoldable pub after_list :
      (Record D → Clock) → (Record D → S → S) → S → Result Error (List (Record D) × Str) → S
  after_list clock others s (err e) = s
  after_list clock others s (ok (recs, token)) = reconcile_records clock others s recs

  abbrev pub all_workflows : Settings → ListOptions
  all_workflows r = record {
    tenant_id = r.tenant;
    kind = kind_workflow;
    project = [];
    label_selector = [];
    limit = 0;
    continue_token = [];
  }

  -- `reconcileAll`
  unfoldable pub reconcile_all : Settings → (Record D → Clock) → (Record D → S → S) → S → S
  unfolding after_list
  reconcile_all r clock others s = after_list clock others s (st.list s (all_workflows r))
