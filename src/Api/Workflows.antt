-- ===== src/Api/Workflows.antt =====
-- The generated getters of gen/go/kestrai/v1alpha1/workflow.pb.go: a nil message reads as an empty one.
use kestrai.Prelude.{ℕ, Bool, false, Option, none, some, List, []}
use kestrai.Text.{Str}
use kestrai.Api.{Budget, Workflow, WorkflowConstraints, WorkflowPhase, WorkflowSpec, WorkflowStatus}

abbrev pub spec_of_workflow : Option Workflow → Option WorkflowSpec
spec_of_workflow none = none
spec_of_workflow (some m) = m.spec

abbrev pub status_of_workflow : Option Workflow → Option WorkflowStatus
status_of_workflow none = none
status_of_workflow (some m) = m.status

abbrev pub goal_of_workflow_spec : Option WorkflowSpec → Str
goal_of_workflow_spec none = []
goal_of_workflow_spec (some m) = m.goal

abbrev pub constraints_of_workflow_spec : Option WorkflowSpec → Option WorkflowConstraints
constraints_of_workflow_spec none = none
constraints_of_workflow_spec (some m) = m.constraints

abbrev pub pipeline_of_workflow_spec : Option WorkflowSpec → List WorkflowPhase
pipeline_of_workflow_spec none = []
pipeline_of_workflow_spec (some m) = m.pipeline

abbrev pub stack_of_workflow_constraints : Option WorkflowConstraints → List Str
stack_of_workflow_constraints none = []
stack_of_workflow_constraints (some m) = m.stack

abbrev pub deadline_of_workflow_constraints : Option WorkflowConstraints → Option ℕ
deadline_of_workflow_constraints none = none
deadline_of_workflow_constraints (some m) = m.deadline

abbrev pub budget_of_workflow_constraints : Option WorkflowConstraints → Option Budget
budget_of_workflow_constraints none = none
budget_of_workflow_constraints (some m) = m.budget

abbrev pub name_of_workflow_phase : Option WorkflowPhase → Str
name_of_workflow_phase none = []
name_of_workflow_phase (some m) = m.name

abbrev pub agents_of_workflow_phase : Option WorkflowPhase → List Str
agents_of_workflow_phase none = []
agents_of_workflow_phase (some m) = m.agents

abbrev pub approval_of_workflow_phase : Option WorkflowPhase → ℕ
approval_of_workflow_phase none = 0
approval_of_workflow_phase (some m) = m.approval

abbrev pub parallelism_of_workflow_phase : Option WorkflowPhase → ℕ
parallelism_of_workflow_phase none = 0
parallelism_of_workflow_phase (some m) = m.parallelism

abbrev pub gating_of_workflow_phase : Option WorkflowPhase → Bool
gating_of_workflow_phase none = false
gating_of_workflow_phase (some m) = m.gating

abbrev pub observed_generation_of_workflow_status : Option WorkflowStatus → ℕ
observed_generation_of_workflow_status none = 0
observed_generation_of_workflow_status (some m) = m.observed_generation

abbrev pub active_run_count_of_workflow_status : Option WorkflowStatus → ℕ
active_run_count_of_workflow_status none = 0
active_run_count_of_workflow_status (some m) = m.active_run_count

abbrev pub last_run_ref_of_workflow_status : Option WorkflowStatus → Str
last_run_ref_of_workflow_status none = []
last_run_ref_of_workflow_status (some m) = m.last_run_ref
