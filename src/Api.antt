-- ===== src/Api.antt =====
-- The messages of gen/go/kestrai/v1alpha1, which the API, the reconciler and the CLI exchange. A
-- message pointer is an `Option`, an enum or integer its number, a Timestamp its nanoseconds. The
-- `get_` functions are the generated getters, which read a nil message as an empty one.
pub mod Meta
pub mod Projects
pub mod Workflows
use kestrai.Prelude.{ℕ, Bool, Option, none, some, List, []}
use kestrai.Text.{Str}
use kestrai.Store.{Labels}

pub record ObjectMeta : Type 0 where
  pub name : Str
  pub tenant_id : Str
  pub project : Str
  pub uid : Str
  pub resource_version : Str
  pub generation : ℕ
  pub creation_timestamp : Option ℕ
  pub deletion_timestamp : Option ℕ
  pub labels : Labels
  pub annotations : Labels
  pub finalizers : List Str

abbrev pub empty_meta : ObjectMeta
empty_meta = record {
  name = [];
  tenant_id = [];
  project = [];
  uid = [];
  resource_version = [];
  generation = 0;
  creation_timestamp = none;
  deletion_timestamp = none;
  labels = [];
  annotations = [];
  finalizers = [];
}

pub record Condition : Type 0 where
  pub type : Str
  pub status : Str
  pub reason : Str
  pub message : Str
  pub last_transition_time : Option ℕ
  pub observed_generation : ℕ

pub record Budget : Type 0 where
  pub usd_cap : Str
  pub window : Str

pub record ProjectSpec : Type 0 where
  pub display_name : Str
  pub description : Str
  pub default_model_provider : Str
  pub budget : Option Budget
  pub secret_refs : List Str

pub record ProjectStatus : Type 0 where
  pub conditions : List Condition
  pub observed_generation : ℕ
  pub spend_usd : Str

pub record Project : Type 0 where
  pub metadata : Option ObjectMeta
  pub spec : Option ProjectSpec
  pub status : Option ProjectStatus

pub record WorkflowConstraints : Type 0 where
  pub stack : List Str
  pub deadline : Option ℕ
  pub budget : Option Budget

pub record WorkflowPhase : Type 0 where
  pub name : Str
  pub agents : List Str
  pub approval : ℕ
  pub parallelism : ℕ
  pub gating : Bool

pub record WorkflowSpec : Type 0 where
  pub goal : Str
  pub constraints : Option WorkflowConstraints
  pub pipeline : List WorkflowPhase

pub record WorkflowStatus : Type 0 where
  pub conditions : List Condition
  pub observed_generation : ℕ
  pub active_run_count : ℕ
  pub last_run_ref : Str

pub record Workflow : Type 0 where
  pub metadata : Option ObjectMeta
  pub spec : Option WorkflowSpec
  pub status : Option WorkflowStatus

-- `x.GetMetadata()`
abbrev pub get_project_metadata : Option Project → Option ObjectMeta
get_project_metadata none = none
get_project_metadata (some p) = p.metadata

abbrev pub get_workflow_metadata : Option Workflow → Option ObjectMeta
get_workflow_metadata none = none
get_workflow_metadata (some w) = w.metadata

-- `x.GetStatus()` and `x.GetConditions()`
abbrev pub get_conditions : Option WorkflowStatus → List Condition
get_conditions none = []
get_conditions (some st) = st.conditions

-- `x.GetName()`, `x.GetProject()`, `x.GetResourceVersion()`
abbrev pub get_name : Option ObjectMeta → Str
get_name none = []
get_name (some meta) = meta.name

abbrev pub get_project : Option ObjectMeta → Str
get_project none = []
get_project (some meta) = meta.project

abbrev pub get_resource_version : Option ObjectMeta → Str
get_resource_version none = []
get_resource_version (some meta) = meta.resource_version

-- The requests that carry more than a resource; `page_size` is an `int32` bit pattern.
pub record ListRequest : Type 0 where
  pub project : Str
  pub label_selector : Str
  pub page_size : ℕ
  pub continue_token : Str
