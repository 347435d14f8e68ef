-- ===== src/Api/Projects.antt =====
-- The generated getters of gen/go/kestrai/v1alpha1/project.pb.go: a nil message reads as an empty one.
use kestrai.Prelude.{ℕ, Option, none, some, List, []}
use kestrai.Text.{Str}
use kestrai.Api.{Budget, Condition, Project, ProjectSpec, ProjectStatus}

abbrev pub spec_of_project : Option Project → Option ProjectSpec
spec_of_project none = none
spec_of_project (some m) = m.spec

abbrev pub status_of_project : Option Project → Option ProjectStatus
status_of_project none = none
status_of_project (some m) = m.status

abbrev pub display_name_of_project_spec : Option ProjectSpec → Str
display_name_of_project_spec none = []
display_name_of_project_spec (some m) = m.display_name

abbrev pub description_of_project_spec : Option ProjectSpec → Str
description_of_project_spec none = []
description_of_project_spec (some m) = m.description

abbrev pub default_model_provider_of_project_spec : Option ProjectSpec → Str
default_model_provider_of_project_spec none = []
default_model_provider_of_project_spec (some m) = m.default_model_provider

abbrev pub budget_of_project_spec : Option ProjectSpec → Option Budget
budget_of_project_spec none = none
budget_of_project_spec (some m) = m.budget

abbrev pub secret_refs_of_project_spec : Option ProjectSpec → List Str
secret_refs_of_project_spec none = []
secret_refs_of_project_spec (some m) = m.secret_refs

abbrev pub conditions_of_project_status : Option ProjectStatus → List Condition
conditions_of_project_status none = []
conditions_of_project_status (some m) = m.conditions

abbrev pub observed_generation_of_project_status : Option ProjectStatus → ℕ
observed_generation_of_project_status none = 0
observed_generation_of_project_status (some m) = m.observed_generation

abbrev pub spend_usd_of_project_status : Option ProjectStatus → Str
spend_usd_of_project_status none = []
spend_usd_of_project_status (some m) = m.spend_usd
