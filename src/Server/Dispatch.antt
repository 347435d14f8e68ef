-- ===== src/Server/Dispatch.antt =====
-- The calls of the API by method: the registration in `New` of internal/server/server.go and the
-- services of gen/go/kestrai/v1alpha1/service_grpc.pb.go, behind the interceptor.
use kestrai.Prelude.{Option, none, List, ◌++◌, Result, ok, err, if◌then◌else◌}
use kestrai.Text.{Str, codes}
use kestrai.Store.Operations.{Ambient}
use kestrai.Store.Contract.{Store}
use kestrai.Api.{Project, ProjectSpec, Workflow, WorkflowSpec, ListRequest}
use kestrai.Auth.{Identity, Headers}
use kestrai.Auth.Interceptor.{Interceptor, unary}
use kestrai.Server.Status.{Status, status, Code}
use kestrai.Server.Wire.{Wire, ProtoEqual}
use kestrai.Server.System.{Server, ServingStatus, VersionInfo}
use kestrai.Server.System
use kestrai.Server.Projects
use kestrai.Server.Workflows

-- The calls with what the handlers read of a request.
pub data Request : Type 0 where
  get_health get_version : Request
  create_project update_project : Option Project → Request
  get_project delete_project : Str → Request
  list_projects list_workflows : ListRequest → Request
  create_workflow update_workflow : Option Workflow → Request
  get_workflow delete_workflow : Str → Str → Request

pub data Response : Type 0 where
  health : ServingStatus → Response
  version : VersionInfo → Response
  project : Project → Response
  projects : List Project × Str → Response
  workflow : Workflow → Response
  workflows : List Workflow × Str → Response

-- The name of a method within its service.
unfoldable pub method_name : Request → Str
method_name Request.get_health = codes "GetHealth"
method_name Request.get_version = codes "GetVersion"
method_name (Request.create_project p) = codes "CreateProject"
method_name (Request.update_project p) = codes "UpdateProject"
method_name (Request.get_project name) = codes "GetProject"
method_name (Request.delete_project name) = codes "DeleteProject"
method_name (Request.list_projects req) = codes "ListProjects"
method_name (Request.list_workflows req) = codes "ListWorkflows"
method_name (Request.create_workflow w) = codes "CreateWorkflow"
method_name (Request.update_workflow w) = codes "UpdateWorkflow"
method_name (Request.get_workflow scope name) = codes "GetWorkflow"
method_name (Request.delete_workflow scope name) = codes "DeleteWorkflow"

abbrev pub system_service : Str
system_service = codes "kestrai.v1alpha1.SystemService"

-- The service of a method.
unfoldable pub service_name : Request → Str
service_name Request.get_health = system_service
service_name Request.get_version = system_service
service_name (Request.create_project p) = codes "kestrai.v1alpha1.ProjectService"
service_name (Request.update_project p) = codes "kestrai.v1alpha1.ProjectService"
service_name (Request.get_project name) = codes "kestrai.v1alpha1.ProjectService"
service_name (Request.delete_project name) = codes "kestrai.v1alpha1.ProjectService"
service_name (Request.list_projects req) = codes "kestrai.v1alpha1.ProjectService"
service_name (Request.list_workflows req) = codes "kestrai.v1alpha1.WorkflowService"
service_name (Request.create_workflow w) = codes "kestrai.v1alpha1.WorkflowService"
service_name (Request.update_workflow w) = codes "kestrai.v1alpha1.WorkflowService"
service_name (Request.get_workflow scope name) = codes "kestrai.v1alpha1.WorkflowService"
service_name (Request.delete_workflow scope name) = codes "kestrai.v1alpha1.WorkflowService"

abbrev pub qualified : Str → Str → Str
qualified service method = codes "/" ++ service ++ codes "/" ++ method

-- `FullMethod`
unfoldable pub full_method : Request → Str
unfolding method_name service_name
full_method req = qualified (service_name req) (method_name req)

abbrev pub answered :
    {S A : Type 0} → (A → Response) → S × Result Status A → S × Result Status Response
answered wrap (s, ok a) = (s, ok (wrap a))
answered wrap (s, err e) = (s, err e)

-- The clock and the random source of a call, and what other clients do within it.
pub record Moment (S : Type 0) : Type 0 where
  pub ambient : Ambient
  pub others : S → S

module _ {S D : Type 0} (st : Store S D) (projects : Wire D Project) (workflows : Wire D Workflow)
    (same_project : ProtoEqual (Option ProjectSpec))
    (same_workflow : ProtoEqual (Option WorkflowSpec)) where
  -- The handlers of the services over a store.
  unfoldable pub handle_crud :
      Server → Moment S → Request → Option Identity → S → S × Result Status Response
  handle_crud srv at Request.get_health id s = answered Response.health (s, System.get_health srv)
  handle_crud srv at Request.get_version id s =
      answered Response.version (s, System.get_version srv)
  handle_crud srv at (Request.create_project p) id s =
      answered Response.project (Projects.create_project st projects id at.ambient s p)
  handle_crud srv at (Request.update_project p) id s =
      answered Response.project (Projects.update_project st projects same_project id at.others s p)
  handle_crud srv at (Request.get_project name) id s =
      answered Response.project (s, Projects.get_project st projects id s name)
  handle_crud srv at (Request.delete_project name) id s =
      answered Response.project (Projects.delete_project st projects id s name)
  handle_crud srv at (Request.list_projects req) id s =
      answered Response.projects (s, Projects.list_projects st projects id s req)
  handle_crud srv at (Request.list_workflows req) id s =
      answered Response.workflows (s, Workflows.list_workflows st workflows id s req)
  handle_crud srv at (Request.create_workflow w) id s =
      answered Response.workflow
        (Workflows.create_workflow st workflows id at.ambient at.others s w)
  handle_crud srv at (Request.update_workflow w) id s =
      answered Response.workflow
        (Workflows.update_workflow st workflows same_workflow id at.others s w)
  handle_crud srv at (Request.get_workflow scope name) id s =
      answered Response.workflow (s, Workflows.get_workflow st workflows id s scope name)
  handle_crud srv at (Request.delete_workflow scope name) id s =
      answered Response.workflow (Workflows.delete_workflow st workflows id s scope name)

  -- The system service beside the Unimplemented types.
  unfoldable pub handle_system : Server → Request → Option Identity → S → S × Result Status Response
  unfolding method_name
  handle_system srv Request.get_health id s = answered Response.health (s, System.get_health srv)
  handle_system srv Request.get_version id s = answered Response.version (s, System.get_version srv)
  handle_system srv req id s = (
    s,
    err (
        status Code.unimplemented (codes "method " ++ method_name req ++ codes " not implemented")),
  )

  -- The handler of a call: the services that the server has registered.
  unfoldable pub handle :
      Server → Moment S → Request → Option Identity → S → S × Result Status Response
  unfolding handle_crud handle_system
  handle srv at req id s =
      if srv.crud then handle_crud srv at req id s else handle_system srv req id s

  -- A call that arrives, with its headers, through the interceptor.
  unfoldable pub serve :
      Server → Interceptor → Headers → Moment S → Request → S → S × Result Status Response
  serve srv i md at req s = unary i (full_method req) md none (handle srv at req) s
