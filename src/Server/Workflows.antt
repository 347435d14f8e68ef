-- ===== src/Server/Workflows.antt =====
-- internal/server/workflow.go: the handlers of WorkflowService. A handler takes the identity in the
-- context, the store and the request, and returns the store that it leaves and its answer.
pub mod Owners
pub mod Creation
pub mod Updates
use kestrai.Prelude.{
  ℕ, Option, none, some, List, [], ◌∷◌, ◌++◌, Result, ok, map_err, ◌>>=◌, ◌>>◌, guard, not, ◌||◌,
}
use kestrai.Text.{Str, codes, is_empty}
use kestrai.Int64.{sign_extend32}
use kestrai.Store.{Key, Record, Error}
use kestrai.Store.Operations.{Ambient}
use kestrai.Store.Contract.{Store}
use kestrai.Api.{
  Workflow, WorkflowSpec, WorkflowStatus, ObjectMeta, ListRequest, get_workflow_metadata,
}
use kestrai.Auth.{Identity}
use kestrai.Server.Status.{Status, status, Code, store_err}
use kestrai.Server.Wire.{Wire, ProtoEqual}
use kestrai.Server.Projects.{project_key}
use kestrai.Server.Selector.{parse_label_selector}
use kestrai.Server.Resources.{
  kind_workflow, resolve_tenant, require_name, marshal_for_store, overlay_stored_meta, or_empty,
  after_write, attempt, next_generation,
}

-- The other fields of the request's workflow, which is not nil once its name is accepted.
abbrev pub spec_of : Option Workflow → Option WorkflowSpec
spec_of none = none
spec_of (some w) = w.spec

abbrev pub status_of : Option Workflow → Option WorkflowStatus
status_of none = none
status_of (some w) = w.status

abbrev pub workflow_key : Str → Str → Str → Key
workflow_key tenant project name = record {
  tenant_id = tenant;
  kind = kind_workflow;
  project = project;
  name = name;
}

-- The workflow that `CreateWorkflow` stores.
unfoldable pub new_workflow : ObjectMeta → Option Workflow → Workflow
new_workflow meta w = record { metadata = some meta; spec = spec_of w; status = none }

-- The server owns identity and lifecycle fields.
abbrev pub created_meta : Str → ObjectMeta → ObjectMeta
created_meta tenant meta = record meta { tenant_id = tenant; generation = 1 }

abbrev pub updated_meta : Str → ℕ → ObjectMeta → ObjectMeta
updated_meta tenant generation meta = record meta { tenant_id = tenant; generation = generation }

-- The response to a write: the workflow with what the store assigned.
abbrev pub stamped : {D : Type 0} → Workflow → Record D → Workflow
stamped w stored = record w { metadata = some (overlay_stored_meta (or_empty w.metadata) stored) }

-- The workflow that `UpdateWorkflow` stores; the status is the request's.
unfoldable pub updated_workflow : ObjectMeta → Option Workflow → Workflow
updated_workflow meta w = record { metadata = some meta; spec = spec_of w; status = status_of w }

-- `requireName`, and a project.
unfoldable pub require_scope : Option Workflow → Result Status ObjectMeta
require_scope w = do
  meta ← require_name (get_workflow_metadata w)
  guard (not (is_empty meta.project))
      (status Code.invalid_argument (codes "metadata.project is required for a Workflow"))
  ok meta

-- The owning project must exist. `%q` shows the name as it is.
unfoldable pub owner_status : Str → Error → Status
owner_status project Error.not_found =
    status Code.failed_precondition (codes "project " ++ project ++ codes " does not exist")
owner_status project e = store_err e

module _ {S D : Type 0} (st : Store S D) (wire : Wire D Workflow) where
  -- `decodeWorkflow`
  unfoldable pub decode_workflow : Record D → Result Status Workflow
  decode_workflow rec = do
    w ←
        map_err (λ e. status Code.internal (codes "unmarshal Workflow: " ++ e))
          (wire.unmarshal rec.body)
    ok (record w { metadata = some (overlay_stored_meta (or_empty w.metadata) rec) })

  pub prepare_create : Option Identity → S → Option Workflow → Result Status (Workflow × Record D)
  prepare_create id s w = do
    meta ← require_scope w
    let tenant = resolve_tenant id
    owner ← map_err (owner_status meta.project) (st.get s (project_key tenant meta.project))
    let meta' = created_meta tenant meta
    let w' = new_workflow meta' w
    rec ← marshal_for_store wire tenant kind_workflow meta' w'
    ok (w', rec)

  -- `others` is what other clients do to the store between the look-up of the project and the write.
  unfoldable pub create_workflow :
      Option Identity → Ambient → (S → S) → S → Option Workflow → S × Result Status Workflow
  unfolding prepare_create
  create_workflow id a others s w =
      attempt s (prepare_create id s w)
        λ (w', rec). after_write (stamped w') (st.create a (others s) rec)

  unfoldable pub get_workflow : Option Identity → S → Str → Str → Result Status Workflow
  get_workflow id s project name = do
    guard (not (is_empty project || is_empty name))
        (status Code.invalid_argument (codes "project and name are required"))
    rec ← map_err store_err (st.get s (workflow_key (resolve_tenant id) project name))
    decode_workflow rec

  -- The loop that decodes a page.
  decode_workflows : List (Record D) → Result Status (List Workflow)
  decode_workflows [] = ok []
  decode_workflows (rec ∷ recs) = do
    w ← decode_workflow rec
    items ← decode_workflows recs
    ok (w ∷ items)

  unfoldable pub list_workflows :
      Option Identity → S → ListRequest → Result Status (List Workflow × Str)
  unfolding decode_workflows
  list_workflows id s req = do
    selector ← parse_label_selector req.label_selector
    (recs, token) ← map_err store_err (
        st.list s (record {
          tenant_id = resolve_tenant id;
          kind = kind_workflow;
          project = req.project;
          label_selector = selector;
          limit = sign_extend32 req.page_size;
          continue_token = req.continue_token;
        }))
    items ← decode_workflows recs
    ok (items, token)

  -- The answer to a delete is the workflow that was deleted.
  abbrev pub decode_reply : S × Result Error (Record D) → S × Result Status Workflow
  decode_reply (s', r) = (s', map_err store_err r >>= decode_workflow)

  unfoldable pub delete_workflow : Option Identity → S → Str → Str → S × Result Status Workflow
  delete_workflow id s project name =
      attempt s
        (guard (not (is_empty project || is_empty name))
          (status Code.invalid_argument (codes "project and name are required")))
        λ u. decode_reply (st.delete s (workflow_key (resolve_tenant id) project name))

module _ {S D : Type 0} (st : Store S D) (wire : Wire D Workflow)
    (eq : ProtoEqual (Option WorkflowSpec)) where
  pub prepare_update : Option Identity → S → Option Workflow → Result Status (Workflow × Record D)
  prepare_update id s w = do
    meta ← require_scope w
    guard (not (is_empty meta.resource_version))
        (status Code.invalid_argument (codes "metadata.resource_version is required for update"))
    let tenant = resolve_tenant id
    current ← map_err store_err (st.get s (workflow_key tenant meta.project meta.name))
    cur ← decode_workflow st wire current
    let meta' =
        updated_meta tenant (next_generation eq current.generation cur.spec (spec_of w)) meta
    let w' = updated_workflow meta' w
    rec ← marshal_for_store wire tenant kind_workflow meta' w'
    ok (w', record rec { resource_version = meta.resource_version })

  -- `others` is what other clients do to the store between the read and the write.
  unfoldable pub update_workflow :
      Option Identity → (S → S) → S → Option Workflow → S × Result Status Workflow
  unfolding prepare_update
  update_workflow id others s w =
      attempt s (prepare_update id s w)
        λ (w', rec). after_write (stamped w') (st.update (others s) rec)
