-- ===== src/Server/Workflows/Owners.antt =====
-- A Workflow is created in a project that exists.
use kestrai.Prelude.{◌≡◌, Option, some, ok, map_err, map_err-ok, >>=-eq-ok}
use kestrai.Store.{Record}
use kestrai.Store.Operations.{Ambient}
use kestrai.Store.Contract.{Store, Contract}
use kestrai.Api.{Workflow, ObjectMeta}
use kestrai.Auth.{Identity}
use kestrai.Server.Wire.{Wire}
use kestrai.Server.Resources.{resolve_tenant}
use kestrai.Server.Resources.Steps.{attempt-ok}
use kestrai.Server.Resources.Failures.{get_ok}
use kestrai.Server.Projects.{project_key}
use kestrai.Server.Workflows.{create_workflow, prepare_create, require_scope, owner_status}

module _ {S D : Type 0} (st : Store S D) (wire : Wire D Workflow) (c : Contract st) where
  open c use {view}

  -- A `CreateWorkflow` that succeeds found the project of the workflow in the tenant of the caller,
  -- in the store as it was before other clients came between the look-up and the write.
  pub create_workflow_owned :
      (id : Option Identity) (a : Ambient) (others : S → S) (s s' : S) (w : Option Workflow)
      (x : Workflow)
      → create_workflow st wire id a others s w ≡ (s', ok x)
      → (meta : ObjectMeta) × (owner : Record D) × (require_scope w ≡ ok meta)
        × (view s (project_key (resolve_tenant id) meta.project) ≡ some (ok owner))
  unfolding create_workflow prepare_create
  create_workflow_owned id a others s s' w x e =
      let ((w', rec), prepared, _) = attempt-ok s s' (prepare_create st wire id s w) _ x e in
      let (meta, scoped, e1) = >>=-eq-ok (require_scope w) _ prepared in
      let k = project_key (resolve_tenant id) meta.project in
      let (owner, read, _) = >>=-eq-ok (map_err (owner_status meta.project) (st.get s k)) _ e1 in
      let found = map_err-ok (owner_status meta.project) (st.get s k) owner read in
      (meta, owner, scoped, get_ok (st.get s k) (view s k) owner (c.get_answer s k) found)
