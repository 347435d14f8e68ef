-- ===== src/Server/Workflows/Creation.antt =====
-- What a `CreateWorkflow` that succeeds has stored, and how `GetWorkflow` reads what a key holds.
use kestrai.Prelude.{
  ◌≡◌, ap, sym, ◌∙◌, false, Bool, Option, some, ok, map_err, guard, not, >>=-eq-ok,
  ok_pair-injective, inl, inr, arith,
}
use kestrai.Text.{Str, codes, is_empty}
use kestrai.Store.{Record}
use kestrai.Store.Operations.{Ambient}
use kestrai.Store.Contract.{Store, Contract}
use kestrai.Api.{Workflow, ObjectMeta, get_workflow_metadata}
use kestrai.Auth.{Identity}
use kestrai.Server.Status.{Status, status, Code}
use kestrai.Server.Wire.{Wire}
use kestrai.Server.Resources.{kind_workflow, resolve_tenant, require_name, marshal_for_store}
use kestrai.Server.Resources.Steps.{
  attempt-ok, after_write-ok, require_name-ok, marshal_for_store-ok,
}
use kestrai.Server.Projects.{project_key}
use kestrai.Server.Projects.Creation.{OrUnavailable}
use kestrai.Server.Workflows.{
  create_workflow, get_workflow, decode_workflow, prepare_create, new_workflow, stamped,
  workflow_key, created_meta, require_scope, owner_status,
}

guard-not : (b : Bool) (failure : Status) → guard (not b) failure ≡ ok tt → b ≡ false
guard-not b failure e = ground arith

-- The metadata that `CreateWorkflow` accepts names the workflow and its project.
require_scope-named :
    (w : Option Workflow) (meta : ObjectMeta)
    → require_scope w ≡ ok meta
    → (is_empty meta.name ≡ false) × (is_empty meta.project ≡ false)
unfolding require_scope
require_scope-named w meta e =
    let (m, named, e1) = >>=-eq-ok (require_name (get_workflow_metadata w)) _ e in
    let failure =
      status Code.invalid_argument (codes "metadata.project is required for a Workflow") in
    let (u, scoped, e2) = >>=-eq-ok (guard (not (is_empty m.project)) failure) _ e1 in
    let same : m ≡ meta = cc in
    (
      ap (λ (x : ObjectMeta). is_empty x.name) (sym same)
          ∙ (require_name-ok (get_workflow_metadata w) m named).1,
      ap (λ (x : ObjectMeta). is_empty x.project) (sym same)
          ∙ guard-not (is_empty m.project) failure scoped,
    )

module _ {S D : Type 0} (st : Store S D) (wire : Wire D Workflow) where
  -- A creation that succeeded, step by step.
  pub record Created (id : Option Identity) (a : Ambient) (others : S → S) (s s' : S)
      (w : Option Workflow) (x : Workflow) : Type 0 where
    pub meta : ObjectMeta
    pub rec : Record D
    pub stored : Record D
    pub named : is_empty meta.name ≡ false
    pub scoped : is_empty meta.project ≡ false
    pub encoded :
        wire.marshal (new_workflow (created_meta (resolve_tenant id) meta) w) ≡ ok rec.body
    pub key : rec.key ≡ workflow_key (resolve_tenant id) meta.project meta.name
    pub written : st.create a (others s) rec ≡ (s', ok stored)
    pub answer : x ≡ stamped (new_workflow (created_meta (resolve_tenant id) meta) w) stored

  pub create_workflow-ok :
      (id : Option Identity) (a : Ambient) (others : S → S) (s s' : S) (w : Option Workflow)
      (x : Workflow)
      → create_workflow st wire id a others s w ≡ (s', ok x)
      → Created id a others s s' w x
  unfolding create_workflow prepare_create
  create_workflow-ok id a others s s' w x e =
      let ((w', rec), prepared, e1) = attempt-ok s s' (prepare_create st wire id s w) _ x e in
      let (meta, scoped, e2) = >>=-eq-ok (require_scope w) _ prepared in
      let tenant = resolve_tenant id in
      let (owner, _, e3) =
        >>=-eq-ok (map_err (owner_status meta.project) (st.get s (project_key tenant meta.project)))
          _ e2 in
      let new = new_workflow (created_meta tenant meta) w in
      let (rec', made, e4) =
        >>=-eq-ok (marshal_for_store wire tenant kind_workflow (created_meta tenant meta) new) _
          e3 in
      let (same, same_rec) = ok_pair-injective new w' rec' rec e4 in
      let (encoded, key, _, _, _) =
        marshal_for_store-ok wire tenant kind_workflow (created_meta tenant meta) new rec
          (made ∙ ap ok same_rec) in
      let (stored, written, answer) =
        after_write-ok s' (stamped w') (st.create a (others s) rec) x e1 in
      let (named, owned) = require_scope-named w meta scoped in
      record {
        meta = meta;
        rec = rec;
        stored = stored;
        named = named;
        scoped = owned;
        encoded = encoded;
        key = key;
        written = written;
        answer = answer ∙ ap (λ y. stamped y stored) (sym same);
      }

  module _ (c : Contract st) where
    open c use {view}

    -- `GetWorkflow` decodes what the store holds under its key.
    pub get_workflow-view :
        (id : Option Identity) (s : S) (project name : Str) (r : Record D)
        → is_empty project ≡ false
        → is_empty name ≡ false
        → view s (workflow_key (resolve_tenant id) project name) ≡ some (ok r)
        → OrUnavailable (get_workflow st wire id s project name) (decode_workflow st wire r)
    unfolding get_workflow
    get_workflow-view id s project name r scoped named held =
        elim (c.get_answer s (workflow_key (resolve_tenant id) project name)) [
          | inl e ↦ inl (rw (scoped, named, e, held))
          | inr (text, e) ↦ inr (text, rw (scoped, named, e))
        ]
