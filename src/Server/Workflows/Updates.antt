-- ===== src/Server/Workflows/Updates.antt =====
-- What `UpdateWorkflow` promises.
use kestrai.Prelude.{
  true, map_err-ok, ◌≡◌, ◌≢◌, ap, sym, subst, ◌∙◌, Option, some, ok, map_err, guard, not, >>=-eq-ok,
  ok_pair-injective,
}
use kestrai.Text.{codes, is_empty}
use kestrai.Int64.{add64}
use kestrai.Store.{Key, Record}
use kestrai.Store.Contract.{Store, Contract, Changes}
use kestrai.Api.{Workflow, WorkflowSpec, ObjectMeta, get_workflow_metadata, get_name, get_project}
use kestrai.Auth.{Identity}
use kestrai.Server.Status.{status, Code, store_err}
use kestrai.Server.Wire.{Wire, WireLaws, ProtoEqual}
use kestrai.Server.Resources.{
  kind_workflow, resolve_tenant, require_name, marshal_for_store, overlay_stored_meta, or_empty,
  next_generation,
}
use kestrai.Server.Resources.Steps.{
  attempt-ok, after_write-ok, require_name-ok, marshal_for_store-ok,
}
use kestrai.Server.Resources.Replacement.{
  IsReadable, update-Replacement, next_generation-same, next_generation-changed,
}
use kestrai.Server.Resources.Failures.{get_ok}
use kestrai.Server.Workflows.{
  update_workflow, decode_workflow, prepare_update, updated_workflow, stamped, workflow_key,
  updated_meta, spec_of, status_of, require_scope,
}

require_scope-ok :
    (w : Option Workflow) (meta : ObjectMeta)
    → require_scope w ≡ ok meta
    → get_workflow_metadata w ≡ some meta
unfolding require_scope
require_scope-ok w meta e =
    let (m, named, e1) = >>=-eq-ok (require_name (get_workflow_metadata w)) _ e in
    let (u, _, e2) =
      >>=-eq-ok
        (guard (not (is_empty m.project))
          (status Code.invalid_argument (codes "metadata.project is required for a Workflow")))
        _ e1 in
    let same : m ≡ meta = cc in (require_name-ok (get_workflow_metadata w) m named).0 ∙ ap some same

module _ {S D : Type 0} (st : Store S D) (wire : Wire D Workflow)
    (eq : ProtoEqual (Option WorkflowSpec)) where
  -- What an update reads and builds before it writes.
  record Prepared (id : Option Identity) (s : S) (w : Option Workflow) (w' : Workflow)
      (rec : Record D) : Type 0 where
    meta : ObjectMeta
    current : Record D
    cur : Workflow
    given : get_workflow_metadata w ≡ some meta
    read : st.get s (workflow_key (resolve_tenant id) meta.project meta.name) ≡ ok current
    decoded : decode_workflow st wire current ≡ ok cur
    built :
        w'
        ≡ updated_workflow
            (updated_meta
              (resolve_tenant id)
              (next_generation eq current.generation cur.spec (spec_of w))
              meta)
            w
    encoded : wire.marshal w' ≡ ok rec.body
    key : rec.key ≡ workflow_key (resolve_tenant id) meta.project meta.name
    labels : rec.labels ≡ meta.labels
    created_at : rec.created_at ≡ 0
    generation : rec.generation ≡ next_generation eq current.generation cur.spec (spec_of w)
    version : rec.resource_version ≡ meta.resource_version

  prepare_update-ok :
      (id : Option Identity) (s : S) (w : Option Workflow) (w' : Workflow) (rec : Record D)
      → prepare_update st wire eq id s w ≡ ok (w', rec)
      → Prepared id s w w' rec
  unfolding prepare_update
  prepare_update-ok id s w w' rec e =
      let (meta, scoped, e1) = >>=-eq-ok (require_scope w) _ e in
      let (u, _, e2) =
        >>=-eq-ok
          (guard (not (is_empty meta.resource_version)) (
            status Code.invalid_argument
              (codes "metadata.resource_version is required for update")))
          _ e1 in
      let tenant = resolve_tenant id in
      let k = workflow_key tenant meta.project meta.name in
      let (current, read, e3) = >>=-eq-ok (map_err store_err (st.get s k)) _ e2 in
      let (cur, decoded, e4) = >>=-eq-ok (decode_workflow st wire current) _ e3 in
      let meta' =
        updated_meta tenant (next_generation eq current.generation cur.spec (spec_of w)) meta in
      let (rec', made, e5) =
        >>=-eq-ok (marshal_for_store wire tenant kind_workflow meta' (updated_workflow meta' w)) _
          e4 in
      let (encoded, key, generation, labels, created_at) =
        marshal_for_store-ok wire tenant kind_workflow meta' (updated_workflow meta' w) rec' made in
      let (same, same_rec) =
        ok_pair-injective (updated_workflow meta' w) w'
          (record rec' { resource_version = meta.resource_version }) rec e5 in
      record {
        meta = meta;
        current = current;
        cur = cur;
        given = require_scope-ok w meta scoped;
        read = map_err-ok store_err (st.get s k) current read;
        decoded = decoded;
        built = sym same;
        encoded =
            subst (λ q. wire.marshal q ≡ ok rec.body) same
              (encoded ∙ ap (λ (r : Record D). ok r.body) same_rec);
        key = sym (ap (λ (r : Record D). r.key) same_rec) ∙ key;
        labels = sym (ap (λ (r : Record D). r.labels) same_rec) ∙ labels;
        created_at = sym (ap (λ (r : Record D). r.created_at) same_rec) ∙ created_at;
        generation = sym (ap (λ (r : Record D). r.generation) same_rec) ∙ generation;
        version = sym (ap (λ (r : Record D). r.resource_version) same_rec);
      }

  module _ (c : Contract st) (laws : WireLaws wire) where
    open c use {view, storable}

    -- The labels of the request can be stored.
    abbrev pub HasStorable : Option Workflow → Type 0
    HasStorable w =
        (meta : ObjectMeta) (rec : Record D)
        → get_workflow_metadata w ≡ some meta
        → rec.labels ≡ meta.labels
        → rec.created_at ≡ 0
        → storable rec ≡ true

    -- The workflow as it was read and the record that the update replaced, for an update that answers
    -- `x`.
    pub record Replaces (id : Option Identity) (others : S → S) (s s' : S) (w : Option Workflow)
        (x : Workflow) : Type 0 where
      pub meta : ObjectMeta
      pub old : Record D
      pub cur : Workflow
      pub now : Record D
      pub metadata : ObjectMeta
      pub given : get_workflow_metadata w ≡ some meta
      pub held : view s (workflow_key (resolve_tenant id) meta.project meta.name) ≡ some (ok old)
      pub decoded : decode_workflow st wire old ≡ ok cur
      pub replaced :
          view (others s) (workflow_key (resolve_tenant id) meta.project meta.name) ≡ some (ok now)
      pub current_version : meta.resource_version ≡ now.resource_version
      pub answered : x.metadata ≡ some metadata
      pub spec : x.spec ≡ spec_of w
      pub status : x.status ≡ status_of w
      pub project : metadata.project ≡ meta.project
      pub name : metadata.name ≡ meta.name
      pub uid : metadata.uid ≡ now.uid
      pub same_spec : cur.spec ≡ spec_of w → metadata.generation ≡ old.generation
      pub after : Record D
      pub body : Workflow
      pub only :
          Changes
            (view (others s))
            (workflow_key (resolve_tenant id) meta.project meta.name)
            (some (ok after))
            (view s')
      pub stored : wire.unmarshal after.body ≡ ok body
      pub stored_spec : body.spec ≡ spec_of w
      pub stored_status : body.status ≡ status_of w
      pub stored_uid : after.uid ≡ now.uid
      pub stored_generation : after.generation ≡ metadata.generation
      pub new_spec : cur.spec ≢ spec_of w → metadata.generation ≡ add64 old.generation 1

    write_Replaces :
        (id : Option Identity) (others : S → S) (s s' : S) (w : Option Workflow) (w' x : Workflow)
        (rec stored : Record D)
        → Prepared id s w w' rec
        → IsReadable st c (others s) rec.key
        → HasStorable w
        → st.update (others s) rec ≡ (s', ok stored)
        → x ≡ stamped w' stored
        → Replaces id others s s' w x
    unfolding overlay_stored_meta updated_workflow
    write_Replaces id others s s' w w' x rec stored ready readable fits written answered =
        let k = workflow_key (resolve_tenant id) ready.meta.project ready.meta.name in
        let change =
          update-Replacement st c (others s) s' rec stored readable
            (fits ready.meta rec ready.given ready.labels ready.created_at) written in
        let same_body = sym change.body in
        let key = change.key ∙ ready.key in
        let old = ready.current.generation in
        record {
          meta = ready.meta;
          old = ready.current;
          cur = ready.cur;
          now = change.now;
          metadata = overlay_stored_meta (or_empty w'.metadata) stored;
          given = ready.given;
          held = get_ok (st.get s k) (view s k) ready.current (c.get_answer s k) ready.read;
          decoded = ready.decoded;
          replaced = ap (view (others s)) (sym ready.key) ∙ change.held;
          current_version = sym ready.version ∙ change.version;
          answered = ap (λ (y : Workflow). y.metadata) answered;
          spec = ap (λ (y : Workflow). y.spec) answered ∙ ap (λ (y : Workflow). y.spec) ready.built;
          status =
              ap (λ (y : Workflow). y.status) answered
              ∙ ap (λ (y : Workflow). y.status) ready.built;
          project = ap (λ (j : Key). j.project) key;
          name = ap (λ (j : Key). j.name) key;
          uid = change.uid;
          same_spec = λ same.
              change.generation
              ∙ ready.generation
              ∙ next_generation-same eq old ready.cur.spec (spec_of w) same;
          after = change.after;
          body = w';
          only =
              subst (λ j. Changes (view (others s)) j (some (ok change.after)) (view s')) ready.key
                change.only;
          stored = laws.unmarshal_marshal w' change.after.body (ready.encoded ∙ ap ok same_body);
          stored_spec = ap (λ (y : Workflow). y.spec) ready.built;
          stored_status = ap (λ (y : Workflow). y.status) ready.built;
          stored_uid = change.after_uid;
          stored_generation = change.after_generation;
          new_spec = λ changed.
              change.generation
              ∙ ready.generation
              ∙ next_generation-changed eq old ready.cur.spec (spec_of w) changed;
        }

    -- An `UpdateWorkflow` that succeeds was given the version of the workflow that it replaces, keeps
    -- that workflow's project, name and uid, and raises the generation that it read by one exactly if
    -- the spec differs from the one that it read. The answer has the spec and the status of the
    -- request; the store holds, under the workflow's key, the encoding of a workflow with that spec
    -- and that status, and is as it was under every other key. Other clients may come between the
    -- read and the write, if what they leave under the workflow's key can be read; the labels of the
    -- request can be stored, and what is encoded can be decoded.
    pub update_workflow-Replaces :
        (id : Option Identity) (others : S → S) (s s' : S) (w : Option Workflow) (x : Workflow)
        → IsReadable st c (others s) (
            workflow_key
              (resolve_tenant id)
              (get_project (get_workflow_metadata w))
              (get_name (get_workflow_metadata w)))
        → HasStorable w
        → update_workflow st wire eq id others s w ≡ (s', ok x)
        → Replaces id others s s' w x
    unfolding update_workflow
    update_workflow-Replaces id others s s' w x readable fits e =
        let ((w', rec), prepared, e1) = attempt-ok s s' (prepare_update st wire eq id s w) _ x e in
        let ready = prepare_update-ok id s w w' rec prepared in
        let (stored, written, answered) =
          after_write-ok s' (stamped w') (st.update (others s) rec) x e1 in
        let at : Option ObjectMeta → Key =
          λ m. workflow_key (resolve_tenant id) (get_project m) (get_name m) in
        let key : rec.key ≡ at (get_workflow_metadata w) = ready.key ∙ ap at (sym ready.given) in
        write_Replaces id others s s' w w' x rec stored ready
          (subst (IsReadable st c (others s)) (sym key) readable) fits written answered
