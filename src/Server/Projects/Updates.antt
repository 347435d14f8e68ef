-- ===== src/Server/Projects/Updates.antt =====
-- What `UpdateProject` promises: the generation, the identity, and the refusal of a stale version.
use kestrai.Prelude.{
  true, map_err-ok, ◌≡◌, ◌≢◌, ap, sym, subst, ◌∙◌, false, Option, some, ok, map_err, guard, not,
  arith, >>=-eq-ok, ok_pair-injective,
}
use kestrai.Text.{codes, is_empty}
use kestrai.Int64.{add64}
use kestrai.Store.{Key, Record}
use kestrai.Store.Contract.{Store, Contract, Changes}
use kestrai.Api.{Project, ProjectSpec, ObjectMeta, get_project_metadata, get_name}
use kestrai.Auth.{Identity}
use kestrai.Server.Status.{status, Code, store_err}
use kestrai.Server.Wire.{Wire, WireLaws, ProtoEqual}
use kestrai.Server.Resources.{
  kind_project, resolve_tenant, require_name, marshal_for_store, overlay_stored_meta, or_empty,
  next_generation,
}
use kestrai.Server.Resources.Steps.{
  attempt-ok, after_write-ok, require_name-ok, marshal_for_store-ok,
}
use kestrai.Server.Projects.{
  update_project, decode_project, prepare_update, updated_project, stamped, project_key,
  updated_meta, spec_of, status_of,
}
use kestrai.Server.Resources.Replacement.{
  IsReadable, update-Replacement, next_generation-same, next_generation-changed,
}
use kestrai.Server.Resources.Failures.{get_ok}

module _ {S D : Type 0} (st : Store S D) (wire : Wire D Project)
    (eq : ProtoEqual (Option ProjectSpec)) where
  -- What an update reads and builds before it writes.
  pub record Prepared (id : Option Identity) (s : S) (p : Option Project) (p' : Project)
      (rec : Record D) : Type 0 where
    pub meta : ObjectMeta
    pub current : Record D
    pub cur : Project
    pub given : get_project_metadata p ≡ some meta
    pub versioned : is_empty meta.resource_version ≡ false
    pub read : st.get s (project_key (resolve_tenant id) meta.name) ≡ ok current
    pub decoded : decode_project st wire current ≡ ok cur
    pub built :
        p'
        ≡ updated_project
            (updated_meta
              (resolve_tenant id)
              (next_generation eq current.generation cur.spec (spec_of p))
              meta)
            p
    pub encoded : wire.marshal p' ≡ ok rec.body
    pub key : rec.key ≡ project_key (resolve_tenant id) meta.name
    pub labels : rec.labels ≡ meta.labels
    pub created_at : rec.created_at ≡ 0
    pub generation : rec.generation ≡ next_generation eq current.generation cur.spec (spec_of p)
    pub version : rec.resource_version ≡ meta.resource_version

  pub prepare_update-ok :
      (id : Option Identity) (s : S) (p : Option Project) (p' : Project) (rec : Record D)
      → prepare_update st wire eq id s p ≡ ok (p', rec)
      → Prepared id s p p' rec
  unfolding prepare_update
  prepare_update-ok id s p p' rec e =
      let (meta, named, e1) = >>=-eq-ok (require_name (get_project_metadata p)) _ e in
      let (u, versioned, e2) =
        >>=-eq-ok
          (guard (not (is_empty meta.resource_version)) (
            status Code.invalid_argument
              (codes "metadata.resource_version is required for update")))
          _ e1 in
      let tenant = resolve_tenant id in
      let (current, read, e3) =
        >>=-eq-ok (map_err store_err (st.get s (project_key tenant meta.name))) _ e2 in
      let (cur, decoded, e4) = >>=-eq-ok (decode_project st wire current) _ e3 in
      let meta' =
        updated_meta tenant (next_generation eq current.generation cur.spec (spec_of p)) meta in
      let (rec', made, e5) =
        >>=-eq-ok (marshal_for_store wire tenant kind_project meta' (updated_project meta' p)) _
          e4 in
      let (given, _) = require_name-ok (get_project_metadata p) meta named in
      let (encoded, key, generation, labels, created_at) =
        marshal_for_store-ok wire tenant kind_project meta' (updated_project meta' p) rec' made in
      let (same, same_rec) =
        ok_pair-injective (updated_project meta' p) p'
          (record rec' { resource_version = meta.resource_version }) rec e5 in
      record {
        meta = meta;
        current = current;
        cur = cur;
        given = given;
        versioned = ground arith;
        read = map_err-ok store_err (st.get s (project_key tenant meta.name)) current read;
        decoded = decoded;
        built = sym same;
        encoded =
            subst (λ q. wire.marshal q ≡ ok rec.body) same
              (encoded ∙ ap (λ (r : Record D). ok r.body) same_rec);
        key = sym (ap (λ (r : Record D). r.key) same_rec) ∙ key;
        labels = sym (ap (λ (r : Record D). r.labels) same_rec) ∙ labels;
        created_at = sym (ap (λ (r : Record D). r.created_at) same_rec) ∙ created_at;
        generation = sym (ap (λ (r : Record D). r.generation) same_rec) ∙ generation;
        version = sym (ap (λ (r : Record D). r.resource_version) same_rec);
      }

  module _ (c : Contract st) (laws : WireLaws wire) where
    open c use {view, storable}

    -- The labels of the request can be stored.
    abbrev pub HasStorable : Option Project → Type 0
    HasStorable p =
        (meta : ObjectMeta) (rec : Record D)
        → get_project_metadata p ≡ some meta
        → rec.labels ≡ meta.labels
        → rec.created_at ≡ 0
        → storable rec ≡ true

    -- The project as it was read and the record that the update replaced, for an update that
    -- answers `x`. The two are the same unless another client came between the read and the write.
    pub record Replaces (id : Option Identity) (others : S → S) (s s' : S) (p : Option Project)
        (x : Project) : Type 0 where
      pub meta : ObjectMeta
      pub old : Record D
      pub cur : Project
      pub now : Record D
      pub metadata : ObjectMeta
      pub given : get_project_metadata p ≡ some meta
      pub held : view s (project_key (resolve_tenant id) meta.name) ≡ some (ok old)
      pub decoded : decode_project st wire old ≡ ok cur
      pub replaced : view (others s) (project_key (resolve_tenant id) meta.name) ≡ some (ok now)
      pub current_version : meta.resource_version ≡ now.resource_version
      pub answered : x.metadata ≡ some metadata
      pub spec : x.spec ≡ spec_of p
      pub name : metadata.name ≡ meta.name
      pub uid : metadata.uid ≡ now.uid
      pub same_spec : cur.spec ≡ spec_of p → metadata.generation ≡ old.generation
      pub after : Record D
      pub body : Project
      pub only :
          Changes
            (view (others s))
            (project_key (resolve_tenant id) meta.name)
            (some (ok after))
            (view s')
      pub stored : wire.unmarshal after.body ≡ ok body
      pub stored_spec : body.spec ≡ spec_of p
      pub stored_status : body.status ≡ status_of p
      pub stored_uid : after.uid ≡ now.uid
      pub stored_generation : after.generation ≡ metadata.generation
      pub new_spec : cur.spec ≢ spec_of p → metadata.generation ≡ add64 old.generation 1

    write_Replaces :
        (id : Option Identity) (others : S → S) (s s' : S) (p : Option Project) (p' x : Project)
        (rec stored : Record D)
        → Prepared id s p p' rec
        → IsReadable st c (others s) rec.key
        → HasStorable p
        → st.update (others s) rec ≡ (s', ok stored)
        → x ≡ stamped p' stored
        → Replaces id others s s' p x
    unfolding overlay_stored_meta updated_project
    write_Replaces id others s s' p p' x rec stored ready readable fits written answered =
        let k = project_key (resolve_tenant id) ready.meta.name in
        let held = get_ok (st.get s k) (view s k) ready.current (c.get_answer s k) ready.read in
        let change =
          update-Replacement st c (others s) s' rec stored readable
            (fits ready.meta rec ready.given ready.labels ready.created_at) written in
        let same_body = sym change.body in
        record {
          meta = ready.meta;
          old = ready.current;
          cur = ready.cur;
          now = change.now;
          metadata = overlay_stored_meta (or_empty p'.metadata) stored;
          given = ready.given;
          held = held;
          decoded = ready.decoded;
          replaced = ap (view (others s)) (sym ready.key) ∙ change.held;
          current_version = sym ready.version ∙ change.version;
          answered = ap (λ (y : Project). y.metadata) answered;
          spec = ap (λ (y : Project). y.spec) answered ∙ ap (λ (y : Project). y.spec) ready.built;
          name = ap (λ (j : Key). j.name) (change.key ∙ ready.key);
          uid = change.uid;
          same_spec = λ same.
              change.generation
              ∙ ready.generation
              ∙ next_generation-same eq ready.current.generation ready.cur.spec (spec_of p) same;
          after = change.after;
          body = p';
          only =
              subst (λ j. Changes (view (others s)) j (some (ok change.after)) (view s')) ready.key
                change.only;
          stored = laws.unmarshal_marshal p' change.after.body (ready.encoded ∙ ap ok same_body);
          stored_spec = ap (λ (y : Project). y.spec) ready.built;
          stored_status = ap (λ (y : Project). y.status) ready.built;
          stored_uid = change.after_uid;
          stored_generation = change.after_generation;
          new_spec = λ changed.
              change.generation
              ∙ ready.generation
              ∙ next_generation-changed eq ready.current.generation ready.cur.spec (spec_of p)
                  changed;
        }

    -- An `UpdateProject` that succeeds was given the version of the project that it replaces, keeps
    -- that project's name and uid, and raises the generation that it read by one exactly if the spec
    -- differs from the one that it read. The answer has the spec of the request; the store holds,
    -- under the project's key, the encoding of a project with the spec and the status of the request,
    -- and is as it was under every other key. Other clients may come between the read and the write,
    -- if what they leave under the project's key can be read; the labels of the request can be
    -- stored, and what is encoded can be decoded.
    pub update_project-Replaces :
        (id : Option Identity) (others : S → S) (s s' : S) (p : Option Project) (x : Project)
        → IsReadable st c
            (others s)
            (project_key (resolve_tenant id) (get_name (get_project_metadata p)))
        → HasStorable p
        → update_project st wire eq id others s p ≡ (s', ok x)
        → Replaces id others s s' p x
    unfolding update_project
    update_project-Replaces id others s s' p x readable fits e =
        let ((p', rec), prepared, e1) = attempt-ok s s' (prepare_update st wire eq id s p) _ x e in
        let ready = prepare_update-ok id s p p' rec prepared in
        let (stored, written, answered) =
          after_write-ok s' (stamped p') (st.update (others s) rec) x e1 in
        let key : rec.key ≡ project_key (resolve_tenant id) (get_name (get_project_metadata p)) =
          ready.key ∙ ap (λ m. project_key (resolve_tenant id) (get_name m)) (sym ready.given) in
        write_Replaces id others s s' p p' x rec stored ready
          (subst (IsReadable st c (others s)) (sym key) readable) fits written answered
