-- ===== src/Server/Projects/Staleness.antt =====
-- What `UpdateProject` does with a version that is not the stored one.
use kestrai.Prelude.{true, ◌≡◌, ◌≢◌, refl, ap, sym, ◌∙◌, false, Option, some, ok, err, []}
use kestrai.Text.{is_empty}
use kestrai.Store.{Record, conflict}
use kestrai.Store.Contract.{Store, Contract}
use kestrai.Api.{Project, ProjectSpec, ObjectMeta, get_project_metadata}
use kestrai.Auth.{Identity}
use kestrai.Server.Status.{status, Code, error_text}
use kestrai.Server.Wire.{Wire, ProtoEqual}
use kestrai.Server.Resources.{
  resolve_tenant, require_name, marshal_for_store, attempt, after_write, next_generation,
}
use kestrai.Server.Projects.{
  update_project, decode_project, prepare_update, updated_project, stamped, project_key,
  updated_meta, spec_of,
}

module _ {S D : Type 0} (st : Store S D) (wire : Wire D Project)
    (eq : ProtoEqual (Option ProjectSpec)) where
  module _ (c : Contract st) where
    open c use {view, answers}

    -- The record that an update writes, if the store answers and nothing fails in an encoding.
    prepare_update-succeeds :
        (id : Option Identity) (s : S) (p : Option Project) (meta : ObjectMeta) (old : Record D)
        (cur : Project)
        → get_project_metadata p ≡ some meta
        → is_empty meta.name ≡ false
        → is_empty meta.resource_version ≡ false
        → answers s (project_key (resolve_tenant id) meta.name) ≡ true
        → view s (project_key (resolve_tenant id) meta.name) ≡ some (ok old)
        → decode_project st wire old ≡ ok cur
        → ((q : Project) → (d : D) × (wire.marshal q ≡ ok d))
        → (p' : Project) × (rec : Record D) × (prepare_update st wire eq id s p ≡ ok (p', rec))
          × (rec.key ≡ project_key (resolve_tenant id) meta.name)
          × (rec.resource_version ≡ meta.resource_version)
    unfolding prepare_update require_name marshal_for_store
    prepare_update-succeeds id s p meta old cur given named versioned up held decoded encodes =
        let meta' =
          updated_meta (resolve_tenant id) (next_generation eq old.generation cur.spec (spec_of p))
            meta in
        let (d, encoded) = encodes (updated_project meta' p) in
        let read = c.get_answers s (project_key (resolve_tenant id) meta.name) up in
        (
          updated_project meta' p,
          record {
            key = project_key (resolve_tenant id) meta.name;
            uid = [];
            resource_version = meta.resource_version;
            generation = meta'.generation;
            labels = meta.labels;
            created_at = 0;
            body = d;
          },
          rw (given, named, versioned, read, held, decoded, encoded) refl,
          refl,
          refl,
        )

    -- An `UpdateProject` with a version that is not the one stored when it writes is refused with
    -- Aborted and changes nothing: the store is left as the other clients left it that came before
    -- the write. The conditions are that the store answers at the project's key, and that the stored
    -- project can be decoded and the new one encoded.
    pub update_project_stale :
        (id : Option Identity) (others : S → S) (s : S) (p : Option Project) (meta : ObjectMeta)
        (old now : Record D) (cur : Project)
        → get_project_metadata p ≡ some meta
        → is_empty meta.name ≡ false
        → is_empty meta.resource_version ≡ false
        → answers s (project_key (resolve_tenant id) meta.name) ≡ true
        → answers (others s) (project_key (resolve_tenant id) meta.name) ≡ true
        → view s (project_key (resolve_tenant id) meta.name) ≡ some (ok old)
        → decode_project st wire old ≡ ok cur
        → ((q : Project) → (d : D) × (wire.marshal q ≡ ok d))
        → view (others s) (project_key (resolve_tenant id) meta.name) ≡ some (ok now)
        → meta.resource_version ≢ now.resource_version
        → update_project st wire eq id others s p
          ≡ (others s, err (status Code.aborted (error_text conflict)))
    unfolding update_project
    update_project_stale id others s p meta old now cur given named versioned up up' held decoded
          encodes stored stale =
        let (p', rec, prepared, key, version) =
          prepare_update-succeeds id s p meta old cur given named versioned up held decoded
            encodes in
        let refused : st.update (others s) rec ≡ (others s, err conflict) =
          c.update_conflicts (others s) rec now (ap (answers (others s)) key ∙ up')
            (ap (view (others s)) key ∙ stored) (λ e. stale (sym version ∙ e)) in
        ap (λ r. attempt s r λ (q, rec). after_write (stamped q) (st.update (others s) rec))
          prepared
        ∙ ap (after_write (stamped p')) refused
