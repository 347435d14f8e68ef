-- ===== src/Server/Projects.antt =====
-- internal/server/project.go: the handlers of ProjectService. A handler takes the identity in the
-- context, the store and the request, and returns the store that it leaves and its answer.
pub mod Creation
pub mod Updates
pub mod Staleness
pub mod Listing
use kestrai.Prelude.{
  ℕ, ◌+◌, Option, none, some, List, [], ◌∷◌, ◌++◌, Result, ok, err, map_err, ◌>>=◌, ◌>>◌, guard,
  not, if◌then◌else◌,
}
use kestrai.Text.{Str, codes, is_empty}
use kestrai.Int64.{sign_extend32}
use kestrai.Store.{Key, Record, ListOptions, Error}
use kestrai.Store.Operations.{Ambient}
use kestrai.Store.Contract.{Store}
use kestrai.Api.{Project, ProjectSpec, ProjectStatus, ObjectMeta, ListRequest, get_project_metadata}
use kestrai.Auth.{Identity}
use kestrai.Server.Status.{Status, status, Code, store_err}
use kestrai.Server.Wire.{Wire, ProtoEqual}
use kestrai.Server.Selector.{parse_label_selector}
use kestrai.Server.Resources.{
  kind_project, resolve_tenant, require_name, marshal_for_store, overlay_stored_meta, or_empty,
  after_write, attempt, next_generation,
}

-- The other fields of the request's project, which is not nil once its name is accepted.
abbrev pub spec_of : Option Project → Option ProjectSpec
spec_of none = none
spec_of (some p) = p.spec

abbrev pub status_of : Option Project → Option ProjectStatus
status_of none = none
status_of (some p) = p.status

abbrev pub project_key : Str → Str → Key
project_key tenant name = record {
  tenant_id = tenant;
  kind = kind_project;
  project = [];
  name = name;
}

-- The project that `CreateProject` stores.
unfoldable pub new_project : ObjectMeta → Option Project → Project
new_project meta p = record { metadata = some meta; spec = spec_of p; status = none }

-- The server owns identity and lifecycle fields.
abbrev pub created_meta : Str → ObjectMeta → ObjectMeta
created_meta tenant meta = record meta { tenant_id = tenant; project = []; generation = 1 }

abbrev pub updated_meta : Str → ℕ → ObjectMeta → ObjectMeta
updated_meta tenant generation meta = record meta {
  tenant_id = tenant;
  project = [];
  generation = generation;
}

-- The response to a write: the project with what the store assigned.
abbrev pub stamped : {D : Type 0} → Project → Record D → Project
stamped p stored = record p { metadata = some (overlay_stored_meta (or_empty p.metadata) stored) }

-- The project that `UpdateProject` stores; the status is the request's.
unfoldable pub updated_project : ObjectMeta → Option Project → Project
updated_project meta p = record { metadata = some meta; spec = spec_of p; status = status_of p }

module _ {S D : Type 0} (st : Store S D) (wire : Wire D Project) where
  -- `decodeProject`
  unfoldable pub decode_project : Record D → Result Status Project
  decode_project rec = do
    p ←
        map_err (λ e. status Code.internal (codes "unmarshal Project: " ++ e))
          (wire.unmarshal rec.body)
    ok (record p { metadata = some (overlay_stored_meta (or_empty p.metadata) rec) })

  pub prepare_create : Option Identity → Option Project → Result Status (Project × Record D)
  prepare_create id p = do
    meta ← require_name (get_project_metadata p)
    let tenant = resolve_tenant id
    let meta' = created_meta tenant meta
    let p' = new_project meta' p
    rec ← marshal_for_store wire tenant kind_project meta' p'
    ok (p', rec)

  unfoldable pub create_project :
      Option Identity → Ambient → S → Option Project → S × Result Status Project
  unfolding prepare_create
  create_project id a s p =
      attempt s (prepare_create id p) λ (p', rec). after_write (stamped p') (st.create a s rec)

  unfoldable pub get_project : Option Identity → S → Str → Result Status Project
  get_project id s name = do
    guard (not (is_empty name)) (status Code.invalid_argument (codes "name is required"))
    rec ← map_err store_err (st.get s (project_key (resolve_tenant id) name))
    decode_project rec

  -- The loop that decodes a page.
  decode_projects : List (Record D) → Result Status (List Project)
  decode_projects [] = ok []
  decode_projects (rec ∷ recs) = do
    p ← decode_project rec
    items ← decode_projects recs
    ok (p ∷ items)

  unfoldable pub list_projects :
      Option Identity → S → ListRequest → Result Status (List Project × Str)
  unfolding decode_projects
  list_projects id s req = do
    selector ← parse_label_selector req.label_selector
    (recs, token) ← map_err store_err (
        st.list s (record {
          tenant_id = resolve_tenant id;
          kind = kind_project;
          project = [];
          label_selector = selector;
          limit = sign_extend32 req.page_size;
          continue_token = req.continue_token;
        }))
    items ← decode_projects recs
    ok (items, token)

  -- The answer to a delete is the project that was deleted.
  abbrev pub decode_reply : S × Result Error (Record D) → S × Result Status Project
  decode_reply (s', r) = (s', map_err store_err r >>= decode_project)

  unfoldable pub delete_project : Option Identity → S → Str → S × Result Status Project
  delete_project id s name =
      attempt s
        (guard (not (is_empty name)) (status Code.invalid_argument (codes "name is required")))
        λ u. decode_reply (st.delete s (project_key (resolve_tenant id) name))

module _ {S D : Type 0} (st : Store S D) (wire : Wire D Project)
    (eq : ProtoEqual (Option ProjectSpec)) where
  pub prepare_update : Option Identity → S → Option Project → Result Status (Project × Record D)
  prepare_update id s p = do
    meta ← require_name (get_project_metadata p)
    guard (not (is_empty meta.resource_version))
        (status Code.invalid_argument (codes "metadata.resource_version is required for update"))
    let tenant = resolve_tenant id
    current ← map_err store_err (st.get s (project_key tenant meta.name))
    cur ← decode_project st wire current
    let meta' =
        updated_meta tenant (next_generation eq current.generation cur.spec (spec_of p)) meta
    let p' = updated_project meta' p
    rec ← marshal_for_store wire tenant kind_project meta' p'
    ok (p', record rec { resource_version = meta.resource_version })

  -- `others` is what other clients do to the store between the read and the write.
  unfoldable pub update_project :
      Option Identity → (S → S) → S → Option Project → S × Result Status Project
  unfolding prepare_update
  update_project id others s p =
      attempt s (prepare_update id s p)
        λ (p', rec). after_write (stamped p') (st.update (others s) rec)
