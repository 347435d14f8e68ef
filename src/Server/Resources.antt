-- ===== src/Server/Resources.antt =====
-- internal/server/resources.go: the helpers that the two services share.
pub mod Steps
pub mod Failures
pub mod Replacement
use kestrai.Prelude.{
  ℕ, ◌==◌, Option, none, some, [], ◌∷◌, ◌++◌, Result, ok, err, map_err, ◌>>=◌, if◌then◌else◌,
}
use kestrai.Text.{Str, codes, is_empty}
use kestrai.Store.{Key, Record}
use kestrai.Api.{ObjectMeta, empty_meta}
use kestrai.Auth.{Context, Identity, default_tenant, identity_from_context}
use kestrai.Server.Status.{Status, status, Code, store_err}
use kestrai.Server.Wire.{Wire, ProtoEqual}
use kestrai.Int64.{add64}
use kestrai.Store.{Error}

abbrev pub kind_project : Str
kind_project = codes "Project"

abbrev pub kind_workflow : Str
kind_workflow = codes "Workflow"

abbrev tenant_of : Option Identity → Str
tenant_of none = default_tenant
tenant_of (some id) = if is_empty id.tenant_id then default_tenant else id.tenant_id

-- `resolveTenant`
unfoldable pub resolve_tenant : Context → Str
resolve_tenant ctx = tenant_of (identity_from_context ctx)

-- `requireName`; the metadata that it accepts is returned.
unfoldable pub require_name : Option ObjectMeta → Result Status ObjectMeta
require_name none = err (status Code.invalid_argument (codes "metadata.name is required"))
require_name (some meta) =
    if is_empty meta.name
    then err (status Code.invalid_argument (codes "metadata.name is required"))
    else ok meta

-- `marshalForStore`
unfoldable pub marshal_for_store :
    {D M : Type 0} → Wire D M → Str → Str → ObjectMeta → M → Result Status (Record D)
marshal_for_store wire tenant kind meta msg = do
  body ←
      map_err (λ e. status Code.internal (codes "marshal " ++ kind ++ codes ": " ++ e))
        (wire.marshal msg)
  ok (record {
    key = record { tenant_id = tenant; kind = kind; project = meta.project; name = meta.name };
    uid = [];
    resource_version = [];
    generation = meta.generation;
    labels = meta.labels;
    created_at = 0;
    body = body;
  })

-- `overlayStoredMeta`
unfoldable pub overlay_stored_meta : {D : Type 0} → ObjectMeta → Record D → ObjectMeta
overlay_stored_meta meta rec = record meta {
  tenant_id = rec.key.tenant_id;
  project = rec.key.project;
  name = rec.key.name;
  uid = rec.uid;
  resource_version = rec.resource_version;
  generation = rec.generation;
  creation_timestamp = if rec.created_at == 0 then meta.creation_timestamp else some rec.created_at;
}

-- A nil metadata is replaced by an empty one.
abbrev pub or_empty : Option ObjectMeta → ObjectMeta
or_empty none = empty_meta
or_empty (some meta) = meta

-- The rest of a handler after a write to the store, or after an error before it.
abbrev pub after_write :
    {S D M : Type 0} → (Record D → M) → S × Result Error (Record D) → S × Result Status M
after_write reply (s, err e) = (s, err (store_err e))
after_write reply (s, ok stored) = (s, ok (reply stored))

abbrev pub attempt :
    {S A M : Type 0} → S → Result Status A → (A → S × Result Status M) → S × Result Status M
attempt s (err e) k = (s, err e)
attempt s (ok a) k = k a

-- The generation bumps only when the spec changes.
unfoldable pub next_generation : {M : Type 0} → ProtoEqual M → ℕ → M → M → ℕ
next_generation eq generation old new = if eq.equal old new then generation else add64 generation 1
