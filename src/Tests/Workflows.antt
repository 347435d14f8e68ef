-- ===== src/Tests/Workflows.antt =====
-- Witnesses on the creation of workflows.
use kestrai.Prelude.{◌≡◌, ◌∙◌, refl, none, some, [], ◌∷◌, Option, ok}
use kestrai.Text.{codes, str_eq}
use kestrai.Int64.{format_int}
use kestrai.Auth.{default_tenant}
use kestrai.Store.{Record, key_eq}
use kestrai.Store.Engine.{Row}
use kestrai.Store.Uid.{new_uid}
use kestrai.Store.Columns.{marshal_labels}
use kestrai.Store.Operations.{create, get, assign, new_row, scan_record}
use kestrai.Store.Memory.{Memory, memory, find}
use kestrai.Store.Memory.Lawful.{memory_laws}
use kestrai.Store.Memory.Texts.{plain_columns, plain_laws}
use kestrai.Store.Contract.{Store, Contract}
use kestrai.Store.Contract.View.{decoded}
use kestrai.Store.Contract.Refinement.{sqlite_store, sqlite_store-Contract}
use kestrai.Api.{Workflow, ObjectMeta, empty_meta}
use kestrai.Server.Status.{status}
use kestrai.Server.Resources.{resolve_tenant, require_name, marshal_for_store, overlay_stored_meta}
use kestrai.Server.Projects.{project_key}
use kestrai.Server.Workflows.{create_workflow, new_workflow, require_scope}
use kestrai.Server.Workflows.Owners.{create_workflow_owned}
use kestrai.Server.Workflows.{update_workflow, updated_workflow, decode_workflow, workflow_key}
use kestrai.Server.Workflows.Updates.{Replaces, update_workflow-Replaces}
use kestrai.Server.Resources.{next_generation}
use kestrai.Store.Operations.{update, updated, bump}
use kestrai.Int64.{add64}
use kestrai.Tests.WorkflowSpecs.{workflow_spec_equal, workflow_spec_eq}
use kestrai.Tests.Reconciler.{build_spec}
use kestrai.Tests.Fixtures.{ambient, backend, empty_db}
use kestrai.Tests.Messages.{plain_wire, plain_wire_laws}

abbrev pub store : Store (Memory Workflow) Workflow
store = sqlite_store backend

abbrev pub contract : Contract store
contract = (sqlite_store-Contract backend memory_laws plain_laws).0

abbrev blank : Workflow
blank = record { metadata = none; spec = none; status = none }

abbrev shop_row : Row Workflow
shop_row = record {
  uid = codes "u";
  resource_version = 1;
  generation = 1;
  labels = [];
  created_at = 1 ∷ [];
  body = blank;
}

abbrev pub shop_db : Memory Workflow
shop_db = record empty_db { table = (project_key default_tenant (codes "shop"), shop_row) ∷ [] }

abbrev pub release_meta : ObjectMeta
release_meta = record empty_meta { name = codes "release"; project = codes "shop" }

abbrev release : Option Workflow
release = some (record { metadata = some release_meta; spec = none; status = none })

abbrev created_release : Workflow
created_release = record {
  metadata = some (record release_meta {
    tenant_id = default_tenant;
    uid = codes "00112233-4455-4677-8899-aabbccddeeff";
    resource_version = codes "1";
    generation = 1;
    creation_timestamp = some 1700000000;
  });
  spec = none;
  status = none;
}

-- No other client comes in between.
abbrev pub leave : Memory Workflow → Memory Workflow
leave db = db

abbrev release_db : Memory Workflow
release_db = (create_workflow store plain_wire none ambient leave shop_db release).0

create_workflow_owned_example :
    (meta : ObjectMeta) × (owner : Record Workflow) × (require_scope release ≡ ok meta)
    × (contract.view shop_db (project_key (resolve_tenant none) meta.project) ≡ some (ok owner))
unfolding sqlite_store create_workflow new_workflow require_scope require_name resolve_tenant
    marshal_for_store overlay_stored_meta create get scan_record assign new_row new_uid
    marshal_labels memory plain_columns find key_eq str_eq format_int
create_workflow_owned_example =
    create_workflow_owned store plain_wire contract none ambient leave shop_db release_db release
      created_release refl

abbrev respecified : Option Workflow
respecified = some (record {
  metadata = some (record release_meta { resource_version = codes "1" });
  spec = build_spec;
  status = none;
})

abbrev respecified_release : Workflow
respecified_release = record {
  metadata = some (record release_meta {
    tenant_id = default_tenant;
    uid = codes "00112233-4455-4677-8899-aabbccddeeff";
    resource_version = codes "2";
    generation = 2;
    creation_timestamp = some 1700000000;
  });
  spec = build_spec;
  status = none;
}

abbrev stored_release : Record Workflow
stored_release = record {
  key = workflow_key default_tenant (codes "shop") (codes "release");
  uid = codes "00112233-4455-4677-8899-aabbccddeeff";
  resource_version = codes "1";
  generation = 1;
  labels = [];
  created_at = 1700000000;
  body = record {
    metadata = some (record release_meta { tenant_id = default_tenant; generation = 1 });
    spec = none;
    status = none;
  };
}

release_held :
    contract.view release_db (workflow_key default_tenant (codes "shop") (codes "release"))
    ≡ some (ok stored_release)
unfolding sqlite_store create_workflow new_workflow require_scope require_name resolve_tenant
    marshal_for_store overlay_stored_meta create get scan_record assign new_row new_uid
    marshal_labels memory memory_laws plain_columns find key_eq str_eq format_int decoded
release_held =
    (sqlite_store-Contract backend memory_laws plain_laws).1 release_db
      (workflow_key default_tenant (codes "shop") (codes "release"))
    ∙ refl

update_workflow-Replaces_example :
    Replaces store plain_wire workflow_spec_equal contract plain_wire_laws none leave release_db
      (update_workflow store plain_wire workflow_spec_equal none leave release_db respecified).0
      respecified
      respecified_release
unfolding sqlite_store create_workflow new_workflow require_scope require_name resolve_tenant
    marshal_for_store overlay_stored_meta create get scan_record assign new_row new_uid
    marshal_labels memory plain_columns find key_eq str_eq format_int update_workflow
    updated_workflow decode_workflow next_generation workflow_spec_eq update updated bump add64
    plain_laws
update_workflow-Replaces_example =
    update_workflow-Replaces store plain_wire workflow_spec_equal contract plain_wire_laws none
      leave release_db
      (update_workflow store plain_wire workflow_spec_equal none leave release_db respecified).0
      respecified respecified_release (λ x e. let held = release_held in cc)
      (λ meta rec given labels created.
        (sqlite_store-Contract backend memory_laws plain_laws).2 rec ∙ refl)
      refl
