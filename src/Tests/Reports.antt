-- ===== src/Tests/Reports.antt =====
-- A witness on a workflow from its creation to its report.
use kestrai.Prelude.{◌≡◌, ◌∙◌, refl, none, some, ok, Option}
use kestrai.Text.{codes, str_eq}
use kestrai.Int64.{format_int}
use kestrai.Auth.{default_tenant}
use kestrai.Store.{key_eq}
use kestrai.Store.Uid.{new_uid}
use kestrai.Store.Columns.{marshal_labels}
use kestrai.Store.Operations.{create, get, assign, new_row, scan_record}
use kestrai.Store.Memory.{Memory, memory, find}
use kestrai.Store.Memory.Lawful.{memory_laws}
use kestrai.Store.Memory.Texts.{plain_columns, plain_laws}
use kestrai.Store.Contract.Refinement.{sqlite_store, sqlite_store-Contract}
use kestrai.Api.{Workflow}
use kestrai.Server.Resources.{resolve_tenant, require_name, marshal_for_store, overlay_stored_meta}
use kestrai.Server.Workflows.{create_workflow, new_workflow, require_scope}
use kestrai.Server.Workflows.Creation.{create_workflow-ok}
use kestrai.Reconciler.{reconcile_workflow}
use kestrai.Reconciler.Reports.{Reports, create_workflow-Reports}
use kestrai.Tests.Fixtures.{ambient, backend}
use kestrai.Tests.Messages.{plain_wire, plain_wire_laws, status_equal}
use kestrai.Tests.Reconciler.{build_spec, morning}
use kestrai.Tests.Workflows.{store, contract, shop_db, release_meta, leave}
use kestrai.Tests.Writes.{memory_Reliable}

abbrev request : Option Workflow
request = some (record { metadata = some release_meta; spec = build_spec; status = none })

abbrev created : Workflow
created = record {
  metadata = some (record release_meta {
    tenant_id = default_tenant;
    uid = codes "00112233-4455-4677-8899-aabbccddeeff";
    resource_version = codes "1";
    generation = 1;
    creation_timestamp = some 1700000000;
  });
  spec = build_spec;
  status = none;
}

abbrev created_db : Memory Workflow
created_db = (create_workflow store plain_wire none ambient leave shop_db request).0

request_created :
    create_workflow store plain_wire none ambient leave shop_db request ≡ (created_db, ok created)
unfolding sqlite_store create_workflow new_workflow require_scope require_name resolve_tenant
    marshal_for_store overlay_stored_meta create get scan_record assign new_row new_uid
    marshal_labels memory plain_columns find key_eq str_eq format_int
request_created = refl

create_workflow-Reports_example :
    Reports store plain_wire status_equal contract plain_wire_laws memory_Reliable none
      (reconcile_workflow store plain_wire status_equal morning created_db
        (create_workflow-ok store plain_wire none ambient leave shop_db created_db request created
          request_created).stored).0
      request
      created
unfolding plain_laws
create_workflow-Reports_example =
    create_workflow-Reports store plain_wire status_equal contract plain_wire_laws memory_Reliable
      none ambient leave shop_db created_db request created morning request_created
      (λ body.
        (sqlite_store-Contract backend memory_laws plain_laws).2
          (record (create_workflow-ok store plain_wire none ambient leave shop_db created_db request
            created request_created).stored { body = body })
        ∙ refl)
