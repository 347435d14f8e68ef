-- ===== src/Tests/Shop.antt =====
-- A store with a project, and what clients do to it.
use kestrai.Prelude.{none, some, [], Option}
use kestrai.Text.{Str, codes}
use kestrai.Auth.{default_tenant}
use kestrai.Store.{Record}
use kestrai.Store.Memory.{Memory}
use kestrai.Store.Memory.Lawful.{memory_laws}
use kestrai.Store.Memory.Texts.{plain_laws}
use kestrai.Store.Contract.{Store, Contract}
use kestrai.Store.Contract.Refinement.{sqlite_store, sqlite_store-Contract}
use kestrai.Api.{ObjectMeta, Project, ProjectSpec, empty_meta}
use kestrai.Server.Projects.{create_project, update_project, project_key}
use kestrai.Tests.Specs.{spec_equal}
use kestrai.Tests.Fixtures.{ambient, backend, empty_db}
use kestrai.Tests.Messages.{plain_wire}

abbrev pub shop_spec : Option ProjectSpec
shop_spec = some (record {
  display_name = codes "Shop";
  description = [];
  default_model_provider = [];
  budget = none;
  secret_refs = [];
})

abbrev pub shop : Option Project
shop = some (record {
  metadata = some (record empty_meta { name = codes "shop"; generation = 9 });
  spec = shop_spec;
  status = none;
})

abbrev pub created_shop : Project
created_shop = record {
  metadata = some (record empty_meta {
    tenant_id = default_tenant;
    name = codes "shop";
    uid = codes "00112233-4455-4677-8899-aabbccddeeff";
    resource_version = codes "1";
    generation = 1;
    creation_timestamp = some 1700000000;
  });
  spec = shop_spec;
  status = none;
}

abbrev pub store : Store (Memory Project) Project
store = sqlite_store backend

abbrev pub contract : Contract store
contract = (sqlite_store-Contract backend memory_laws plain_laws).0

abbrev pub shop_db : Memory Project
shop_db = (create_project store plain_wire none ambient empty_db shop).0

abbrev pub renamed_spec : Option ProjectSpec
renamed_spec = some (record {
  display_name = codes "Web shop";
  description = [];
  default_model_provider = [];
  budget = none;
  secret_refs = [];
})

abbrev pub shop_meta : Str → ObjectMeta
shop_meta version = record empty_meta { name = codes "shop"; resource_version = version }

abbrev pub renamed : Str → Option Project
renamed version =
    some (record { metadata = some (shop_meta version); spec = renamed_spec; status = none })

abbrev pub shop_stored : Record Project
shop_stored = record {
  key = project_key default_tenant (codes "shop");
  uid = codes "00112233-4455-4677-8899-aabbccddeeff";
  resource_version = codes "1";
  generation = 1;
  labels = [];
  created_at = 1700000000;
  body = record {
    metadata =
        some
          (record empty_meta { tenant_id = default_tenant; name = codes "shop"; generation = 1 });
    spec = shop_spec;
    status = none;
  };
}

abbrev pub renamed_shop : Project
renamed_shop = record {
  metadata = some (record empty_meta {
    tenant_id = default_tenant;
    name = codes "shop";
    uid = codes "00112233-4455-4677-8899-aabbccddeeff";
    resource_version = codes "2";
    generation = 2;
    creation_timestamp = some 1700000000;
  });
  spec = renamed_spec;
  status = none;
}

abbrev pub web_meta : ObjectMeta
web_meta = record empty_meta { name = codes "web" }

abbrev pub web : Project
web = record { metadata = some web_meta; spec = shop_spec; status = none }

-- What another client does meanwhile.
abbrev pub add_web : Memory Project → Memory Project
add_web db = (create_project store plain_wire none ambient db (some web)).0

abbrev pub renamed_db : Memory Project
renamed_db =
    (update_project store plain_wire spec_equal none add_web shop_db (renamed (codes "1"))).0

-- What another client does between the two calls.
abbrev pub rename : Memory Project → Memory Project
rename db = (update_project store plain_wire spec_equal none (λ db. db) db (renamed (codes "1"))).0
