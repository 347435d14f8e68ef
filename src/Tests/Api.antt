-- ===== src/Tests/Api.antt =====
-- Witnesses on the services of the API.
use kestrai.Prelude.{err, ◌≡◌, ◌∙◌, refl, none, some, ok}
use kestrai.Text.{codes, str_eq}
use kestrai.Int64.{format_int}
use kestrai.Auth.{default_tenant}
use kestrai.Store.{Record, key_eq}
use kestrai.Store.Uid.{new_uid}
use kestrai.Store.Columns.{marshal_labels}
use kestrai.Store.Operations.{create, assign, new_row}
use kestrai.Store.Memory.{memory, find}
use kestrai.Store.Memory.Lawful.{memory_laws}
use kestrai.Store.Memory.Texts.{plain_columns, plain_laws}
use kestrai.Store.Contract.Refinement.{sqlite_store, sqlite_store-Contract}
use kestrai.Api.{Project}
use kestrai.Server.Resources.{
  resolve_tenant, require_name, marshal_for_store, overlay_stored_meta, next_generation,
}
use kestrai.Server.Projects.{
  create_project, get_project, new_project, update_project, updated_project, decode_project,
  project_key,
}
use kestrai.Server.Projects.Creation.{OrUnavailable, create_project-ok, get_project-create_project}
use kestrai.Server.Projects.Updates.{Replaces, update_project-Replaces}
use kestrai.Server.Projects.Staleness.{update_project_stale}
use kestrai.Store.Operations.{get, update, updated, bump, scan_record}
use kestrai.Store.Contract.View.{decoded}
use kestrai.Int64.{add64}
use kestrai.Cli.{apply_project, reported}
use kestrai.Cli.Choice.{OrUnreachable, apply_project_chooses}
use kestrai.Server.Status.{status, Code, error_text}
use kestrai.Store.{conflict}
use kestrai.Tests.Specs.{spec_eq, spec_equal}
use kestrai.Tests.Fixtures.{ambient, backend, empty_db}
use kestrai.Tests.Messages.{plain_wire, plain_wire_laws}
use kestrai.Tests.Shop.{
  shop, created_shop, store, contract, shop_db, shop_meta, renamed, shop_stored, renamed_shop, web,
  web_meta, add_web, renamed_db, rename,
}

shop_created :
    create_project store plain_wire none ambient empty_db shop ≡ (shop_db, ok created_shop)
unfolding sqlite_store create_project new_project resolve_tenant require_name marshal_for_store
    overlay_stored_meta create assign new_row new_uid marshal_labels memory plain_columns find
    key_eq str_eq format_int
shop_created = refl

get_project-create_project_example :
    OrUnavailable (get_project store plain_wire none shop_db (codes "shop")) (ok created_shop)
unfolding plain_laws
get_project-create_project_example =
    get_project-create_project store plain_wire contract plain_wire_laws none ambient empty_db
      shop_db shop created_shop shop_created
      ((sqlite_store-Contract backend memory_laws plain_laws).2
          (create_project-ok store plain_wire none ambient empty_db shop_db shop created_shop
            shop_created).stored
        ∙ refl)

shop_kept :
    contract.view (add_web shop_db) (project_key default_tenant (codes "shop"))
    ≡ some (ok shop_stored)
unfolding sqlite_store create_project new_project resolve_tenant require_name marshal_for_store
    overlay_stored_meta create assign new_row new_uid marshal_labels memory memory_laws
    plain_columns find key_eq str_eq format_int decoded scan_record
shop_kept =
    (sqlite_store-Contract backend memory_laws plain_laws).1 (add_web shop_db)
      (project_key default_tenant (codes "shop"))
    ∙ refl

update_project-Replaces_example :
    Replaces store plain_wire spec_equal contract plain_wire_laws none add_web shop_db renamed_db
      (renamed (codes "1"))
      renamed_shop
unfolding sqlite_store create_project new_project resolve_tenant require_name marshal_for_store
    overlay_stored_meta create assign new_row new_uid marshal_labels memory plain_columns find
    key_eq str_eq format_int update_project updated_project decode_project next_generation spec_eq
    get update updated bump scan_record add64 plain_laws
update_project-Replaces_example =
    update_project-Replaces store plain_wire spec_equal contract plain_wire_laws none add_web
      shop_db renamed_db (renamed (codes "1")) renamed_shop (λ x e. let held = shop_kept in cc)
      (λ meta rec given labels created.
        (sqlite_store-Contract backend memory_laws plain_laws).2 rec ∙ refl)
      refl

shop_held :
    contract.view shop_db (project_key default_tenant (codes "shop")) ≡ some (ok shop_stored)
unfolding sqlite_store create_project new_project resolve_tenant require_name marshal_for_store
    overlay_stored_meta create assign new_row new_uid marshal_labels memory memory_laws
    plain_columns find key_eq str_eq format_int decoded scan_record
shop_held =
    (sqlite_store-Contract backend memory_laws plain_laws).1 shop_db
      (project_key default_tenant (codes "shop"))
    ∙ refl

update_project_stale_example :
    update_project store plain_wire spec_equal none add_web shop_db (renamed (codes "7"))
    ≡ (add_web shop_db, err (status Code.aborted (error_text conflict)))
unfolding resolve_tenant memory decode_project overlay_stored_meta
update_project_stale_example =
    update_project_stale store plain_wire spec_equal contract none add_web shop_db
      (renamed (codes "7")) (shop_meta (codes "7")) shop_stored shop_stored created_shop refl refl
      refl ((sqlite_store-Contract backend memory_laws plain_laws).3 shop_db _)
      ((sqlite_store-Contract backend memory_laws plain_laws).3 (add_web shop_db) _) shop_held refl
      (λ q. (q, refl)) shop_kept (λ e. cc)

apply_project_chooses_example :
    let k = project_key (resolve_tenant none) (codes "web") in
    (contract.view shop_db k ≡ none
      → OrUnreachable shop_db
          (apply_project store plain_wire spec_equal none ambient rename (λ db. db) shop_db web)
          (reported
            (codes "created")
            (create_project store plain_wire none ambient (rename shop_db) (some web))))
    × ((old : Record Project) (cur : Project)
        → contract.view shop_db k ≡ some (ok old)
        → decode_project store plain_wire old ≡ ok cur
        → OrUnreachable shop_db
            (apply_project store plain_wire spec_equal none ambient rename (λ db. db) shop_db web)
            (reported (codes "configured") (
              update_project store plain_wire spec_equal none
                (λ db. db)
                (rename shop_db)
                (some (record web {
                  metadata = some (record web_meta { resource_version = old.resource_version });
                })))))
apply_project_chooses_example =
    apply_project_chooses store plain_wire spec_equal contract none ambient rename (λ db. db)
      shop_db web web_meta refl refl
