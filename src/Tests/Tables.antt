-- ===== src/Tests/Tables.antt =====
-- Witnesses on the tables of `kestrai get`.
use kestrai.Prelude.{◌≡◌, refl, none, some, [], List, err}
use kestrai.Text.{Str, codes, str_eq}
use kestrai.Int64.{format_int, is_positive, sign_extend32}
use kestrai.Server.Projects.{list_projects, create_project, new_project, decode_project}
use kestrai.Server.Selector.{parse_label_selector}
use kestrai.Text.Trim.{trim_space}
use kestrai.Store.Contract.Refinement.{sqlite_store}
use kestrai.Store.Listing.{list, collect, matches_labels, paginate, wanted}
use kestrai.Store.Memory.{memory, find, put, sorted}
use kestrai.Store.Cursor.{decode_continue}
use kestrai.Server.Resources.{require_name, marshal_for_store, resolve_tenant, overlay_stored_meta}
use kestrai.Store.Operations.{create, assign, new_row, scan_record}
use kestrai.Store.Columns.{marshal_labels}
use kestrai.Store.Memory.Texts.{plain_columns}
use kestrai.Store.Uid.{new_uid}
use kestrai.Store.{key_eq}
use kestrai.Cli.Documents.{Formats}
use kestrai.Cli.Get.{get_projects, render_list}
use kestrai.Cli.Get.Tables.{rows_of, Shows, get_projects-Shows}
use kestrai.Tests.Shop.{store, contract, shop_db}
use kestrai.Tests.Messages.{plain_wire}

-- Formats that no document has; a table needs none.
abbrev no_formats : Formats Str Str
no_formats = record {
  text = λ s. s;
  as_text = λ s. some s;
  documents = λ d. [];
  write_yaml = λ doc. err (codes "no YAML");
  write_indented = λ doc. err (codes "no JSON");
  write_json = λ doc. err (codes "no JSON");
  read_json = λ d. err (codes "no JSON");
  projects = record {
    marshal = λ p. err (codes "no JSON");
    unmarshal = λ d. err (codes "no JSON");
  };
  workflows = record {
    marshal = λ w. err (codes "no JSON");
    unmarshal = λ d. err (codes "no JSON");
  };
}

get_projects-Shows_example :
    let out = get_projects no_formats store none shop_db 1700000005 plain_wire [] [] in
    (rows : List (List Str)) × (rows_of out.printed ≡ some rows)
    × Shows no_formats store plain_wire contract none shop_db 1700000005 rows
unfolding get_projects render_list str_eq format_int is_positive sign_extend32 list_projects
    create_project new_project decode_project parse_label_selector trim_space sqlite_store list
    collect matches_labels paginate wanted memory find put sorted decode_continue require_name
    marshal_for_store resolve_tenant overlay_stored_meta create assign new_row scan_record
    marshal_labels plain_columns new_uid key_eq
get_projects-Shows_example =
    get_projects-Shows no_formats store plain_wire contract none shop_db 1700000005 refl
