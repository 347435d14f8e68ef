-- ===== src/Tests/Listing.antt =====
-- Witnesses on the listing of the store and on its contract.
use kestrai.Prelude.{ℕ, ◌≡◌, ◌↔◌, refl, none, some, true, List, [], ◌∷◌, ◌++◌, ok, arith, All, In}
use kestrai.Text.{Str, codes, str_eq}
use kestrai.Text.Order.{str_less}
use kestrai.Base64.{encode}
use kestrai.Int64.{format_int, is_positive}
use kestrai.Auth.{default_tenant}
use kestrai.Store.{Key, Record, ListOptions, key_eq, label_of}
use kestrai.Store.Engine.{Row, selects}
use kestrai.Store.Cursor.{encode_continue, decode_continue}
use kestrai.Store.Cursor.Token.{decode_continue-encode_continue}
use kestrai.Store.Memory.{Memory, memory, find, sorted, put}
use kestrai.Store.Memory.Lawful.{memory_laws}
use kestrai.Store.Memory.Texts.{plain_columns}
use kestrai.Store.Operations.{scan_record}
use kestrai.Store.Listing.{list, paginate, collect, wanted, matches_labels}
use kestrai.Store.Listing.Walk.{walk, walk_complete}
use kestrai.Store.Listing.Contents.{list_exact}
use kestrai.Store.Listing.Selection.{Selected, matches_labels_iff}
use kestrai.Store.Contract.{Contract}
use kestrai.Tests.Fixtures.{backend, stored, row, one_row, key}

abbrev three_rows : Memory ℕ
three_rows = record one_row {
  table = (key (codes "c"), row) ∷ (key (codes "a"), row) ∷ (key (codes "b"), row) ∷ [];
}

abbrev stored_as : Str → Record ℕ
stored_as name = record stored { key = key name }

abbrev three_records : List (Record ℕ)
three_records = stored_as (codes "a") ∷ stored_as (codes "b") ∷ stored_as (codes "c") ∷ []

abbrev options : ListOptions
options = record {
  tenant_id = default_tenant;
  kind = codes "Project";
  project = [];
  label_selector = (codes "app", codes "web") ∷ [];
  limit = 2;
  continue_token = [];
}

walk_complete_example : walk backend 4 three_rows options ≡ ok three_records
unfolding list collect wanted scan_record paginate is_positive memory sorted put str_less str_eq
    decode_continue matches_labels label_of plain_columns format_int key_eq
walk_complete_example =
    walk_complete backend options three_rows three_records 2 4 memory_laws refl
      (
        (tt, (omega arith, tt), tt),
        ((tt, (omega arith, tt), tt), ((tt, (omega arith, tt), tt), tt)),
      )
      (omega arith)

list_exact_example : In (stored_as (codes "b")) three_records ↔ (
    (k : Key) × (old : Row ℕ) × (find k three_rows.table ≡ some old)
    × (selects default_tenant (codes "Project") none k ≡ true)
    × (scan_record backend k old ≡ ok (stored_as (codes "b")))
    × (matches_labels stored.labels options.label_selector ≡ true))
unfolding list collect wanted scan_record paginate is_positive memory memory_laws sorted put
    str_less str_eq decode_continue matches_labels label_of plain_columns format_int key_eq
list_exact_example =
    list_exact backend memory_laws three_rows options three_records [] (stored_as (codes "b")) refl

decode_continue-encode_continue_example :
    decode_continue (encode (codes "shop" ++ 0 ∷ codes "build"))
    ≡ ok (some (record { project = codes "shop"; name = codes "build" }))
unfolding encode_continue
decode_continue-encode_continue_example =
    decode_continue-encode_continue (record { project = codes "shop"; name = codes "build" })
      (omega arith, (omega arith, (omega arith, (omega arith, tt))))
      (omega arith, (omega arith, (omega arith, (omega arith, (omega arith, tt)))))
      (omega arith, (omega arith, (omega arith, (omega arith, tt))))

-- A selector with an empty value also selects labels without the key.
matches_labels_iff_example :
    (matches_labels stored.labels ((codes "tier", []) ∷ []) ≡ true)
    ↔ All (Selected stored.labels) ((codes "tier", []) ∷ [])
matches_labels_iff_example = matches_labels_iff stored.labels ((codes "tier", []) ∷ [])
