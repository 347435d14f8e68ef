-- ===== src/Store/Listing.antt =====
-- `List` of internal/store/sqlite.go: the query, the filters in memory, and the page.
pub mod Steps
pub mod Order
pub mod Pages
pub mod Walk
pub mod Contents
pub mod Selection
use kestrai.Prelude.{
  ℕ, ◌≡◌, Bool, true, false, not, ◌&&◌, ◌||◌, Option, none, some, List, [], ◌∷◌, ◌++◌, Result, ok,
  err, ◌>>=◌, ◌>>◌, guard, map_err, if◌then◌else◌, leb, length, take,
}
use kestrai.Text.{Str, codes, str_eq, is_empty}
use kestrai.Int64.{is_positive}
use kestrai.Store.{Key, Record, ListOptions, Labels, label_of, Error, other}
use kestrai.Store.Engine.{Row, Sqlite}
use kestrai.Store.Cursor.{Cursor, cursor_less, encode_continue, decode_continue}
use kestrai.Store.Cursor.Position.{cursor_of}
use kestrai.Store.Operations.{Backend, scan_record, wrapped}

-- `matchesLabels`
unfoldable pub matches_labels : Labels → Labels → Bool
matches_labels labels [] = true
matches_labels labels ((k, v) ∷ selector) =
    str_eq (label_of labels k) v && matches_labels labels selector

-- Is the row behind the cursor of the previous page?
abbrev pub is_after : Option Cursor → Cursor → Bool
is_after none c = true
is_after (some a) c = cursor_less a c

unfoldable pub wanted : {D : Type 0} → ListOptions → Option Cursor → Record D → Bool
wanted opts after rec =
    is_after after (cursor_of rec.key) && matches_labels rec.labels opts.label_selector

-- `page[len(page)-1]` of a page `r ∷ rs`
pub last : {A : Type 0} → A → List A → A
last r [] = r
last r (s ∷ rs) = last s rs

-- The token of a page; `paginate` takes it of pages with an element only.
pub page_token : {D : Type 0} → List (Record D) → Str
page_token [] = []
page_token (r ∷ rs) = encode_continue (cursor_of (last r rs).key)

-- `paginate`
unfoldable pub paginate : {D : Type 0} → List (Record D) → ℕ → List (Record D) × Str
paginate out limit =
    if not (is_positive limit) || leb (length out) limit
    then (out, [])
    else (take limit out, page_token (take limit out))

-- An empty Project lists all projects.
abbrev pub project_filter : Str → Option Str
project_filter [] = none
project_filter (c ∷ s) = some (c ∷ s)

module _ {Db D : Type 0} (b : Backend Db D) where
  open b use {sql}

  -- The loop over the rows; the first row that does not decode ends the call.
  unfoldable pub collect :
      ListOptions → Option Cursor → List (Key × Row D) → Result Error (List (Record D))
  collect opts after [] = ok []
  collect opts after ((k, row) ∷ rows) = do
    rec ←
        scan_record b
          (record {
            tenant_id = opts.tenant_id;
            kind = opts.kind;
            project = k.project;
            name = k.name;
          })
          row
    out ← collect opts after rows
    ok (if wanted opts after rec then rec ∷ out else out)

  -- rows.Err()
  checked : {A : Type 0} → Option Str → A → Result Error A
  checked none a = ok a
  checked (some e) a = err (other e)

  unfoldable pub list : Db → ListOptions → Result Error (List (Record D) × Str)
  unfolding checked
  list d opts = do
    rows ←
        wrapped (codes "store: list: ")
          (sql.select_rows d opts.tenant_id opts.kind (project_filter opts.project))
    after ← decode_continue opts.continue_token
    out ← collect opts after rows
    checked (sql.rows_err d) (paginate out opts.limit)
