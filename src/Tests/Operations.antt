-- ===== src/Tests/Operations.antt =====
-- Witnesses on the operations of the store.
use kestrai.Prelude.{
  ◌≢◌, ◌+◌, ◌%◌, ◌^◌, ℕ, ◌≡◌, refl, none, some, true, List, [], ◌∷◌, ok, err, if◌then◌else◌, arith,
}
use kestrai.Text.{Str, codes, str_eq}
use kestrai.Store.Uid.{new_uid}
use kestrai.Int64.{format_int, add64}
use kestrai.Store.{Key, already_exists, conflict, not_found, key_eq}
use kestrai.Store.Engine.{Row}
use kestrai.Store.Columns.{marshal_labels}
use kestrai.Store.Memory.{memory, find, remove}
use kestrai.Store.Memory.Lawful.{memory_laws}
use kestrai.Store.Memory.Texts.{plain_columns, plain_laws}
use kestrai.Store.Operations.{
  create, update, delete, get, assign, new_row, updated, bump, scan_record,
}
use kestrai.Store.Operations.Reading.{OrFails}
use kestrai.Store.Operations.Creation.{create_inserts, get-create}
use kestrai.Store.Operations.Effects.{update_applies, delete_removes}
use kestrai.Store.Operations.Refusals.{writes_refused}
use kestrai.Store.Operations.Recreation.{update-create_accepts}
use kestrai.Store.Operations.Concurrency.{version_counts_updates, stale_update_conflicts}
use kestrai.Store.Operations.History.{
  Call, updating, Aged, run, step, updates, deletes, update_count, is_deleted,
}
use kestrai.Tests.Fixtures.{
  edit, edited, edited_db, ambient, backend, empty_db, a_key, draft, stored, row, one_row,
}

get-create_example : OrFails (get (backend {D = ℕ}) one_row a_key) (ok stored)
unfolding create plain_laws plain_columns memory_laws memory marshal_labels assign new_uid new_row
    key_eq str_eq find format_int
get-create_example =
    get-create backend memory_laws plain_laws ambient empty_db one_row draft stored refl refl refl

writes_refused_example :
    ((found : Row ℕ)
      → find a_key one_row.table ≡ some found
      → (create backend ambient one_row draft ≡ (one_row, err already_exists))
        × (draft.resource_version ≢ format_int found.resource_version
            → update backend one_row draft ≡ (one_row, err conflict)))
    × (find a_key one_row.table ≡ none
        → (update backend one_row draft ≡ (one_row, err not_found))
          × (delete backend one_row a_key ≡ (one_row, err not_found)))
unfolding memory memory_laws
writes_refused_example = writes_refused backend memory_laws ambient one_row draft refl refl

create_inserts_example :
    (text : Str) × (find {D = ℕ} a_key [] ≡ none)
    × (true ≡ true)
    × (stored ≡ record draft {
      uid = new_uid ambient.entropy;
      resource_version = codes "1";
      created_at = ambient.now;
    })
    × (marshal_labels plain_columns draft.labels ≡ ok text)
    × ((j : Key)
        → find j one_row.table
          ≡ (if key_eq a_key j then some (record row { labels = text }) else none))
unfolding create plain_columns memory_laws memory marshal_labels assign new_uid new_row key_eq
    str_eq find format_int
create_inserts_example =
    create_inserts backend memory_laws ambient empty_db one_row draft stored refl

update_applies_example :
    (text : Str) × (old : Row ℕ) × (find a_key one_row.table ≡ some old)
    × (edit.resource_version ≡ format_int old.resource_version)
    × (marshal_labels plain_columns edit.labels ≡ ok text)
    × (edited ≡ record edit {
      uid = old.uid;
      resource_version = format_int ((old.resource_version + 1) % 2 ^ 64);
      created_at = elim (plain_columns.parse_time old.created_at) [
        | none ↦ edit.created_at
        | some t ↦ t
      ];
    })
    × ((j : Key)
        → find j edited_db.table ≡ (
            if key_eq a_key j
            then some (record old {
              resource_version = (old.resource_version + 1) % 2 ^ 64;
              generation = 2;
              labels = text;
              body = 8;
            })
            else find j one_row.table))
unfolding update plain_columns memory_laws memory marshal_labels updated bump key_eq str_eq find
    format_int add64
update_applies_example = update_applies backend memory_laws one_row edited_db edit edited refl

delete_removes_example :
    (old : Row ℕ) × (find a_key one_row.table ≡ some old)
    × (scan_record backend a_key old ≡ ok stored)
    × ((j : Key) → find {D = ℕ} j [] ≡ (if key_eq a_key j then none else find j one_row.table))
unfolding delete plain_columns memory_laws memory scan_record key_eq str_eq find remove format_int
delete_removes_example = delete_removes backend memory_laws one_row empty_db a_key stored refl

-- Two clients read version 1; one of them writes twice, and tries once more with its old version.
abbrev edits : List (Call ℕ)
edits = updating edit ∷ updating edited ∷ updating edit ∷ []

version_counts_updates_example :
    (last : Row ℕ) × (find a_key (run backend one_row edits).table ≡ some last)
    × Aged row last (update_count backend a_key one_row edits)
unfolding memory_laws find key_eq str_eq is_deleted deletes step
version_counts_updates_example =
    version_counts_updates backend memory_laws edits a_key one_row row refl (omega arith) refl

stale_update_conflicts_example :
    OrFails (update backend (run backend one_row edits) edit).1 (err conflict)
unfolding run step update_count is_deleted deletes updates update plain_columns memory_laws memory
    marshal_labels updated bump key_eq str_eq find format_int add64
stale_update_conflicts_example =
    stale_update_conflicts backend memory_laws edits one_row row edit refl (omega arith) refl
      (omega arith) (omega arith) refl

update-create_accepts_example : (update (backend {D = ℕ}) one_row edit).1 ≢ err conflict
unfolding create plain_columns memory marshal_labels assign new_uid new_row key_eq str_eq find
    format_int
update-create_accepts_example =
    update-create_accepts backend memory_laws ambient empty_db one_row draft stored edit refl refl
      refl
