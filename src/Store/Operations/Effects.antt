-- ===== src/Store/Operations/Effects.antt =====
-- What `Update` and `Delete` promise.
use kestrai.Prelude.{◌+◌, ◌%◌, ◌^◌, ◌≡◌, ◌≢◌, sym, none, some, ok, err, arith, if◌then◌else◌}
use kestrai.Text.{Str, str_eq_iff}
use kestrai.Int64.{format_int, add64}
use kestrai.Store.{Key, Record, not_found, conflict, key_eq}
use kestrai.Store.Engine.{Row, Laws, patch}
use kestrai.Store.Columns.{marshal_labels}
use kestrai.Store.Operations.{
  Backend, update, delete, update_body, delete_body, updated, bump, transact, scan_record,
  current_row,
}
use kestrai.Store.Operations.Reading.{OrFails, existing-content}
use kestrai.Store.Operations.Transactions.{transact-ok}
use kestrai.Store.Operations.Rows.{update_body-ok, delete_body-ok}

module _ {Db D : Type 0} (b : Backend Db D) (laws : Laws b.sql) where
  open b use {sql, columns}
  open laws use {content}

  -- The steps of an `Update` that succeeds.
  pub update_writes :
      (d d' : Db) (rec r : Record D)
      → update b d rec ≡ (d', ok r)
      → (text : Str) × (row : Row D) × (content d rec.key ≡ some row)
        × (rec.resource_version ≡ format_int row.resource_version)
        × (marshal_labels columns rec.labels ≡ ok text)
        × (r ≡ updated b rec row)
        × ((j : Key)
            → content d' j
              ≡ (if key_eq rec.key j then some (patch (bump b rec row text) row) else content d j))
  unfolding update
  update_writes d d' rec r e =
      let (text, row, selected, current, marshalled, written, result) =
        update_body-ok b d d' rec r (transact-ok b d d' (update_body b rec) r e) in
      let found = sym (laws.select_answer d rec.key (some row) selected) in
      (
        text,
        row,
        found,
        (str_eq_iff rec.resource_version (format_int row.resource_version)).0 current,
        marshalled,
        result,
        λ j. laws.update_effect d d' rec.key (bump b rec row text) row j written found,
      )

  -- An `Update` that succeeds found the row of its key at the version that the caller gave, and
  -- changes that row alone: version plus one, generation, labels and body of the caller; the uid and
  -- the creation time stay, and the answer has them.
  pub update_applies :
      (d d' : Db) (rec r : Record D)
      → update b d rec ≡ (d', ok r)
      → (text : Str) × (row : Row D) × (content d rec.key ≡ some row)
        × (rec.resource_version ≡ format_int row.resource_version)
        × (marshal_labels columns rec.labels ≡ ok text)
        × (r ≡ record rec {
          uid = row.uid;
          resource_version = format_int ((row.resource_version + 1) % 2 ^ 64);
          created_at = elim (columns.parse_time row.created_at) [
            | none ↦ rec.created_at
            | some t ↦ t
          ];
        })
        × ((j : Key)
            → content d' j ≡ (
                if key_eq rec.key j
                then some (record row {
                  resource_version = (row.resource_version + 1) % 2 ^ 64;
                  generation = rec.generation;
                  labels = text;
                  body = rec.body;
                })
                else content d j))
  unfolding updated bump add64
  update_applies d d' rec r e = update_writes d d' rec r e

  -- A `Delete` that succeeds returns the record of its key and removes that row alone.
  pub delete_removes :
      (d d' : Db) (key : Key) (r : Record D)
      → delete b d key ≡ (d', ok r)
      → (row : Row D) × (content d key ≡ some row)
        × (scan_record b key row ≡ ok r)
        × ((j : Key) → content d' j ≡ (if key_eq key j then none else content d j))
  unfolding delete
  delete_removes d d' key r e =
      let (row, selected, scanned, removed) =
        delete_body-ok b d d' key r (transact-ok b d d' (delete_body b key) r e) in
      (
        row,
        sym (laws.select_answer d key (some row) selected),
        scanned,
        λ j. laws.delete_effect d d' key j removed,
      )

  -- An `Update` whose version is not the stored one answers ErrConflict, unless the driver fails
  -- before the versions are compared.
  pub update_stale :
      (d : Db) (rec : Record D) (row : Row D)
      → content d rec.key ≡ some row
      → rec.resource_version ≢ format_int row.resource_version
      → OrFails (update b d rec).1 (err conflict)
  unfolding update update_body current_row transact
  update_stale d rec row found stale = ground (
    arith,
    existing-content b laws d rec.key (some row) found,
    str_eq_iff rec.resource_version (format_int row.resource_version),
  )

  -- `Update` and `Delete` answer ErrNotFound where there is no row, unless the driver fails first.
  pub write_missing :
      (d : Db) (rec : Record D)
      → content d rec.key ≡ none
      → OrFails (update b d rec).1 (err not_found) × OrFails (delete b d rec.key).1 (err not_found)
  unfolding update update_body current_row delete delete_body transact
  write_missing d rec missing = ground (arith, existing-content b laws d rec.key none missing)
