-- ===== src/Store/Operations/Rows.antt =====
-- What a write that succeeded did to the table.
use kestrai.Prelude.{
  ◌≡◌, none, some, Option, Result, ok, arith, true, guard, >>=-eq-ok, ◌>>=◌, ap, sym, ◌∙◌,
}
use kestrai.Text.{Str, codes, str_eq}
use kestrai.Int64.{format_int}
use kestrai.Store.{Key, Record, conflict}
use kestrai.Store.Engine.{Row}
use kestrai.Store.Columns.{marshal_labels}
use kestrai.Store.Operations.{
  Backend, Ambient, create_body, update_body, delete_body, assign, new_row, bump, updated, existing,
  scan_record, free_labels, current_row,
}
use kestrai.Store.Operations.Transactions.{check-ok, exec-ok}

module _ {Db D : Type 0} (b : Backend Db D) where
  open b use {sql, columns}

  pub create_body-ok :
      (a : Ambient) (d d' : Db) (rec r : Record D)
      → create_body b a rec d ≡ (d', ok r)
      → (text : Str) × (sql.select_row d rec.key ≡ ok none)
        × (marshal_labels columns rec.labels ≡ ok text)
        × (sql.insert_row d rec.key (new_row b (assign b a rec) text) ≡ ok d')
        × (r ≡ assign b a rec)
  unfolding create_body free_labels
  create_body-ok a d d' rec r e =
      let (text, free, e1) = check-ok b d d' (free_labels b rec d) _ r e in
      let (written, result) =
        exec-ok b d d' (codes "store: insert: ")
          (sql.insert_row d rec.key (new_row b (assign b a rec) text)) (assign b a rec) r e1 in
      (text, ground arith, ground arith, written, result)

  existing-ok :
      (found : Result Str (Option (Row D))) (row : Row D)
      → existing found ≡ ok row
      → found ≡ ok (some row)
  existing-ok found row e = ground arith

  pub update_body-ok :
      (d d' : Db) (rec r : Record D)
      → update_body b rec d ≡ (d', ok r)
      → (text : Str) × (row : Row D) × (sql.select_row d rec.key ≡ ok (some row))
        × (str_eq rec.resource_version (format_int row.resource_version) ≡ true)
        × (marshal_labels columns rec.labels ≡ ok text)
        × (sql.update_row d rec.key (bump b rec row text) ≡ ok d')
        × (r ≡ updated b rec row)
  unfolding update_body current_row
  update_body-ok d d' rec r e =
      let ((row', text'), checked, written) = check-ok b d d' (current_row b rec d) _ r e in
      let (stored, result) =
        exec-ok b d d' (codes "store: update: ") (sql.update_row d rec.key (bump b rec row' text'))
          (updated b rec row') r written in
      let (row, found, e1) = >>=-eq-ok (existing (sql.select_row d rec.key)) _ checked in
      let current = str_eq rec.resource_version (format_int row.resource_version) in
      let (u, fresh, e2) = >>=-eq-ok (guard current conflict) _ e1 in
      let (text, marshalled, e3) = >>=-eq-ok (marshal_labels columns rec.labels) _ e2 in
      (
        text,
        row,
        existing-ok (sql.select_row d rec.key) row found,
        ground arith,
        marshalled,
        ground arith,
        ground arith,
      )

  pub delete_body-ok :
      (d d' : Db) (key : Key) (r : Record D)
      → delete_body b key d ≡ (d', ok r)
      → (row : Row D) × (sql.select_row d key ≡ ok (some row))
        × (scan_record b key row ≡ ok r)
        × (sql.delete_row d key ≡ ok d')
  unfolding delete_body
  delete_body-ok d d' key r e =
      let (rec, checked, written) =
        check-ok b d d' (existing (sql.select_row d key) >>= scan_record b key) _ r e in
      let (removed, result) =
        exec-ok b d d' (codes "store: delete: ") (sql.delete_row d key) rec r written in
      let (row, found, scanned) = >>=-eq-ok (existing (sql.select_row d key)) _ checked in
      (row, existing-ok (sql.select_row d key) row found, scanned ∙ ap ok (sym result), removed)
