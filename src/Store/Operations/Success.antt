-- ===== src/Store/Operations/Success.antt =====
-- An update succeeds when every statement of its transaction does.
use kestrai.Prelude.{◌≡◌, true, none, some, ok, arith}
use kestrai.Text.{Str, str_eq}
use kestrai.Int64.{format_int}
use kestrai.Store.{Record}
use kestrai.Store.Engine.{Row}
use kestrai.Store.Columns.{marshal_labels}
use kestrai.Store.Operations.{
  Backend, update, update_body, transact, updated, bump, finish, current_row,
}

module _ {Db D : Type 0} (b : Backend Db D) where
  open b use {sql, columns}

  pub update-succeeds :
      (d d' : Db) (rec : Record D) (row : Row D) (text : Str)
      → sql.begin_tx d ≡ none
      → sql.select_row d rec.key ≡ ok (some row)
      → str_eq rec.resource_version (format_int row.resource_version) ≡ true
      → marshal_labels columns rec.labels ≡ ok text
      → sql.update_row d rec.key (bump b rec row text) ≡ ok d'
      → sql.commit_tx d' ≡ none
      → update b d rec ≡ (d', ok (updated b rec row))
  unfolding update update_body current_row transact finish
  update-succeeds d d' rec row text begun found same marshalled written committed = ground arith
