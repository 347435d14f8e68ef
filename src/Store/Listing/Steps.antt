-- ===== src/Store/Listing/Steps.antt =====
-- What a `List` that succeeded has done, step by step.
use kestrai.Prelude.{◌≡◌, Option, none, List, ok, >>=-eq-ok, arith}
use kestrai.Text.{Str, codes}
use kestrai.Store.{Key, Record, ListOptions}
use kestrai.Store.Engine.{Row}
use kestrai.Store.Cursor.{Cursor, decode_continue}
use kestrai.Store.Operations.{Backend, wrapped}
use kestrai.Store.Listing.{list, collect, paginate, project_filter, checked}

module _ {Db D : Type 0} (b : Backend Db D) where
  open b use {sql}

  pub list-ok :
      (d : Db) (opts : ListOptions) (page : List (Record D)) (token : Str)
      → list b d opts ≡ ok (page, token)
      → (rows : List (Key × Row D)) × (after : Option Cursor) × (out : List (Record D))
        × (sql.select_rows d opts.tenant_id opts.kind (project_filter opts.project) ≡ ok rows)
        × (decode_continue opts.continue_token ≡ ok after)
        × (collect b opts after rows ≡ ok out)
        × (sql.rows_err d ≡ none)
        × (paginate out opts.limit ≡ (page, token))
  unfolding list checked
  list-ok d opts page token e =
      let selected = sql.select_rows d opts.tenant_id opts.kind (project_filter opts.project) in
      let (rows, e_rows, e1) = >>=-eq-ok (wrapped (codes "store: list: ") selected) _ e in
      let (after, e_after, e2) = >>=-eq-ok (decode_continue opts.continue_token) _ e1 in
      let (out, e_out, e3) = >>=-eq-ok (collect b opts after rows) _ e2 in
      (rows, after, out, ground arith, e_after, e_out, ground arith, ground arith)
