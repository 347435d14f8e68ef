-- ===== src/Store/Contract/Refinement.antt =====
-- The SQLite store keeps the contract of the interface.
use kestrai.Prelude.{◌≡◌, refl, ◌&&◌, not}
use kestrai.Store.{Key, Record}
use kestrai.Store.Engine.{Laws}
use kestrai.Store.Columns.{ColumnLaws}
use kestrai.Store.Operations.{is_found, Backend, create, get, update, delete}
use kestrai.Store.Operations.Transactions.{create-failed, update-failed, delete-failed}
use kestrai.Store.Operations.Effects.{write_missing}
use kestrai.Store.Listing.{list}
use kestrai.Store.Contract.{Store, Contract}
use kestrai.Store.Contract.View.{decoded, view, storable, get-view, view-key, view_none}
use kestrai.Store.Contract.Refusals.{
  is_answered, succeeds, get-answers, create-exists, update-conflicts, update-absent, delete-absent,
}
use kestrai.Store.Contract.Listings.{list-order, follow_complete}
use kestrai.Store.Contract.Effects.{
  create-effect, update-effect, update-result, create-result, update-stale, delete-effect,
  list-answer,
}

unfoldable pub sqlite_store : {Db D : Type 0} → Backend Db D → Store Db D
sqlite_store b = record {
  create = create b;
  get = get b;
  list = list b;
  update = update b;
  delete = delete b;
}

module _ {Db D : Type 0} (b : Backend Db D) (laws : Laws b.sql)
    (columns : ColumnLaws b.columns) where
  open laws use {content}

  sqlite_contract : Contract (sqlite_store b)
  unfolding sqlite_store
  sqlite_contract = record {
    view = view b laws columns;
    storable = storable b laws columns;
    view_key = view-key b laws columns;
    answers = is_answered b laws columns;
    get_answers = get-answers b laws columns;
    create_exists = create-exists b laws columns;
    update_conflicts = update-conflicts b laws columns;
    update_absent = update-absent b laws columns;
    delete_absent = delete-absent b laws columns;
    get_answer = get-view b laws columns;
    create_failed = λ a s s' rec x e. create-failed b laws s s' x a rec e;
    update_failed = λ s s' rec x e. update-failed b laws s s' x rec e;
    delete_failed = λ s s' k x e. delete-failed b laws s s' x k e;
    create_effect = create-effect b laws columns;
    create_result = create-result b laws columns;
    update_effect = update-effect b laws columns;
    update_result = update-result b laws columns;
    update_stale = update-stale b laws columns;
    update_missing =
        λ s rec v. (write_missing b laws s rec (view_none b laws columns s rec.key v)).0;
    delete_effect = delete-effect b laws columns;
    list_answer = list-answer b laws columns;
    list_order = list-order b laws;
    list_pages = follow_complete b laws (sqlite_store b) (λ d opts. refl);
  }

  pub sqlite_store-Contract :
      (c : Contract (sqlite_store b)) × ((d : Db) (k : Key)
        → c.view d k ≡ decoded b laws columns k (content d k))
      × ((rec : Record D)
          → c.storable rec ≡ (columns.is_plain rec.labels && columns.in_range rec.created_at))
      × ((d : Db) (k : Key)
          → c.answers d k ≡ (not (is_found (b.sql.begin_tx d)) && succeeds (b.sql.select_row d k)))
  unfolding sqlite_contract
  sqlite_store-Contract = (sqlite_contract, (λ d k. refl), (λ rec. refl), (λ d k. refl))
