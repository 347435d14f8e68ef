-- ===== src/Store/Operations/Refusals.antt =====
-- The sentinel errors of the writes.
use kestrai.Prelude.{◌≡◌, ◌≢◌, none, some, ok, err, arith}
use kestrai.Text.{str_eq_iff}
use kestrai.Int64.{format_int}
use kestrai.Store.{Key, Record, conflict, not_found, already_exists}
use kestrai.Store.Engine.{Row, Laws}
use kestrai.Store.Operations.{
  Backend, Ambient, create, update, update_body, delete, delete_body, transact, current_row, finish,
}
use kestrai.Store.Operations.Creation.{create_taken}

module _ {Db D : Type 0} (b : Backend Db D) (laws : Laws b.sql) where
  open b use {sql}
  open laws use {content}

  -- The driver begins a transaction and answers the SELECT of a key.
  abbrev pub Answers : Db → Key → Type 0
  Answers d k = (sql.begin_tx d ≡ none) × (sql.select_row d k ≡ ok (content d k))

  pub update_conflicts :
      (d : Db) (rec : Record D) (row : Row D)
      → Answers d rec.key
      → content d rec.key ≡ some row
      → rec.resource_version ≢ format_int row.resource_version
      → update b d rec ≡ (d, err conflict)
  unfolding update update_body current_row transact finish
  update_conflicts d rec row (begun, selected) held stale = ground (
    arith,
    str_eq_iff rec.resource_version (format_int row.resource_version),
    laws.rollback_restores d d,
  )

  pub update_absent :
      (d : Db) (rec : Record D)
      → Answers d rec.key
      → content d rec.key ≡ none
      → update b d rec ≡ (d, err not_found)
  unfolding update update_body current_row transact finish
  update_absent d rec (begun, selected) missing = ground (arith, laws.rollback_restores d d)

  pub delete_absent :
      (d : Db) (k : Key) → Answers d k → content d k ≡ none → delete b d k ≡ (d, err not_found)
  unfolding delete delete_body transact finish
  delete_absent d k (begun, selected) missing = ground (arith, laws.rollback_restores d d)

  -- Where the driver begins the transaction and answers the SELECT of the key, the writes answer the
  -- sentinel error of what they find and leave the database as it is: `Create` answers
  -- ErrAlreadyExists where there is a row, `Update` ErrConflict where the row has another version,
  -- and `Update` and `Delete` answer ErrNotFound where there is none.
  pub writes_refused :
      (a : Ambient) (d : Db) (rec : Record D)
      → sql.begin_tx d ≡ none
      → sql.select_row d rec.key ≡ ok (content d rec.key)
      → ((row : Row D)
          → content d rec.key ≡ some row
          → (create b a d rec ≡ (d, err already_exists))
            × (rec.resource_version ≢ format_int row.resource_version
                → update b d rec ≡ (d, err conflict)))
        × (content d rec.key ≡ none
            → (update b d rec ≡ (d, err not_found)) × (delete b d rec.key ≡ (d, err not_found)))
  writes_refused a d rec begun selected = (
    (λ row held. (
      create_taken b laws a d rec row held begun selected,
      update_conflicts d rec row (begun, selected) held,
    )),
    (λ missing. (
      update_absent d rec (begun, selected) missing,
      delete_absent d rec.key (begun, selected) missing,
    )),
  )
