-- ===== src/Store/Operations.antt =====
-- `Create`, `Get`, `Update` and `Delete` of internal/store/sqlite.go. The database is passed along:
-- an operation returns the database that it leaves and the Go results.
pub mod Transactions
pub mod Rows
pub mod Creation
pub mod History
pub mod Concurrency
pub mod Recreation
pub mod Success
pub mod Refusals
pub mod Reading
pub mod Effects
use kestrai.Prelude.{
  ℕ, ◌≡◌, Bool, true, false, Option, none, some, ◌++◌, ◌==◌, Result, ok, err, ◌>>=◌, ◌>>◌, guard,
  not, map_err, if◌then◌else◌,
}
use kestrai.Text.{Str, codes, str_eq}
use kestrai.Int64.{add64, format_int}
use kestrai.Store.{Key, Record, Error, not_found, already_exists, conflict, other}
use kestrai.Store.Engine.{Row, Patch, Sqlite}
use kestrai.Store.Columns.{Columns, marshal_labels}
use kestrai.Store.Uid.{Entropy, new_uid}

-- The clock and the random source of one call.
pub record Ambient : Type 0 where
  pub now : ℕ
  pub entropy : Entropy

-- What SQLite and the encodings of columns give to the store.
pub record Backend (Db D : Type 0) : Type 0 where
  pub sql : Sqlite Db D
  pub columns : Columns

-- A statement's error, returned as it is or behind a text.
abbrev pub raw : {A : Type 0} → Result Str A → Result Error A
raw = map_err other

abbrev pub wrapped : {A : Type 0} → Str → Result Str A → Result Error A
wrapped text = map_err (λ e. other (text ++ e))

abbrev pub is_found : {A : Type 0} → Option A → Bool
is_found none = false
is_found (some a) = true

-- `Scan` of a single row: sql.ErrNoRows becomes ErrNotFound.
abbrev pub existing : {A : Type 0} → Result Str (Option A) → Result Error A
existing (err e) = err (other e)
existing (ok none) = err not_found
existing (ok (some row)) = ok row

-- A time that does not parse is left at the zero time.
abbrev pub time_or_zero : Option ℕ → ℕ
time_or_zero none = 0
time_or_zero (some t) = t

module _ {Db D : Type 0} (b : Backend Db D) where
  open b use {sql, columns}

  -- COMMIT of what the body has made of the database, and the deferred Rollback: a body or a COMMIT
  -- that fails leaves by it, and after a COMMIT it does nothing.
  finish : {A : Type 0} → Db → Db × Result Error A → Db × Result Error A
  finish before (d, err e) = (sql.rollback_tx before d, err e)
  finish before (d, ok a) = elim (sql.commit_tx d) [
    | none ↦ (d, ok a)
    | some e ↦ (sql.rollback_tx before d, err (other e))
  ]

  -- BeginTx, the body, COMMIT or Rollback
  pub transact : {A : Type 0} → Db → (Db → Db × Result Error A) → Db × Result Error A
  unfolding finish
  transact d body = elim (sql.begin_tx d) [ none ↦ finish d (body d) | some e ↦ (d, err (other e)) ]

  -- The early returns of a body: a check that fails ends it, with the database as it is then.
  abbrev pub check :
      {A B : Type 0} → Db → Result Error A → (A → Db × Result Error B) → Db × Result Error B
  check d (err e) next = (d, err e)
  check d (ok a) next = next a

  -- A statement that changes the table; one that fails has no effect.
  abbrev pub exec : {A : Type 0} → Db → Result Error Db → A → Db × Result Error A
  exec d (err e) a = (d, err e)
  exec d (ok d') a = (d', ok a)

  -- `scanRecord`
  unfoldable pub scan_record : Key → Row D → Result Error (Record D)
  scan_record key row = do
    labels ← wrapped (codes "store: unmarshal labels: ") (columns.unmarshal_json row.labels)
    ok (record {
      key = key;
      uid = row.uid;
      resource_version = format_int row.resource_version;
      generation = row.generation;
      labels = labels;
      created_at = time_or_zero (columns.parse_time row.created_at);
      body = row.body;
    })

  -- The fields that `Create` assigns.
  unfoldable pub assign : Ambient → Record D → Record D
  assign a rec = record rec {
    uid = new_uid a.entropy;
    resource_version = format_int 1;
    created_at = if rec.created_at == 0 then a.now else rec.created_at;
  }

  unfoldable pub new_row : Record D → Str → Row D
  new_row rec labels = record {
    uid = rec.uid;
    resource_version = 1;
    generation = rec.generation;
    labels = labels;
    created_at = columns.format_time rec.created_at;
    body = rec.body;
  }

  -- What `Create` checks before it inserts: the encoded labels.
  pub free_labels : Record D → Db → Result Error Str
  free_labels rec d = do
    found ← raw (sql.select_row d rec.key)
    guard (not (is_found found)) already_exists
    marshal_labels columns rec.labels

  pub create_body : Ambient → Record D → Db → Db × Result Error (Record D)
  unfolding assign new_row free_labels
  create_body a rec d = check d (free_labels rec d) λ labels.
      exec d
        (wrapped (codes "store: insert: ")
          (sql.insert_row d rec.key (new_row (assign a rec) labels)))
        (assign a rec)

  unfoldable pub create : Ambient → Db → Record D → Db × Result Error (Record D)
  unfolding transact create_body
  create a d rec = transact d (create_body a rec)

  unfoldable pub get : Db → Key → Result Error (Record D)
  get d key = do row ← existing (sql.select_row d key); scan_record key row

  unfoldable pub bump : Record D → Row D → Str → Patch D
  bump rec row labels = record {
    resource_version = add64 row.resource_version 1;
    generation = rec.generation;
    labels = labels;
    body = rec.body;
  }

  -- The record that `Update` returns; a stored time that does not parse leaves the caller's.
  unfoldable pub updated : Record D → Row D → Record D
  updated rec row = record rec {
    uid = row.uid;
    resource_version = format_int (add64 row.resource_version 1);
    created_at = elim (columns.parse_time row.created_at) [ none ↦ rec.created_at | some t ↦ t ];
  }

  -- What `Update` checks before it writes: the stored row and the encoded labels.
  pub current_row : Record D → Db → Result Error (Row D × Str)
  current_row rec d = do
    row ← existing (sql.select_row d rec.key)
    guard (str_eq rec.resource_version (format_int row.resource_version)) conflict
    labels ← marshal_labels columns rec.labels
    ok (row, labels)

  pub update_body : Record D → Db → Db × Result Error (Record D)
  unfolding bump updated current_row
  update_body rec d = check d (current_row rec d) λ (row, labels).
      exec d (wrapped (codes "store: update: ") (sql.update_row d rec.key (bump rec row labels)))
        (updated rec row)

  unfoldable pub update : Db → Record D → Db × Result Error (Record D)
  unfolding transact update_body
  update d rec = transact d (update_body rec)

  pub delete_body : Key → Db → Db × Result Error (Record D)
  delete_body key d =
      check d (existing (sql.select_row d key) >>= scan_record key)
        λ rec. exec d (wrapped (codes "store: delete: ") (sql.delete_row d key)) rec

  unfoldable pub delete : Db → Key → Db × Result Error (Record D)
  unfolding transact delete_body
  delete d key = transact d (delete_body key)
