-- ===== src/Store/Engine.antt =====
-- The database under the store: SQLite through database/sql, which is not part of the repository.
-- Its state `Db` and its statements are parameters. `Sqlite` has one operation for each statement
-- of internal/store/sqlite.go over the table `resources` of migrations/0001_init.sql; a statement
-- answers, or fails with a driver error. `Laws` is what SQL documents for them.
use kestrai.Text.Order.{str_less}
use kestrai.Prelude.{
  arith, ℕ, [], ◌&&◌, ◌||◌, In, ◌≡◌, ◌↔◌, Bool, true, Option, none, some, List, ◌∷◌, Result, ok,
  if◌then◌else◌,
}
use kestrai.Text.{Str, str_eq, str_eq_iff}
use kestrai.Store.{Key, key_eq}

-- The columns beside the primary key. The integers are `int64` bit patterns.
pub record Row (D : Type 0) : Type 0 where
  pub uid : Str
  pub resource_version : ℕ
  pub generation : ℕ
  pub labels : Str
  pub created_at : Str
  pub body : D

-- What the UPDATE statement sets; the uid and the creation time are not among it.
pub record Patch (D : Type 0) : Type 0 where
  pub resource_version : ℕ
  pub generation : ℕ
  pub labels : Str
  pub body : D

abbrev pub patch : {D : Type 0} → Patch D → Row D → Row D
patch p r = record r {
  resource_version = p.resource_version;
  generation = p.generation;
  labels = p.labels;
  body = p.body;
}

pub record Sqlite (Db D : Type 0) : Type 0 where
  -- BEGIN and COMMIT: `some` is the error.
  pub begin_tx : Db → Option Str
  pub commit_tx : Db → Option Str
  -- ROLLBACK, for the database at BEGIN and the one that the transaction has made of it
  pub rollback_tx : Db → Db → Db
  -- SELECT … WHERE tenant_id=? AND kind=? AND project=? AND name=?; `none` is sql.ErrNoRows.
  pub select_row : Db → Key → Result Str (Option (Row D))
  pub insert_row : Db → Key → Row D → Result Str Db
  pub update_row : Db → Key → Patch D → Result Str Db
  pub delete_row : Db → Key → Result Str Db
  -- SELECT … WHERE tenant_id=? AND kind=? [AND project=?] ORDER BY project, name
  pub select_rows : Db → Str → Str → Option Str → Result Str (List (Key × Row D))
  -- rows.Err() after the last row
  pub rows_err : Db → Option Str

-- The order of ORDER BY project, name, under the BINARY collation.
abbrev pub before : Key → Key → Bool
before j k = str_less j.project k.project || (str_eq j.project k.project && str_less j.name k.name)

abbrev pub Ascending : {D : Type 0} → List (Key × Row D) → Type 0
Ascending [] = Unit
Ascending (x ∷ []) = Unit
Ascending (x ∷ y ∷ rows) = (before x.0 y.0 ≡ true) × Ascending (y ∷ rows)

-- The WHERE clause of the list query.
abbrev pub selects : Str → Str → Option Str → Key → Bool
selects tenant kind none k = str_eq k.tenant_id tenant && str_eq k.kind kind
selects tenant kind (some project) k =
    str_eq k.tenant_id tenant && str_eq k.kind kind && str_eq k.project project

pub selects_scope :
    (tenant kind : Str) (project : Option Str) (k : Key)
    → selects tenant kind project k ≡ true
    → (k.tenant_id ≡ tenant) × (k.kind ≡ kind)
selects_scope tenant kind none k h =
    ground (arith, str_eq_iff k.tenant_id tenant, str_eq_iff k.kind kind)
selects_scope tenant kind (some project) k h =
    ground (arith, str_eq_iff k.tenant_id tenant, str_eq_iff k.kind kind)

-- `content` is the table as a partial function of the primary key, `tenants` the ids in the table
-- that `tenant_id` references.
pub record Laws {Db D : Type 0} (q : Sqlite Db D) : Type 0 where
  pub content : Db → Key → Option (Row D)
  pub has_tenant : Db → Str → Bool
  -- ROLLBACK undoes what the transaction has done.
  pub rollback_restores : (before d : Db) → q.rollback_tx before d ≡ before
  pub select_answer :
      (d : Db) (k : Key) (found : Option (Row D))
      → q.select_row d k ≡ ok found
      → found ≡ content d k
  -- PRIMARY KEY and REFERENCES tenants (id), with PRAGMA foreign_keys = ON
  pub insert_constraints :
      (d d' : Db) (k : Key) (r : Row D)
      → q.insert_row d k r ≡ ok d'
      → (content d k ≡ none) × (has_tenant d k.tenant_id ≡ true)
  pub insert_effect :
      (d d' : Db) (k : Key) (r : Row D) (j : Key)
      → q.insert_row d k r ≡ ok d'
      → content d' j ≡ (if key_eq k j then some r else content d j)
  pub update_effect :
      (d d' : Db) (k : Key) (p : Patch D) (r : Row D) (j : Key)
      → q.update_row d k p ≡ ok d'
      → content d k ≡ some r
      → content d' j ≡ (if key_eq k j then some (patch p r) else content d j)
  pub delete_effect :
      (d d' : Db) (k j : Key)
      → q.delete_row d k ≡ ok d'
      → content d' j ≡ (if key_eq k j then none else content d j)
  pub rows_order :
      (d : Db) (tenant kind : Str) (project : Option Str) (rows : List (Key × Row D))
      → q.select_rows d tenant kind project ≡ ok rows
      → Ascending rows
  pub rows_answer :
      (d : Db) (tenant kind : Str) (project : Option Str) (rows : List (Key × Row D))
      → q.select_rows d tenant kind project ≡ ok rows
      → (k : Key) (r : Row D)
      → In (k, r) rows ↔ ((content d k ≡ some r) × (selects tenant kind project k ≡ true))
