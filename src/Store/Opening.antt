-- ===== src/Store/Opening.antt =====
-- `Open` of internal/store/sqlite.go. The limit of one connection is what makes a call of the store
-- one step.
pub mod Ready
use kestrai.Prelude.{List, [], ◌∷◌, ◌++◌, Result, ok, err, map_err, ◌>>=◌}
use kestrai.Text.{Str, codes}
use kestrai.Store.Migrations.{Entry, Schema, migrate}

-- The driver: opening a data source, and a statement that sets a pragma.
pub record Driver (Db : Type 0) : Type 0 where
  pub open_source : Str → Result Str Db
  pub exec_pragma : Db → Str → Result Str Db
  pub schema : Schema Db

abbrev pub pragmas : List Str
pragmas =
    codes "PRAGMA foreign_keys = ON"
    ∷ codes "PRAGMA journal_mode = WAL"
    ∷ codes "PRAGMA busy_timeout = 5000"
    ∷ []

module _ {Db : Type 0} (driver : Driver Db) where
  -- The loop over the pragmas; `%q` shows a pragma as it is.
  unfoldable pub set_pragmas : List Str → Db → Result Str Db
  set_pragmas [] d = ok d
  set_pragmas (p ∷ ps) d = do
    d' ← map_err (λ e. codes "store: " ++ p ++ codes ": " ++ e) (driver.exec_pragma d p)
    set_pragmas ps d'

  abbrev pub migrated : Db × Result Str (Unit {0}) → Result Str Db
  migrated (d, ok u) = ok d
  migrated (d, err e) = err e

  -- `Open`; a database whose set-up fails is closed again, and is not returned.
  unfoldable pub open_store : Str → List Entry → Str → Result Str Db
  open_store now entries dsn = do
    d ← map_err (λ e. codes "store: open sqlite: " ++ e) (driver.open_source dsn)
    d' ← set_pragmas pragmas d
    migrated (migrate driver.schema now entries d')
