-- ===== src/Store/Opening/Ready.antt =====
-- What a store is that was opened.
use kestrai.Prelude.{◌≡◌, List, [], ◌∷◌, ◌++◌, Result, ok, err, map_err, map_err-ok, >>=-eq-ok}
use kestrai.Text.{Str, codes}
use kestrai.Store.Migrations.{Entry, migrate}
use kestrai.Store.Migrations.Applied.{SchemaLaws, AllLeaveSchema, IsMigrated, migrate-IsMigrated}
use kestrai.Store.Opening.{Driver, pragmas, set_pragmas, migrated, open_store}

module _ {Db : Type 0} (driver : Driver Db) (laws : SchemaLaws driver.schema) where
  -- Each pragma was set, one after the other.
  abbrev pub AreSet : List Str → Db → Db → Type 0
  AreSet [] d d' = d ≡ d'
  AreSet (p ∷ ps) d d' = (next : Db) × (driver.exec_pragma d p ≡ ok next) × AreSet ps next d'

  set_pragmas-AreSet :
      (ps : List Str) (d d' : Db) → set_pragmas driver ps d ≡ ok d' → AreSet ps d d'
  unfolding set_pragmas
  set_pragmas-AreSet [] d d' e = cc
  set_pragmas-AreSet (p ∷ ps) d d' e =
      let wrap : Str → Str = λ x. codes "store: " ++ p ++ codes ": " ++ x in
      let (next, ran, e1) = >>=-eq-ok (map_err wrap (driver.exec_pragma d p)) _ e in
      (next, map_err-ok wrap (driver.exec_pragma d p) next ran, set_pragmas-AreSet ps next d' e1)

  migrated-ok :
      (d : Db) (out : Db × Result Str (Unit {0})) → migrated driver out ≡ ok d → out ≡ (d, ok tt)
  migrated-ok d (d', ok u) e = let same : d' ≡ d = cc in λ i. (same i, ok tt)
  migrated-ok d (d', err x) e = absurd cc

  -- A store is handed out only when it is ready: every pragma is set on the source, foreign keys among
  -- them, and then every migration of the directory is recorded, if no script among them touches the
  -- table schema_migrations.
  pub open_store-IsMigrated :
      (now dsn : Str) (entries : List Entry) (d : Db)
      → AllLeaveSchema driver.schema laws entries
      → open_store driver now entries dsn ≡ ok d
      → ((source ready : Db) × (driver.open_source dsn ≡ ok source)
          × AreSet pragmas source ready
          × (migrate driver.schema now entries ready ≡ (d, ok tt)))
        × IsMigrated driver.schema laws d entries
  unfolding open_store
  open_store-IsMigrated now dsn entries d keep e =
      let wrap : Str → Str = λ x. codes "store: open sqlite: " ++ x in
      let (source, opened, e1) = >>=-eq-ok (map_err wrap (driver.open_source dsn)) _ e in
      let (ready, set, e2) = >>=-eq-ok (set_pragmas driver pragmas source) _ e1 in
      let done = migrated-ok d (migrate driver.schema now entries ready) e2 in
      (
        (
          source,
          ready,
          map_err-ok wrap (driver.open_source dsn) source opened,
          set_pragmas-AreSet pragmas source ready set,
          done,
        ),
        migrate-IsMigrated driver.schema laws now entries ready d keep done,
      )
