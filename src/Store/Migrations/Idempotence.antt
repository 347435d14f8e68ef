-- ===== src/Store/Migrations/Idempotence.antt =====
-- Migrating a database that is migrated.
use kestrai.Prelude.{
  ℕ, ◌≡◌, ap, sym, ◌∙◌, true, Result-cases, subst, List, [], ◌∷◌, All, Result, ok, inl, inr,
}
use kestrai.Text.{Str}
use kestrai.Store.Migrations.{
  Entry, Migration, Schema, is_applied, pending, apply_pending, with_table, migrate,
}
use kestrai.Store.Migrations.Applied.{
  SchemaLaws, AllLeaveSchema, IsMigrated, pending-ok, apply_all-idle, migrate-IsMigrated,
}

module _ {Db : Type 0} (q : Schema Db) (laws : SchemaLaws q) where
  open laws use {has_table, recorded}

  All-applied :
      (d : Db) (applied : List ℕ) (ms : List Migration)
      → ((v : ℕ) → is_applied applied v ≡ recorded d v)
      → All (λ m. recorded d m.version ≡ true) ms
      → All (λ m. is_applied applied m.version ≡ true) ms
  All-applied d applied [] same hs = tt
  All-applied d applied (m ∷ ms) same (h, hs) =
      (same m.version ∙ h, All-applied d applied ms same hs)

  pending_idle :
      (now : Str) (entries : List Entry) (d : Db)
      → IsMigrated q laws d entries
      → (apply_pending q now d (pending q d entries)).0 ≡ d
  pending_idle now entries d (ms, loaded, table, all) = elim (Result-cases (pending q d entries)) [
    | inr (e, failed) ↦ ap (λ r. (apply_pending q now d r).0) failed
    | inl ((applied, found), read) ↦
        let (answered, loaded') = pending-ok q laws d entries applied found read in
        let same : ms ≡ found = let e = sym loaded ∙ loaded' in cc in
        let applied_all =
          subst (λ (xs : List Migration). All (λ m. is_applied applied m.version ≡ true) xs) same
            (All-applied d applied ms (laws.versions_answer d applied answered) all) in
        ap (λ r. (apply_pending q now d r).0) read
        ∙ ap (λ (p : Db × Result Str (Unit {0})). p.0)
            (apply_all-idle q laws now applied d found applied_all)
  ]

  -- Migrating again changes nothing: after a `migrate` that succeeded, another one with the same
  -- entries leaves the database as it is, at any later time and whether or not its statements fail.
  -- The condition is that no script among the entries touches the table schema_migrations.
  pub migrate_idempotent :
      (now later : Str) (entries : List Entry) (d d' : Db)
      → AllLeaveSchema q laws entries
      → migrate q now entries d ≡ (d', ok tt)
      → (migrate q later entries d').0 ≡ d'
  unfolding migrate
  migrate_idempotent now later entries d d' keep h =
      let done = migrate-IsMigrated q laws now entries d d' keep h in
      elim (Result-cases (q.create_table d')) [
        | inr (e, failed) ↦ ap (λ r. (with_table q later entries d' r).0) failed
        | inl (d2, made) ↦
            let same : d2 ≡ d' = laws.create_again d' d2 done.2 made in
            ap (λ r. (with_table q later entries d' r).0) made
            ∙ ap (λ (z : Db). (apply_pending q later z (pending q z entries)).0) same
            ∙ pending_idle later entries d' done
      ]
