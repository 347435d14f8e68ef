-- ===== src/Tests/Migrations.antt =====
-- Witness on the migrations, over a table of versions.
use kestrai.Prelude.{
  All, ℕ, ◌≡◌, refl, ap, sym, ◌∙◌, subst, Bool, true, false, none, List, [], ◌∷◌, ok, arith,
}
use kestrai.Text.{Str, codes, str_eq}
use kestrai.Text.Cut.{cut}
use kestrai.Store.Migrations.{
  Migration, Entry, Schema, is_applied, load_migrations, atoi, migrate, apply_all, apply_migration,
  commit_migration,
}
use kestrai.Store.Migrations.Applied.{LeavesSchema, SchemaLaws}
use kestrai.Store.Migrations.Idempotence.{migrate_idempotent}

record Versions : Type 0 where
  table : Bool
  versions : List ℕ

abbrev schema : Schema Versions
schema = record {
  create_table = λ d. ok (record d { table = true });
  versions = λ d. ok d.versions;
  begin_tx = λ d. none;
  exec_script = λ d sql. ok d;
  insert_version = λ d v now. ok (record d { versions = v ∷ d.versions });
  commit_tx = λ d. none;
  rollback_tx = λ before d. before;
}

more_applied : (v w : ℕ) (vs : List ℕ) → is_applied vs w ≡ true → is_applied (v ∷ vs) w ≡ true
unfolding is_applied
more_applied v w vs h = ground arith

first_applied : (v : ℕ) (vs : List ℕ) → is_applied (v ∷ vs) v ≡ true
unfolding is_applied
first_applied v vs = ground arith

schema_laws : SchemaLaws schema
schema_laws = record {
  has_table = λ d. d.table;
  recorded = λ d v. is_applied d.versions v;
  create_makes = λ d d' e.
      let same : record d { table = true } ≡ d' = cc in sym (ap (λ (x : Versions). x.table) same);
  create_again = λ d d' h e.
      let same : record d { table = true } ≡ d' = cc in
      sym same ∙ (λ i. record d { table = sym h i });
  versions_answer =
      λ d vs e v. let same : d.versions ≡ vs = cc in ap (λ xs. is_applied xs v) (sym same);
  insert_records = λ d d' v now e.
      let same : record d { versions = v ∷ d.versions } ≡ d' = cc in
      (
        ap (λ (x : Versions). x.table) (sym same),
        subst (λ (x : Versions). is_applied x.versions v ≡ true) same (first_applied v d.versions),
        (λ w h.
            subst (λ (x : Versions). is_applied x.versions w ≡ true) same
              (more_applied v w d.versions h)),
      );
}

scripts_leave : (ms : List Migration) → All (LeavesSchema schema schema_laws) ms
unfolding schema_laws
scripts_leave [] = tt
scripts_leave (m ∷ ms) = (
  (λ d d' e.
      let same : d ≡ d' = cc in
      (
        ap (λ (x : Versions). x.table) (sym same),
        (λ v. ap (λ (x : Versions). is_applied x.versions v) (sym same)),
      )),
  scripts_leave ms,
)

abbrev entry : Str → Entry
entry name = record { name = name; is_dir = false; body = codes "CREATE TABLE tenants" }

abbrev entries : List Entry
entries =
    entry (codes "0002_more.sql") ∷ entry (codes "0001_init.sql") ∷ entry (codes "README") ∷ []

abbrev fresh : Versions
fresh = record { table = false; versions = [] }

abbrev migrated : Versions
migrated = record { table = true; versions = 2 ∷ 1 ∷ [] }

migrate_idempotent_example :
    (migrate schema (codes "2026-01-02T00:00:00Z") entries migrated).0 ≡ migrated
unfolding migrate load_migrations atoi cut str_eq is_applied apply_all apply_migration
    commit_migration
migrate_idempotent_example =
    migrate_idempotent schema schema_laws (codes "2026-01-01T00:00:00Z")
      (codes "2026-01-02T00:00:00Z") entries fresh migrated (λ ms loaded. scripts_leave ms) refl
