-- ===== src/Store/Migrations/Applied.antt =====
-- What a database is once it is migrated.
use kestrai.Prelude.{
  ℕ, ◌≡◌, refl, ap, sym, ◌∙◌, Bool, true, Bool-cases, Result-cases, Option, Option-cases, subst,
  none, some, List, [], ◌∷◌, All, Result, ok, err, >>=-eq-ok, ok_pair-injective, map_err-ok, ◌++◌,
  map_err, if◌then◌else◌, inl, inr,
}
use kestrai.Text.{Str, codes}
use kestrai.Store.Migrations.{
  Entry, Migration, Schema, is_applied, load_migrations, commit_migration, apply_migration,
  statement, run_migration, in_migration, migrate_step, and_then, apply_all, pending, apply_pending,
  with_table, migrate,
}

-- What the statements do to the table schema_migrations.
pub record SchemaLaws {Db : Type 0} (q : Schema Db) : Type 0 where
  pub has_table : Db → Bool
  pub recorded : Db → ℕ → Bool
  -- CREATE TABLE IF NOT EXISTS
  pub create_makes : (d d' : Db) → q.create_table d ≡ ok d' → has_table d' ≡ true
  pub create_again : (d d' : Db) → has_table d ≡ true → q.create_table d ≡ ok d' → d' ≡ d
  pub versions_answer :
      (d : Db) (vs : List ℕ) → q.versions d ≡ ok vs → (v : ℕ) → is_applied vs v ≡ recorded d v
  pub insert_records :
      (d d' : Db) (v : ℕ) (now : Str)
      → q.insert_version d v now ≡ ok d'
      → (has_table d' ≡ has_table d)
        × (recorded d' v ≡ true)
        × ((w : ℕ) → recorded d w ≡ true → recorded d' w ≡ true)

module _ {Db : Type 0} (q : Schema Db) (laws : SchemaLaws q) where
  open laws use {has_table, recorded}

  -- The script of a migration leaves the table schema_migrations alone.
  abbrev pub LeavesSchema : Migration → Type 0
  LeavesSchema m =
      (d d' : Db)
      → q.exec_script d m.sql ≡ ok d'
      → (has_table d' ≡ has_table d) × ((v : ℕ) → recorded d' v ≡ recorded d v)

  -- The migrations that are loaded do.
  abbrev pub AllLeaveSchema : List Entry → Type 0
  AllLeaveSchema entries =
      (ms : List Migration) → load_migrations entries ≡ ok ms → All LeavesSchema ms

  -- The table stays, and no version is forgotten.
  abbrev Grows : Db → Db → Type 0
  Grows d d' =
      (has_table d ≡ true → has_table d' ≡ true)
      × ((v : ℕ) → recorded d v ≡ true → recorded d' v ≡ true)

  abbrev Outcome : Type 0
  Outcome = Db × Result Str (Unit {0})

  abbrev committed : Db → Db → Option Str → Outcome
  committed d d1 none = (d1, ok tt)
  committed d d1 (some e) = (q.rollback_tx d d1, err e)

  abbrev begun : Str → Db → Migration → Option Str → Outcome
  begun now d m none = commit_migration q d (run_migration q now d m)
  begun now d m (some e) = (d, err e)

  abbrev chosen : Str → Db → Migration → Bool → Outcome
  chosen now d m applied =
      if applied then (d, ok tt) else in_migration q m (apply_migration q now d m)

  statement-ok :
      (d d' : Db) (r : Result Str Db) (next : Db → Outcome)
      → statement q d r next ≡ (d', ok tt)
      → (d1 : Db) × (r ≡ ok d1) × (next d1 ≡ (d', ok tt))
  statement-ok d d' (ok d1) next h = (d1, refl, h)
  statement-ok d d' (err e) next h = let bad = ap (λ (p : Outcome). p.1) h in cc

  commit-ok : (d d' : Db) (r : Outcome) → commit_migration q d r ≡ (d', ok tt) → r ≡ (d', ok tt)
  unfolding commit_migration
  commit-ok d d' (d1, err e) h = let bad = ap (λ (p : Outcome). p.1) h in cc
  commit-ok d d' (d1, ok u) h = elim (Option-cases (q.commit_tx d1)) [
    | inl e ↦ sym (ap (committed d d1) e) ∙ h
    | inr (t, e) ↦ let bad = ap (λ (p : Outcome). p.1) (sym (ap (committed d d1) e) ∙ h) in cc
  ]

  apply_migration-ok :
      (now : Str) (d d' : Db) (m : Migration)
      → apply_migration q now d m ≡ (d', ok tt)
      → run_migration q now d m ≡ (d', ok tt)
  unfolding apply_migration
  apply_migration-ok now d d' m h = elim (Option-cases (q.begin_tx d)) [
    | inl e ↦ commit-ok d d' _ (sym (ap (begun now d m) e) ∙ h)
    | inr (t, e) ↦ let bad = ap (λ (p : Outcome). p.1) (sym (ap (begun now d m) e) ∙ h) in cc
  ]

  apply_migration-Grows :
      (now : Str) (d d' : Db) (m : Migration)
      → LeavesSchema m
      → apply_migration q now d m ≡ (d', ok tt)
      → Grows d d' × (recorded d' m.version ≡ true)
  apply_migration-Grows now d d' m keeps h =
      let (d1, ran, more) =
        statement-ok d d' (q.exec_script d m.sql) _ (apply_migration-ok now d d' m h) in
      let (d2, inserted2, end) = statement-ok d1 d' (q.insert_version d1 m.version now) _ more in
      let inserted = inserted2 ∙ ap (λ (p : Outcome). ok p.0) end in
      let (table1, same) = keeps d d1 ran in
      let (table2, there, kept) = laws.insert_records d1 d' m.version now inserted in
      (((λ t. table2 ∙ table1 ∙ t), (λ v r. kept v (same v ∙ r))), there)

  and_then-ok :
      (d' : Db) (r : Outcome) (k : Db → Outcome)
      → and_then q r k ≡ (d', ok tt)
      → (d1 : Db) × (r ≡ (d1, ok tt)) × (k d1 ≡ (d', ok tt))
  and_then-ok d' (d1, ok u) k h = (d1, refl, h)
  and_then-ok d' (d1, err e) k h = let bad = ap (λ (p : Outcome). p.1) h in cc

  in_migration-ok :
      (d' : Db) (m : Migration) (r : Outcome) → in_migration q m r ≡ (d', ok tt) → r ≡ (d', ok tt)
  in_migration-ok d' m (d1, ok u) h = h
  in_migration-ok d' m (d1, err e) h = let bad = ap (λ (p : Outcome). p.1) h in cc

  migrate_step-Grows :
      (now : Str) (applied : List ℕ) (d d' : Db) (m : Migration)
      → LeavesSchema m
      → migrate_step q now applied d m ≡ (d', ok tt)
      → ((v : ℕ) → is_applied applied v ≡ true → recorded d v ≡ true)
      → Grows d d' × (recorded d' m.version ≡ true)
  migrate_step-Grows now applied d d' m keeps h known =
      elim (Bool-cases (is_applied applied m.version)) [
        | inl e ↦
            let same : d ≡ d' = ap (λ (p : Outcome). p.0) (sym (ap (chosen now d m) e) ∙ h) in
            subst (λ (z : Db). Grows d z × (recorded z m.version ≡ true)) same
              (((λ t. t), (λ v r. r)), known m.version e)
        | inr e ↦
            apply_migration-Grows now d d' m keeps
              (in_migration-ok d' m (apply_migration q now d m) (sym (ap (chosen now d m) e) ∙ h))
      ]

  apply_all-Grows :
      (now : Str) (applied : List ℕ) (d d' : Db) (ms : List Migration)
      → All LeavesSchema ms
      → apply_all q now applied d ms ≡ (d', ok tt)
      → ((v : ℕ) → is_applied applied v ≡ true → recorded d v ≡ true)
      → Grows d d' × All (λ m. recorded d' m.version ≡ true) ms
  unfolding apply_all
  apply_all-Grows now applied d d' [] keeps h known =
      let same : d ≡ d' = ap (λ (p : Outcome). p.0) h in
      (subst (Grows d) same ((λ t. t), (λ v r. r)), tt)
  apply_all-Grows now applied d d' (m ∷ ms) (k, ks) h known =
      let (d1, stepped, rest) = and_then-ok d' (migrate_step q now applied d m) _ h in
      let ((table, grows), there) = migrate_step-Grows now applied d d1 m k stepped known in
      let ((table', grows'), all) =
        apply_all-Grows now applied d1 d' ms ks rest (λ v e. grows v (known v e)) in
      (((λ t. table' (table t)), (λ v r. grows' v (grows v r))), (grows' m.version there, all))

  pub apply_all-idle :
      (now : Str) (applied : List ℕ) (d : Db) (ms : List Migration)
      → All (λ m. is_applied applied m.version ≡ true) ms
      → apply_all q now applied d ms ≡ (d, ok tt)
  unfolding apply_all
  apply_all-idle now applied d [] h = refl
  apply_all-idle now applied d (m ∷ ms) (h, hs) = rw h (apply_all-idle now applied d ms hs)

  pub pending-ok :
      (d : Db) (entries : List Entry) (applied : List ℕ) (ms : List Migration)
      → pending q d entries ≡ ok (applied, ms)
      → (q.versions d ≡ ok applied) × (load_migrations entries ≡ ok ms)
  pending-ok d entries applied ms h =
      let (vs, answered, h1) =
        >>=-eq-ok (map_err (λ e. codes "store: read schema_migrations: " ++ e) (q.versions d)) _
          h in
      let (found, loaded, h2) = >>=-eq-ok (load_migrations entries) _ h1 in
      let (same_vs, same_ms) = ok_pair-injective vs applied found ms h2 in
      (
        map_err-ok (λ e. codes "store: read schema_migrations: " ++ e) (q.versions d) vs answered
            ∙ ap ok same_vs,
        loaded ∙ ap ok same_ms,
      )

  -- What the database is once `migrate` succeeds.
  abbrev pub IsMigrated : Db → List Entry → Type 0
  IsMigrated d entries =
      (ms : List Migration) × (load_migrations entries ≡ ok ms)
      × (has_table d ≡ true)
      × All (λ m. recorded d m.version ≡ true) ms

  pending-IsMigrated :
      (now : Str) (entries : List Entry) (d d' : Db)
      → AllLeaveSchema entries
      → has_table d ≡ true
      → apply_pending q now d (pending q d entries) ≡ (d', ok tt)
      → IsMigrated d' entries
  pending-IsMigrated now entries d d' keep table h = elim (Result-cases (pending q d entries)) [
    | inr (e, failed) ↦
        let bad = ap (λ (p : Outcome). p.1) (sym (ap (apply_pending q now d) failed) ∙ h) in cc
    | inl ((applied, ms), read) ↦
        let (answered, loaded) = pending-ok d entries applied ms read in
        let ((kept, _), all) =
          apply_all-Grows now applied d d' ms (keep ms loaded)
            (sym (ap (apply_pending q now d) read) ∙ h)
            (λ v e. sym (laws.versions_answer d applied answered v) ∙ e) in
        (ms, loaded, kept table, all)
  ]

  pub migrate-IsMigrated :
      (now : Str) (entries : List Entry) (d d' : Db)
      → AllLeaveSchema entries
      → migrate q now entries d ≡ (d', ok tt)
      → IsMigrated d' entries
  unfolding migrate
  migrate-IsMigrated now entries d d' keep h = elim (Result-cases (q.create_table d)) [
    | inr (e, failed) ↦
        let bad = ap (λ (p : Outcome). p.1) (sym (ap (with_table q now entries d) failed) ∙ h) in cc
    | inl (d1, made) ↦
        pending-IsMigrated now entries d1 d' keep (laws.create_makes d d1 made)
          (sym (ap (with_table q now entries d) made) ∙ h)
  ]
