-- ===== src/Store/Migrations.antt =====
-- internal/store/migrate.go: the embedded migrations, and how they are applied when the database is
-- opened. `Schema` has the statements of the database; the text of an applied_at column is given.
-- Reading an embedded file does not fail. `%q` shows a name as it is, and the error of strconv.Atoi is
-- not kept.
pub mod Applied
pub mod Idempotence
use kestrai.Prelude.{
  ℕ, zero, suc, ◌+◌, ◌-◌, ◌*◌, ◌%◌, ◌^◌, ◌≡◌, Bool, true, false, ◌&&◌, ◌||◌, not, Option, none,
  some, List, [], ◌∷◌, ◌++◌, Result, ok, err, ◌>>=◌, map_err, if◌then◌else◌, ltb, leb, ◌==◌, length,
  drop,
}
use kestrai.Text.{Str, codes, str_eq, is_empty}
use kestrai.Text.Cut.{cut}

-- A file of the embedded directory.
pub record Entry : Type 0 where
  pub name : Str
  pub is_dir : Bool
  pub body : Str

-- `version` is an int64 bit pattern.
pub record Migration : Type 0 where
  pub version : ℕ
  pub name : Str
  pub sql : Str

-- strings.HasSuffix
abbrev pub has_suffix : Str → Str → Bool
has_suffix s suffix =
    leb (length suffix) (length s) && str_eq (drop (length s - length suffix) s) suffix

-- The value of decimal digits, `none` for another character.
abbrev is_decimal : ℕ → Bool
is_decimal c = leb b'0' c && leb c b'9'

number : ℕ → Str → Option ℕ
number n [] = some n
number n (c ∷ s) = let rest = number (n * 10 + (c - b'0')) s in if is_decimal c then rest else none

-- The magnitude with its sign, if it is an int64.
signed : Bool → Option ℕ → Option ℕ
signed negative none = none
signed false (some n) = if ltb n (2 ^ 63) then some n else none
signed true (some n) = if leb n (2 ^ 63) then some ((2 ^ 64 - n) % 2 ^ 64) else none

digits_only : Str → Option ℕ
unfolding number
digits_only [] = none
digits_only (c ∷ s) = number 0 (c ∷ s)

-- strconv.Atoi
unfoldable pub atoi : Str → Option ℕ
unfolding signed digits_only
atoi [] = none
atoi (c ∷ s) =
    if c == b'-'
    then signed true (digits_only s)
    else if c == b'+'
    then signed false (digits_only s)
    else signed false (digits_only (c ∷ s))

-- `a < b` on int64
abbrev less64 : ℕ → ℕ → Bool
less64 a b = ltb ((a + 2 ^ 63) % 2 ^ 64) ((b + 2 ^ 63) % 2 ^ 64)

-- sort.Slice by version; the order of equal versions, which it leaves open, is that of the names.
insert_migration : Migration → List Migration → List Migration
insert_migration m [] = m ∷ []
insert_migration m (n ∷ ms) =
    let later = insert_migration m ms in
    if less64 n.version m.version then n ∷ later else m ∷ n ∷ ms

numbered : Entry → Option ℕ → Result Str Migration
numbered e none = err (codes "store: migration " ++ e.name ++ codes " has a non-numeric version")
numbered e (some version) = ok (record { version = version; name = e.name; sql = e.body })

named : Entry → Option (Str × Str) → Result Str Migration
unfolding numbered
named e none =
    err (codes "store: migration " ++ e.name ++ codes " is not named NNNN_description.sql")
named e (some (prefix, rest)) = numbered e (atoi prefix)

-- `loadMigrations`, over the entries of the directory
unfoldable pub load_migrations : List Entry → Result Str (List Migration)
unfolding named insert_migration
load_migrations [] = ok []
load_migrations (e ∷ entries) =
    let rest = load_migrations entries in
    if e.is_dir || not (has_suffix e.name (codes ".sql"))
    then rest
    else do m ← named e (cut b'_' e.name); ms ← rest; ok (insert_migration m ms)

-- The statements over the table schema_migrations, and the script of a migration.
pub record Schema (Db : Type 0) : Type 0 where
  pub create_table : Db → Result Str Db
  pub versions : Db → Result Str (List ℕ)
  pub begin_tx : Db → Option Str
  pub exec_script : Db → Str → Result Str Db
  pub insert_version : Db → ℕ → Str → Result Str Db
  pub commit_tx : Db → Option Str
  -- ROLLBACK, for the database at BEGIN and the one that the transaction has made of it
  pub rollback_tx : Db → Db → Db

-- `applied[v]`
unfoldable pub is_applied : List ℕ → ℕ → Bool
is_applied [] v = false
is_applied (w ∷ vs) v = w == v || is_applied vs v

module _ {Db : Type 0} (q : Schema Db) where
  -- COMMIT; what fails leaves by the deferred Rollback.
  unfoldable pub commit_migration : Db → Db × Result Str (Unit {0}) → Db × Result Str (Unit {0})
  commit_migration before (d, err e) = (q.rollback_tx before d, err e)
  commit_migration before (d, ok u) = elim (q.commit_tx d) [
    | none ↦ (d, ok tt)
    | some e ↦ (q.rollback_tx before d, err e)
  ]

  -- A statement of the transaction, and what follows it.
  abbrev pub statement :
      Db → Result Str Db → (Db → Db × Result Str (Unit {0})) → Db × Result Str (Unit {0})
  statement d (err e) next = (d, err e)
  statement d (ok d') next = next d'

  -- The script, and the row that records it
  abbrev pub run_migration : Str → Db → Migration → Db × Result Str (Unit {0})
  run_migration now d m =
      statement d (q.exec_script d m.sql)
        λ d1. statement d1 (q.insert_version d1 m.version now) λ d2. (d2, ok tt)

  -- `applyMigration`
  unfoldable pub apply_migration : Str → Db → Migration → Db × Result Str (Unit {0})
  apply_migration now d m = elim (q.begin_tx d) [
    | some e ↦ (d, err e)
    | none ↦ commit_migration d (run_migration now d m)
  ]

  abbrev pub and_then :
      Db × Result Str (Unit {0}) → (Db → Db × Result Str (Unit {0})) → Db × Result Str (Unit {0})
  and_then (d, err e) k = (d, err e)
  and_then (d, ok u) k = k d

  abbrev pub in_migration : Migration → Db × Result Str (Unit {0}) → Db × Result Str (Unit {0})
  in_migration m (d, ok u) = (d, ok u)
  in_migration m (d, err e) =
      (d, err (codes "store: apply migration " ++ m.name ++ codes ": " ++ e))

  abbrev pub migrate_step : Str → List ℕ → Db → Migration → Db × Result Str (Unit {0})
  migrate_step now applied d m =
      if is_applied applied m.version then (d, ok tt) else in_migration m (apply_migration now d m)

  -- The loop over the migrations
  unfoldable pub apply_all : Str → List ℕ → Db → List Migration → Db × Result Str (Unit {0})
  apply_all now applied d [] = (d, ok tt)
  apply_all now applied d (m ∷ ms) =
      and_then (migrate_step now applied d m) λ d'. apply_all now applied d' ms

  -- After the table is there: what is applied, what is to be applied.
  abbrev pub pending : Db → List Entry → Result Str (List ℕ × List Migration)
  pending d entries = do
    applied ← map_err (λ e. codes "store: read schema_migrations: " ++ e) (q.versions d)
    migrations ← load_migrations entries
    ok (applied, migrations)

  abbrev pub apply_pending :
      Str → Db → Result Str (List ℕ × List Migration) → Db × Result Str (Unit {0})
  apply_pending now d (err e) = (d, err e)
  apply_pending now d (ok (applied, migrations)) = apply_all now applied d migrations

  abbrev pub with_table : Str → List Entry → Db → Result Str Db → Db × Result Str (Unit {0})
  with_table now entries d (err e) = (d, err (codes "store: create schema_migrations: " ++ e))
  with_table now entries d (ok d') = apply_pending now d' (pending d' entries)

  -- `migrate`
  unfoldable pub migrate : Str → List Entry → Db → Db × Result Str (Unit {0})
  migrate now entries d = with_table now entries d (q.create_table d)
