-- ===== src/Store/Memory.antt =====
-- A database in memory that meets the laws which the store assumes of SQLite: rows by primary key,
-- the first entry of a key counts, beside the ids of the tenants. It shows that the laws can be met.
pub mod Sorted
pub mod Lawful
pub mod Texts
use kestrai.Prelude.{
  ◌≡◌, refl, Bool, true, false, not, ◌&&◌, ◌||◌, Option, none, some, List, [], ◌∷◌, Result, ok, err,
  arith, if◌then◌else◌,
}
use kestrai.Text.{Str, codes, str_eq}
use kestrai.Store.{Key, key_eq, key_eq_iff}
use kestrai.Store.Engine.{Row, Patch, patch, Sqlite, before, selects}

pub record Memory (D : Type 0) : Type 0 where
  pub table : List (Key × Row D)
  pub tenants : List Str

abbrev pub is_member : Str → List Str → Bool
is_member s [] = false
is_member s (t ∷ ts) = str_eq s t || is_member s ts

module _ {D : Type 0} where
  unfoldable pub find : Key → List (Key × Row D) → Option (Row D)
  find k [] = none
  find k ((j, r) ∷ rows) = if key_eq j k then some r else find k rows

  unfoldable pub remove : Key → List (Key × Row D) → List (Key × Row D)
  remove k [] = []
  remove k ((j, r) ∷ rows) = let rest = remove k rows in if key_eq j k then rest else (j, r) ∷ rest

  pub find-remove :
      (k j : Key) (rows : List (Key × Row D))
      → find j (remove k rows) ≡ (if key_eq k j then none else find j rows)
  unfolding find remove
  find-remove k j [] = ground arith
  find-remove k j ((i, r) ∷ rows) =
      ground (arith, find-remove k j rows, key_eq_iff i k, key_eq_iff i j, key_eq_iff k j)

  -- Into a list sorted by project and name, in the place of a row with the same key.
  unfoldable pub put : Key → Row D → List (Key × Row D) → List (Key × Row D)
  put k r [] = (k, r) ∷ []
  put k r ((j, s) ∷ rows) =
      let later = put k r rows in
      if key_eq k j
      then (k, r) ∷ rows
      else if before k j
      then (k, r) ∷ (j, s) ∷ rows
      else (j, s) ∷ later

  unfoldable pub sorted : (Key → Bool) → List (Key × Row D) → List (Key × Row D)
  sorted wanted [] = []
  sorted wanted ((k, r) ∷ rows) =
      let rest = sorted wanted rows in if wanted k then put k r rest else rest

  abbrev patched : Patch D → Option (Row D) → Option (Row D)
  patched p none = none
  patched p (some r) = some (patch p r)

  pub insert_memory : Memory D → Key → Row D → Option (Row D) → Result Str (Memory D)
  insert_memory m k r (some old) = err (codes "UNIQUE constraint failed")
  insert_memory m k r none =
      if is_member k.tenant_id m.tenants
      then ok (record m { table = (k, r) ∷ m.table })
      else err (codes "FOREIGN KEY constraint failed")

  pub update_memory : Memory D → Key → Patch D → Option (Row D) → Memory D
  update_memory m k p none = m
  update_memory m k p (some r) = record m { table = (k, patch p r) ∷ m.table }

unfoldable pub memory : {D : Type 0} → Sqlite (Memory D) D
unfolding find remove sorted put insert_memory update_memory
memory = record {
  begin_tx = λ m. none;
  commit_tx = λ m. none;
  rollback_tx = λ before m. before;
  select_row = λ m k. ok (find k m.table);
  insert_row = λ m k r. insert_memory m k r (find k m.table);
  update_row = λ m k p. ok (update_memory m k p (find k m.table));
  delete_row = λ m k. ok (record m { table = remove k m.table });
  select_rows = λ m tenant kind project. ok (sorted (selects tenant kind project) m.table);
  rows_err = λ m. none;
}
