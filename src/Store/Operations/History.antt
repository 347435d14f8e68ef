-- ===== src/Store/Operations/History.antt =====
-- Sequences of writes of any clients to the store.
use kestrai.Prelude.{
  ℕ, ◌+◌, ◌%◌, ◌^◌, ◌≡◌, true, false, Bool, ◌&&◌, ◌||◌, Result, ok, err, if◌then◌else◌, List, [],
  ◌∷◌,
}
use kestrai.Store.{Key, Record, key_eq}
use kestrai.Store.Engine.{Row}
use kestrai.Store.Operations.{Backend, Ambient, create, update, delete}

-- A write of one client.
pub data Call (D : Type 0) : Type 0 where
  creating : Ambient → Record D → Call D
  updating : Record D → Call D
  deleting : Key → Call D

abbrev pub is_ok : {E A : Type 0} → Result E A → Bool
is_ok (ok a) = true
is_ok (err e) = false

module _ {Db D : Type 0} (b : Backend Db D) where
  -- The database after a call, whether or not it succeeds.
  unfoldable pub step : Db → Call D → Db
  step d (creating a rec) = (create b a d rec).0
  step d (updating rec) = (update b d rec).0
  step d (deleting key) = (delete b d key).0

  unfoldable pub run : Db → List (Call D) → Db
  run d [] = d
  run d (call ∷ calls) = run (step d call) calls

  -- Is the call a successful update of the key? A successful delete of it?
  unfoldable pub updates : Key → Db → Call D → Bool
  updates k d (updating rec) = key_eq rec.key k && is_ok (update b d rec).1
  updates k d _ = false

  unfoldable pub deletes : Key → Db → Call D → Bool
  deletes k d (deleting key) = key_eq key k && is_ok (delete b d key).1
  deletes k d _ = false

  -- The number of successful updates of the key in a run, and whether a delete removes it.
  unfoldable pub update_count : Key → Db → List (Call D) → ℕ
  update_count k d [] = 0
  update_count k d (call ∷ calls) =
      (if updates k d call then 1 else 0) + update_count k (step d call) calls

  unfoldable pub is_deleted : Key → Db → List (Call D) → Bool
  is_deleted k d [] = false
  is_deleted k d (call ∷ calls) = deletes k d call || is_deleted k (step d call) calls

-- The row `r` is the row `r0` after `n` updates.
pub record Aged {D : Type 0} (r0 r : Row D) (n : ℕ) : Type 0 where
  pub same_uid : r.uid ≡ r0.uid
  pub same_time : r.created_at ≡ r0.created_at
  pub version : r.resource_version ≡ (r0.resource_version + n) % 2 ^ 64
