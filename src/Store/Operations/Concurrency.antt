-- ===== src/Store/Operations/Concurrency.antt =====
-- Optimistic concurrency over any sequence of calls: the version of a row counts its updates.
use kestrai.Prelude.{
  ℕ, ◌+◌, ◌%◌, ◌^◌, ◌<◌, ◌≡◌, refl, sym, ap, ◌∙◌, none, some, false, err, arith, inl, inr,
  if◌then◌else◌, Result-cases, Bool-cases, List, [], ◌∷◌,
}
use kestrai.Text.{Str}
use kestrai.Int64.{format_int, add64}
use kestrai.Int64.Decimal.{format_int-injective}
use kestrai.Store.{Key, Record, conflict, key_eq, key_eq_iff}
use kestrai.Store.Engine.{Row, Laws, patch}
use kestrai.Store.Operations.{Backend, Ambient, create, update, delete, bump}
use kestrai.Store.Operations.Reading.{OrFails}
use kestrai.Store.Operations.Transactions.{create-failed, update-failed, delete-failed}
use kestrai.Store.Operations.Creation.{create_writes}
use kestrai.Store.Operations.Effects.{update_writes, delete_removes, update_stale}
use kestrai.Store.Operations.History.{
  Call, creating, updating, deleting, step, run, updates, deletes, update_count, is_deleted, Aged,
}

module _ {Db D : Type 0} (b : Backend Db D) (laws : Laws b.sql) where
  open laws use {content}

  -- The row of `k` in `d'` is `row` after `n` updates.
  abbrev Keeps : Key → Row D → Db → ℕ → Type 0
  Keeps k row d' n = (row' : Row D) × (content d' k ≡ some row') × Aged row row' n

  unchanged :
      (k : Key) (d d' : Db) (row : Row D)
      → content d k ≡ some row
      → row.resource_version < 2 ^ 64
      → content d' k ≡ content d k
      → Keeps k row d' 0
  unchanged k d d' row found fits same =
      (row, same ∙ found, record { same_uid = refl; same_time = refl; version = omega arith })

  free-ne-taken :
      (d : Db) (j k : Key) (row : Row D)
      → content d j ≡ none
      → content d k ≡ some row
      → key_eq j k ≡ false
  free-ne-taken d j k row free taken = elim (Bool-cases (key_eq j k)) [
    | inl e ↦ let same = ap (content d) ((key_eq_iff j k).0 e) in cc
    | inr e ↦ e
  ]

  create-Keeps :
      (a : Ambient) (rec : Record D) (k : Key) (d : Db) (row : Row D)
      → content d k ≡ some row
      → row.resource_version < 2 ^ 64
      → Keeps k row (create b a d rec).0 0
  create-Keeps a rec k d row found fits = elim (Result-cases (create b a d rec).1) [
    | inl (r, e) ↦
        let d' = (create b a d rec).0 in
        let (text, free, _, _, _, effect) = create_writes b laws a d d' rec r (λ i. (d', e i)) in
        unchanged k d d' row found fits (effect k ∙ rw (free-ne-taken d rec.key k row free found))
    | inr (x, e) ↦
        let d' = (create b a d rec).0 in
        let same = create-failed b laws d d' x a rec (λ i. (d', e i)) in
        unchanged k d d' row found fits (ap (λ (z : Db). content z k) same)
  ]

  bumped :
      (k : Key) (d' : Db) (rec : Record D) (row old : Row D) (text : Str)
      → content d' k ≡ some (patch (bump b rec old text) old)
      → old ≡ row
      → Keeps k row d' 1
  unfolding bump add64
  bumped k d' rec row old text found e = (
    patch (bump b rec old text) old,
    found,
    record {
      same_uid = ap (λ (r : Row D). r.uid) e;
      same_time = ap (λ (r : Row D). r.created_at) e;
      version = ap (λ (r : Row D). (r.resource_version + 1) % 2 ^ 64) e;
    },
  )

  update-Keeps :
      (rec : Record D) (k : Key) (d : Db) (row : Row D)
      → content d k ≡ some row
      → row.resource_version < 2 ^ 64
      → Keeps k row (update b d rec).0 (if updates b k d (updating rec) then 1 else 0)
  unfolding updates
  update-Keeps rec k d row found fits = elim (Result-cases (update b d rec).1) [
    | inl (r, e) ↦
        let d' = (update b d rec).0 in
        let (text, old, at, _, _, _, effect) = update_writes b laws d d' rec r (λ i. (d', e i)) in
        elim (Bool-cases (key_eq rec.key k)) [
          | inl mine ↦
              let same = ap (content d) ((key_eq_iff rec.key k).0 mine) in
              let this : old ≡ row = cc in
              rw (mine, e) (bumped k d' rec row old text (effect k ∙ rw mine) this)
          | inr theirs ↦ rw theirs (unchanged k d d' row found fits (effect k ∙ rw theirs))
        ]
    | inr (x, e) ↦
        let d' = (update b d rec).0 in
        let same = update-failed b laws d d' x rec (λ i. (d', e i)) in
        elim (Bool-cases (key_eq rec.key k)) [
          | inl mine ↦
              rw (mine, e) (unchanged k d d' row found fits (ap (λ (z : Db). content z k) same))
          | inr theirs ↦
              rw theirs (unchanged k d d' row found fits (ap (λ (z : Db). content z k) same))
        ]
  ]

  delete-Keeps :
      (key k : Key) (d : Db) (row : Row D)
      → content d k ≡ some row
      → row.resource_version < 2 ^ 64
      → deletes b k d (deleting key) ≡ false
      → Keeps k row (delete b d key).0 0
  unfolding deletes
  delete-Keeps key k d row found fits kept = elim (Result-cases (delete b d key).1) [
    | inl (r, e) ↦
        let d' = (delete b d key).0 in
        let (old, at, _, effect) = delete_removes b laws d d' key r (λ i. (d', e i)) in
        let theirs : key_eq key k ≡ false = ground arith in
        unchanged k d d' row found fits (effect k ∙ rw theirs)
    | inr (x, e) ↦
        let d' = (delete b d key).0 in
        let same = delete-failed b laws d d' x key (λ i. (d', e i)) in
        unchanged k d d' row found fits (ap (λ (z : Db). content z k) same)
  ]

  step-Keeps :
      (call : Call D) (k : Key) (d : Db) (row : Row D)
      → content d k ≡ some row
      → row.resource_version < 2 ^ 64
      → deletes b k d call ≡ false
      → Keeps k row (step b d call) (if updates b k d call then 1 else 0)
  unfolding step
  step-Keeps (creating a rec) k d row found fits kept =
      unfold updates in create-Keeps a rec k d row found fits
  step-Keeps (updating rec) k d row found fits kept = update-Keeps rec k d row found fits
  step-Keeps (deleting key) k d row found fits kept =
      unfold updates in delete-Keeps key k d row found fits kept

  -- Over any sequence of calls of any clients, failed ones among them, that does not delete a key,
  -- the row of the key keeps its uid and its creation time, and its version grows by the number of
  -- its successful updates, as an int64.
  pub version_counts_updates :
      (calls : List (Call D)) (k : Key) (d : Db) (row : Row D)
      → content d k ≡ some row
      → row.resource_version < 2 ^ 64
      → is_deleted b k d calls ≡ false
      → (row' : Row D) × (content (run b d calls) k ≡ some row')
        × Aged row row' (update_count b k d calls)
  unfolding run update_count is_deleted
  version_counts_updates [] k d row found fits kept = unchanged k d d row found fits refl
  version_counts_updates (call ∷ calls) k d row found fits kept =
      let now : deletes b k d call ≡ false = ground arith in
      let later : is_deleted b k (step b d call) calls ≡ false = ground arith in
      let (mid, found', aged) = step-Keeps call k d row found fits now in
      let (last, found'', aged') =
        version_counts_updates calls k (step b d call) mid found' (omega arith) later in
      (
        last,
        found'',
        record {
          same_uid = aged'.same_uid ∙ aged.same_uid;
          same_time = aged'.same_time ∙ aged.same_time;
          version = omega arith;
        },
      )

  -- No lost update: after a run in which a key was updated and not deleted, an `Update` with the
  -- version read before the run answers ErrConflict, unless the driver fails first. The run has
  -- fewer than 2 ^ 64 updates of the key.
  pub stale_update_conflicts :
      (calls : List (Call D)) (d : Db) (row : Row D) (rec : Record D)
      → content d rec.key ≡ some row
      → row.resource_version < 2 ^ 64
      → is_deleted b rec.key d calls ≡ false
      → 0 < update_count b rec.key d calls
      → update_count b rec.key d calls < 2 ^ 64
      → rec.resource_version ≡ format_int row.resource_version
      → OrFails (update b (run b d calls) rec).1 (err conflict)
  stale_update_conflicts calls d row rec found fits kept some_update few version =
      let (row', found', aged) = version_counts_updates calls rec.key d row found fits kept in
      update_stale b laws (run b d calls) rec row' found' λ e.
        let same =
          format_int-injective row.resource_version row'.resource_version fits (omega arith)
            (sym version ∙ e) in
        absurd (omega arith)
