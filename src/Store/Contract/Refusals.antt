-- ===== src/Store/Contract/Refusals.antt =====
-- The sentinel errors of the SQLite store, by what a client sees.
use kestrai.Prelude.{
  ◌≡◌, ◌≢◌, refl, ap, sym, ◌∙◌, Option, none, some, Result, ok, err, inl, inr, Option-cases, ◌>>=◌,
  Bool, true, false, not, ◌&&◌, Result-cases, arith,
}
use kestrai.Text.{Str}
use kestrai.Store.{Key, Record, Error, already_exists, conflict, not_found}
use kestrai.Store.Engine.{Row, Laws}
use kestrai.Store.Columns.{ColumnLaws}
use kestrai.Store.Operations.{
  Backend, Ambient, create, get, update, delete, existing, scan_record, is_found,
}
use kestrai.Store.Operations.Creation.{create_taken}
use kestrai.Store.Operations.Refusals.{Answers, update_conflicts, update_absent, delete_absent}
use kestrai.Store.Contract.{answer}
use kestrai.Store.Contract.View.{decoded, view, view_none, view_row}
use kestrai.Store.Contract.Effects.{scanned_fields}

-- A statement that was answered.
abbrev pub succeeds : {A : Type 0} → Result Str A → Bool
succeeds (ok a) = true
succeeds (err e) = false

module _ {Db D : Type 0} (b : Backend Db D) (laws : Laws b.sql)
    (columns : ColumnLaws b.columns) where
  open laws use {content}

  -- The driver begins a transaction and answers the SELECT of the key.
  abbrev pub is_answered : Db → Key → Bool
  is_answered d k = not (is_found (b.sql.begin_tx d)) && succeeds (b.sql.select_row d k)

  answered : (d : Db) (k : Key) → is_answered d k ≡ true → Answers b laws d k
  answered d k e = (
    begun d k (b.sql.begin_tx d) refl e,
    (elim (Result-cases (b.sql.select_row d k)) [
      | inl (found, selected) ↦ selected ∙ ap ok (laws.select_answer d k found selected)
      | inr (text, failed) ↦ ground arith
    ]),
  )
    where
      begun :
          (d : Db) (k : Key) (r : Option Str)
          → b.sql.begin_tx d ≡ r
          → is_answered d k ≡ true
          → b.sql.begin_tx d ≡ none
      begun d k r s e = ground arith

  held_row :
      (d : Db) (k : Key) (x : Result Error (Record D))
      → view b laws columns d k ≡ some x
      → (row : Row D) × (content d k ≡ some row)
  unfolding decoded
  held_row d k x v = elim (Option-cases (content d k)) [
    | inl e ↦ let v' = sym (ap (decoded b laws columns k) e) ∙ v in cc
    | inr (row, e) ↦ (row, e)
  ]

  answer_decoded :
      (k : Key) (found : Option (Row D))
      → (existing (ok found) >>= scan_record b k) ≡ answer (decoded b laws columns k found)
  unfolding decoded
  answer_decoded k none = refl
  answer_decoded k (some row) = refl

  pub get-answers :
      (d : Db) (k : Key) → is_answered d k ≡ true → get b d k ≡ answer (view b laws columns d k)
  unfolding get
  get-answers d k e =
      let (_, selected) = answered d k e in
      ap (λ r. existing r >>= scan_record b k) selected ∙ answer_decoded k (content d k)

  pub create-exists :
      (a : Ambient) (d : Db) (rec : Record D) (x : Result Error (Record D))
      → is_answered d rec.key ≡ true
      → view b laws columns d rec.key ≡ some x
      → create b a d rec ≡ (d, err already_exists)
  create-exists a d rec x e v =
      let (begun, selected) = answered d rec.key e in
      let (row, held) = held_row d rec.key x v in
      create_taken b laws a d rec row held begun selected

  pub update-conflicts :
      (d : Db) (rec old : Record D)
      → is_answered d rec.key ≡ true
      → view b laws columns d rec.key ≡ some (ok old)
      → rec.resource_version ≢ old.resource_version
      → update b d rec ≡ (d, err conflict)
  update-conflicts d rec old e1 v stale =
      let (row, found, scanned) = view_row b laws columns d rec.key old v in
      let (_, version, _) = scanned_fields b laws columns rec.key row old scanned in
      update_conflicts b laws d rec row (answered d rec.key e1) found (λ e. stale (e ∙ sym version))

  pub update-absent :
      (d : Db) (rec : Record D)
      → is_answered d rec.key ≡ true
      → view b laws columns d rec.key ≡ none
      → update b d rec ≡ (d, err not_found)
  update-absent d rec e v =
      update_absent b laws d rec (answered d rec.key e) (view_none b laws columns d rec.key v)

  pub delete-absent :
      (d : Db) (k : Key)
      → is_answered d k ≡ true
      → view b laws columns d k ≡ none
      → delete b d k ≡ (d, err not_found)
  delete-absent d k e v = delete_absent b laws d k (answered d k e) (view_none b laws columns d k v)
