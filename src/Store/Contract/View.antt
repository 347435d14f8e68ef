-- ===== src/Store/Contract/View.antt =====
-- What the SQLite store holds under each key, as the contract sees it.
use kestrai.Prelude.{
  ◌≡◌, ap, sym, ◌∙◌, Bool, ◌&&◌, Option, none, some, Result, ok, inl, inr, if◌then◌else◌,
  Option-cases, Bool-cases, arith,
}
use kestrai.Store.{Key, Record, Error, key_eq, key_eq_iff}
use kestrai.Store.Engine.{Row, Laws}
use kestrai.Store.Columns.{ColumnLaws}
use kestrai.Store.Operations.{Backend, get, scan_record}
use kestrai.Store.Operations.Reading.{OrFails, OrFails-eq, get_row, get_missing}
use kestrai.Store.Contract.{View, Changes, answer}

module _ {Db D : Type 0} (b : Backend Db D) (laws : Laws b.sql)
    (columns : ColumnLaws b.columns) where
  open laws use {content}

  -- The row of a key, decoded.
  unfoldable pub decoded : Key → Option (Row D) → Option (Result Error (Record D))
  decoded k none = none
  decoded k (some row) = some (scan_record b k row)

  abbrev pub view : Db → View D
  view d k = decoded k (content d k)

  abbrev pub storable : Record D → Bool
  storable r = columns.is_plain r.labels && columns.in_range r.created_at

  pub get-view : (d : Db) (k : Key) → OrFails (get b d k) (answer (view d k))
  unfolding decoded
  get-view d k = elim (Option-cases (content d k)) [
    | inl e ↦ OrFails-eq (get_missing b laws d k e) (rw e)
    | inr (row, e) ↦ OrFails-eq (get_row b laws d k row e) (rw e)
  ]

  -- A change of one row is a change of one key of the view.
  pub view-change :
      (d d' : Db) (k : Key) (x : Option (Row D))
      → ((j : Key) → content d' j ≡ (if key_eq k j then x else content d j))
      → Changes (view d) k (decoded k x) (view d')
  unfolding decoded
  view-change d d' k x effect j = elim (Bool-cases (key_eq k j)) [
    | inl same ↦
        let found : content d' j ≡ x = effect j ∙ rw same in
        rw same (ap (decoded j) found ∙ ap (λ z. decoded z x) (sym ((key_eq_iff k j).0 same)))
    | inr other ↦
        let kept : content d' j ≡ content d j = effect j ∙ rw other in
        rw other (ap (decoded j) kept)
  ]

  pub decoded_some :
      (d : Db) (k : Key) (row : Row D) (old : Record D)
      → content d k ≡ some row
      → view d k ≡ some (ok old)
      → scan_record b k row ≡ ok old
  unfolding decoded
  decoded_some d k row old e v = let v' = sym (ap (decoded k) e) ∙ v in cc

  pub view_none : (d : Db) (k : Key) → view d k ≡ none → content d k ≡ none
  unfolding decoded
  view_none d k v = elim (Option-cases (content d k)) [
    | inl e ↦ e
    | inr (row, e) ↦ let v' = sym (ap (decoded k) e) ∙ v in cc
  ]

  pub view_row :
      (d : Db) (k : Key) (r : Record D)
      → view d k ≡ some (ok r)
      → (row : Row D) × (content d k ≡ some row) × (scan_record b k row ≡ ok r)
  unfolding decoded
  view_row d k r v = elim (Option-cases (content d k)) [
    | inl e ↦ let v' = sym (ap (decoded k) e) ∙ v in cc
    | inr (row, e) ↦ (row, e, decoded_some d k row r e v)
  ]

  scan_record-key : (k : Key) (row : Row D) (r : Record D) → scan_record b k row ≡ ok r → r.key ≡ k
  unfolding scan_record
  scan_record-key k row r e = ground arith

  pub view-key : (d : Db) (k : Key) (r : Record D) → view d k ≡ some (ok r) → r.key ≡ k
  view-key d k r v = let (row, _, e) = view_row d k r v in scan_record-key k row r e
