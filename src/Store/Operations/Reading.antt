-- ===== src/Store/Operations/Reading.antt =====
-- What `Get` and `scanRecord` answer for a row of the table.
use kestrai.Prelude.{
  ℕ, subst, ◌≡◌, none, some, Option, true, Result, ok, err, arith, ◌⊎◌, inl, inr, Result-cases, ◌∙◌,
  ap,
}
use kestrai.Text.{Str}
use kestrai.Int64.{format_int}
use kestrai.Store.{Key, Record, Error, other, not_found}
use kestrai.Store.Engine.{Row, Laws}
use kestrai.Store.Columns.{ColumnLaws, marshal_labels, unmarshal-marshal_labels}
use kestrai.Store.Operations.{Backend, get, existing, scan_record}

-- An answer of a statement, or the error that the driver gave in its place.
abbrev pub OrFails : {A : Type 0} → Result Error A → Result Error A → Type 0
OrFails r expected = (r ≡ expected) ⊎ ((e : Str) × (r ≡ err (other e)))

pub OrFails-eq : {A : Type 0} {r x y : Result Error A} → OrFails r x → x ≡ y → OrFails r y
OrFails-eq {r} h e = subst (OrFails r) e h

module _ {Db D : Type 0} (b : Backend Db D) (laws : Laws b.sql) where
  open b use {sql, columns}
  open laws use {content}

  pub existing-content :
      (d : Db) (key : Key) (found : Option (Row D))
      → content d key ≡ found
      → OrFails (existing (sql.select_row d key)) (existing (ok found))
  existing-content d key found e = elim (Result-cases (sql.select_row d key)) [
    | inl (answer, s) ↦ inl (ap existing (s ∙ ap ok (laws.select_answer d key answer s ∙ e)))
    | inr (text, s) ↦ inr (text, ap existing s)
  ]

  -- `Get` decodes the row of its key.
  pub get_row :
      (d : Db) (key : Key) (row : Row D)
      → content d key ≡ some row
      → OrFails (get b d key) (scan_record b key row)
  unfolding get
  get_row d key row e = ground (arith, existing-content d key (some row) e)

  -- `Get` answers ErrNotFound where there is no row, unless the SELECT itself fails.
  pub get_missing :
      (d : Db) (key : Key) → content d key ≡ none → OrFails (get b d key) (err not_found)
  unfolding get
  get_missing d key e = ground (arith, existing-content d key none e)

-- The columns of a record give the record back.
module _ {Db D : Type 0} (b : Backend Db D) (columns : ColumnLaws b.columns) where
  pub scan_record-row :
      (r : Record D) (version : ℕ) (text : Str)
      → columns.is_plain r.labels ≡ true
      → columns.in_range r.created_at ≡ true
      → marshal_labels b.columns r.labels ≡ ok text
      → r.resource_version ≡ format_int version
      → scan_record b r.key (record {
        uid = r.uid;
        resource_version = version;
        generation = r.generation;
        labels = text;
        created_at = b.columns.format_time r.created_at;
        body = r.body;
      })
        ≡ ok r
  unfolding scan_record
  scan_record-row r version text plain in_range marshalled e = ground (
    arith,
    unmarshal-marshal_labels columns r.labels text plain marshalled,
    columns.parse_format r.created_at in_range,
  )
