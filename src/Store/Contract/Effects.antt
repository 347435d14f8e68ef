-- ===== src/Store/Contract/Effects.antt =====
-- What the calls of the SQLite store do to the records that a client sees.
use kestrai.Prelude.{
  ◌≡◌, ◌≢◌, ap, sym, ◌∙◌, subst, ◌↔◌, true, none, some, List, ok, err, In, arith, if◌then◌else◌,
}
use kestrai.Text.{Str}
use kestrai.Int64.{format_int}
use kestrai.Store.{Key, Record, ListOptions, conflict, key_eq}
use kestrai.Store.Engine.{Row, Laws, patch}
use kestrai.Store.Columns.{ColumnLaws, marshal_labels, unmarshal-marshal_labels}
use kestrai.Store.Operations.{
  Backend, Ambient, create, update, delete, scan_record, assign, new_row, bump, updated,
  time_or_zero,
}
use kestrai.Store.Operations.Reading.{OrFails, scan_record-row}
use kestrai.Store.Operations.Creation.{create_writes}
use kestrai.Store.Operations.Effects.{update_writes, delete_removes, update_stale}
use kestrai.Store.Uid.{new_uid}
use kestrai.Store.Engine.{selects}
use kestrai.Store.Listing.{list, matches_labels, project_filter}
use kestrai.Store.Listing.Contents.{list_exact, all_of}
use kestrai.Store.Contract.{Changes}
use kestrai.Store.Contract.View.{decoded, view, storable, view-change, decoded_some, view_row}

module _ {Db D : Type 0} (b : Backend Db D) (laws : Laws b.sql)
    (columns : ColumnLaws b.columns) where
  open laws use {content}

  pub create-effect :
      (a : Ambient) (d d' : Db) (rec r : Record D)
      → create b a d rec ≡ (d', ok r)
      → storable b laws columns r ≡ true
      → (view b laws columns d rec.key ≡ none)
        × Changes (view b laws columns d) rec.key (some (ok r)) (view b laws columns d')
  unfolding assign new_row decoded
  create-effect a d d' rec r e st =
      let (text, free, _, assigned, marshalled, effect) = create_writes b laws a d d' rec r e in
      let same : r.key ≡ rec.key = ground arith in
      let scanned : scan_record b rec.key (new_row b r text) ≡ ok r =
        subst (λ k. scan_record b k (new_row b r text) ≡ ok r) same
          (scan_record-row b columns r 1 text (ground arith) (ground arith) (ground arith)
            (ground arith)) in
      (
        ap (decoded b laws columns rec.key) free,
        λ j.
            view-change b laws columns d d' rec.key (some (new_row b r text)) effect j ∙ rw scanned,
      )

  pub scanned_fields :
      (k : Key) (row : Row D) (old : Record D)
      → scan_record b k row ≡ ok old
      → (old.uid ≡ row.uid)
        × (old.resource_version ≡ format_int row.resource_version)
        × (old.created_at ≡ time_or_zero (b.columns.parse_time row.created_at))
  unfolding scan_record
  scanned_fields k row old e = ground arith

  -- The row that an update found, when the view b laws columns holds `old`.
  updated_row :
      (d d' : Db) (rec r old : Record D)
      → update b d rec ≡ (d', ok r)
      → view b laws columns d rec.key ≡ some (ok old)
      → (text : Str) × (row : Row D) × (scan_record b rec.key row ≡ ok old)
        × (rec.resource_version ≡ format_int row.resource_version)
        × (marshal_labels b.columns rec.labels ≡ ok text)
        × (r ≡ updated b rec row)
        × ((j : Key)
            → content d' j
              ≡ (if key_eq rec.key j then some (patch (bump b rec row text) row) else content d j))
  updated_row d d' rec r old e v =
      let (text, row, found, current, marshalled, result, effect) =
        update_writes b laws d d' rec r e in
      (
        text,
        row,
        decoded_some b laws columns d rec.key row old found v,
        current,
        marshalled,
        result,
        effect,
      )

  rescan :
      (rec old : Record D) (row : Row D) (text : Str)
      → columns.is_plain rec.labels ≡ true
      → marshal_labels b.columns rec.labels ≡ ok text
      → scan_record b rec.key row ≡ ok old
      → scan_record b rec.key (patch (bump b rec row text) row)
        ≡ ok (record (updated b rec row) { created_at = old.created_at })
  unfolding scan_record bump updated
  rescan rec old row text plain marshalled scanned = ground (
    arith,
    unmarshal-marshal_labels columns rec.labels text plain marshalled,
    scanned_fields rec.key row old scanned,
  )

  pub update-effect :
      (d d' : Db) (rec r old : Record D)
      → update b d rec ≡ (d', ok r)
      → view b laws columns d rec.key ≡ some (ok old)
      → storable b laws columns rec ≡ true
      → (rec.resource_version ≡ old.resource_version)
        × Changes
            (view b laws columns d)
            rec.key
            (some (ok (record r { created_at = old.created_at })))
            (view b laws columns d')
  unfolding decoded
  update-effect d d' rec r old e v st =
      let (text, row, scanned, current, marshalled, result, effect) =
        updated_row d d' rec r old e v in
      let (_, version, _) = scanned_fields rec.key row old scanned in
      let again = rescan rec old row text (ground arith) marshalled scanned in
      (
        current ∙ sym version,
        λ j.
            view-change b laws columns d d' rec.key (some (patch (bump b rec row text) row)) effect
              j
            ∙ rw (again, result),
      )

  pub update-result :
      (d d' : Db) (rec r old : Record D)
      → update b d rec ≡ (d', ok r)
      → view b laws columns d rec.key ≡ some (ok old)
      → (r.key ≡ rec.key)
        × (r.uid ≡ old.uid)
        × (r.generation ≡ rec.generation)
        × (r.labels ≡ rec.labels)
        × (r.body ≡ rec.body)
  unfolding updated
  update-result d d' rec r old e v =
      let (text, row, scanned, _, _, result, _) = updated_row d d' rec r old e v in
      let (uid, _, _) = scanned_fields rec.key row old scanned in ground arith

  pub create-result :
      (a : Ambient) (d d' : Db) (rec r : Record D)
      → create b a d rec ≡ (d', ok r)
      → (r.key ≡ rec.key)
        × (r.uid ≡ new_uid a.entropy)
        × (r.resource_version ≡ format_int 1)
        × (r.generation ≡ rec.generation)
        × (r.labels ≡ rec.labels)
        × (r.body ≡ rec.body)
  unfolding assign
  create-result a d d' rec r e =
      let (_, _, _, result, _, _) = create_writes b laws a d d' rec r e in ground arith

  pub update-stale :
      (d : Db) (rec old : Record D)
      → view b laws columns d rec.key ≡ some (ok old)
      → rec.resource_version ≢ old.resource_version
      → OrFails (update b d rec).1 (err conflict)
  update-stale d rec old v stale =
      let (row, found, scanned) = view_row b laws columns d rec.key old v in
      let (_, version, _) = scanned_fields rec.key row old scanned in
      update_stale b laws d rec row found (λ e. stale (e ∙ sym version))

  pub delete-effect :
      (d d' : Db) (k : Key) (r : Record D)
      → delete b d k ≡ (d', ok r)
      → (view b laws columns d k ≡ some (ok r))
        × Changes (view b laws columns d) k none (view b laws columns d')
  unfolding decoded
  delete-effect d d' k r e =
      let (row, found, scanned, effect) = delete_removes b laws d d' k r e in
      (
        ap (decoded b laws columns k) found ∙ ap some scanned,
        view-change b laws columns d d' k none effect,
      )

  pub list-answer :
      (d : Db) (opts : ListOptions) (out : List (Record D)) (token : Str) (r : Record D)
      → list b d (all_of opts) ≡ ok (out, token)
      → In r out ↔ (
          (k : Key) × (view b laws columns d k ≡ some (ok r))
          × (selects opts.tenant_id opts.kind (project_filter opts.project) k ≡ true)
          × (matches_labels r.labels opts.label_selector ≡ true))
  unfolding decoded
  list-answer d opts out token r e =
      let exact = list_exact b laws d opts out token r e in
      (
        (λ m.
            let (k, row, found, sel, scanned, h) = exact.0 m in
            (k, ap (decoded b laws columns k) found ∙ ap some scanned, sel, h)),
        (λ (k, v, sel, h).
            let (row, found, scanned) = view_row b laws columns d k r v in
            exact.1 (k, row, found, sel, scanned, h)),
      )
