-- ===== src/Tests/Writes.antt =====
-- The store over the database in memory takes every update that was given the stored version.
use kestrai.Prelude.{◌≡◌, refl, ap, sym, ◌∙◌, true, some, ok, List, [], ◌∷◌, arith}
use kestrai.Text.{Str, str_eq, str_eq_refl}
use kestrai.Int64.{format_int}
use kestrai.Store.{Record}
use kestrai.Store.Engine.{Row}
use kestrai.Store.Columns.{marshal_labels}
use kestrai.Store.Operations.{update, scan_record, updated, bump}
use kestrai.Store.Operations.Success.{update-succeeds}
use kestrai.Store.Memory.{Memory, memory, find, update_memory}
use kestrai.Store.Memory.Lawful.{memory_laws}
use kestrai.Store.Memory.Texts.{plain_columns, plain_laws}
use kestrai.Store.Contract.View.{decoded, view_row}
use kestrai.Store.Contract.Refinement.{sqlite_store, sqlite_store-Contract}
use kestrai.Reconciler.Passes.{Reliable}
use kestrai.Tests.Fixtures.{backend}
use kestrai.Tests.Messages.{plain_wire, plain_wire_laws, status_equal}

plain_marshals :
    (labels : List (Str × Str)) → (text : Str) × (marshal_labels plain_columns labels ≡ ok text)
unfolding marshal_labels plain_columns
plain_marshals [] = (_, refl)
plain_marshals (l ∷ labels) = (_, refl)

scanned_version :
    {D : Type 0} (rec old : Record D) (row : Row D)
    → scan_record backend rec.key row ≡ ok old
    → old.resource_version ≡ format_int row.resource_version
unfolding scan_record
scanned_version rec old row e = ground arith

update_finds :
    {D : Type 0} (d : Memory D) (rec : Record D) (row : Row D) (text : Str)
    → find rec.key d.table ≡ some row
    → str_eq rec.resource_version (format_int row.resource_version) ≡ true
    → marshal_labels plain_columns rec.labels ≡ ok text
    → update backend d rec ≡ (
      update_memory d rec.key (bump backend rec row text) (some row),
      ok (updated backend rec row),
    )
unfolding memory
update_finds d rec row text found same marshalled =
    update-succeeds backend d (update_memory d rec.key (bump backend rec row text) (some row)) rec
      row text refl (ap ok found) same marshalled
      (ap (λ r. ok (update_memory d rec.key (bump backend rec row text) r)) found) refl

pub memory_Reliable :
    Reliable
      (sqlite_store backend)
      plain_wire
      status_equal
      (sqlite_store-Contract backend memory_laws plain_laws).0
      plain_wire_laws
unfolding sqlite_store decoded memory_laws
memory_Reliable = record {
  encodes = λ wf. (wf, refl);
  writes = λ s rec old held version fits.
      let view = sym ((sqlite_store-Contract backend memory_laws plain_laws).1 s rec.key) ∙ held in
      let (row, found, scanned) = view_row backend memory_laws plain_laws s rec.key old view in
      let (text, marshalled) = plain_marshals rec.labels in
      let current = version ∙ scanned_version rec old row scanned in
      (
        _,
        _,
        update_finds s rec row text found
            (ap (λ v. str_eq v (format_int row.resource_version)) current ∙ str_eq_refl _)
            marshalled,
      );
}
