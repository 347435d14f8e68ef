-- ===== src/Store/Operations/Recreation.antt =====
-- A resource that is deleted and created again.
use kestrai.Prelude.{◌≡◌, ◌≢◌, refl, ap, ◌∙◌, some, true, ok, err, arith, List, [], ◌∷◌}
use kestrai.Text.{Str, codes, str_eq, str_eq_refl}
use kestrai.Int64.{format_int}
use kestrai.Store.{Record, conflict, key_eq_refl}
use kestrai.Store.Engine.{Row, Laws}
use kestrai.Store.Columns.{marshal_labels}
use kestrai.Store.Operations.{
  Backend, Ambient, create, update, update_body, transact, new_row, current_row,
}
use kestrai.Store.Operations.Reading.{existing-content}
use kestrai.Store.Operations.Creation.{create_writes}

module _ {Db D : Type 0} (b : Backend Db D) (laws : Laws b.sql) where
  open b use {sql, columns}
  open laws use {content}

  marshal_labels-not-conflict :
      (labels : List (Str × Str)) → marshal_labels columns labels ≢ err conflict
  unfolding marshal_labels
  marshal_labels-not-conflict [] h = cc
  marshal_labels-not-conflict (l ∷ labels) h = ground arith

  update_current :
      (d : Db) (rec : Record D) (row : Row D)
      → content d rec.key ≡ some row
      → str_eq rec.resource_version (format_int row.resource_version) ≡ true
      → (update b d rec).1 ≢ err conflict
  unfolding update update_body current_row transact
  update_current d rec row found same h = ground (
    arith,
    existing-content b laws d rec.key (some row) found,
    marshal_labels-not-conflict rec.labels,
  )

  -- A version says nothing of a resource that was created anew: after a `Create` that succeeds, an
  -- `Update` of its key with version 1 is not a conflict, whatever resource the caller read.
  pub update-create_accepts :
      (a : Ambient) (d d' : Db) (rec r old : Record D)
      → create b a d rec ≡ (d', ok r)
      → old.key ≡ rec.key
      → old.resource_version ≡ codes "1"
      → (update b d' old).1 ≢ err conflict
  unfolding new_row format_int
  update-create_accepts a d d' rec r old e same version =
      let (text, _, _, _, _, effect) = create_writes b laws a d d' rec r e in
      let found : content d' old.key ≡ some (new_row b r text) =
        ap (content d') same ∙ effect rec.key ∙ rw key_eq_refl refl in
      update_current d' old (new_row b r text) found
        (ap (λ v. str_eq v (codes "1")) version ∙ str_eq_refl (codes "1"))
