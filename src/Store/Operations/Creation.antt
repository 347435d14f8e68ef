-- ===== src/Store/Operations/Creation.antt =====
-- What `Create` promises.
use kestrai.Store.Uid.{new_uid}
use kestrai.Int64.{format_int}
use kestrai.Prelude.{◌==◌, ◌≡◌, none, some, true, ok, err, arith, if◌then◌else◌, ◌∙◌}
use kestrai.Text.{Str, codes}
use kestrai.Store.{Key, Record, already_exists, key_eq, key_eq_refl}
use kestrai.Store.Engine.{Row, Laws}
use kestrai.Store.Columns.{ColumnLaws, marshal_labels}
use kestrai.Store.Operations.{
  Backend, Ambient, create, get, assign, new_row, create_body, transact, free_labels, finish,
}
use kestrai.Store.Operations.Reading.{OrFails, OrFails-eq, get_row, scan_record-row}
use kestrai.Store.Operations.Transactions.{transact-ok}
use kestrai.Store.Operations.Rows.{create_body-ok}

module _ {Db D : Type 0} (b : Backend Db D) (laws : Laws b.sql) where
  open b use {sql}
  open laws use {content, has_tenant}

  -- The steps of a `Create` that succeeds.
  pub create_writes :
      (a : Ambient) (d d' : Db) (rec r : Record D)
      → create b a d rec ≡ (d', ok r)
      → (text : Str) × (content d rec.key ≡ none)
        × (has_tenant d rec.key.tenant_id ≡ true)
        × (r ≡ assign b a rec)
        × (marshal_labels b.columns rec.labels ≡ ok text)
        × ((j : Key)
            → content d' j ≡ (if key_eq rec.key j then some (new_row b r text) else content d j))
  unfolding create
  create_writes a d d' rec r e =
      let (text, free, marshalled, inserted, assigned) =
        create_body-ok b a d d' rec r (transact-ok b d d' (create_body b a rec) r e) in
      let (c, t) =
        laws.insert_constraints d d' rec.key (new_row b (assign b a rec) text) inserted in
      (
        text,
        c,
        t,
        assigned,
        marshalled,
        λ j.
            rw assigned
              (laws.insert_effect d d' rec.key (new_row b (assign b a rec) text) j inserted),
      )

  -- A `Create` that succeeds found its key free and its tenant known, and adds one row: every other
  -- key keeps its row. The row and the answer have the assigned uid, version 1, and the creation time
  -- of the caller or else the clock's; the rest is the caller's.
  pub create_inserts :
      (a : Ambient) (d d' : Db) (rec r : Record D)
      → create b a d rec ≡ (d', ok r)
      → (text : Str) × (content d rec.key ≡ none)
        × (has_tenant d rec.key.tenant_id ≡ true)
        × (r ≡ record rec {
          uid = new_uid a.entropy;
          resource_version = codes "1";
          created_at = if rec.created_at == 0 then a.now else rec.created_at;
        })
        × (marshal_labels b.columns rec.labels ≡ ok text)
        × ((j : Key)
            → content d' j ≡ (
                if key_eq rec.key j
                then some (record {
                  uid = r.uid;
                  resource_version = 1;
                  generation = r.generation;
                  labels = text;
                  created_at = b.columns.format_time r.created_at;
                  body = r.body;
                })
                else content d j))
  unfolding assign new_row format_int
  create_inserts a d d' rec r e = create_writes a d d' rec r e

  -- On a taken key `Create` answers ErrAlreadyExists, and the database is unchanged.
  pub create_taken :
      (a : Ambient) (d : Db) (rec : Record D) (row : Row D)
      → content d rec.key ≡ some row
      → sql.begin_tx d ≡ none
      → sql.select_row d rec.key ≡ ok (content d rec.key)
      → create b a d rec ≡ (d, err already_exists)
  unfolding create create_body free_labels transact finish
  create_taken a d rec row taken begun selected = ground (arith, laws.rollback_restores d d)

module _ {Db D : Type 0} (b : Backend Db D) (laws : Laws b.sql)
    (columns : ColumnLaws b.columns) where
  open laws use {content}

  -- A read right after a `Create` returns the created record, unless the SELECT itself fails, for
  -- labels and a creation time that the columns can hold.
  pub get-create :
      (a : Ambient) (d d' : Db) (rec r : Record D)
      → create b a d rec ≡ (d', ok r)
      → columns.is_plain rec.labels ≡ true
      → columns.in_range r.created_at ≡ true
      → OrFails (get b d' rec.key) (ok r)
  unfolding assign new_row
  get-create a d d' rec r e plain in_range =
      let (text, _, _, assigned, marshalled, effect) = create_writes b laws a d d' rec r e in
      let same : rec.key ≡ r.key = ground arith in
      let row : content d' r.key ≡ some (new_row b r text) =
        rw (← same) (effect rec.key ∙ rw key_eq_refl) in
      rw same (
        OrFails-eq (get_row b laws d' r.key (new_row b r text) row) (
          scan_record-row b columns r 1 text (ground arith) in_range (ground arith) (ground arith)))
