-- ===== src/Store/Memory/Lawful.antt =====
-- The database in memory meets the laws.
use kestrai.Prelude.{
  subst, ◌≡◌, ◌∙◌, ◌∷◌, refl, ap, sym, true, List, Option, none, some, ok, arith, if◌then◌else◌, In,
  ◌↔◌,
}
use kestrai.Store.{Key, key_eq}
use kestrai.Store.Engine.{Row, Patch, patch, Ascending, Laws, selects, selects_scope}
use kestrai.Store.Memory.{
  Memory, memory, find, remove, sorted, find-remove, is_member, insert_memory, update_memory,
}
use kestrai.Store.Memory.Sorted.{In-sorted, sorted-Ascending}

module _ {D : Type 0} where
  pub insert_found :
      (m m' : Memory D) (k : Key) (r : Row D) (found : Option (Row D))
      → insert_memory m k r found ≡ ok m'
      → (found ≡ none) × (is_member k.tenant_id m.tenants ≡ true) × (m'.table ≡ (k, r) ∷ m.table)
  unfolding insert_memory
  insert_found m m' k r found e = ground arith

  pub update_found :
      (m : Memory D) (k j : Key) (p : Patch D) (r : Row D) (found : Option (Row D))
      → found ≡ some r
      → find j (update_memory m k p found).table
        ≡ (if key_eq k j then some (patch p r) else find j m.table)
  unfolding update_memory find
  update_found m k j p r found e = rw e

  pub find_first :
      (k j : Key) (r : Row D) (rows : List (Key × Row D))
      → find j ((k, r) ∷ rows) ≡ (if key_eq k j then some r else find j rows)
  unfolding find
  find_first k j r rows = refl

  unfoldable pub memory_laws : Laws (memory {D = D})
  unfolding memory
  memory_laws = record {
    content = λ m k. find k m.table;
    has_tenant = λ m t. is_member t m.tenants;
    rollback_restores = λ before d. refl;
    select_answer = λ d k found e. cc;
    insert_constraints = λ d d' k r e.
        let (free, known, _) = insert_found d d' k r (find k d.table) e in (free, known);
    insert_effect = λ d d' k r j e.
        let (_, _, table) = insert_found d d' k r (find k d.table) e in
        ap (find j) table ∙ find_first k j r d.table;
    update_effect = λ d d' k p r j e found.
        let same : update_memory d k p (find k d.table) ≡ d' = cc in
        ap (λ (m : Memory D). find j m.table) (sym same)
        ∙ update_found d k j p r (find k d.table) found;
    delete_effect = λ d d' k j e.
        let same : record d { table = remove k d.table } ≡ d' = cc in
        ap (λ (m : Memory D). find j m.table) (sym same) ∙ find-remove k j d.table;
    rows_order = λ d tenant kind project rows e.
        let same : sorted (selects tenant kind project) d.table ≡ rows = cc in
        subst Ascending same (
          sorted-Ascending tenant kind (selects tenant kind project) d.table
            (selects_scope tenant kind project));
    rows_answer = λ d tenant kind project rows e k r.
        let same : sorted (selects tenant kind project) d.table ≡ rows = cc in
        subst
          (λ xs.
            In (k, r) xs ↔ ((find k d.table ≡ some r) × (selects tenant kind project k ≡ true)))
          same
          (In-sorted tenant kind (selects tenant kind project) d.table
            (selects_scope tenant kind project) k r);
  }
