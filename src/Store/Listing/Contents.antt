-- ===== src/Store/Listing/Contents.antt =====
-- Which records a listing holds.
use kestrai.Prelude.{
  ◌≡◌, refl, ap, sym, ◌∙◌, subst, true, false, Bool, none, some, List, [], ◌∷◌, ◌↔◌, ◌⊎◌, ok, arith,
  if◌then◌else◌, In, inl, inr,
}
use kestrai.Text.{Str}
use kestrai.Int64.{is_positive}
use kestrai.Store.{Key, Record, ListOptions}
use kestrai.Store.Engine.{Row, Laws, selects, selects_scope}
use kestrai.Store.Cursor.{decode_continue}
use kestrai.Store.Operations.{Backend, scan_record}
use kestrai.Store.Listing.{list, collect, wanted, matches_labels, paginate, project_filter}
use kestrai.Store.Listing.Order.{collect-cons, collect-nil, listed_key}
use kestrai.Store.Listing.Steps.{list-ok}

In-if_head :
    {A : Type 0} (t : Bool) (r : A) (rs : List A) → t ≡ true → In r (if t then r ∷ rs else rs)
In-if_head t r rs h = rw h (inl refl)

In-if_tail :
    {A : Type 0} (t : Bool) (s r : A) (rs : List A) → In s rs → In s (if t then r ∷ rs else rs)
In-if_tail true s r rs h = inr h
In-if_tail false s r rs h = h

In-if :
    {A : Type 0} (t : Bool) (s r : A) (rs : List A)
    → In s (if t then r ∷ rs else rs)
    → ((t ≡ true) × (s ≡ r)) ⊎ In s rs
In-if true s r rs (inl e) = inl (refl, e)
In-if true s r rs (inr m) = inr m
In-if false s r rs m = inr m

module _ {Db D : Type 0} (b : Backend Db D) (opts : ListOptions) where
  collect_complete :
      (rows : List (Key × Row D)) (out : List (Record D)) (k : Key) (row : Row D) (r : Record D)
      → collect b opts none rows ≡ ok out
      → In (k, row) rows
      → scan_record b (listed_key b opts k) row ≡ ok r
      → matches_labels r.labels opts.label_selector ≡ true
      → In r out
  collect_complete [] out k row r e (m) s h = absurd m
  collect_complete ((j, x) ∷ rows) out k row r e (inl m) s h =
      let (r', rest, scanned, collected, split) = collect-cons b opts none j x rows out e in
      let same_scan : ok r ≡ ok r' =
        sym s ∙ ap (λ (z : Key × Row D). scan_record b (listed_key b opts z.0) z.1) m ∙ scanned in
      let same : r ≡ r' = cc in
      rw (← split, ← same) (In-if_head (wanted opts none r) r rest (unfold wanted in h))
  collect_complete ((j, x) ∷ rows) out k row r e (inr m) s h =
      let (r', rest, scanned, collected, split) = collect-cons b opts none j x rows out e in
      rw (← split) (
        In-if_tail (wanted opts none r') r r' rest
          (collect_complete rows rest k row r collected m s h))

  -- The row that a record of the listing comes from.
  abbrev Source : List (Key × Row D) → Record D → Type 0
  Source rows r =
      (k : Key) × (row : Row D) × In (k, row) rows
      × (scan_record b (listed_key b opts k) row ≡ ok r)
      × (matches_labels r.labels opts.label_selector ≡ true)

  collect_sound :
      (rows : List (Key × Row D)) (out : List (Record D)) (r : Record D)
      → collect b opts none rows ≡ ok out
      → In r out
      → Source rows r
  collect_sound [] out r e m = absurd (subst (In r) (collect-nil b opts none out e) m)
  collect_sound ((j, x) ∷ rows) out r e m =
      let (r', rest, scanned, collected, split) = collect-cons b opts none j x rows out e in
      elim (In-if (wanted opts none r') r r' rest (subst (In r) (sym split) m)) [
        | inl (w, same) ↦ (j, x, inl refl, rw same scanned, rw same (unfold wanted in w))
        | inr later ↦
            let (k, row, at, s, h) = collect_sound rows rest r collected later in
            (k, row, inr at, s, h)
      ]

  -- The key of the row that a record of the listing has is the key of the query.
  listed_key-selects :
      (k : Key)
      → selects opts.tenant_id opts.kind (project_filter opts.project) k ≡ true
      → listed_key b opts k ≡ k
  listed_key-selects k h =
      let (t, g) = selects_scope opts.tenant_id opts.kind (project_filter opts.project) k h in
      λ i. record { tenant_id = sym t i; kind = sym g i; project = k.project; name = k.name }

-- One call without a limit and without a cursor.
abbrev pub all_of : ListOptions → ListOptions
all_of opts = record opts { limit = 0; continue_token = [] }

module _ {Db D : Type 0} (b : Backend Db D) (laws : Laws b.sql) where
  open laws use {content}

  -- A `List` without limit and cursor that succeeds returns a record exactly if a row of the table
  -- has the tenant, the kind and, if one is given, the project of the options, decodes to the record,
  -- and has labels that match the selector.
  pub list_exact :
      (d : Db) (opts : ListOptions) (out : List (Record D)) (token : Str) (r : Record D)
      → list b d (all_of opts) ≡ ok (out, token)
      → In r out ↔ (
          (k : Key) × (row : Row D) × (content d k ≡ some row)
          × (selects opts.tenant_id opts.kind (project_filter opts.project) k ≡ true)
          × (scan_record b k row ≡ ok r)
          × (matches_labels r.labels opts.label_selector ≡ true))
  unfolding decode_continue paginate is_positive
  list_exact d opts out token r e =
      let (rows, after, all, selected, decoded, collected, clean, paged) =
        list-ok b d (all_of opts) out token e in
      let first : after ≡ none = ground arith in
      let same : all ≡ out = ground arith in
      let whole : collect b (all_of opts) none rows ≡ ok out =
        subst (λ a. collect b (all_of opts) a rows ≡ ok all) first collected ∙ ap ok same in
      let answer =
        laws.rows_answer d opts.tenant_id opts.kind (project_filter opts.project) rows selected in
      (
        (λ m.
            let (k, row, at, s, h) = collect_sound b (all_of opts) rows out r whole m in
            let (found, sel) = (answer k row).0 at in
            (
              k,
              row,
              found,
              sel,
              ap (λ z. scan_record b z row) (sym (listed_key-selects b (all_of opts) k sel)) ∙ s,
              h,
            )),
        (λ (k, row, found, sel, s, h).
            collect_complete b (all_of opts) rows out k row r whole ((answer k row).1 (found, sel))
              (ap (λ z. scan_record b z row) (listed_key-selects b (all_of opts) k sel) ∙ s) h),
      )
