-- ===== src/Store/Listing/Order.antt =====
-- The records of a listing stand in the order of (project, name), and the records behind a cursor
-- are a suffix of the listing.
use kestrai.Prelude.{
  ◌≡◌, refl, true, false, Bool, Option, none, some, List, [], ◌∷◌, ◌++◌, ok, arith, if◌then◌else◌,
  All, All-middle, if_both, filter, Bool-cases, inl, inr, >>=-eq-ok,
}
use kestrai.Store.{Key, Record, ListOptions}
use kestrai.Store.Engine.{Row, before, Ascending}
use kestrai.Store.Cursor.{Cursor, cursor_less}
use kestrai.Store.Cursor.Position.{cursor_of, cursor_less-before, before_irrefl, before_trans}
use kestrai.Store.Operations.{Backend, scan_record}
use kestrai.Store.Listing.{collect, wanted}

-- Every record stands before all that follow it.
abbrev pub Increasing : {D : Type 0} → List (Record D) → Type 0
Increasing [] = Unit
Increasing (r ∷ rs) = All (λ s. before r.key s.key ≡ true) rs × Increasing rs

abbrev behind : {D : Type 0} → Record D → Record D → Bool
behind l r = cursor_less (cursor_of l.key) (cursor_of r.key)

before_asym : (j k : Key) → before j k ≡ true → before k j ≡ false
before_asym j k h = elim (Bool-cases (before k j)) [
  | inl g ↦ let loop = before_trans j k j h g in let irrefl = before_irrefl j in cc
  | inr g ↦ g
]

module _ {D : Type 0} (l : Record D) where
  keep-All :
      (rs : List (Record D)) → All (λ s. before l.key s.key ≡ true) rs → filter (behind l) rs ≡ rs
  keep-All [] h = refl
  keep-All (r ∷ rs) (hr, h) = rw (cursor_less-before l.key r.key, hr, keep-All rs h)

  -- What stands behind a record of an increasing list is what follows it.
  pub filter-behind :
      (rs rest : List (Record D))
      → Increasing (rs ++ l ∷ rest)
      → filter (behind l) (rs ++ l ∷ rest) ≡ rest
  filter-behind [] rest (h, k) =
      rw (cursor_less-before l.key l.key, before_irrefl l.key) (keep-All rest h)
  filter-behind (r ∷ rs) rest (h, k) =
      let first = All-middle (λ s. before r.key s.key ≡ true) rs l rest h in
      rw (cursor_less-before l.key r.key, before_asym r.key l.key first) (filter-behind rs rest k)

-- The rows of the query, each before all that follow it.
abbrev Ordered : {D : Type 0} → List (Key × Row D) → Type 0
Ordered [] = Unit
Ordered (x ∷ rows) = All (λ y. before x.0 y.0 ≡ true) rows × Ordered rows

above-All :
    {D : Type 0} (k : Key) (x : Key × Row D) (rows : List (Key × Row D))
    → before k x.0 ≡ true
    → Ascending (x ∷ rows)
    → All (λ y. before k y.0 ≡ true) (x ∷ rows)
above-All k x [] h a = (h, tt)
above-All k x (y ∷ rows) h (s, a) = (h, above-All k y rows (before_trans k x.0 y.0 h s) a)

Ascending-Ordered : {D : Type 0} (rows : List (Key × Row D)) → Ascending rows → Ordered rows
Ascending-Ordered [] a = tt
Ascending-Ordered (x ∷ []) a = (tt, tt)
Ascending-Ordered (x ∷ y ∷ rows) (h, a) = (above-All x.0 y rows h a, Ascending-Ordered (y ∷ rows) a)

module _ {Db D : Type 0} (b : Backend Db D) (opts : ListOptions) where
  -- The key that a row gets in the listing.
  abbrev pub listed_key : Key → Key
  listed_key k = record {
    tenant_id = opts.tenant_id;
    kind = opts.kind;
    project = k.project;
    name = k.name;
  }

  scan_record-key : (k : Key) (row : Row D) (r : Record D) → scan_record b k row ≡ ok r → r.key ≡ k
  unfolding scan_record
  scan_record-key k row r e = ground arith

  pub collect-cons :
      (after : Option Cursor) (k : Key) (row : Row D) (rows : List (Key × Row D))
      (out : List (Record D))
      → collect b opts after ((k, row) ∷ rows) ≡ ok out
      → (r : Record D) × (rest : List (Record D)) × (scan_record b (listed_key k) row ≡ ok r)
        × (collect b opts after rows ≡ ok rest)
        × ((if wanted opts after r then r ∷ rest else rest) ≡ out)
  unfolding collect
  collect-cons after k row rows out e =
      let (r, scanned, e1) = >>=-eq-ok (scan_record b (listed_key k) row) _ e in
      let (rest, collected, e2) = >>=-eq-ok (collect b opts after rows) _ e1 in
      (r, rest, scanned, collected, ground arith)

  pub collect-nil :
      (after : Option Cursor) (out : List (Record D)) → collect b opts after [] ≡ ok out → out ≡ []
  unfolding collect
  collect-nil after out e = ground arith

  collect-above :
      (after : Option Cursor) (j : Key) (rows : List (Key × Row D)) (out : List (Record D))
      → All (λ y. before j y.0 ≡ true) rows
      → collect b opts after rows ≡ ok out
      → All (λ s. before j s.key ≡ true) out
  collect-above after j [] out h e = rw (collect-nil after out e) tt
  collect-above after j ((k, row) ∷ rows) out (hk, h) e =
      let (r, rest, scanned, collected, split) = collect-cons after k row rows out e in
      let rest_above = collect-above after j rows rest h collected in
      let r_above : before j r.key ≡ true = rw (scan_record-key (listed_key k) row r scanned) hk in
      rw (← split) (
        if_both (All (λ s. before j s.key ≡ true)) (wanted opts after r) (r ∷ rest) rest
          (r_above, rest_above) rest_above)

  collect-Increasing :
      (after : Option Cursor) (rows : List (Key × Row D)) (out : List (Record D))
      → Ordered rows
      → collect b opts after rows ≡ ok out
      → Increasing out
  collect-Increasing after [] out h e = rw (collect-nil after out e) tt
  collect-Increasing after ((k, row) ∷ rows) out (hk, h) e =
      let (r, rest, scanned, collected, split) = collect-cons after k row rows out e in
      let above : All (λ s. before r.key s.key ≡ true) rest =
        rw (scan_record-key (listed_key k) row r scanned)
          (collect-above after (listed_key k) rows rest hk collected) in
      let increasing = collect-Increasing after rows rest h collected in
      rw (← split)
        (if_both Increasing (wanted opts after r) (r ∷ rest) rest (above, increasing) increasing)

  -- A listing of the query's rows stands in order.
  pub listing-Increasing :
      (after : Option Cursor) (rows : List (Key × Row D)) (out : List (Record D))
      → Ascending rows
      → collect b opts after rows ≡ ok out
      → Increasing out
  listing-Increasing after rows out a = collect-Increasing after rows out (Ascending-Ordered rows a)

  -- With a cursor, a listing has the records of the whole listing that stand behind it.
  pub collect-after :
      (c : Cursor) (rows : List (Key × Row D)) (out : List (Record D))
      → collect b opts none rows ≡ ok out
      → collect b opts (some c) rows ≡ ok (filter (λ r. cursor_less c (cursor_of r.key)) out)
  unfolding collect wanted
  collect-after c [] out e = ground arith
  collect-after c ((k, row) ∷ rows) out e =
      let (r, rest, scanned, collected, split) = collect-cons none k row rows out e in
      rw (scanned, collect-after c rows rest collected, ← split) (ground arith)
