-- ===== src/Store/Memory/Sorted.antt =====
-- The sorted selection of a table: its order, and which rows it holds.
use kestrai.Prelude.{
  ◌≡◌, refl, ap, sym, ◌∙◌, subst, ◌↔◌, inl, inr, Bool, true, false, none, some, List, [], ◌∷◌,
  arith, if◌then◌else◌, All, In, Bool-cases,
}
use kestrai.Text.{Str, str_eq_iff}
use kestrai.Text.Order.{str_less_total}
use kestrai.Store.{Key, key_eq, key_eq_iff}
use kestrai.Store.Engine.{Row, before, Ascending}
use kestrai.Store.Cursor.Position.{before_irrefl, before_trans}
use kestrai.Store.Memory.{find, put, sorted}

abbrev Ordered : {D : Type 0} → List (Key × Row D) → Type 0
Ordered [] = Unit
Ordered (x ∷ rows) = All (λ y. before x.0 y.0 ≡ true) rows × Ordered rows

Ordered-Ascending : {D : Type 0} (rows : List (Key × Row D)) → Ordered rows → Ascending rows
Ordered-Ascending [] h = tt
Ordered-Ascending (x ∷ []) h = tt
Ordered-Ascending (x ∷ y ∷ rows) ((h, hs), k) = (h, Ordered-Ascending (y ∷ rows) k)

-- Of two different keys of one tenant and kind, one is before the other.
before_total :
    (j k : Key)
    → j.tenant_id ≡ k.tenant_id
    → j.kind ≡ k.kind
    → key_eq j k ≡ false
    → before j k ≡ false
    → before k j ≡ true
unfolding key_eq
before_total j k t g h l = ground (
  arith,
  str_eq_iff j.tenant_id k.tenant_id,
  str_eq_iff j.kind k.kind,
  str_eq_iff j.project k.project,
  str_eq_iff k.project j.project,
  str_eq_iff j.name k.name,
  str_less_total j.project k.project,
  str_less_total j.name k.name,
)

module _ {D : Type 0} where
  find-put :
      (k j : Key) (r : Row D) (rows : List (Key × Row D))
      → find j (put k r rows) ≡ (if key_eq k j then some r else find j rows)
  unfolding find put
  find-put k j r [] = refl
  find-put k j r ((i, s) ∷ rows) =
      ground (arith, find-put k j r rows, key_eq_iff k i, key_eq_iff k j, key_eq_iff i j)

  pub find-sorted :
      (wanted : Key → Bool) (j : Key) (rows : List (Key × Row D))
      → find j (sorted wanted rows) ≡ (if wanted j then find j rows else none)
  unfolding sorted find
  find-sorted wanted j [] = ground arith
  find-sorted wanted j ((k, r) ∷ rows) =
      let ih = find-sorted wanted j rows in
      elim (Bool-cases (key_eq k j)) [
        | inl same ↦
            let e : wanted k ≡ wanted j = ap wanted ((key_eq_iff k j).0 same) in
            ground (arith, find-put k j r (sorted wanted rows))
        | inr other ↦ ground (arith, find-put k j r (sorted wanted rows))
      ]

  All-put :
      (x k : Key) (r : Row D) (rows : List (Key × Row D))
      → before x k ≡ true
      → All (λ y. before x y.0 ≡ true) rows
      → All (λ y. before x y.0 ≡ true) (put k r rows)
  unfolding put
  All-put x k r [] h a = (h, tt)
  All-put x k r ((j, s) ∷ rows) h (b, a) = ground (arith, All-put x k r rows h a)

  -- Rows of one tenant and one kind.
  abbrev Scoped : Str → Str → List (Key × Row D) → Type 0
  Scoped tenant kind = All (λ x. (x.0.tenant_id ≡ tenant) × (x.0.kind ≡ kind))

  module _ (tenant kind : Str) where
    Scoped-put :
        (k : Key) (r : Row D) (rows : List (Key × Row D))
        → k.tenant_id ≡ tenant
        → k.kind ≡ kind
        → Scoped tenant kind rows
        → Scoped tenant kind (put k r rows)
    unfolding put
    Scoped-put k r [] t g s = ((t, g), tt)
    Scoped-put k r ((j, x) ∷ rows) t g (h, s) = ground (arith, Scoped-put k r rows t g s)

    All-before_trans :
        (k j : Key) (rows : List (Key × Row D))
        → before k j ≡ true
        → All (λ y. before j y.0 ≡ true) rows
        → All (λ y. before k y.0 ≡ true) rows
    All-before_trans k j [] h a = tt
    All-before_trans k j (y ∷ rows) h (b, a) =
        (before_trans k j y.0 h b, All-before_trans k j rows h a)

    Ordered-put :
        (k : Key) (r : Row D) (rows : List (Key × Row D))
        → k.tenant_id ≡ tenant
        → k.kind ≡ kind
        → Scoped tenant kind rows
        → Ordered rows
        → Ordered (put k r rows)
    unfolding put
    Ordered-put k r [] t g s o = (tt, tt)
    Ordered-put k r ((j, x) ∷ rows) t g ((tj, gj), s) (a, o) = elim (Bool-cases (key_eq k j)) [
      | inl same ↦ rw same (rw ((key_eq_iff k j).0 same) (a, o))
      | inr other ↦ elim (Bool-cases (before k j)) [
        | inl first ↦ rw (other, first) ((first, All-before_trans k j rows first a), (a, o))
        | inr second ↦
            rw (other, second)
              (
                All-put j k r rows (before_total k j (t ∙ sym tj) (g ∙ sym gj) other second) a,
                Ordered-put k r rows t g s o,
              )
      ]
    ]

    sorted-Ordered :
        (wanted : Key → Bool) (rows : List (Key × Row D))
        → ((k : Key) → wanted k ≡ true → (k.tenant_id ≡ tenant) × (k.kind ≡ kind))
        → Scoped tenant kind (sorted wanted rows) × Ordered (sorted wanted rows)
    unfolding sorted
    sorted-Ordered wanted [] scope = (tt, tt)
    sorted-Ordered wanted ((k, r) ∷ rows) scope =
        let (s, o) = sorted-Ordered wanted rows scope in
        elim (Bool-cases (wanted k)) [
          | inl hit ↦
              let (t, g) = scope k hit in
              rw hit (
                Scoped-put k r (sorted wanted rows) t g s,
                Ordered-put k r (sorted wanted rows) t g s o,
              )
          | inr miss ↦ rw miss (s, o)
        ]

  -- In an ordered list membership is lookup.
  find-In :
      (k : Key) (r : Row D) (rows : List (Key × Row D)) → find k rows ≡ some r → In (k, r) rows
  unfolding find
  find-In k r [] h = cc
  find-In k r ((j, x) ∷ rows) h = elim (Bool-cases (key_eq j k)) [
    | inl same ↦
        let e = (key_eq_iff j k).0 same in
        let v : x ≡ r = ground arith in inl (λ i. (sym e i, sym v i))
    | inr other ↦ inr (find-In k r rows (ground arith))
  ]

  In-before :
      (j k : Key) (r : Row D) (rows : List (Key × Row D))
      → All (λ y. before j y.0 ≡ true) rows
      → In (k, r) rows
      → before j k ≡ true
  In-before j k r [] a m = absurd m
  In-before j k r (y ∷ rows) (h, a) (inl e) = rw (ap (λ (z : Key × Row D). z.0) e) h
  In-before j k r (y ∷ rows) (h, a) (inr m) = In-before j k r rows a m

  In-find :
      (k : Key) (r : Row D) (rows : List (Key × Row D))
      → Ordered rows
      → In (k, r) rows
      → find k rows ≡ some r
  unfolding find
  In-find k r [] o m = absurd m
  In-find k r ((j, x) ∷ rows) (a, o) (inl e) =
      let same = ap (λ (z : Key × Row D). z.0) e in
      let v = ap (λ (z : Key × Row D). z.1) e in
      rw ((key_eq_iff j k).1 (sym same)) (ap some (sym v))
  In-find k r ((j, x) ∷ rows) (a, o) (inr m) = elim (Bool-cases (key_eq j k)) [
    | inl same ↦
        let e = (key_eq_iff j k).0 same in
        let loop = subst (λ z. before z k ≡ true) e (In-before j k r rows a m) in
        let never = before_irrefl k in cc
    | inr other ↦ rw other (In-find k r rows o m)
  ]

  pub In-sorted :
      (tenant kind : Str) (wanted : Key → Bool) (rows : List (Key × Row D))
      → ((k : Key) → wanted k ≡ true → (k.tenant_id ≡ tenant) × (k.kind ≡ kind))
      → (k : Key) (r : Row D)
      → In (k, r) (sorted wanted rows) ↔ ((find k rows ≡ some r) × (wanted k ≡ true))
  In-sorted tenant kind wanted rows scope k r =
      let o = (sorted-Ordered tenant kind wanted rows scope).1 in
      (
        (λ m.
            let f = In-find k r (sorted wanted rows) o m in
            ground (arith, find-sorted wanted k rows)),
        (λ (f, w). find-In k r (sorted wanted rows) (ground (arith, find-sorted wanted k rows))),
      )

  pub sorted-Ascending :
      (tenant kind : Str) (wanted : Key → Bool) (rows : List (Key × Row D))
      → ((k : Key) → wanted k ≡ true → (k.tenant_id ≡ tenant) × (k.kind ≡ kind))
      → Ascending (sorted wanted rows)
  sorted-Ascending tenant kind wanted rows scope =
      Ordered-Ascending _ (sorted-Ordered tenant kind wanted rows scope).1
