-- ===== src/Store/Listing/Pages.antt =====
-- `paginate` splits a listing: a page, its last record, and what the token stands for.
use kestrai.Prelude.{
  ℕ, zero, suc, ◌<◌, ◌≡◌, refl, ap, sym, ◌∙◌, not, ◌||◌, List, [], ◌∷◌, ◌++◌, append_assoc, arith,
  leb, length, take, drop, take-append-drop, inl, inr, Bool-cases,
}
use kestrai.Text.{Str}
use kestrai.Int64.{is_positive}
use kestrai.Store.{Record}
use kestrai.Store.Cursor.{encode_continue}
use kestrai.Store.Cursor.Position.{cursor_of}
use kestrai.Store.Listing.{paginate, page_token, last}

-- All but the last element of `r ∷ rs`.
all_but_last : {A : Type 0} → A → List A → List A
all_but_last r [] = []
all_but_last r (s ∷ rs) = r ∷ all_but_last s rs

snoc_last : {A : Type 0} (r : A) (rs : List A) → r ∷ rs ≡ all_but_last r rs ++ last r rs ∷ []
unfolding all_but_last last
snoc_last r [] = refl
snoc_last r (s ∷ rs) = ap (◌∷◌ r) (snoc_last s rs)

-- A listing that fits the page, or a page up to a record `l` with the token of `l`.
pub data Paged {D : Type 0} (out : List (Record D)) (page : List (Record D)) (token : Str)
    : Type 0 where
  whole : page ≡ out → token ≡ [] → Paged out page token
  cut_after :
      (rs : List (Record D)) (l : Record D) (rest : List (Record D))
      → out ≡ rs ++ l ∷ rest
      → page ≡ rs ++ l ∷ []
      → token ≡ encode_continue (cursor_of l.key)
      → Paged out page token

cut_page :
    {D : Type 0} (n : ℕ) (out : List (Record D))
    → 0 < n
    → n < length out
    → Paged out (take n out) (page_token (take n out))
unfolding page_token
cut_page zero out h k = elim h [ ]
cut_page (suc n) [] h k = elim k [ ]
cut_page {D} (suc n) (r ∷ out) h k =
    let page = take n out in
    cut_after (all_but_last r page) (last r page) (drop n out)
      (ap (◌∷◌ r) (sym (take-append-drop n out))
        ∙ ap (λ (xs : List (Record D)). xs ++ drop n out) (snoc_last r page)
        ∙ append_assoc (all_but_last r page) (last r page ∷ []) (drop n out))
      (snoc_last r page) refl

-- `paginate` returns the whole listing with an empty token, or its first records with the token of
-- the last of them; with a limit of zero or less always the whole listing.
pub paginate-Paged :
    {D : Type 0} (out : List (Record D)) (limit : ℕ)
    → Paged out (paginate out limit).0 (paginate out limit).1
unfolding paginate
paginate-Paged out limit = elim (Bool-cases (not (is_positive limit) || leb (length out) limit)) [
  | inl fits ↦ rw fits (whole refl refl)
  | inr more ↦ rw more (cut_page limit out (unfold is_positive in ground arith) (ground arith))
]
