-- ===== src/Store/Listing/Walk.antt =====
-- A client that follows the continue tokens sees the whole listing.
use kestrai.Prelude.{
  ℕ, zero, suc, ◌<◌, ◌≡◌, ◌≢◌, refl, ap, sym, ◌∙◌, subst, false, Option, none, some, List, [], ◌∷◌,
  ◌++◌, append_assoc, Result, ok, err, ◌>>=◌, arith, if◌then◌else◌, length, length-append, All,
  All-middle, filter,
}
use kestrai.Text.{Str, codes, is_empty}
use kestrai.Text.Cut.{Lacks}
use kestrai.Base64.RoundTrip.{IsBytes}
use kestrai.Store.{Key, Record, ListOptions, Error, other}
use kestrai.Store.Engine.{Row, Laws}
use kestrai.Store.Cursor.{Cursor, cursor_less, encode_continue, decode_continue}
use kestrai.Store.Cursor.Position.{cursor_of}
use kestrai.Store.Cursor.Token.{encode_continue-ne-nil, decode_continue-encode_continue}
use kestrai.Store.Operations.{Backend}
use kestrai.Store.Listing.{collect, list, wanted, paginate, project_filter, checked}
use kestrai.Store.Listing.Steps.{list-ok}
use kestrai.Int64.{is_positive}
use kestrai.Store.Listing.Order.{Increasing, filter-behind, listing-Increasing, collect-after}
use kestrai.Store.Listing.Pages.{Paged, whole, cut_after, paginate-Paged}

module _ {Db D : Type 0} (b : Backend Db D) where
  -- Calls `List` with the token of the call before, until a call returns no token.
  unfoldable pub walk : ℕ → Db → ListOptions → Result Error (List (Record D))
  walk zero d opts = err (other (codes "out of fuel"))
  walk (suc f) d opts = do
    (page, token) ← list b d opts
    let rest = walk f d (record opts { continue_token = token })
    if is_empty token then ok page else do later ← rest; ok (page ++ later)

-- The strings of a cursor that a token can carry.
abbrev pub HasToken : {D : Type 0} → Record D → Type 0
HasToken r = IsBytes r.key.project × IsBytes r.key.name × Lacks 0 r.key.project

module _ {Db D : Type 0} (b : Backend Db D) (f : ℕ) (d : Db) (opts : ListOptions) where
  walk_last :
      (page : List (Record D)) → list b d opts ≡ ok (page, []) → walk b (suc f) d opts ≡ ok page
  unfolding walk
  walk_last page e = rw e

  walk_more :
      (page rest : List (Record D)) (token : Str)
      → list b d opts ≡ ok (page, token)
      → is_empty token ≡ false
      → walk b f d (record opts { continue_token = token }) ≡ ok rest
      → walk b (suc f) d opts ≡ ok (page ++ rest)
  unfolding walk
  walk_more page rest token e more later = rw (e, more, later)

HasToken-decodes :
    {D : Type 0} (r : Record D)
    → HasToken r
    → decode_continue (encode_continue (cursor_of r.key)) ≡ ok (some (cursor_of r.key))
HasToken-decodes r (hp, hn, hl) = decode_continue-encode_continue (cursor_of r.key) hp hn hl

is_empty-ne : (s : Str) → s ≢ [] → is_empty s ≡ false
is_empty-ne [] h = absurd (h refl)
is_empty-ne (c ∷ s) h = refl

module _ {Db D : Type 0} (b : Backend Db D) (opts : ListOptions) where
  open b use {sql}

  abbrev paged : ℕ → Str → ListOptions
  paged limit token = record opts { limit = limit; continue_token = token }

  collect-paged :
      (limit : ℕ) (token : Str) (after : Option Cursor) (rows : List (Key × Row D))
      → collect b (paged limit token) after rows ≡ collect b opts after rows
  unfolding collect wanted
  collect-paged limit token after [] = refl
  collect-paged limit token after ((k, row) ∷ rows) = rw (collect-paged limit token after rows)

  module _ (d : Db) (rows : List (Key × Row D))
      (selected : sql.select_rows d opts.tenant_id opts.kind (project_filter opts.project)
        ≡ ok rows)
      (clean : sql.rows_err d ≡ none) (whole_listing : List (Record D))
      (listed : collect b opts none rows ≡ ok whole_listing) (increasing : Increasing whole_listing)
      (tokens : All HasToken whole_listing) where
    list_page :
        (limit : ℕ) (token : Str) (after : Option Cursor) (out : List (Record D))
        → decode_continue token ≡ ok after
        → collect b opts after rows ≡ ok out
        → list b d (paged limit token) ≡ ok (paginate out limit)
    unfolding list checked
    list_page limit token after out decoded collected =
        rw (selected, decoded, collect-paged limit token after rows, collected, clean)

    walk_from :
        (f limit : ℕ) (token : Str) (after : Option Cursor) (pre out : List (Record D))
        → decode_continue token ≡ ok after
        → collect b opts after rows ≡ ok out
        → pre ++ out ≡ whole_listing
        → length out < f
        → walk b f d (paged limit token) ≡ ok out
    walk_from zero limit token after pre out decoded collected suffix enough = absurd (omega arith)
    walk_from (suc f) limit token after pre out decoded collected suffix enough =
        go (paginate out limit).0 (paginate out limit).1 (paginate-Paged out limit)
          (list_page limit token after out decoded collected) (walk_from f limit)
      where
        go :
            (page : List (Record D)) (next : Str)
            → Paged out page next
            → list b d (paged limit token) ≡ ok (page, next)
            → ((token' : Str) (after' : Option Cursor) (pre' out' : List (Record D))
                → decode_continue token' ≡ ok after'
                → collect b opts after' rows ≡ ok out'
                → pre' ++ out' ≡ whole_listing
                → length out' < f
                → walk b f d (paged limit token') ≡ ok out')
            → walk b (suc f) d (paged limit token) ≡ ok out
        go page next (whole p t) e later =
            walk_last b f d (paged limit token) out (e ∙ λ i. ok (p i, t i))
        go page next (cut_after rs l rest split p t) e later =
            let c = cursor_of l.key in
            let token' = encode_continue c in
            let regroup : (pre ++ rs) ++ l ∷ rest ≡ whole_listing =
              append_assoc pre rs (l ∷ rest) ∙ ap (◌++◌ pre) (sym split) ∙ suffix in
            let has_token : HasToken l =
              All-middle HasToken (pre ++ rs) l rest (subst (All HasToken) (sym regroup) tokens) in
            let behind =
              filter-behind l (pre ++ rs) rest (subst Increasing (sym regroup) increasing) in
            let collected' : collect b opts (some c) rows ≡ ok rest =
              collect-after b opts c rows whole_listing listed
              ∙ ap ok (ap (filter (λ r. cursor_less c (cursor_of r.key))) (sym regroup) ∙ behind) in
            let later' =
              later token' (some c) ((pre ++ rs) ++ l ∷ []) rest (HasToken-decodes l has_token)
                collected' (append_assoc (pre ++ rs) (l ∷ []) rest ∙ regroup)
                (omega (arith, ap length split, length-append rs (l ∷ rest))) in
            walk_more b f d (paged limit token) (rs ++ l ∷ []) rest token' (e ∙ λ i. ok (p i, t i))
              (is_empty-ne token' (encode_continue-ne-nil c)) later'
            ∙ ap ok (append_assoc rs (l ∷ []) rest ∙ sym split)

  -- Following the continue tokens from the first page, at any limit, returns exactly the records
  -- that one call without a limit returns, in that order, each once: if the database stays the same,
  -- the strings of the keys are bytes with no NUL in a project, and the client makes one call more
  -- than there are records.
  pub walk_complete :
      (d : Db) (out : List (Record D)) (limit fuel : ℕ)
      → Laws sql
      → list b d (paged 0 []) ≡ ok (out, [])
      → All HasToken out
      → length out < fuel
      → walk b fuel d (paged limit []) ≡ ok out
  unfolding decode_continue paginate is_positive
  walk_complete d out limit fuel laws listed tokens enough =
      let (rows, after, all, selected, decoded, collected, clean, paged_all) =
        list-ok b d (paged 0 []) out [] listed in
      let first : none ≡ after = ground arith in
      let same : all ≡ out = ground arith in
      let whole_collected : collect b opts none rows ≡ ok out =
        sym (collect-paged 0 [] none rows)
        ∙ subst (λ a. collect b (paged 0 []) a rows ≡ ok all) (sym first) collected
        ∙ ap ok same in
      let ascending =
        laws.rows_order d opts.tenant_id opts.kind (project_filter opts.project) rows selected in
      walk_from d rows selected clean out whole_collected
        (listing-Increasing b opts none rows out ascending whole_collected) tokens fuel limit []
        none [] out refl whole_collected refl enough
