-- ===== src/Store/Contract/Listings.antt =====
-- The order of a listing of the SQLite store, and its continue tokens.
use kestrai.Prelude.{
  ℕ, zero, suc, ◌<◌, ◌≡◌, refl, ◌∙◌, subst, List, [], ok, length, All, arith, ◌>>=◌, ◌++◌,
  if◌then◌else◌,
}
use kestrai.Text.{Str, is_empty}
use kestrai.Int64.{is_positive}
use kestrai.Store.{Record, ListOptions}
use kestrai.Store.Engine.{Laws}
use kestrai.Store.Cursor.{decode_continue}
use kestrai.Store.Operations.{Backend}
use kestrai.Store.Listing.{list, paginate, project_filter}
use kestrai.Store.Listing.Steps.{list-ok}
use kestrai.Store.Listing.Order.{Increasing, listing-Increasing}
use kestrai.Store.Listing.Walk.{HasToken, walk, walk_complete}
use kestrai.Store.Listing.Contents.{all_of}
use kestrai.Store.Contract.{Store, follow}

module _ {Db D : Type 0} (b : Backend Db D) (laws : Laws b.sql) where
  pub list-order :
      (d : Db) (opts : ListOptions) (out : List (Record D)) (token : Str)
      → list b d (all_of opts) ≡ ok (out, token)
      → Increasing out
  unfolding decode_continue paginate is_positive
  list-order d opts out token e =
      let (rows, after, all, selected, decoded, collected, clean, paged) =
        list-ok b d (all_of opts) out token e in
      let same : all ≡ out = ground arith in
      let ascending =
        laws.rows_order d opts.tenant_id opts.kind (project_filter opts.project) rows selected in
      subst Increasing same (listing-Increasing b (all_of opts) after rows all ascending collected)

  follow-walk :
      (st : Store Db D)
      → ((d : Db) (opts : ListOptions) → st.list d opts ≡ list b d opts)
      → (f : ℕ) (d : Db) (opts : ListOptions) → follow st f d opts ≡ walk b f d opts
  unfolding follow walk
  follow-walk st same zero d opts = refl
  follow-walk st same (suc f) d opts = λ i. do
    (page, token) ← same d opts i
    let rest = follow-walk st same f d (record opts { continue_token = token }) i
    if is_empty token then ok page else do later ← rest; ok (page ++ later)

  pub follow_complete :
      (st : Store Db D)
      → ((d : Db) (opts : ListOptions) → st.list d opts ≡ list b d opts)
      → (d : Db) (opts : ListOptions) (out : List (Record D)) (limit fuel : ℕ)
      → list b d (all_of opts) ≡ ok (out, [])
      → All HasToken out
      → length out < fuel
      → follow st fuel d (record opts { limit = limit; continue_token = [] }) ≡ ok out
  follow_complete st same d opts out limit fuel listed tokens enough =
      follow-walk st same fuel d (record opts { limit = limit; continue_token = [] })
      ∙ walk_complete b opts d out limit fuel laws listed tokens enough
