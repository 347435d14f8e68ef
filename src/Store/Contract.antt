-- ===== src/Store/Contract.antt =====
-- The `Store` interface of internal/store/store.go, and what it promises to its clients. A client
-- sees a store `S` through these operations; `view` is what the store holds under each key, a record
-- or the error that decoding its row gives.
pub mod View
pub mod Refusals
pub mod Listings
pub mod Effects
pub mod Refinement
use kestrai.Prelude.{
  ℕ, ◌≡◌, ◌≢◌, ◌↔◌, Bool, true, Option, none, some, List, Result, ok, err, In, if◌then◌else◌, zero,
  suc, ◌<◌, [], ◌++◌, ◌>>=◌, All, length,
}
use kestrai.Text.{Str, codes, is_empty}
use kestrai.Int64.{format_int}
use kestrai.Store.{
  Key, Record, ListOptions, Error, not_found, already_exists, conflict, key_eq, other,
}
use kestrai.Store.Engine.{selects}
use kestrai.Store.Uid.{new_uid}
use kestrai.Store.Operations.{Ambient}
use kestrai.Store.Operations.Reading.{OrFails}
use kestrai.Store.Listing.{matches_labels, project_filter}
use kestrai.Store.Listing.Contents.{all_of}
use kestrai.Store.Listing.Order.{Increasing}
use kestrai.Store.Listing.Walk.{HasToken}

pub record Store (S D : Type 0) : Type 0 where
  pub create : Ambient → S → Record D → S × Result Error (Record D)
  pub get : S → Key → Result Error (Record D)
  pub list : S → ListOptions → Result Error (List (Record D) × Str)
  pub update : S → Record D → S × Result Error (Record D)
  pub delete : S → Key → S × Result Error (Record D)

abbrev pub View : Type 0 → Type 0
View D = Key → Option (Result Error (Record D))

abbrev pub answer : {D : Type 0} → Option (Result Error (Record D)) → Result Error (Record D)
answer none = err not_found
answer (some r) = r

-- A view with one key changed.
abbrev pub Changes :
    {D : Type 0} → View D → Key → Option (Result Error (Record D)) → View D → Type 0
Changes v k x v' = (j : Key) → v' j ≡ (if key_eq k j then x else v j)

-- Calls `List` with the token of the call before, until a call returns no token.
pub follow : {S D : Type 0} → Store S D → ℕ → S → ListOptions → Result Error (List (Record D))
follow st zero s opts = err (other (codes "out of fuel"))
follow st (suc f) s opts = do
  (page, token) ← st.list s opts
  let rest = follow st f s (record opts { continue_token = token })
  if is_empty token then ok page else do later ← rest; ok (page ++ later)

-- An answer that is not what the store holds is a failure of what is under the store; at a key that
-- `answers` there is none before the write.
pub record Contract {S D : Type 0} (st : Store S D) : Type 0 where
  pub view : S → View D
  -- Records that can be stored and read back.
  pub storable : Record D → Bool
  pub view_key : (s : S) (k : Key) (r : Record D) → view s k ≡ some (ok r) → r.key ≡ k
  -- What is under the store begins a transaction and reads the key.
  pub answers : S → Key → Bool
  pub get_answers : (s : S) (k : Key) → answers s k ≡ true → st.get s k ≡ answer (view s k)
  pub create_exists :
      (a : Ambient) (s : S) (rec : Record D) (x : Result Error (Record D))
      → answers s rec.key ≡ true
      → view s rec.key ≡ some x
      → st.create a s rec ≡ (s, err already_exists)
  pub update_conflicts :
      (s : S) (rec old : Record D)
      → answers s rec.key ≡ true
      → view s rec.key ≡ some (ok old)
      → rec.resource_version ≢ old.resource_version
      → st.update s rec ≡ (s, err conflict)
  pub update_absent :
      (s : S) (rec : Record D)
      → answers s rec.key ≡ true
      → view s rec.key ≡ none
      → st.update s rec ≡ (s, err not_found)
  pub delete_absent :
      (s : S) (k : Key) → answers s k ≡ true → view s k ≡ none → st.delete s k ≡ (s, err not_found)
  pub get_answer : (s : S) (k : Key) → OrFails (st.get s k) (answer (view s k))
  pub create_failed :
      (a : Ambient) (s s' : S) (rec : Record D) (x : Error)
      → st.create a s rec ≡ (s', err x)
      → s' ≡ s
  pub update_failed :
      (s s' : S) (rec : Record D) (x : Error) → st.update s rec ≡ (s', err x) → s' ≡ s
  pub delete_failed : (s s' : S) (k : Key) (x : Error) → st.delete s k ≡ (s', err x) → s' ≡ s
  pub create_effect :
      (a : Ambient) (s s' : S) (rec r : Record D)
      → st.create a s rec ≡ (s', ok r)
      → storable r ≡ true
      → (view s rec.key ≡ none) × Changes (view s) rec.key (some (ok r)) (view s')
  pub create_result :
      (a : Ambient) (s s' : S) (rec r : Record D)
      → st.create a s rec ≡ (s', ok r)
      → (r.key ≡ rec.key)
        × (r.uid ≡ new_uid a.entropy)
        × (r.resource_version ≡ format_int 1)
        × (r.generation ≡ rec.generation)
        × (r.labels ≡ rec.labels)
        × (r.body ≡ rec.body)
  pub update_effect :
      (s s' : S) (rec r old : Record D)
      → st.update s rec ≡ (s', ok r)
      → view s rec.key ≡ some (ok old)
      → storable rec ≡ true
      → (rec.resource_version ≡ old.resource_version)
        × Changes (view s) rec.key (some (ok (record r { created_at = old.created_at }))) (view s')
  pub update_result :
      (s s' : S) (rec r old : Record D)
      → st.update s rec ≡ (s', ok r)
      → view s rec.key ≡ some (ok old)
      → (r.key ≡ rec.key)
        × (r.uid ≡ old.uid)
        × (r.generation ≡ rec.generation)
        × (r.labels ≡ rec.labels)
        × (r.body ≡ rec.body)
  pub update_stale :
      (s : S) (rec old : Record D)
      → view s rec.key ≡ some (ok old)
      → rec.resource_version ≢ old.resource_version
      → OrFails (st.update s rec).1 (err conflict)
  pub update_missing :
      (s : S) (rec : Record D) → view s rec.key ≡ none → OrFails (st.update s rec).1 (err not_found)
  pub delete_effect :
      (s s' : S) (k : Key) (r : Record D)
      → st.delete s k ≡ (s', ok r)
      → (view s k ≡ some (ok r)) × Changes (view s) k none (view s')
  pub list_answer :
      (s : S) (opts : ListOptions) (out : List (Record D)) (token : Str) (r : Record D)
      → st.list s (all_of opts) ≡ ok (out, token)
      → In r out ↔ (
          (k : Key) × (view s k ≡ some (ok r))
          × (selects opts.tenant_id opts.kind (project_filter opts.project) k ≡ true)
          × (matches_labels r.labels opts.label_selector ≡ true))
  -- By (project, name)
  pub list_order :
      (s : S) (opts : ListOptions) (out : List (Record D)) (token : Str)
      → st.list s (all_of opts) ≡ ok (out, token)
      → Increasing out
  pub list_pages :
      (s : S) (opts : ListOptions) (out : List (Record D)) (limit fuel : ℕ)
      → st.list s (all_of opts) ≡ ok (out, [])
      → All HasToken out
      → length out < fuel
      → follow st fuel s (record opts { limit = limit; continue_token = [] }) ≡ ok out
