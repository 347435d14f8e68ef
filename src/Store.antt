-- ===== src/Store.antt =====
-- internal/store/store.go: keys, records, list options and the sentinel errors of the state store.
-- The body of a record is opaque to the store: it is the parameter `D`. A Go map is its association
-- list in ascending key order; a `time.Time` is a number of nanoseconds, zero the zero time.
pub mod Engine
pub mod Columns
pub mod Uid
pub mod Cursor
pub mod Operations
pub mod Listing
pub mod Memory
pub mod Migrations
pub mod Opening
pub mod Contract
use kestrai.Prelude.{
  ℕ, ◌≡◌, refl, ap, ◌↔◌, Bool, true, false, ◌&&◌, List, [], ◌∷◌, arith, if◌then◌else◌,
}
use kestrai.Text.{Str, str_eq, str_eq_iff}

abbrev pub Labels : Type 0
Labels = List (Str × Str)

-- `labels[k]`: a missing key reads as the empty string.
unfoldable pub label_of : Labels → Str → Str
label_of [] k = []
label_of ((j, v) ∷ labels) k = if str_eq j k then v else label_of labels k

pub record Key : Type 0 where
  pub tenant_id : Str
  pub kind : Str
  pub project : Str
  pub name : Str

-- `tenant_id=? AND kind=? AND project=? AND name=?`
unfoldable pub key_eq : Key → Key → Bool
key_eq k j =
    str_eq k.tenant_id j.tenant_id
    && str_eq k.kind j.kind
    && str_eq k.project j.project
    && str_eq k.name j.name

pub key_eq_iff : (k j : Key) → (key_eq k j ≡ true) ↔ (k ≡ j)
unfolding key_eq
key_eq_iff k j = (
  (λ h. ground (
    arith,
    str_eq_iff k.tenant_id j.tenant_id,
    str_eq_iff k.kind j.kind,
    str_eq_iff k.project j.project,
    str_eq_iff k.name j.name,
  )),
  (λ e. ground (
    arith,
    str_eq_iff k.tenant_id j.tenant_id,
    str_eq_iff k.kind j.kind,
    str_eq_iff k.project j.project,
    str_eq_iff k.name j.name,
    ap (λ (x : Key). x.tenant_id) e,
    ap (λ (x : Key). x.kind) e,
    ap (λ (x : Key). x.project) e,
    ap (λ (x : Key). x.name) e,
  )),
)

pub key_eq_refl : (k : Key) → key_eq k k ≡ true
key_eq_refl k = (key_eq_iff k k).1 refl

pub record Record (D : Type 0) : Type 0 where
  pub key : Key
  pub uid : Str
  pub resource_version : Str
  pub generation : ℕ
  pub labels : Labels
  pub created_at : ℕ
  pub body : D

-- `limit` is the bit pattern of an `int`.
pub record ListOptions : Type 0 where
  pub tenant_id : Str
  pub kind : Str
  pub project : Str
  pub label_selector : Labels
  pub limit : ℕ
  pub continue_token : Str

-- The sentinel errors, and any other error by its text.
pub data Error : Type 0 where
  not_found already_exists conflict : Error
  other : Str → Error
