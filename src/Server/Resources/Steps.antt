-- ===== src/Server/Resources/Steps.antt =====
-- What the shared helpers have done when a handler succeeds, and what a handler leaves when it fails.
use kestrai.Prelude.{◌≡◌, refl, ap, sym, false, Option, some, Result, ok, err, arith}
use kestrai.Text.{Str, is_empty}
use kestrai.Store.{Record, Error}
use kestrai.Api.{ObjectMeta}
use kestrai.Server.Status.{Status, store_err}
use kestrai.Server.Wire.{Wire}
use kestrai.Server.Resources.{require_name, marshal_for_store, after_write, attempt}

pub attempt-ok :
    {S A M : Type 0} (s s' : S) (r : Result Status A) (k : A → S × Result Status M) (x : M)
    → attempt s r k ≡ (s', ok x)
    → (a : A) × (r ≡ ok a) × (k a ≡ (s', ok x))
attempt-ok s s' (ok a) k x e = (a, refl, e)
attempt-ok s s' (err y) k x e = let e1 = ap (λ z. z.1) e in cc

pub attempt-err :
    {S A M : Type 0} (s s' : S) (r : Result Status A) (k : A → S × Result Status M) (y : Status)
    → ((a : A) → r ≡ ok a → k a ≡ (s', err y) → s' ≡ s)
    → attempt s r k ≡ (s', err y)
    → s' ≡ s
attempt-err s s' (ok a) k y h e = h a refl e
attempt-err s s' (err z) k y h e = ap (λ z. z.0) (sym e)

pub after_write-ok :
    {S D M : Type 0} (s' : S) (reply : Record D → M) (w : S × Result Error (Record D)) (x : M)
    → after_write reply w ≡ (s', ok x)
    → (r : Record D) × (w ≡ (s', ok r)) × (x ≡ reply r)
after_write-ok s' reply (s1, ok r) x e = let e1 = ap (λ z. z.1) e in (r, (λ i. ((e i).0, ok r)), cc)
after_write-ok s' reply (s1, err y) x e = let e1 = ap (λ z. z.1) e in cc

pub after_write-err :
    {S D M : Type 0} (s' : S) (reply : Record D → M) (w : S × Result Error (Record D)) (y : Status)
    → after_write reply w ≡ (s', err y)
    → (z : Error) × (w ≡ (s', err z)) × (y ≡ store_err z)
after_write-err s' reply (s1, ok r) y e = let e1 = ap (λ z. z.1) e in cc
after_write-err s' reply (s1, err z) y e =
    let e1 = ap (λ x. x.1) e in (z, (λ i. ((e i).0, err z)), cc)

pub require_name-ok :
    (m : Option ObjectMeta) (meta : ObjectMeta)
    → require_name m ≡ ok meta
    → (m ≡ some meta) × (is_empty meta.name ≡ false)
unfolding require_name
require_name-ok m meta e = ground arith

pub marshal_for_store-ok :
    {D M : Type 0} (wire : Wire D M) (tenant kind : Str) (meta : ObjectMeta) (msg : M)
    (rec : Record D)
    → marshal_for_store wire tenant kind meta msg ≡ ok rec
    → (wire.marshal msg ≡ ok rec.body)
      × (rec.key
          ≡ record { tenant_id = tenant; kind = kind; project = meta.project; name = meta.name })
      × (rec.generation ≡ meta.generation)
      × (rec.labels ≡ meta.labels)
      × (rec.created_at ≡ 0)
unfolding marshal_for_store
marshal_for_store-ok wire tenant kind meta msg rec e = ground arith
