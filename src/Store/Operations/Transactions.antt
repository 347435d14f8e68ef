-- ===== src/Store/Operations/Transactions.antt =====
-- A transaction takes effect as a whole or not at all.
use kestrai.Prelude.{◌≡◌, refl, ap, Result, ok, err, arith}
use kestrai.Store.Engine.{Laws}
use kestrai.Text.{Str}
use kestrai.Store.{Key, Record, Error}
use kestrai.Store.Operations.{
  Backend, Ambient, transact, create, update, delete, create_body, update_body, delete_body, check,
  exec, wrapped,
}

module _ {Db D : Type 0} (b : Backend Db D) where
  open b use {sql}

  pub check-ok :
      {A C : Type 0} (d d' : Db) (r : Result Error A) (next : A → Db × Result Error C) (x : C)
      → check b d r next ≡ (d', ok x)
      → (a : A) × (r ≡ ok a) × (next a ≡ (d', ok x))
  check-ok d d' (ok a) next x e = (a, refl, e)
  check-ok d d' (err y) next x e = let bad = ap (λ z. z.1) e in cc

  pub exec-ok :
      {A : Type 0} (d d' : Db) (text : Str) (r : Result Str Db) (a x : A)
      → exec b d (wrapped text r) a ≡ (d', ok x)
      → (r ≡ ok d') × (x ≡ a)
  exec-ok d d' text (ok d1) a x e = let answer = ap (λ z. z.1) e in (ap (λ z. ok z.0) e, cc)
  exec-ok d d' text (err y) a x e = let bad = ap (λ z. z.1) e in cc

  -- What a committed transaction has done is what its body did.
  pub transact-ok :
      {A : Type 0} (d d' : Db) (body : Db → Db × Result Error A) (a : A)
      → transact b d body ≡ (d', ok a)
      → body d ≡ (d', ok a)
  unfolding transact
  transact-ok d d' body a e = ground arith

module _ {Db D : Type 0} (b : Backend Db D) (laws : Laws b.sql) where
  open b use {sql}

  transact-err :
      {A : Type 0} (d d' : Db) (body : Db → Db × Result Error A) (x : Error)
      → transact b d body ≡ (d', err x)
      → d' ≡ d
  unfolding transact
  transact-err d d' body x e = ground (arith, laws.rollback_restores d (body d).0)

  module _ (d d' : Db) (x : Error) where
    pub create-failed : (a : Ambient) (rec : Record D) → create b a d rec ≡ (d', err x) → d' ≡ d
    unfolding create
    create-failed a rec e = transact-err d d' (create_body b a rec) x e

    pub update-failed : (rec : Record D) → update b d rec ≡ (d', err x) → d' ≡ d
    unfolding update
    update-failed rec e = transact-err d d' (update_body b rec) x e

    pub delete-failed : (key : Key) → delete b d key ≡ (d', err x) → d' ≡ d
    unfolding delete
    delete-failed key e = transact-err d d' (delete_body b key) x e
