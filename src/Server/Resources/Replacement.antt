-- ===== src/Server/Resources/Replacement.antt =====
-- What an update of a record that succeeds has replaced, and the generation that it gives.
use kestrai.Prelude.{
  ℕ, ◌≡◌, ◌≢◌, refl, ap, Bool-cases, Option-cases, some, ok, err, Result, inl, inr, true,
}
use kestrai.Text.{str_eq, str_eq_iff}
use kestrai.Int64.{add64}
use kestrai.Store.{Key, Record, Error, conflict, not_found}
use kestrai.Store.Contract.{Store, Contract, Changes}
use kestrai.Server.Wire.{ProtoEqual}
use kestrai.Server.Resources.{next_generation}
use kestrai.Server.Resources.Failures.{no_success}

pub next_generation-same :
    {M : Type 0} (eq : ProtoEqual M) (generation : ℕ) (old new : M)
    → old ≡ new
    → next_generation eq generation old new ≡ generation
unfolding next_generation
next_generation-same eq generation old new e = rw ((eq.equal_iff old new).1 e) refl

pub next_generation-changed :
    {M : Type 0} (eq : ProtoEqual M) (generation : ℕ) (old new : M)
    → old ≢ new
    → next_generation eq generation old new ≡ add64 generation 1
unfolding next_generation
next_generation-changed eq generation old new h = elim (Bool-cases (eq.equal old new)) [
  | inl e ↦ absurd (h ((eq.equal_iff old new).0 e))
  | inr e ↦ rw e refl
]

module _ {S D : Type 0} (st : Store S D) (c : Contract st) where
  open c use {view, storable}

  version_is_current :
      (s s' : S) (rec stored old : Record D)
      → view s rec.key ≡ some (ok old)
      → st.update s rec ≡ (s', ok stored)
      → rec.resource_version ≡ old.resource_version
  version_is_current s s' rec stored old held written =
      elim (Bool-cases (str_eq rec.resource_version old.resource_version)) [
        | inl same ↦ (str_eq_iff rec.resource_version old.resource_version).0 same
        | inr differs ↦ absurd (
            no_success (st.update s rec).1 conflict stored
              (c.update_stale s rec old held
                λ e. let same = (str_eq_iff rec.resource_version old.resource_version).1 e in cc)
              (ap (λ (w : S × Result Error (Record D)). w.1) written))
      ]

  -- A record under a key can be read.
  abbrev pub IsReadable : S → Key → Type 0
  IsReadable s k = (x : Error) → view s k ≢ some (err x)

  update_finds :
      (s s' : S) (rec stored : Record D)
      → IsReadable s rec.key
      → st.update s rec ≡ (s', ok stored)
      → (now : Record D) × (view s rec.key ≡ some (ok now))
  update_finds s s' rec stored readable written = elim (Option-cases (view s rec.key)) [
    | inr (ok now, e) ↦ (now, e)
    | inr (err x, e) ↦ absurd (readable x e)
    | inl absent ↦ absurd (
        no_success (st.update s rec).1 not_found stored (c.update_missing s rec absent)
          (ap (λ (w : S × Result Error (Record D)). w.1) written))
  ]

  -- The record `now` that was under the key of `rec`, the record `after` that is there now, which is
  -- `stored` but for the creation time, and what it keeps of `now`.
  pub record Replacement (s s' : S) (rec stored : Record D) : Type 0 where
    pub now : Record D
    pub after : Record D
    pub only : Changes (view s) rec.key (some (ok after)) (view s')
    pub body : after.body ≡ rec.body
    pub after_uid : after.uid ≡ now.uid
    pub after_generation : after.generation ≡ stored.generation
    pub held : view s rec.key ≡ some (ok now)
    pub version : rec.resource_version ≡ now.resource_version
    pub key : stored.key ≡ rec.key
    pub uid : stored.uid ≡ now.uid
    pub generation : stored.generation ≡ rec.generation

  pub update-Replacement :
      (s s' : S) (rec stored : Record D)
      → IsReadable s rec.key
      → storable rec ≡ true
      → st.update s rec ≡ (s', ok stored)
      → Replacement s s' rec stored
  update-Replacement s s' rec stored readable fits written =
      let (now, held) = update_finds s s' rec stored readable written in
      let (_, only) = c.update_effect s s' rec stored now written held fits in
      let (key, uid, generation, _, body) = c.update_result s s' rec stored now written held in
      record {
        now = now;
        after = record stored { created_at = now.created_at };
        only = only;
        body = body;
        after_uid = uid;
        after_generation = refl;
        held = held;
        version = version_is_current s s' rec stored now held written;
        key = key;
        uid = uid;
        generation = generation;
      }
