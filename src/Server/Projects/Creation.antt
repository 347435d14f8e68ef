-- ===== src/Server/Projects/Creation.antt =====
-- What `CreateProject` promises: what it stores, and that a read gives it back.
use kestrai.Prelude.{
  ◌≡◌, ap, sym, subst, ◌∙◌, true, false, Option, some, Result, ok, err, >>=-eq-ok,
  ok_pair-injective, inl, inr, ◌⊎◌,
}
use kestrai.Text.{Str, is_empty}
use kestrai.Store.{Record, key_eq_refl}
use kestrai.Store.Operations.{Ambient}
use kestrai.Store.Contract.{Store, Contract}
use kestrai.Api.{Project, ObjectMeta, get_project_metadata, get_name}
use kestrai.Auth.{Identity}
use kestrai.Server.Status.{Status, status, Code}
use kestrai.Server.Wire.{Wire, WireLaws}
use kestrai.Server.Resources.{
  kind_project, resolve_tenant, require_name, marshal_for_store, overlay_stored_meta,
}
use kestrai.Server.Resources.Steps.{
  attempt-ok, after_write-ok, require_name-ok, marshal_for_store-ok,
}
use kestrai.Server.Projects.{
  create_project, get_project, decode_project, prepare_create, new_project, stamped, project_key,
  created_meta,
}

module _ {S D : Type 0} (st : Store S D) (wire : Wire D Project) where
  -- A creation that succeeded, step by step.
  pub record Created (id : Option Identity) (a : Ambient) (s s' : S) (p : Option Project)
      (x : Project) : Type 0 where
    pub meta : ObjectMeta
    pub rec : Record D
    pub stored : Record D
    pub given : get_project_metadata p ≡ some meta
    pub named : is_empty meta.name ≡ false
    pub encoded : wire.marshal (new_project (created_meta (resolve_tenant id) meta) p) ≡ ok rec.body
    pub key : rec.key ≡ project_key (resolve_tenant id) meta.name
    pub generation : rec.generation ≡ 1
    pub labels : rec.labels ≡ meta.labels
    pub written : st.create a s rec ≡ (s', ok stored)
    pub answer : x ≡ stamped (new_project (created_meta (resolve_tenant id) meta) p) stored

  prepare_create-ok :
      (id : Option Identity) (p : Option Project) (p' : Project) (rec : Record D)
      → prepare_create st wire id p ≡ ok (p', rec)
      → (meta : ObjectMeta) × (require_name (get_project_metadata p) ≡ ok meta)
        × (p' ≡ new_project (created_meta (resolve_tenant id) meta) p)
        × (marshal_for_store wire
              (resolve_tenant id)
              kind_project
              (created_meta (resolve_tenant id) meta)
              (new_project (created_meta (resolve_tenant id) meta) p)
            ≡ ok rec)
  unfolding prepare_create
  prepare_create-ok id p p' rec e =
      let (meta, named, e1) = >>=-eq-ok (require_name (get_project_metadata p)) _ e in
      let meta' = created_meta (resolve_tenant id) meta in
      let (rec', made, e2) =
        >>=-eq-ok
          (marshal_for_store wire (resolve_tenant id) kind_project meta' (new_project meta' p)) _
          e1 in
      let (same, same_rec) = ok_pair-injective (new_project meta' p) p' rec' rec e2 in
      (meta, named, sym same, made ∙ ap ok same_rec)

  pub create_project-ok :
      (id : Option Identity) (a : Ambient) (s s' : S) (p : Option Project) (x : Project)
      → create_project st wire id a s p ≡ (s', ok x)
      → Created id a s s' p x
  unfolding create_project
  create_project-ok id a s s' p x e =
      let ((p', rec), prepared, e1) = attempt-ok s s' (prepare_create st wire id p) _ x e in
      let (meta, named, same, made) = prepare_create-ok id p p' rec prepared in
      let (stored, written, answer) = after_write-ok s' (stamped p') (st.create a s rec) x e1 in
      let (given, nonempty) = require_name-ok (get_project_metadata p) meta named in
      let meta' = created_meta (resolve_tenant id) meta in
      let (encoded, key, generation, labels, _) =
        marshal_for_store-ok wire (resolve_tenant id) kind_project meta' (new_project meta' p) rec
          made in
      record {
        meta = meta;
        rec = rec;
        stored = stored;
        given = given;
        named = nonempty;
        encoded = encoded;
        key = key;
        generation = generation;
        labels = labels;
        written = written;
        answer = answer ∙ ap (λ y. stamped y stored) same;
      }

-- The answer of a read, or the Internal error for a store that cannot answer.
abbrev pub OrUnavailable : {M : Type 0} → Result Status M → Result Status M → Type 0
OrUnavailable r expected = (r ≡ expected) ⊎ ((e : Str) × (r ≡ err (status Code.internal e)))

pub OrUnavailable-eq :
    {M : Type 0} {r x y : Result Status M} → OrUnavailable r x → x ≡ y → OrUnavailable r y
OrUnavailable-eq {r} h e = subst (OrUnavailable r) e h

module _ {S D : Type 0} (st : Store S D) (wire : Wire D Project) (c : Contract st) where
  open c use {view, storable}

  -- `GetProject` decodes what the store holds under its key.
  pub get_project-view :
      (id : Option Identity) (s : S) (name : Str) (r : Record D)
      → is_empty name ≡ false
      → view s (project_key (resolve_tenant id) name) ≡ some (ok r)
      → OrUnavailable (get_project st wire id s name) (decode_project st wire r)
  unfolding get_project
  get_project-view id s name r named held =
      elim (c.get_answer s (project_key (resolve_tenant id) name)) [
        | inl e ↦ inl (rw (named, e, held))
        | inr (text, e) ↦ inr (text, rw (named, e))
      ]

  module _ (laws : WireLaws wire) where
    pub decode_stored :
        (p : Project) (r : Record D)
        → wire.marshal p ≡ ok r.body
        → decode_project st wire r ≡ ok (stamped p r)
    unfolding decode_project
    decode_stored p r encoded = rw (laws.unmarshal_marshal p r.body encoded)

    -- The project that `CreateProject` answers is the one that `GetProject` reads under its name
    -- afterwards, unless the store cannot answer, for a record that can be stored.
    pub get_project-create_project :
        (id : Option Identity) (a : Ambient) (s s' : S) (p : Option Project) (x : Project)
        (e : create_project st wire id a s p ≡ (s', ok x))
        → storable (create_project-ok st wire id a s s' p x e).stored ≡ true
        → OrUnavailable (get_project st wire id s' (get_name x.metadata)) (ok x)
    unfolding overlay_stored_meta
    get_project-create_project id a s s' p x e st_ok =
        let done = create_project-ok st wire id a s s' p x e in
        let meta' = created_meta (resolve_tenant id) done.meta in
        let (_, effect) = c.create_effect a s s' done.rec done.stored done.written st_ok in
        let (key, _, _, _, _, body) = c.create_result a s s' done.rec done.stored done.written in
        let name : get_name x.metadata ≡ done.meta.name =
          ap (λ y. get_name y.metadata) done.answer ∙ ap (λ k. k.name) (key ∙ done.key) in
        let held : view s' (project_key (resolve_tenant id) done.meta.name)
            ≡ some (ok done.stored) =
          subst (λ k. view s' k ≡ some (ok done.stored)) done.key
            (effect done.rec.key ∙ rw key_eq_refl) in
        let decoded =
          decode_stored (new_project meta' p) done.stored (done.encoded ∙ ap ok (sym body)) in
        rw name (
          OrUnavailable-eq (get_project-view id s' done.meta.name done.stored done.named held)
            (decoded ∙ ap ok (sym done.answer)))
