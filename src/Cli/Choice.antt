-- ===== src/Cli/Choice.antt =====
-- Whether `kestrai apply` creates a project or configures it.
use kestrai.Prelude.{
  sym, Result-cases, map_err, ◌++◌, ◌>>=◌, ◌≡◌, ap, ◌∙◌, false, Option, none, some, Result, ok, err,
  if◌then◌else◌, ◌⊎◌, inl, inr,
}
use kestrai.Text.{Str, codes, is_empty}
use kestrai.Store.{Record, Error}
use kestrai.Store.Operations.{Ambient}
use kestrai.Store.Contract.{Store, Contract}
use kestrai.Api.{Project, ProjectSpec, ObjectMeta, get_name, get_resource_version}
use kestrai.Auth.{Identity}
use kestrai.Server.Status.{Status, status, Code, store_err}
use kestrai.Server.Wire.{Wire, ProtoEqual}
use kestrai.Server.Resources.{resolve_tenant, overlay_stored_meta, or_empty}
use kestrai.Server.Projects.{
  get_project, create_project, update_project, decode_project, project_key,
}
use kestrai.Server.Projects.Creation.{OrUnavailable, get_project-view}
use kestrai.Cli.{apply_project, configure_project, reported, is_not_found, with_version}

-- An outcome, or an Internal error that leaves the store as it was.
abbrev pub OrUnreachable : {S M : Type 0} → S → S × Result Status M → S × Result Status M → Type 0
OrUnreachable s out expected =
    (out ≡ expected) ⊎ ((e : Str) × (out ≡ (s, err (status Code.internal e))))

ok_same : {E A : Type 0} {a b : A} → ◌≡◌ {A = Result E A} (ok a) (ok b) → a ≡ b
ok_same e = cc

module _ {S D : Type 0} (st : Store S D) (wire : Wire D Project)
    (eq : ProtoEqual (Option ProjectSpec)) (c : Contract st) where
  open c use {view}

  found_step :
      (id : Option Identity) (a : Ambient) (between others : S → S) (s : S) (p : Project)
      (r : Result Status Project)
      → get_project st wire id s (get_name p.metadata) ≡ r
      → apply_project st wire eq id a between others s p ≡ elim r [
        | err e ↦
            if is_not_found e
            then reported (codes "created") (create_project st wire id a (between s) (some p))
            else (s, err e)
        | ok current ↦ configure_project st wire eq id others (between s) p current
      ]
  unfolding apply_project
  found_step id a between others s p r e =
      ap
        (λ (r : Result Status Project). elim r [
          | err e ↦
              if is_not_found e
              then reported (codes "created") (create_project st wire id a (between s) (some p))
              else (s, err e)
          | ok current ↦ configure_project st wire eq id others (between s) p current
        ])
        e

  get_project-absent :
      (id : Option Identity) (s : S) (name : Str)
      → is_empty name ≡ false
      → view s (project_key (resolve_tenant id) name) ≡ none
      → OrUnavailable (get_project st wire id s name) (err (store_err Error.not_found))
  unfolding get_project
  get_project-absent id s name named absent =
      elim (c.get_answer s (project_key (resolve_tenant id) name)) [
        | inl e ↦ inl (rw (named, e, absent))
        | inr (text, e) ↦ inr (text, rw (named, e))
      ]

  -- A project that was decoded has the version of its record.
  decoded_version :
      (old : Record D) (cur : Project)
      → decode_project st wire old ≡ ok cur
      → get_resource_version cur.metadata ≡ old.resource_version
  unfolding decode_project overlay_stored_meta
  decoded_version old cur decoded = elim (Result-cases (wire.unmarshal old.body)) [
    | inl (q, e) ↦
        let same = ok_same (sym (decode_step old (ok q) e) ∙ decoded) in
        sym (ap (λ (y : Project). get_resource_version y.metadata) same)
    | inr (t, e) ↦ let bad = sym (decode_step old (err t) e) ∙ decoded in cc
  ]
    where
      decode_step :
          (old : Record D) (r : Result Str Project)
          → wire.unmarshal old.body ≡ r
          → decode_project st wire old ≡ (do
            p ← map_err (λ e. status Code.internal (codes "unmarshal Project: " ++ e)) r
            ok (record p { metadata = some (overlay_stored_meta (or_empty p.metadata) old) }))
      decode_step old r e i = do
        p ← map_err (λ e. status Code.internal (codes "unmarshal Project: " ++ e)) (e i)
        ok (record p { metadata = some (overlay_stored_meta (or_empty p.metadata) old) })

  configure_step :
      (id : Option Identity) (others : S → S) (s : S) (p cur : Project) (meta : ObjectMeta)
      (version : Str)
      → p.metadata ≡ some meta
      → get_resource_version cur.metadata ≡ version
      → configure_project st wire eq id others s p cur
        ≡ reported (codes "configured") (
            update_project st wire eq id others s
              (some (record p { metadata = some (record meta { resource_version = version }) })))
  configure_step id others s p cur meta version given e i = reported (codes "configured") (
      update_project st wire eq id others s
        (some (record p { metadata = with_version (e i) (given i) })))

  -- `apply` calls CreateProject with a project whose name is not in the store, and UpdateProject with
  -- one that is there, in which the version is replaced by the stored one; unless the store cannot
  -- answer, which is an Internal error and changes nothing. The look-up is in the store as it was
  -- before other clients came between the two calls, the write in the store that they left.
  pub apply_project_chooses :
      (id : Option Identity) (a : Ambient) (between others : S → S) (s : S) (p : Project)
      (meta : ObjectMeta)
      → p.metadata ≡ some meta
      → is_empty meta.name ≡ false
      → let k = project_key (resolve_tenant id) meta.name in
        (view s k ≡ none
          → OrUnreachable s
              (apply_project st wire eq id a between others s p)
              (reported (codes "created") (create_project st wire id a (between s) (some p))))
        × ((old : Record D) (cur : Project)
            → view s k ≡ some (ok old)
            → decode_project st wire old ≡ ok cur
            → OrUnreachable s (apply_project st wire eq id a between others s p) (
                reported (codes "configured") (
                  update_project st wire eq id others (between s) (
                    some (record p {
                      metadata = some (record meta { resource_version = old.resource_version });
                    })))))
  apply_project_chooses id a between others s p meta given named =
      let name = meta.name in
      let at : get_project st wire id s (get_name p.metadata) ≡ get_project st wire id s name =
        ap (λ m. get_project st wire id s (get_name m)) given in
      (
        (λ absent. elim (get_project-absent id s name named absent) [
          | inl e ↦
              inl (found_step id a between others s p (err (store_err Error.not_found)) (at ∙ e))
          | inr (text, e) ↦
              inr (
                text,
                found_step id a between others s p (err (status Code.internal text)) (at ∙ e),
              )
        ]),
        (λ old cur held decoded. elim (get_project-view st wire c id s name old named held) [
          | inl e ↦ inl (
              found_step id a between others s p (ok cur) (at ∙ e ∙ decoded)
              ∙ configure_step id others (between s) p cur meta old.resource_version given
                  (decoded_version old cur decoded))
          | inr (text, e) ↦
              inr (
                text,
                found_step id a between others s p (err (status Code.internal text)) (at ∙ e),
              )
        ]),
      )
