-- ===== src/Cli/Run/Types.antt =====
-- `kestrai apply` of an input that was decoded: no type assertion panics, and no kind is unknown.
use kestrai.Prelude.{
  ℕ, suc, ◌≡◌, refl, ap, subst, ◌∙◌, Option, some, List, [], ◌∷◌, Result, ok, err, All,
}
use kestrai.Text.{Str, str_eq}
use kestrai.Store.Contract.{Store}
use kestrai.Api.{Project, ProjectSpec, Workflow, WorkflowSpec}
use kestrai.Auth.{Identity}
use kestrai.Server.Status.{Status}
use kestrai.Server.Wire.{Wire, ProtoEqual}
use kestrai.Cli.{apply_project, apply_workflow}
use kestrai.Cli.Documents.{Formats}
use kestrai.Cli.Codec.{Message, Resource, decode_resources}
use kestrai.Cli.Codec.RoundTrip.{kind_of}
use kestrai.Cli.Codec.Typing.{IsTyped, decode_resources-IsTyped}
use kestrai.Cli.Run.{
  Failure, Turn, Progress, apply_resource, apply_as_project, apply_as_workflow, refused_by,
  run_apply, resume,
}

abbrev pub IsRefusal : Failure → Type 0
IsRefusal x = (e : Status) × (x ≡ Failure.refused e)

refused_by-err :
    {S : Type 0} (out : S × Result Status Str) (s : S) (x : Failure)
    → refused_by out ≡ (s, err x)
    → IsRefusal x
refused_by-err (s', ok verb) s x e = absurd cc
refused_by-err (s', err y) s x e = (y, cc)

module _ {S D : Type 0} (st : Store S D) (projects : Wire D Project) (workflows : Wire D Workflow)
    (same_project : ProtoEqual (Option ProjectSpec))
    (same_workflow : ProtoEqual (Option WorkflowSpec)) (id : Option Identity) where
  abbrev turn : Turn S → S → Resource → S × Result Failure Str
  turn = apply_resource st projects workflows same_project same_workflow id

  abbrev typed : Str → Str → Message → Str → Resource
  typed project name m kind = record { kind = kind; project = project; name = name; message = m }

  kind_of-IsRefusal :
      (t : Turn S) (s s' : S) (project name : Str) (m : Message) (x : Failure)
      → turn t s (typed project name m (kind_of m)) ≡ (s', err x)
      → IsRefusal x
  unfolding apply_resource apply_as_project apply_as_workflow str_eq
  kind_of-IsRefusal t s s' project name (Message.project p) x h =
      refused_by-err (apply_project st projects same_project id t.ambient t.between t.others s p) s'
        x h
  kind_of-IsRefusal t s s' project name (Message.workflow w) x h =
      refused_by-err (apply_workflow st workflows same_workflow id t.ambient t.between t.others s w)
        s' x h

  message-IsRefusal :
      (t : Turn S) (s s' : S) (res : Resource) (x : Failure)
      → kind_of res.message ≡ res.kind
      → turn t s res ≡ (s', err x)
      → IsRefusal x
  message-IsRefusal t s s' res x e h =
      kind_of-IsRefusal t s s' res.project res.name res.message x
        (ap (λ k. turn t s (typed res.project res.name res.message k)) e ∙ h)

  abbrev loop : (ℕ → Turn S) → ℕ → S → List Resource → Progress S
  loop = run_apply st projects workflows same_project same_workflow id

  loop-IsRefusal :
      (turns : ℕ → Turn S) (i : ℕ) (s : S) (resources : List Resource) (res : Resource)
      (x : Failure)
      → All IsTyped resources
      → (loop turns i s resources).stopped ≡ some (res, x)
      → IsRefusal x
  unfolding run_apply
  loop-IsRefusal turns i s [] res x rest h = absurd cc
  loop-IsRefusal turns i s (r ∷ resources) res x (t, rest) h =
      resumed (turn (turns i) s r) refl (λ s'. loop-IsRefusal turns (suc i) s' resources res x rest)
        h
    where
      resumed :
          (out : S × Result Failure Str)
          → turn (turns i) s r ≡ out
          → ((s' : S) → (loop turns (suc i) s' resources).stopped ≡ some (res, x) → IsRefusal x)
          → (resume st projects workflows same_project same_workflow id r out
              λ s'. loop turns (suc i) s' resources).stopped
            ≡ some (res, x)
          → IsRefusal x
      resumed (s', ok verb) e later h = later s' h
      resumed (s', err y) e later h =
          let same : y ≡ x = cc in subst IsRefusal same (message-IsRefusal (turns i) s s' r y t.0 e)

  -- Applying resources that were decoded stops, if at all, because the API refused one: no type
  -- assertion panics, and every kind is known.
  pub decoded_IsRefusal :
      {V B : Type 0} (f : Formats V B) (input : B) (resources : List Resource) (turns : ℕ → Turn S)
      (s : S) (res : Resource) (x : Failure)
      → decode_resources f input ≡ ok resources
      → (run_apply st projects workflows same_project same_workflow id turns 0 s resources).stopped
        ≡ some (res, x)
      → IsRefusal x
  decoded_IsRefusal f input resources turns s res x decoded h =
      let (_, sound) = decode_resources-IsTyped f input resources decoded in
      loop-IsRefusal turns 0 s resources res x sound h
