-- ===== src/Cli/Run.antt =====
-- internal/cli/apply.go: `applyResource` and the loop of `runApply`, over all resources of a file.
pub mod Stopping
pub mod Types
use kestrai.Prelude.{
  ℕ, suc, ◌≡◌, refl, ap, sym, ◌∙◌, Bool, true, false, Option, none, some, List, [], ◌∷◌, ◌++◌,
  Result, ok, err, if◌then◌else◌, All, Bool-cases, Result-cases, Option-cases, inl, inr, ◌⊎◌, arith,
  length,
}
use kestrai.Text.{Str, codes, str_eq}
use kestrai.Store.Operations.{Ambient}
use kestrai.Store.Contract.{Store}
use kestrai.Api.{Project, ProjectSpec, Workflow, WorkflowSpec}
use kestrai.Auth.{Identity}
use kestrai.Server.Status.{Status}
use kestrai.Server.Wire.{Wire, ProtoEqual}
use kestrai.Server.Resources.{kind_project, kind_workflow}
use kestrai.Cli.{apply_project, apply_workflow}
use kestrai.Cli.Codec.{Message, Resource}
use kestrai.Cli.Codec.Kinds.{to_lower}

-- How applying a resource fails: by a status of the API, by a kind that the switch does not know, or
-- by the panic of a type assertion on a message of another type.
pub data Failure : Type 0 where
  refused : Status → Failure
  unsupported : Str → Failure
  panic : Failure

-- The clock and the random source of the server during a turn, and what other clients do in it.
pub record Turn (S : Type 0) : Type 0 where
  pub ambient : Ambient
  pub between : S → S
  pub others : S → S

-- Where the loop ends: the lines that it printed, and the resource at which it stopped, if it did.
pub record Progress (S : Type 0) : Type 0 where
  pub store : S
  pub lines : List Str
  pub stopped : Option (Resource × Failure)

abbrev pub refused_by : {S : Type 0} → S × Result Status Str → S × Result Failure Str
refused_by (s, ok verb) = (s, ok verb)
refused_by (s, err e) = (s, err (Failure.refused e))

-- `statusf("%s/%s %s", lower(res.Kind), res.Name, verb)`
unfoldable pub status_line : Resource → Str → Str
status_line res verb = to_lower res.kind ++ codes "/" ++ res.name ++ codes " " ++ verb

module _ {S D : Type 0} (st : Store S D) (projects : Wire D Project) (workflows : Wire D Workflow)
    (same_project : ProtoEqual (Option ProjectSpec))
    (same_workflow : ProtoEqual (Option WorkflowSpec)) (id : Option Identity) where
  -- `applyProject(ctx, c, res.Message.(*apiv1.Project))`
  unfoldable pub apply_as_project : Turn S → S → Message → S × Result Failure Str
  apply_as_project t s (Message.project p) =
      refused_by (apply_project st projects same_project id t.ambient t.between t.others s p)
  apply_as_project t s (Message.workflow w) = (s, err Failure.panic)

  unfoldable pub apply_as_workflow : Turn S → S → Message → S × Result Failure Str
  apply_as_workflow t s (Message.project p) = (s, err Failure.panic)
  apply_as_workflow t s (Message.workflow w) =
      refused_by (apply_workflow st workflows same_workflow id t.ambient t.between t.others s w)

  -- `applyResource`
  unfoldable pub apply_resource : Turn S → S → Resource → S × Result Failure Str
  unfolding apply_as_project apply_as_workflow
  apply_resource t s res =
      if str_eq res.kind kind_project
      then apply_as_project t s res.message
      else if str_eq res.kind kind_workflow
      then apply_as_workflow t s res.message
      else (s, err (Failure.unsupported res.kind))

  -- A turn that failed ends the loop, another goes on with what it left.
  abbrev pub resume : Resource → S × Result Failure Str → (S → Progress S) → Progress S
  resume res (s, err e) next = record { store = s; lines = []; stopped = some (res, e) }
  resume res (s, ok verb) next =
      let later = next s in record later { lines = status_line res verb ∷ later.lines }

  -- The loop of `runApply`; `turns` has the turn of each resource by its index from `i`.
  unfoldable pub run_apply : (ℕ → Turn S) → ℕ → S → List Resource → Progress S
  run_apply turns i s [] = record { store = s; lines = []; stopped = none }
  run_apply turns i s (res ∷ resources) =
      resume res (apply_resource (turns i) s res) λ s'. run_apply turns (suc i) s' resources
