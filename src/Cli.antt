-- ===== src/Cli.antt =====
-- internal/cli/apply.go: what `kestrai apply` asks of the API for one resource. The calls reach the
-- handlers as they are; the file that is read and the text that is printed are not modelled.
pub mod Documents
pub mod Codec
pub mod Run
pub mod Columns
pub mod Get
pub mod Setup
pub mod Terminal
pub mod Apply
pub mod Choice
use kestrai.Prelude.{
  Bool, true, false, Option, none, some, List, [], Result, ok, err, if◌then◌else◌,
}
use kestrai.Text.{Str, codes}
use kestrai.Store.Operations.{Ambient}
use kestrai.Store.Contract.{Store}
use kestrai.Api.{
  Project, ProjectSpec, Workflow, WorkflowSpec, ObjectMeta, get_name, get_project,
  get_resource_version,
}
use kestrai.Auth.{Identity}
use kestrai.Server.Status.{Status, Code}
use kestrai.Server.Wire.{Wire, ProtoEqual}
use kestrai.Server.Projects.{create_project, update_project}
use kestrai.Server.Projects
use kestrai.Server.Workflows.{create_workflow, get_workflow, update_workflow}

-- `status.Code(err) == codes.NotFound`
abbrev pub is_not_found : Status → Bool
is_not_found e = elim e.code [ Code.not_found ↦ true | _ ↦ false ]

-- The verb that is printed when a write succeeds.
abbrev pub reported : {S M : Type 0} → Str → S × Result Status M → S × Result Status Str
reported verb (s, ok x) = (s, ok verb)
reported verb (s, err e) = (s, err e)

-- `Metadata.ResourceVersion = …`; the documents that are read have a metadata.
abbrev pub with_version : Str → Option ObjectMeta → Option ObjectMeta
with_version version none = none
with_version version (some meta) = some (record meta { resource_version = version })

module _ {S D : Type 0} (st : Store S D) (wire : Wire D Project)
    (eq : ProtoEqual (Option ProjectSpec)) where
  abbrev pub configure_project :
      Option Identity → (S → S) → S → Project → Project → S × Result Status Str
  configure_project id others s p current = reported (codes "configured") (
      update_project st wire eq id others s (
        some (record p {
          metadata = with_version (get_resource_version current.metadata) p.metadata;
        })))

  -- `applyProject`; `between` is what other clients do between the two calls, `others` what they do
  -- within the second.
  unfoldable pub apply_project :
      Option Identity → Ambient → (S → S) → (S → S) → S → Project → S × Result Status Str
  apply_project id a between others s p =
      elim (Projects.get_project st wire id s (get_name p.metadata)) [
        | err e ↦
            let created =
              reported (codes "created") (create_project st wire id a (between s) (some p)) in
            if is_not_found e then created else (s, err e)
        | ok current ↦ configure_project id others (between s) p current
      ]

module _ {S D : Type 0} (st : Store S D) (wire : Wire D Workflow)
    (eq : ProtoEqual (Option WorkflowSpec)) where
  abbrev pub configure_workflow :
      Option Identity → (S → S) → S → Workflow → Workflow → S × Result Status Str
  configure_workflow id others s w current = reported (codes "configured") (
      update_workflow st wire eq id others s (
        some (record w {
          metadata = with_version (get_resource_version current.metadata) w.metadata;
        })))

  -- `applyWorkflow`
  unfoldable pub apply_workflow :
      Option Identity → Ambient → (S → S) → (S → S) → S → Workflow → S × Result Status Str
  apply_workflow id a between others s w =
      elim (get_workflow st wire id s (get_project w.metadata) (get_name w.metadata)) [
        | err e ↦
            let created =
              reported (codes "created")
                (create_workflow st wire id a others (between s) (some w)) in
            if is_not_found e then created else (s, err e)
        | ok current ↦ configure_workflow id others (between s) w current
      ]
