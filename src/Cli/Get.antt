-- ===== src/Cli/Get.antt =====
-- internal/cli/get.go: the verb `kestrai get`. The layout of a table by text/tabwriter and colours
-- are not modelled: a table is its header and its rows.
pub mod Tables
use kestrai.Prelude.{
  ℕ, Option, none, some, List, [], ◌∷◌, ◌++◌, map, Result, ok, err, ◌>>=◌, not, if◌then◌else◌, ◌==◌,
}
use kestrai.Text.{Str, codes, is_empty, str_eq}
use kestrai.Store.Contract.{Store}
use kestrai.Api.{Project, Workflow, ListRequest}
use kestrai.Auth.{Identity}
use kestrai.Server.Status.{Status}
use kestrai.Server.Wire.{Wire}
use kestrai.Server.Resources.{kind_project, kind_workflow}
use kestrai.Server.Projects.{get_project, list_projects}
use kestrai.Server.Workflows.{get_workflow, list_workflows}
use kestrai.Cli.Documents.{Formats}
use kestrai.Cli.Codec.{Message, encode_resource}
use kestrai.Cli.Codec.Kinds.{normalize_kind}
use kestrai.Cli.Columns.{project_header, project_row, workflow_header, workflow_row}

-- An error of the API, or one of the CLI.
pub data Failure : Type 0 where
  refused : Status → Failure
  text : Str → Failure

pub data Printed : Type 0 where
  table : List Str → List (List Str) → Printed
  documents : List Str → Printed
  no_resources : Printed

-- What is on the standard output when the verb ends, and its error.
pub record Shown : Type 0 where
  pub printed : Printed
  pub error : Option Failure

abbrev pub shown : Printed → Shown
shown p = record { printed = p; error = none }

abbrev pub failed : Failure → Shown
failed e = record { printed = Printed.documents []; error = some e }

-- `strings.TrimRight(text, "\n")`
unfoldable pub trim_newlines : Str → Str
trim_newlines [] = []
trim_newlines (c ∷ s) =
    let rest = trim_newlines s in
    if is_empty rest then (if c == b'\n' then [] else c ∷ []) else c ∷ rest

module _ {V : Type 0} (f : Formats V Str) where
  -- The text that `encodeAndPrint` prints.
  unfoldable pub encoded : Str → Message → Str → Result Str Str
  encoded kind msg output = do out ← encode_resource f kind msg output; ok (trim_newlines out)

  -- The documents printed before an error stay printed.
  unfoldable pub print_all : Str → Str → List Message → List Str × Option Failure
  print_all kind output [] = ([], none)
  print_all kind output (m ∷ msgs) =
      let later = print_all kind output msgs in
      elim (encoded kind m output) [
        | err e ↦ ([], some (Failure.text e))
        | ok doc ↦ (doc ∷ later.0, later.1)
      ]

  module _ {M : Type 0} (message : M → Message) (row : M → List Str) (header : List Str) where
    -- `renderOne`
    unfoldable pub render_one : Str → M → Str → Shown
    unfolding print_all
    render_one kind msg output =
        let (docs, e) = print_all kind output (message msg ∷ []) in
        if is_empty output
        then shown (Printed.table header (row msg ∷ []))
        else record { printed = Printed.documents docs; error = e }

    -- `renderList`
    unfoldable pub render_list : Str → List M → Str → Shown
    unfolding print_all
    render_list kind msgs output =
        let (docs, e) = print_all kind output (map message msgs) in
        if not (is_empty output)
        then record { printed = Printed.documents docs; error = e }
        else elim msgs [
          | [] ↦ shown Printed.no_resources
          | m ∷ rest ↦ shown (Printed.table header (map row (m ∷ rest)))
        ]

  -- The error of a call, or what is rendered of its response.
  abbrev pub rendered : {A : Type 0} → Result Status A → (A → Shown) → Shown
  rendered (err e) next = failed (Failure.refused e)
  rendered (ok a) next = next a

  -- A request that sets no more than the project.
  abbrev pub list_request : Str → ListRequest
  list_request project = record {
    project = project;
    label_selector = [];
    page_size = 0;
    continue_token = [];
  }

  module _ {S D : Type 0} (st : Store S D) (id : Option Identity) (s : S) (now : ℕ) where
    -- `getProjects`
    unfoldable pub get_projects : Wire D Project → Str → Str → Shown
    get_projects wire output name =
        let one =
          rendered (get_project st wire id s name) λ p.
            render_one Message.project (project_row now) project_header kind_project p output in
        let all = rendered (list_projects st wire id s (list_request [])) λ (items, token).
          render_list Message.project (project_row now) project_header kind_project items output in
        if not (is_empty name) then one else all

    -- `getWorkflows`
    unfoldable pub get_workflows : Wire D Workflow → Str → Str → Str → Shown
    get_workflows wire output name project =
        let one = rendered (get_workflow st wire id s project name) λ w.
          render_one Message.workflow (workflow_row now) workflow_header kind_workflow w output in
        let all = rendered (list_workflows st wire id s (list_request project)) λ (items, token).
          render_list Message.workflow (workflow_row now) workflow_header kind_workflow items
            output in
        if is_empty name
        then all
        else if is_empty project
        then failed (Failure.text (codes "-p/--project is required to get a single workflow"))
        else one

    -- `runGet`
    unfoldable pub run_get : Wire D Project → Wire D Workflow → Str → Str → Str → Str → Shown
    run_get projects workflows output kind name project =
        if str_eq kind kind_project
        then get_projects projects output name
        else if str_eq kind kind_workflow
        then get_workflows workflows output name project
        else failed (Failure.text (codes "unsupported kind " ++ kind))

    abbrev first_or_empty : List Str → Str
    first_or_empty [] = []
    first_or_empty (x ∷ xs) = x

    -- The command: one or two arguments, and the flags.
    unfoldable pub get_command :
        Wire D Project → Wire D Workflow → Str → Str → List Str → Str → Shown
    get_command projects workflows output arg names project = elim (normalize_kind arg) [
      | err e ↦ failed (Failure.text e)
      | ok kind ↦ run_get projects workflows output kind (first_or_empty names) project
    ]
