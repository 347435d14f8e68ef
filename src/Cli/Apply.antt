-- ===== src/Cli/Apply.antt =====
-- `kestrai apply` as a whole: the verb and `runApply` of internal/cli/apply.go.
use kestrai.Prelude.{ℕ, Option, ◌++◌, Result, ok, map_err, ◌>>=◌, ◌>>◌, guard, not, if◌then◌else◌}
use kestrai.Text.{Str, codes, str_eq, is_empty}
use kestrai.Store.Contract.{Store}
use kestrai.Api.{Project, ProjectSpec, Workflow, WorkflowSpec}
use kestrai.Auth.{Identity}
use kestrai.Server.Wire.{Wire, ProtoEqual}
use kestrai.Cli.Documents.{Formats}
use kestrai.Cli.Codec.{decode_resources}
use kestrai.Cli.Run.{Turn, Progress, run_apply}

-- `openInput`, with the standard input and the files that can be read.
unfoldable pub open_input : {B : Type 0} → B → (Str → Result Str B) → Str → Result Str B
open_input stdin file filename =
    if str_eq filename (codes "-")
    then ok stdin
    else map_err (λ e. codes "open " ++ filename ++ codes ": " ++ e) (file filename)

module _ {S D : Type 0} (st : Store S D) (projects : Wire D Project) (workflows : Wire D Workflow)
    (same_project : ProtoEqual (Option ProjectSpec))
    (same_workflow : ProtoEqual (Option WorkflowSpec)) (id : Option Identity) where
  -- The verb; `connected` is the outcome of the connection. An error comes before any resource is
  -- applied.
  unfoldable pub apply_command :
      {V B : Type 0}
      → Formats V B
      → B
      → (Str → Result Str B)
      → Result Str (Unit {0})
      → (ℕ → Turn S)
      → S
      → Str
      → Result Str (Progress S)
  apply_command f stdin file connected turns s filename = do
    guard (not (is_empty filename)) (codes "the -f/--file flag is required")
    input ← open_input stdin file filename
    resources ← decode_resources f input
    u ← connected
    ok (run_apply st projects workflows same_project same_workflow id turns 0 s resources)
