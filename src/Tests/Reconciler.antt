-- ===== src/Tests/Reconciler.antt =====
-- Witnesses on the reconciler.
use kestrai.Prelude.{◌≡◌, ◌↔◌, ◌⊎◌, ◌∙◌, refl, none, some, true, false, [], ◌∷◌, Option, inr}
use kestrai.Text.{codes, str_eq}
use kestrai.Int64.{format_int, is_positive}
use kestrai.Auth.{default_tenant}
use kestrai.Store.{Record, Key, Error, key_eq}
use kestrai.Store.Engine.{Row}
use kestrai.Store.Operations.{scan_record}
use kestrai.Store.Memory.{Memory, find}
use kestrai.Store.Memory.Lawful.{memory_laws}
use kestrai.Store.Memory.Texts.{plain_columns, plain_laws}
use kestrai.Store.Contract.{Store, Contract}
use kestrai.Store.Contract.View.{decoded}
use kestrai.Store.Contract.Refinement.{sqlite_store, sqlite_store-Contract}
use kestrai.Api.{Workflow, WorkflowSpec, WorkflowPhase}
use kestrai.Reconciler.{Clock, compute_workflow_status, reconcile_workflow}
use kestrai.Reconciler.Validation.{IsRunnable}
use kestrai.Reconciler.Convergence.{
  compute_workflow_status_idempotent, compute_workflow_status-IsRunnable, holds_in,
}
use kestrai.Reconciler.Writes.{Settled, reconcile_workflow-Settled}
use kestrai.Reconciler.{Settings, new_reconciler}
use kestrai.Reconciler.Loop.{Signal, Phase, run, leave}
use kestrai.Reconciler.Staleness.{LeavesAlone, reconcile_workflow_outdated}
use kestrai.Reconciler.Steady.{IsSteady, run_settles}
use kestrai.Reconciler.{reconcile_all}
use kestrai.Store.Cursor.{decode_continue}
use kestrai.Store.Listing.{list, collect, paginate, wanted, matches_labels}
use kestrai.Store.Memory.{memory, sorted, put}
use kestrai.Tests.Writes.{memory_Reliable}
use kestrai.Tests.Fixtures.{backend}
use kestrai.Tests.Messages.{plain_wire, plain_wire_laws, status_equal}

abbrev pub morning : Clock
morning = record { validated_at = 10; ready_at = 11 }

abbrev evening : Clock
evening = record { validated_at = 20; ready_at = 21 }

abbrev build : WorkflowPhase
build = record { name = codes "build"; agents = []; approval = 0; parallelism = 1; gating = false }

abbrev pub build_spec : Option WorkflowSpec
build_spec = some (record { goal = codes "ship it"; constraints = none; pipeline = build ∷ [] })

abbrev workflow : Workflow
workflow = record { metadata = none; spec = build_spec; status = none }

abbrev workflow_key : Key
workflow_key = record {
  tenant_id = default_tenant;
  kind = codes "Workflow";
  project = codes "shop";
  name = codes "release";
}

abbrev workflow_row : Row Workflow
workflow_row = record {
  uid = codes "u";
  resource_version = 1;
  generation = 1;
  labels = [];
  created_at = 1 ∷ [];
  body = workflow;
}

abbrev workflow_record : Record Workflow
workflow_record = record {
  key = workflow_key;
  uid = codes "u";
  resource_version = codes "1";
  generation = 1;
  labels = [];
  created_at = 1;
  body = workflow;
}

abbrev database : Memory Workflow
database = record { table = (workflow_key, workflow_row) ∷ []; tenants = default_tenant ∷ [] }

abbrev store : Store (Memory Workflow) Workflow
store = sqlite_store backend

abbrev contract : Contract store
contract = (sqlite_store-Contract backend memory_laws plain_laws).0

abbrev after_pass : Memory Workflow × Option Error
after_pass = reconcile_workflow store plain_wire status_equal morning database workflow_record

reconcile_workflow-Settled_example :
    (after_pass.0 ≡ database)
    ⊎ Settled store plain_wire status_equal contract plain_wire_laws morning database after_pass.0
        workflow_record workflow
unfolding memory_laws plain_laws plain_columns decoded scan_record find key_eq str_eq format_int
reconcile_workflow-Settled_example =
    reconcile_workflow-Settled store plain_wire status_equal contract plain_wire_laws morning
      database after_pass.0 workflow_record workflow after_pass.1
      ((sqlite_store-Contract backend memory_laws plain_laws).1 database workflow_key ∙ refl) refl
      (λ body.
        (sqlite_store-Contract backend memory_laws plain_laws).2
          (record workflow_record { body = body })
        ∙ refl)
      refl

compute_workflow_status_idempotent_example :
    compute_workflow_status evening build_spec
      (some (compute_workflow_status morning build_spec none 1))
      1
    ≡ compute_workflow_status morning build_spec none 1
compute_workflow_status_idempotent_example =
    compute_workflow_status_idempotent morning evening build_spec none 1

compute_workflow_status-IsRunnable_example :
    let st = compute_workflow_status morning build_spec none 1 in
    ((holds_in st (codes "Validated") ≡ true) ↔ IsRunnable build_spec)
    × ((holds_in st (codes "Ready") ≡ true) ↔ IsRunnable build_spec)
compute_workflow_status-IsRunnable_example =
    compute_workflow_status-IsRunnable morning build_spec none 1

abbrev settings : Settings
settings = new_reconciler []

run_settles_example :
    let s' = reconcile_all store plain_wire status_equal settings (λ r. morning) leave database in
    IsSteady store plain_wire status_equal contract plain_wire_laws memory_Reliable settings s'
    × (run store plain_wire status_equal settings
          (λ r. morning)
          leave
          database
          (Signal.tick (λ r. evening) leave ∷ [])
        ≡ (s', Phase.waiting))
unfolding list memory sorted put plain_columns scan_record str_eq format_int sqlite_store
    decode_continue collect paginate is_positive wanted matches_labels plain_laws new_reconciler
run_settles_example =
    run_settles store plain_wire status_equal contract plain_wire_laws memory_Reliable settings
      (λ r. morning) ((λ r. evening) ∷ []) database (workflow_record ∷ []) [] refl refl (tt, tt)
      (
        record {
          workflow = workflow;
          body = refl;
          fits = λ body.
              (sqlite_store-Contract backend memory_laws plain_laws).2
                (record workflow_record { body = body })
              ∙ refl;
        },
        tt,
      )

-- The record as it was listed before its last update.
abbrev listed_before : Record Workflow
listed_before = record workflow_record { resource_version = codes "7" }

reconcile_workflow_outdated_example :
    LeavesAlone store plain_wire status_equal contract plain_wire_laws database
      (reconcile_workflow store plain_wire status_equal morning database listed_before)
unfolding memory_laws plain_laws plain_columns decoded scan_record find key_eq str_eq format_int
reconcile_workflow_outdated_example =
    reconcile_workflow_outdated store plain_wire status_equal contract plain_wire_laws morning
      database listed_before
      (inr (
        workflow_record,
        (sqlite_store-Contract backend memory_laws plain_laws).1 database workflow_key ∙ refl,
        (λ e. cc),
      ))
