-- ===== src/Tests/Cli.antt =====
-- Witnesses on the command line.
use kestrai.Prelude.{
  ℕ, ◌≡◌, ◌≢◌, ◌↔◌, ◌≤◌, ◌+◌, ◌-◌, refl, true, false, none, some, List, [], ◌∷◌, ok, length, take,
  All, arith,
}
use kestrai.Text.{codes, str_eq}
use kestrai.Int64.{format_int}
use kestrai.Auth.{StaticToken, new_static_token, static_token}
use kestrai.Auth.Interceptor.{new_interceptor}
use kestrai.Auth.Interceptor.Guards.{token_identity, or_default, FailsWith}
use kestrai.Store.Memory.{Memory}
use kestrai.Store.Contract.{Store}
use kestrai.Store.Contract.Refinement.{sqlite_store}
use kestrai.Api.{empty_meta}
use kestrai.Server.Status.{Code}
use kestrai.Server.Dispatch.{Request, Moment, handle, serve}
use kestrai.Reconciler.{compute_workflow_status}
use kestrai.Reconciler.Validation.{IsRunnable}
use kestrai.Cli.Codec.{
  Message, Resource, resource_of, encode_resource, decode_resources, write_format, envelope,
  decode_from, decode_document, text_at, new_message_for_kind,
}
use kestrai.Cli.Documents.{put_all, put, lookup, without}
use kestrai.Server.Resources.{resolve_tenant}
use kestrai.Server.Status.{status}
use kestrai.Tests.WorkflowSpecs.{workflow_spec_equal}
use kestrai.Cli.Codec.RoundTrip.{decode_resources-encode_resource}
use kestrai.Cli.Codec.Typing.{IsTyped, decode_resources-IsTyped}
use kestrai.Cli.Columns.{truncate, one_line, condition_state}
use kestrai.Cli.Columns.Goal.{IsNotNewline, truncate_fits}
use kestrai.Cli.Columns.Ready.{condition_state-IsRunnable}
use kestrai.Cli.Run.{Failure, Turn, Progress, apply_resource, run_apply}
use kestrai.Cli.Run.Stopping.{run_apply_stops}
use kestrai.Cli.Run.Types.{IsRefusal, decoded_IsRefusal}
use kestrai.Cli.Setup.{ClientConfig, system_methods, call_headers, up_server}
use kestrai.Cli.Setup.Access.{is_system, client_access}
use kestrai.Cli.{apply_project, apply_workflow}
use kestrai.Server.Projects.{get_project, create_project, new_project}
use kestrai.Store.Operations.{get, create, assign, new_row, scan_record}
use kestrai.Store.Memory.{memory, find}
use kestrai.Server.Resources.{require_name, marshal_for_store, overlay_stored_meta}
use kestrai.Store.Columns.{marshal_labels}
use kestrai.Server.Workflows.{get_workflow, create_workflow, require_scope, owner_status}
use kestrai.Store.{key_eq}
use kestrai.Cli.Codec.Kinds.{to_lower}
use kestrai.Cli.Run.{status_line, apply_as_project, apply_as_workflow}
use kestrai.Store.Uid.{new_uid}
use kestrai.Store.Memory.Texts.{plain_columns}
use kestrai.Tests.Documents.{
  Value, Blob, plain_formats, plain-FormatLaws, project_wire, workflow_wire,
}
use kestrai.Tests.Fixtures.{ambient, backend, empty_db}
use kestrai.Tests.Specs.{spec_equal}
use kestrai.Tests.Reconciler.{build_spec, morning}

abbrev shop : Message
shop = Message.project (record {
  metadata = some (record empty_meta { name = codes "shop" });
  spec = none;
  status = none;
})

abbrev shop_text : Blob
shop_text = Blob.yaml (
    (codes "apiVersion", Value.text (codes "kestrai.dev/v1alpha1"))
    ∷ (codes "kind", Value.text (codes "Project"))
    ∷ (codes "spec", Value.whole shop)
    ∷ [])

decode_resources-encode_resource_example :
    decode_resources plain_formats shop_text
    ≡ ok (resource_of plain_formats (codes "Project") shop ∷ [])
unfolding encode_resource plain_formats write_format str_eq envelope put_all put
decode_resources-encode_resource_example =
    decode_resources-encode_resource plain_formats plain-FormatLaws shop (codes "yaml") shop_text
      refl refl

abbrev shop_resource : Resource
shop_resource = resource_of plain_formats (codes "Project") shop

-- A workflow of a project that is not there.
abbrev orphan : Message
orphan = Message.workflow (record {
  metadata = some (record empty_meta { name = codes "release"; project = codes "gone" });
  spec = build_spec;
  status = none;
})

abbrev orphan_resource : Resource
orphan_resource = resource_of plain_formats (codes "Workflow") orphan

abbrev both_text : Blob
both_text = Blob.yaml (
    (codes "apiVersion", Value.text (codes "kestrai.dev/v1alpha1"))
    ∷ (codes "kind", Value.text (codes "Workflow"))
    ∷ (codes "spec", Value.whole orphan)
    ∷ [])

orphan_decoded : decode_resources plain_formats both_text ≡ ok (orphan_resource ∷ [])
unfolding decode_resources decode_from plain_formats decode_document text_at lookup str_eq
    new_message_for_kind without
orphan_decoded = refl

decode_resources-IsTyped_example : (orphan_resource ∷ [] ≢ []) × All IsTyped (orphan_resource ∷ [])
decode_resources-IsTyped_example =
    decode_resources-IsTyped plain_formats both_text (orphan_resource ∷ []) orphan_decoded

abbrev store : Store (Memory Message) Message
store = sqlite_store backend

abbrev turns : ℕ → Turn (Memory Message)
turns i = record { ambient = ambient; between = λ db. db; others = λ db. db }

abbrev apply_all : List Resource → Progress (Memory Message)
apply_all =
    run_apply store project_wire workflow_wire spec_equal workflow_spec_equal none turns 0 empty_db

abbrev no_owner : Failure
no_owner = Failure.refused (status Code.failed_precondition (codes "project gone does not exist"))

run_apply_stops_example :
    (apply_all (shop_resource ∷ orphan_resource ∷ shop_resource ∷ []) ≡ record {
      store = (apply_all (shop_resource ∷ [])).store;
      lines = (apply_all (shop_resource ∷ [])).lines;
      stopped = some (orphan_resource, no_owner);
    })
    × (length (apply_all (shop_resource ∷ [])).lines ≡ 1)
unfolding run_apply apply_resource str_eq resolve_tenant format_int sqlite_store apply_project
    apply_workflow get_project create_project new_project get create assign new_row scan_record
    memory find require_name marshal_for_store overlay_stored_meta marshal_labels get_workflow
    create_workflow require_scope owner_status key_eq to_lower status_line apply_as_project
    apply_as_workflow new_uid plain_columns
run_apply_stops_example =
    run_apply_stops store project_wire workflow_wire spec_equal workflow_spec_equal none turns
      empty_db (apply_all (shop_resource ∷ [])).store (shop_resource ∷ []) (shop_resource ∷ [])
      orphan_resource no_owner refl refl

decoded_IsRefusal_example : IsRefusal no_owner
unfolding run_apply apply_resource str_eq apply_workflow get_workflow sqlite_store get memory
    create_workflow require_scope require_name owner_status
decoded_IsRefusal_example =
    decoded_IsRefusal store project_wire workflow_wire spec_equal workflow_spec_equal none
      plain_formats both_text (orphan_resource ∷ []) turns empty_db orphan_resource no_owner
      orphan_decoded refl

abbrev guard_token : StaticToken
guard_token = record { token = codes "s3cret"; tenant_id = codes "acme" }

abbrev guest : ClientConfig
guest = record { address = codes "127.0.0.1:8585"; token = codes "s3cret"; output = [] }

abbrev moment : Moment (Memory Message)
moment = record { ambient = ambient; others = λ db. db }

client_access_example :
    let req = Request.get_project (codes "shop") in
    let out =
      serve store project_wire workflow_wire spec_equal workflow_spec_equal up_server
        (new_interceptor (static_token guard_token) system_methods)
        (call_headers guest)
        moment
        req
        empty_db in
    let run =
      handle store project_wire workflow_wire spec_equal workflow_spec_equal up_server moment req in
    (is_system req ≡ true → out ≡ run none empty_db)
    × (is_system req ≡ false
        → guest.token ≡ codes "s3cret"
        → out ≡ run (some (token_identity (or_default (some (codes "acme"))))) empty_db)
    × (is_system req ≡ false
        → guest.token ≢ codes "s3cret"
        → FailsWith Code.unauthenticated empty_db out)
unfolding new_static_token
client_access_example =
    client_access store project_wire workflow_wire spec_equal workflow_spec_equal up_server
      (codes "s3cret") (some (codes "acme")) guard_token guest moment
      (Request.get_project (codes "shop")) empty_db refl
      (
        (omega arith, omega arith),
        (
          (omega arith, omega arith),
          (
            (omega arith, omega arith),
            (
              (omega arith, omega arith),
              ((omega arith, omega arith), ((omega arith, omega arith), tt)),
            ),
          ),
        ),
      )

truncate_fits_example :
    let s = codes "ship it\nnow" in
    (length (truncate s 8) ≤ 8 + 2)
    × All IsNotNewline (truncate s 8)
    × (take (8 - 1) (truncate s 8) ≡ take (8 - 1) (one_line s))
    × (length (one_line s) ≤ 8 → truncate s 8 ≡ one_line s)
truncate_fits_example = truncate_fits (codes "ship it\nnow") 8 (omega arith)

condition_state-IsRunnable_example :
    (condition_state (some (compute_workflow_status morning build_spec none 1)) ≡ codes "True")
    ↔ IsRunnable build_spec
condition_state-IsRunnable_example = condition_state-IsRunnable morning build_spec none 1
