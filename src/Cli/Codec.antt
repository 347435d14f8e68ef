-- ===== src/Cli/Codec.antt =====
-- internal/cli/codec.go: the documents that the CLI reads, as typed resources, and back.
pub mod RoundTrip
pub mod Typing
pub mod Kinds
use kestrai.Prelude.{
  ℕ, suc, ◌+◌, ◌||◌, Bool, true, false, Option, none, some, List, [], ◌∷◌, ◌++◌, Result, ok, err,
  map_err, ◌>>=◌, ◌>>◌, guard, not, if◌then◌else◌,
}
use kestrai.Text.{Str, codes, str_eq, is_empty}
use kestrai.Int64.{format_int}
use kestrai.Api.{
  Project, Workflow, ObjectMeta, get_project_metadata, get_workflow_metadata, get_name, get_project,
}
use kestrai.Server.Resources.{kind_project, kind_workflow}
use kestrai.Cli.Documents.{Formats, Fields, lookup, without, put_all}

abbrev pub api_version : Str
api_version = codes "kestrai.dev/v1alpha1"

-- A typed proto message.
pub data Message : Type 0 where
  project : Project → Message
  workflow : Workflow → Message

pub record Resource : Type 0 where
  pub kind : Str
  pub project : Str
  pub name : Str
  pub message : Message

-- `metadataOf` of a known resource
abbrev pub metadata_of : Message → Option ObjectMeta
metadata_of (Message.project p) = get_project_metadata (some p)
metadata_of (Message.workflow w) = get_workflow_metadata (some w)

abbrev pub empty_project : Project
empty_project = record { metadata = none; spec = none; status = none }

abbrev pub empty_workflow : Workflow
empty_workflow = record { metadata = none; spec = none; status = none }

-- `newMessageForKind`; `%q` shows the kind as it is.
unfoldable pub new_message_for_kind : Str → Result Str Message
new_message_for_kind kind =
    if str_eq kind kind_project
    then ok (Message.project empty_project)
    else if str_eq kind kind_workflow
    then ok (Message.workflow empty_workflow)
    else err (codes "unknown kind " ++ kind ++ codes " (supported: Project, Workflow)")

abbrev pub output_json : Str
output_json = codes "json"

abbrev pub output_yaml : Str
output_yaml = codes "yaml"

module _ {V D : Type 0} (f : Formats V D) where
  abbrev pub text_or_empty : Option V → Str
  text_or_empty none = []
  text_or_empty (some v) = elim (f.as_text v) [ none ↦ [] | some s ↦ s ]

  -- `doc[key].(string)`, which is empty where the key or the type is not right.
  unfoldable pub text_at : Str → Fields V → Str
  text_at key doc = text_or_empty (lookup key doc)

  -- `protojson.Unmarshal` into a message of a type
  abbrev pub unmarshal_into : Message → D → Result Str Message
  unmarshal_into (Message.project p) body = do
    p' ← f.projects.unmarshal body
    ok (Message.project p')
  unmarshal_into (Message.workflow w) body = do
    w' ← f.workflows.unmarshal body
    ok (Message.workflow w')

  -- The typed resource of a kind and a message.
  abbrev pub resource_of : Str → Message → Resource
  resource_of kind msg = record {
    kind = kind;
    project = get_project (metadata_of msg);
    name = get_name (metadata_of msg);
    message = msg;
  }

  -- `decodeDocument`
  unfoldable pub decode_document : Fields V → Result Str Resource
  decode_document doc = do
    let version = text_at (codes "apiVersion") doc
    let kind = text_at (codes "kind") doc
    guard (not (is_empty version || is_empty kind)) (codes "both apiVersion and kind are required")
    guard (str_eq version api_version)
        (codes "unsupported apiVersion " ++ version ++ codes " (want kestrai.dev/v1alpha1)")
    empty ← new_message_for_kind kind
    body ←
        map_err (λ e. codes "re-encode " ++ kind ++ codes " body: " ++ e)
          (f.write_json (without (codes "kind") (without (codes "apiVersion") doc)))
    msg ← map_err (λ e. codes "decode " ++ kind ++ codes ": " ++ e) (unmarshal_into empty body)
    guard (not (is_empty (get_name (metadata_of msg)))) (codes "metadata.name is required")
    ok (resource_of kind msg)

  -- One turn of the loop of `decodeResources`, for the document with index `i`; an empty document
  -- is skipped.
  unfoldable pub decode_next : ℕ → Result Str (Fields V) → Result Str (List Resource)
  decode_next i (err e) =
      err (codes "parse YAML document " ++ format_int (i + 1) ++ codes ": " ++ e)
  decode_next i (ok []) = ok []
  decode_next i (ok (field ∷ fields)) = do
    res ←
        map_err (λ e. codes "document " ++ format_int (i + 1) ++ codes ": " ++ e)
          (decode_document (field ∷ fields))
    ok (res ∷ [])

  unfoldable pub decode_from : ℕ → List (Result Str (Fields V)) → Result Str (List Resource)
  unfolding decode_next
  decode_from i [] = ok []
  decode_from i (doc ∷ docs) = do
    next ← decode_next i doc
    rest ← decode_from (suc i) docs
    ok (next ++ rest)

  abbrev pub nonempty : List Resource → Result Str (List Resource)
  nonempty [] = err (codes "no resources found in input")
  nonempty (res ∷ out) = ok (res ∷ out)

  -- `decodeResources`
  unfoldable pub decode_resources : D → Result Str (List Resource)
  decode_resources input = decode_from 0 (f.documents input) >>= nonempty

  -- `protojson.Marshal`
  abbrev pub marshal_message : Message → Result Str D
  marshal_message (Message.project p) = f.projects.marshal p
  marshal_message (Message.workflow w) = f.workflows.marshal w

  unfoldable pub envelope : Str → Fields V → Fields V
  envelope kind fields =
      put_all fields ((codes "apiVersion", f.text api_version) ∷ (codes "kind", f.text kind) ∷ [])

  -- The switch on the output format.
  unfoldable pub write_format : Str → Fields V → Result Str D
  write_format format doc =
      if str_eq format output_json
      then f.write_indented doc
      else if str_eq format output_yaml
      then f.write_yaml doc
      else err (codes "unsupported output format " ++ format ++ codes " (want yaml or json)")

  -- `encodeResource`
  unfoldable pub encode_resource : Str → Message → Str → Result Str D
  encode_resource kind msg format = do
    body ← marshal_message msg
    fields ← f.read_json body
    write_format format (envelope kind fields)
