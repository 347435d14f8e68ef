-- ===== src/Tests/Documents.antt =====
-- Formats that meet the laws: a text is the document that it holds, and the body of a message is one
-- field with the message. Messages are their own encoding in the store.
use kestrai.Prelude.{
  ◌≡◌, refl, ap, sym, ◌∙◌, subst, List, [], ◌∷◌, Result, ok, err, none, some, Option,
}
use kestrai.Text.{Str, codes, str_eq}
use kestrai.Api.{Project, Workflow}
use kestrai.Server.Wire.{Wire}
use kestrai.Cli.Documents.{Formats, FormatLaws, Fields, IsBody}
use kestrai.Cli.Codec.{Message}

pub data Value : Type 0 where
  text : Str → Value
  whole : Message → Value

pub data Blob : Type 0 where
  yaml : Fields Value → Blob
  json : Fields Value → Blob

abbrev pub body_of : Message → Blob
body_of m = Blob.json ((codes "spec", Value.whole m) ∷ [])

abbrev as_text : Value → Option Str
as_text (Value.text s) = some s
as_text (Value.whole m) = none

abbrev documents : Blob → List (Result Str (Fields Value))
documents (Blob.yaml doc) = ok doc ∷ []
documents (Blob.json doc) = ok doc ∷ []

abbrev read_json : Blob → Result Str (Fields Value)
read_json (Blob.yaml doc) = err (codes "not JSON")
read_json (Blob.json doc) = ok doc

abbrev project_in : Fields Value → Result Str Project
project_in ((k, Value.whole (Message.project p)) ∷ []) = ok p
project_in _ = err (codes "not a Project")

abbrev workflow_in : Fields Value → Result Str Workflow
workflow_in ((k, Value.whole (Message.workflow w)) ∷ []) = ok w
workflow_in _ = err (codes "not a Workflow")

abbrev read_project : Blob → Result Str Project
read_project (Blob.yaml doc) = err (codes "not JSON")
read_project (Blob.json doc) = project_in doc

abbrev read_workflow : Blob → Result Str Workflow
read_workflow (Blob.yaml doc) = err (codes "not JSON")
read_workflow (Blob.json doc) = workflow_in doc

unfoldable pub plain_formats : Formats Value Blob
plain_formats = record {
  text = Value.text;
  as_text = as_text;
  documents = documents;
  write_yaml = λ doc. ok (Blob.yaml doc);
  write_indented = λ doc. ok (Blob.json doc);
  write_json = λ doc. ok (Blob.json doc);
  read_json = read_json;
  projects = record { marshal = λ p. ok (body_of (Message.project p)); unmarshal = read_project };
  workflows = record {
    marshal = λ w. ok (body_of (Message.workflow w));
    unmarshal = read_workflow;
  };
}

again :
    (d : Blob) (fields : Fields Value)
    → read_json d ≡ ok fields
    → (d' : Blob) × (◌≡◌ {A = Result Str Blob} (ok (Blob.json fields)) (ok d'))
      × (read_project d' ≡ read_project d)
      × (read_workflow d' ≡ read_workflow d)
again (Blob.yaml doc) fields e = absurd cc
again (Blob.json doc) fields e =
    let same : doc ≡ fields = cc in
    (Blob.json fields, refl, ap project_in (sym same), ap workflow_in (sym same))

IsBody-fields :
    (m : Message) (d : Blob) (fields : Fields Value)
    → ◌≡◌ {A = Result Str Blob} (ok (body_of m)) (ok d)
    → read_json d ≡ ok fields
    → IsBody fields
unfolding str_eq
IsBody-fields m d fields e r =
    let same : body_of m ≡ d = cc in
    let read : ◌≡◌ {A = Result Str (Fields Value)} (ok ((codes "spec", Value.whole m) ∷ []))
        (ok fields) =
      ap read_json same ∙ r in
    let shape : (codes "spec", Value.whole m) ∷ [] ≡ fields = cc in
    subst IsBody shape ((tt, tt), (refl, tt), (refl, tt))

pub plain-FormatLaws : FormatLaws plain_formats
unfolding plain_formats str_eq
plain-FormatLaws = record {
  as_text_text = λ s. refl;
  documents_yaml = λ doc d e. let same : Blob.yaml doc ≡ d = cc in ap documents (sym same);
  documents_indented = λ doc d e. let same : Blob.json doc ≡ d = cc in ap documents (sym same);
  write_again = again;
  project_body = λ p d fields e r. IsBody-fields (Message.project p) d fields e r;
  workflow_body = λ w d fields e r. IsBody-fields (Message.workflow w) d fields e r;
  projects = record {
    unmarshal_marshal =
        λ p d e. let same : body_of (Message.project p) ≡ d = cc in ap read_project (sym same);
  };
  workflows = record {
    unmarshal_marshal =
        λ w d e. let same : body_of (Message.workflow w) ≡ d = cc in ap read_workflow (sym same);
  };
}

-- The store holds messages of both types.
abbrev pub project_wire : Wire Message Project
project_wire = record {
  marshal = λ p. ok (Message.project p);
  unmarshal = λ m. elim m [ Message.project p ↦ ok p | Message.workflow w ↦ err (codes "type") ];
}

abbrev pub workflow_wire : Wire Message Workflow
workflow_wire = record {
  marshal = λ w. ok (Message.workflow w);
  unmarshal = λ m. elim m [ Message.project p ↦ err (codes "type") | Message.workflow w ↦ ok w ];
}
