-- ===== src/Cli/Codec/RoundTrip.antt =====
-- What `kestrai get -o` prints is what `kestrai apply` reads.
use kestrai.Prelude.{
  ◌≡◌, refl, ap, ◌∙◌, false, [], ◌∷◌, ◌++◌, ok, >>=-eq-ok, Bool-cases, inl, inr, arith, All,
}
use kestrai.Text.{Str, codes, str_eq, is_empty}
use kestrai.Api.{get_name}
use kestrai.Server.Resources.{kind_project, kind_workflow}
use kestrai.Cli.Documents.{
  Formats, FormatLaws, Fields, IsBody, lookup, without, put_all-append, without-Lacks, Lacks,
  str_eq-flip,
}
use kestrai.Cli.Codec.{
  Message, Resource, metadata_of, api_version, output_json, output_yaml, new_message_for_kind,
  empty_project, empty_workflow, text_at, unmarshal_into, resource_of, decode_document, decode_next,
  decode_from, decode_resources, marshal_message, envelope, write_format, encode_resource,
}

-- The kind of a message's type.
abbrev pub kind_of : Message → Str
kind_of (Message.project p) = kind_project
kind_of (Message.workflow w) = kind_workflow

abbrev pub empty_of : Message → Message
empty_of (Message.project p) = Message.project empty_project
empty_of (Message.workflow w) = Message.workflow empty_workflow

new_message_for_kind-kind_of :
    (msg : Message) → new_message_for_kind (kind_of msg) ≡ ok (empty_of msg)
unfolding new_message_for_kind str_eq
new_message_for_kind-kind_of (Message.project p) = refl
new_message_for_kind-kind_of (Message.workflow w) = refl

module _ {V D : Type 0} (f : Formats V D) (laws : FormatLaws f) where
  abbrev head : Str → Fields V
  head kind = (codes "apiVersion", f.text api_version) ∷ (codes "kind", f.text kind) ∷ []

  apart :
      (kind : Str) (fields : Fields V)
      → Lacks (codes "apiVersion") fields
      → Lacks (codes "kind") fields
      → All (λ (x : Str × V). Lacks x.0 (head kind)) fields
  apart kind [] hv hk = tt
  apart kind ((k, v) ∷ fields) (nv, hv) (nk, hk) = (
    (str_eq-flip k (codes "apiVersion") nv, (str_eq-flip k (codes "kind") nk, tt)),
    apart kind fields hv hk,
  )

  envelope-append :
      (kind : Str) (fields : Fields V)
      → IsBody fields
      → envelope f kind fields ≡ head kind ++ fields
  unfolding envelope
  envelope-append kind fields (distinct, no_version, no_kind) =
      put_all-append fields (head kind) distinct (apart kind fields no_version no_kind)

  without-head :
      (kind : Str) (fields : Fields V)
      → IsBody fields
      → without (codes "kind") (without (codes "apiVersion") (head kind ++ fields)) ≡ fields
  unfolding without str_eq
  without-head kind fields (_, no_version, no_kind) =
      ap (without (codes "kind")) (
        ap (◌∷◌ (codes "kind", f.text kind)) (without-Lacks (codes "apiVersion") fields no_version))
      ∙ without-Lacks (codes "kind") fields no_kind

  text_at-version :
      (kind : Str) (fields : Fields V)
      → text_at f (codes "apiVersion") (head kind ++ fields) ≡ api_version
  unfolding text_at lookup str_eq
  text_at-version kind fields = rw (laws.as_text_text api_version) refl

  text_at-kind :
      (kind : Str) (fields : Fields V) → text_at f (codes "kind") (head kind ++ fields) ≡ kind
  unfolding text_at lookup str_eq
  text_at-kind kind fields = rw (laws.as_text_text kind) refl

  -- The body of a message that was written, decoded into an empty message of its type.
  unmarshal_into-again :
      (msg : Message) (body body' : D)
      → marshal_message f msg ≡ ok body
      → f.projects.unmarshal body' ≡ f.projects.unmarshal body
      → f.workflows.unmarshal body' ≡ f.workflows.unmarshal body
      → unmarshal_into f (empty_of msg) body' ≡ ok msg
  unmarshal_into-again (Message.project p) body body' e hp hw =
      rw (hp, laws.projects.unmarshal_marshal p body e) refl
  unmarshal_into-again (Message.workflow w) body body' e hp hw =
      rw (hw, laws.workflows.unmarshal_marshal w body e) refl

  message-IsBody :
      (msg : Message) (body : D) (fields : Fields V)
      → marshal_message f msg ≡ ok body
      → f.read_json body ≡ ok fields
      → IsBody fields
  message-IsBody (Message.project p) body fields e r = laws.project_body p body fields e r
  message-IsBody (Message.workflow w) body fields e r = laws.workflow_body w body fields e r

  decode_document-step :
      (doc fields : Fields V) (msg : Message) (body' : D)
      → text_at f (codes "apiVersion") doc ≡ api_version
      → text_at f (codes "kind") doc ≡ kind_of msg
      → without (codes "kind") (without (codes "apiVersion") doc) ≡ fields
      → f.write_json fields ≡ ok body'
      → unmarshal_into f (empty_of msg) body' ≡ ok msg
      → is_empty (get_name (metadata_of msg)) ≡ false
      → decode_document f doc ≡ ok (resource_of f (kind_of msg) msg)
  unfolding decode_document str_eq
  decode_document-step doc fields (Message.project p) body' version kind rest written read named =
      rw (version, kind, rest)
        (rw (new_message_for_kind-kind_of (Message.project p), written, read, named) refl)
  decode_document-step doc fields (Message.workflow w) body' version kind rest written read named =
      rw (version, kind, rest)
        (rw (new_message_for_kind-kind_of (Message.workflow w), written, read, named) refl)

  documents-write_format :
      (format : Str) (doc : Fields V) (d : D)
      → write_format f format doc ≡ ok d
      → f.documents d ≡ ok doc ∷ []
  unfolding write_format
  documents-write_format format doc d e = elim (Bool-cases (str_eq format output_json)) [
    | inl json ↦ laws.documents_indented doc d (ground arith)
    | inr other ↦ elim (Bool-cases (str_eq format output_yaml)) [
      | inl yaml ↦ laws.documents_yaml doc d (ground arith)
      | inr bad ↦ absurd (ground arith)
    ]
  ]

  one_document :
      (d : D) (field : Str × V) (fields : Fields V) (res : Resource)
      → f.documents d ≡ ok (field ∷ fields) ∷ []
      → decode_document f (field ∷ fields) ≡ ok res
      → decode_resources f d ≡ ok (res ∷ [])
  unfolding decode_resources decode_from decode_next
  one_document d field fields res written read = rw (written, read) refl

  -- A resource that is printed as YAML or JSON is read back as it was, with its kind, project and
  -- name, if it has a name.
  pub decode_resources-encode_resource :
      (msg : Message) (format : Str) (d : D)
      → is_empty (get_name (metadata_of msg)) ≡ false
      → encode_resource f (kind_of msg) msg format ≡ ok d
      → decode_resources f d ≡ ok (resource_of f (kind_of msg) msg ∷ [])
  unfolding encode_resource
  decode_resources-encode_resource msg format d named e =
      let kind = kind_of msg in
      let (body, marshalled, e1) = >>=-eq-ok (marshal_message f msg) _ e in
      let (fields, read, e2) = >>=-eq-ok (f.read_json body) _ e1 in
      let shape = message-IsBody msg body fields marshalled read in
      let (body', written, hp, hw) = laws.write_again body fields read in
      let printed =
        documents-write_format format (envelope f kind fields) d e2
        ∙ ap (λ (doc : Fields V). ok doc ∷ []) (envelope-append kind fields shape) in
      one_document d (codes "apiVersion", f.text api_version) ((codes "kind", f.text kind) ∷ fields)
        (resource_of f kind msg) printed
        (decode_document-step (head kind ++ fields) fields msg body' (text_at-version kind fields)
          (text_at-kind kind fields) (without-head kind fields shape) written
          (unmarshal_into-again msg body body' marshalled hp hw) named)
