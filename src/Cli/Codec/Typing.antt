-- ===== src/Cli/Codec/Typing.antt =====
-- What the verbs can rely on in a decoded resource.
use kestrai.Prelude.{
  ℕ, suc, ◌+◌, ◌≡◌, ◌≢◌, refl, ap, sym, subst, ◌∙◌, false, List, [], ◌∷◌, ◌++◌, Result, ok, err,
  >>=-eq-ok, Bool-cases, inl, inr, map_err, map_err-ok, guard, not, ◌||◌, arith, All, All-append,
}
use kestrai.Text.{Str, codes, str_eq, str_eq_iff, is_empty}
use kestrai.Int64.{format_int}
use kestrai.Api.{get_name, get_project}
use kestrai.Server.Resources.{kind_project, kind_workflow}
use kestrai.Cli.Documents.{Formats, Fields, without}
use kestrai.Cli.Codec.{
  Message, Resource, metadata_of, api_version, new_message_for_kind, empty_project, empty_workflow,
  text_at, unmarshal_into, resource_of, decode_document, decode_next, decode_from, decode_resources,
  nonempty,
}
use kestrai.Cli.Codec.RoundTrip.{kind_of}

-- The message is of the type of the kind, and the project and the name are those of its metadata,
-- with a name that is not empty.
abbrev pub IsTyped : Resource → Type 0
IsTyped res =
    (kind_of res.message ≡ res.kind)
    × (res.project ≡ get_project (metadata_of res.message))
    × (res.name ≡ get_name (metadata_of res.message))
    × (is_empty res.name ≡ false)

new_message_for_kind-ok :
    (kind : Str) (m : Message) → new_message_for_kind kind ≡ ok m → kind_of m ≡ kind
unfolding new_message_for_kind
new_message_for_kind-ok kind m e = elim (Bool-cases (str_eq kind kind_project)) [
  | inl project ↦
      let same : Message.project empty_project ≡ m = ground arith in
      ap kind_of (sym same) ∙ sym ((str_eq_iff kind kind_project).0 project)
  | inr other ↦ elim (Bool-cases (str_eq kind kind_workflow)) [
    | inl workflow ↦
        let same : Message.workflow empty_workflow ≡ m = ground arith in
        ap kind_of (sym same) ∙ sym ((str_eq_iff kind kind_workflow).0 workflow)
    | inr unknown ↦ absurd (ground arith)
  ]
]

module _ {V D : Type 0} (f : Formats V D) where
  unmarshal_into-kind :
      (m msg : Message) (body : D) → unmarshal_into f m body ≡ ok msg → kind_of msg ≡ kind_of m
  unmarshal_into-kind (Message.project p) msg body e =
      let (p', _, e1) = >>=-eq-ok (f.projects.unmarshal body) _ e in
      let same : Message.project p' ≡ msg = cc in ap kind_of (sym same)
  unmarshal_into-kind (Message.workflow w) msg body e =
      let (w', _, e1) = >>=-eq-ok (f.workflows.unmarshal body) _ e in
      let same : Message.workflow w' ≡ msg = cc in ap kind_of (sym same)

  decode_document-IsTyped :
      (doc : Fields V) (res : Resource) → decode_document f doc ≡ ok res → IsTyped res
  unfolding decode_document
  decode_document-IsTyped doc res e =
      let version = text_at f (codes "apiVersion") doc in
      let kind = text_at f (codes "kind") doc in
      let (_, _, e1) =
        >>=-eq-ok
          (guard (not (is_empty version || is_empty kind))
            (codes "both apiVersion and kind are required"))
          _ e in
      let (_, _, e2) =
        >>=-eq-ok
          (guard (str_eq version api_version)
            (codes "unsupported apiVersion " ++ version ++ codes " (want kestrai.dev/v1alpha1)"))
          _ e1 in
      let (empty, made, e3) = >>=-eq-ok (new_message_for_kind kind) _ e2 in
      let (body, _, e4) =
        >>=-eq-ok
          (map_err (λ e. codes "re-encode " ++ kind ++ codes " body: " ++ e)
            (f.write_json (without (codes "kind") (without (codes "apiVersion") doc))))
          _ e3 in
      let decode_err : Str → Str = λ e. codes "decode " ++ kind ++ codes ": " ++ e in
      let (msg, read, e5) = >>=-eq-ok (map_err decode_err (unmarshal_into f empty body)) _ e4 in
      let (_, named, e6) =
        >>=-eq-ok
          (guard (not (is_empty (get_name (metadata_of msg)))) (codes "metadata.name is required"))
          _ e5 in
      let typed : kind_of msg ≡ kind =
        unmarshal_into-kind empty msg body
          (map_err-ok decode_err (unmarshal_into f empty body) msg read)
        ∙ new_message_for_kind-ok kind empty made in
      let same : resource_of f kind msg ≡ res = cc in
      subst IsTyped same (typed, refl, refl, ground arith)

  decode_next-IsTyped :
      (i : ℕ) (doc : Result Str (Fields V)) (out : List Resource)
      → decode_next f i doc ≡ ok out
      → All IsTyped out
  unfolding decode_next
  decode_next-IsTyped i (err x) out e = absurd cc
  decode_next-IsTyped i (ok []) [] e = tt
  decode_next-IsTyped i (ok []) (r ∷ out) e = absurd cc
  decode_next-IsTyped i (ok (field ∷ fields)) out e =
      let wrap : Str → Str = λ e. codes "document " ++ format_int (i + 1) ++ codes ": " ++ e in
      let (res, read, e1) = >>=-eq-ok (map_err wrap (decode_document f (field ∷ fields))) _ e in
      let same : res ∷ [] ≡ out = cc in
      let typed =
        decode_document-IsTyped (field ∷ fields) res
          (map_err-ok wrap (decode_document f (field ∷ fields)) res read) in
      subst (All IsTyped) same (typed, tt)

  decode_from-IsTyped :
      (i : ℕ) (docs : List (Result Str (Fields V))) (out : List Resource)
      → decode_from f i docs ≡ ok out
      → All IsTyped out
  unfolding decode_from
  decode_from-IsTyped i [] out e = let same : [] ≡ out = cc in subst (All IsTyped) same tt
  decode_from-IsTyped i (doc ∷ docs) out e =
      let (next, first, e1) = >>=-eq-ok (decode_next f i doc) _ e in
      let (rest, later, e2) = >>=-eq-ok (decode_from f (suc i) docs) _ e1 in
      let same : next ++ rest ≡ out = cc in
      subst (All IsTyped) same (
        All-append IsTyped next rest (decode_next-IsTyped i doc next first)
          (decode_from-IsTyped (suc i) docs rest later))

  nonempty-ok : (read out : List Resource) → nonempty f read ≡ ok out → (read ≡ out) × (out ≢ [])
  nonempty-ok [] out e = absurd cc
  nonempty-ok (r ∷ read) out e = let same : r ∷ read ≡ out = cc in (same, (λ h. cc))

  -- Input that is accepted holds at least one resource, and every resource that is decoded has a
  -- message of the type of its kind, so that no type assertion of a verb fails, and carries the
  -- project and the name of its metadata, with a name that is not empty.
  pub decode_resources-IsTyped :
      (input : D) (out : List Resource)
      → decode_resources f input ≡ ok out
      → (out ≢ []) × All IsTyped out
  unfolding decode_resources
  decode_resources-IsTyped input out e =
      let (read, decoded, e1) = >>=-eq-ok (decode_from f 0 (f.documents input)) _ e in
      let (same, some_out) = nonempty-ok read out e1 in
      (some_out, subst (All IsTyped) same (decode_from-IsTyped 0 (f.documents input) read decoded))
