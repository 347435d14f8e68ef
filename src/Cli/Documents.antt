-- ===== src/Cli/Documents.antt =====
-- The documents of internal/cli/codec.go: `map[string]any` and the formats that the CLI reads and
-- writes, yaml.v3, encoding/json and protojson, which are parameters. A value in a document is what
-- it denotes in JSON; a map is its list of entries, in an order that no code reads.
use kestrai.Prelude.{
  ◌≡◌, refl, ap, sym, ◌∙◌, false, Option, none, some, List, [], ◌∷◌, ◌++◌, Result, ok, All,
  if◌then◌else◌, append-nil, append_assoc, All-append, Bool-cases, inl, inr,
}
use kestrai.Text.{Str, codes, str_eq, str_eq_iff}
use kestrai.Api.{Project, Workflow}
use kestrai.Server.Wire.{Wire, WireLaws}

abbrev pub Fields : Type 0 → Type 0
Fields V = List (Str × V)

module _ {V : Type 0} where
  -- `doc[key]`
  unfoldable pub lookup : Str → Fields V → Option V
  lookup key [] = none
  lookup key ((k, v) ∷ fields) = if str_eq k key then some v else lookup key fields

  -- `doc[key] = value`
  unfoldable pub put : Str → V → Fields V → Fields V
  put key value [] = (key, value) ∷ []
  put key value ((k, v) ∷ fields) =
      let later = put key value fields in
      if str_eq k key then (key, value) ∷ fields else (k, v) ∷ later

  -- `delete(doc, key)`
  unfoldable pub without : Str → Fields V → Fields V
  without key [] = []
  without key ((k, v) ∷ fields) =
      let rest = without key fields in if str_eq k key then rest else (k, v) ∷ rest

  -- `for k, v := range fields { doc[k] = v }`
  unfoldable pub put_all : Fields V → Fields V → Fields V
  put_all [] doc = doc
  put_all ((k, v) ∷ fields) doc = put_all fields (put k v doc)

  -- A key is not in a map.
  abbrev pub Lacks : Str → Fields V → Type 0
  Lacks key = All (λ f. str_eq f.0 key ≡ false)

  -- Every key is there once.
  abbrev pub Distinct : Fields V → Type 0
  Distinct [] = Unit
  Distinct ((k, v) ∷ fields) = Lacks k fields × Distinct fields

-- The decoder of yaml.v3 reads the documents of a text one by one up to the end of the text, each a
-- map or an error.
pub record Formats (V D : Type 0) : Type 0 where
  pub text : Str → V
  pub as_text : V → Option Str
  pub documents : D → List (Result Str (Fields V))
  pub write_yaml : Fields V → Result Str D
  pub write_indented : Fields V → Result Str D
  pub write_json : Fields V → Result Str D
  pub read_json : D → Result Str (Fields V)
  pub projects : Wire D Project
  pub workflows : Wire D Workflow

-- A body of a message has the fields of the message only, each once.
abbrev pub IsBody : {V : Type 0} → Fields V → Type 0
IsBody fields = Distinct fields × Lacks (codes "apiVersion") fields × Lacks (codes "kind") fields

-- What the formats document: a text is read back from YAML and from JSON, which is YAML too, and
-- the JSON of a message decodes to the message also after it was read into a map and written again.
pub record FormatLaws {V D : Type 0} (f : Formats V D) : Type 0 where
  pub as_text_text : (s : Str) → f.as_text (f.text s) ≡ some s
  pub documents_yaml :
      (doc : Fields V) (d : D) → f.write_yaml doc ≡ ok d → f.documents d ≡ ok doc ∷ []
  pub documents_indented :
      (doc : Fields V) (d : D) → f.write_indented doc ≡ ok d → f.documents d ≡ ok doc ∷ []
  pub write_again :
      (d : D) (fields : Fields V)
      → f.read_json d ≡ ok fields
      → (d' : D) × (f.write_json fields ≡ ok d')
        × (f.projects.unmarshal d' ≡ f.projects.unmarshal d)
        × (f.workflows.unmarshal d' ≡ f.workflows.unmarshal d)
  pub project_body :
      (p : Project) (d : D) (fields : Fields V)
      → f.projects.marshal p ≡ ok d
      → f.read_json d ≡ ok fields
      → IsBody fields
  pub workflow_body :
      (w : Workflow) (d : D) (fields : Fields V)
      → f.workflows.marshal w ≡ ok d
      → f.read_json d ≡ ok fields
      → IsBody fields
  pub projects : WireLaws f.projects
  pub workflows : WireLaws f.workflows

pub str_eq-flip : (s t : Str) → str_eq s t ≡ false → str_eq t s ≡ false
str_eq-flip s t off = elim (Bool-cases (str_eq t s)) [
  | inl on ↦ absurd (let same = (str_eq_iff s t).1 (sym ((str_eq_iff t s).0 on)) in cc)
  | inr h ↦ h
]

module _ {V : Type 0} where
  put-Lacks : (k : Str) (v : V) (doc : Fields V) → Lacks k doc → put k v doc ≡ doc ++ (k, v) ∷ []
  unfolding put
  put-Lacks k v [] h = refl
  put-Lacks k v ((j, w) ∷ doc) (off, h) = rw off (ap (◌∷◌ (j, w)) (put-Lacks k v doc h))

  -- Fields that are all new are put behind the others.
  pub put_all-append :
      (fields doc : Fields V)
      → Distinct fields
      → All (λ (f : Str × V). Lacks f.0 doc) fields
      → put_all fields doc ≡ doc ++ fields
  unfolding put_all
  put_all-append [] doc d h = sym (append-nil doc)
  put_all-append ((k, v) ∷ fields) doc (fresh, d) (off, h) =
      ap (put_all fields) (put-Lacks k v doc off)
      ∙ put_all-append fields (doc ++ (k, v) ∷ []) d (Lacks_behind k v doc fields fresh h)
      ∙ append_assoc doc ((k, v) ∷ []) fields
    where
      Lacks_behind :
          (k : Str) (v : V) (doc fields : Fields V)
          → Lacks k fields
          → All (λ (f : Str × V). Lacks f.0 doc) fields
          → All (λ (f : Str × V). Lacks f.0 (doc ++ (k, v) ∷ [])) fields
      Lacks_behind k v doc [] fresh h = tt
      Lacks_behind k v doc ((j, w) ∷ fields) (other, fresh) (off, h) = (
        All-append (λ f. str_eq f.0 j ≡ false) doc ((k, v) ∷ []) off (str_eq-flip j k other, tt),
        Lacks_behind k v doc fields fresh h,
      )

  pub without-Lacks :
      (key : Str) (fields : Fields V) → Lacks key fields → without key fields ≡ fields
  unfolding without
  without-Lacks key [] h = refl
  without-Lacks key ((k, v) ∷ fields) (off, h) =
      rw off (ap (◌∷◌ (k, v)) (without-Lacks key fields h))
