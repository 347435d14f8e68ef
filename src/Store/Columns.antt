-- ===== src/Store/Columns.antt =====
-- How labels and times are written in their TEXT columns: encoding/json of a string map, and the
-- layout time.RFC3339Nano. Both are taken as functions, with what the store relies on as laws.
use kestrai.Prelude.{ℕ, ◌≡◌, Bool, true, Option, some, [], ◌∷◌, Result, ok}
use kestrai.Text.{Str, codes}
use kestrai.Store.{Labels, Error, other}
use kestrai.Prelude.{◌++◌, map_err, arith}

pub record Columns : Type 0 where
  -- json.Marshal and json.Unmarshal of a `map[string]string`
  pub marshal_json : Labels → Result Str Str
  pub unmarshal_json : Str → Result Str Labels
  -- Time.Format and time.Parse
  pub format_time : ℕ → Str
  pub parse_time : Str → Option ℕ

-- `is_plain` says that a list is the association list of a map of valid UTF-8 strings, `in_range`
-- that the year of a time has four digits: there the encodings can be read back.
pub record ColumnLaws (c : Columns) : Type 0 where
  pub is_plain : Labels → Bool
  pub in_range : ℕ → Bool
  pub unmarshal_marshal :
      (labels : Labels) (text : Str)
      → is_plain labels ≡ true
      → c.marshal_json labels ≡ ok text
      → c.unmarshal_json text ≡ ok labels
  pub unmarshal_braces : c.unmarshal_json (codes "{}") ≡ ok []
  pub parse_format : (t : ℕ) → in_range t ≡ true → c.parse_time (c.format_time t) ≡ some t

-- `marshalLabels`
unfoldable pub marshal_labels : Columns → Labels → Result Error Str
marshal_labels c [] = ok (codes "{}")
marshal_labels c (l ∷ labels) =
    map_err (λ e. other (codes "store: marshal labels: " ++ e)) (c.marshal_json (l ∷ labels))

module _ {c : Columns} (laws : ColumnLaws c) where
  pub unmarshal-marshal_labels :
      (labels : Labels) (text : Str)
      → laws.is_plain labels ≡ true
      → marshal_labels c labels ≡ ok text
      → c.unmarshal_json text ≡ ok labels
  unfolding marshal_labels
  unmarshal-marshal_labels [] text p e = ground (arith, laws.unmarshal_braces)
  unmarshal-marshal_labels (l ∷ labels) text p e =
      ground (arith, laws.unmarshal_marshal (l ∷ labels) text)
