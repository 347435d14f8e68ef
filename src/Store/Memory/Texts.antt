-- ===== src/Store/Memory/Texts.antt =====
-- An encoding of labels and times that meets the laws of `ColumnLaws`: every character is moved up
-- by two, one ends a key and zero a value. It shows that the laws can be met.
use kestrai.Prelude.{
  ℕ, suc, zero, ◌≡◌, refl, ap, ◌∙◌, true, Option, none, some, [], ◌∷◌, ◌++◌, map, ok, append-nil,
  sym,
}
use kestrai.Text.{Str}
use kestrai.Store.{Labels}
use kestrai.Store.Columns.{Columns, ColumnLaws}

shift : Str → Str
shift = map (λ c. suc (suc c))

pub write_labels : Labels → Str
unfolding shift
write_labels [] = []
write_labels ((k, v) ∷ labels) = shift k ++ 1 ∷ (shift v ++ 0 ∷ write_labels labels)

-- What stands to the right of a place: the text so far, the value behind it, the pairs behind that.
record Reading : Type 0 where
  text : Str
  value : Option Str
  pairs : Labels

close_pair : Str → Option Str → Labels → Labels
close_pair text none pairs = pairs
close_pair text (some value) pairs = (text, value) ∷ pairs

reread : ℕ → Reading → Reading
unfolding close_pair
reread zero r = record { text = []; value = none; pairs = close_pair r.text r.value r.pairs }
reread (suc zero) r = record { text = []; value = some r.text; pairs = r.pairs }
reread (suc (suc c)) r = record r { text = c ∷ r.text }

read : Str → Reading
unfolding reread
read [] = record { text = []; value = none; pairs = [] }
read (c ∷ s) = reread c (read s)

pub read_labels : Str → Labels
unfolding read close_pair
read_labels s = close_pair (read s).text (read s).value (read s).pairs

read-shift : (k s : Str) → read (shift k ++ s) ≡ record (read s) { text = k ++ (read s).text }
unfolding read shift
read-shift [] s = refl
read-shift (c ∷ k) s = ap (reread (suc (suc c))) (read-shift k s)

reading : Str → Option Str → Labels → Reading
reading text value pairs = record { text = text; value = value; pairs = pairs }

read_value : (v s : Str) → read (shift v ++ 0 ∷ s) ≡ reading v none (read_labels s)
unfolding read_labels read reading
read_value v s =
    read-shift v (0 ∷ s) ∙ ap (λ (t : Str). reading t none (read_labels s)) (append-nil v)

read_pair :
    (k v s : Str) → read (shift k ++ 1 ∷ (shift v ++ 0 ∷ s)) ≡ reading k (some v) (read_labels s)
unfolding read reading
read_pair k v s =
    read-shift k (1 ∷ (shift v ++ 0 ∷ s))
    ∙ ap (λ (r : Reading). reading (k ++ []) (some r.text) r.pairs) (read_value v s)
    ∙ ap (λ (t : Str). reading t (some v) (read_labels s)) (append-nil k)

pub read_labels-write_labels : (labels : Labels) → read_labels (write_labels labels) ≡ labels
unfolding read_labels write_labels reading
read_labels-write_labels [] = refl
read_labels-write_labels ((k, v) ∷ labels) =
    rw (read_pair k v (write_labels labels)) (ap (◌∷◌ (k, v)) (read_labels-write_labels labels))

parse_number : Str → Option ℕ
parse_number [] = none
parse_number (t ∷ s) = some t

unfoldable pub plain_columns : Columns
unfolding read_labels write_labels parse_number
plain_columns = record {
  marshal_json = λ labels. ok (write_labels labels);
  unmarshal_json = λ text. ok (read_labels text);
  format_time = λ t. t ∷ [];
  parse_time = parse_number;
}

unfoldable pub plain_laws : ColumnLaws plain_columns
unfolding plain_columns
plain_laws = record {
  is_plain = λ labels. true;
  in_range = λ t. true;
  unmarshal_marshal = λ labels text p e.
      let same : write_labels labels ≡ text = cc in
      ap ok (ap read_labels (sym same) ∙ read_labels-write_labels labels);
  unmarshal_braces = refl;
  parse_format = λ t h. refl;
}
