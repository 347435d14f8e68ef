-- ===== src/Server/Selector.antt =====
-- `parseLabelSelector` of internal/server/resources.go.
pub mod RoundTrip
use kestrai.Prelude.{
  true, false, Option, none, some, List, [], ◌∷◌, ◌++◌, Result, ok, err, ◌>>=◌, if◌then◌else◌,
}
use kestrai.Text.{Str, codes, str_eq, is_empty}
use kestrai.Text.Order.{str_less}
use kestrai.Text.Cut.{cut}
use kestrai.Text.Trim.{trim_space}
use kestrai.Text.Split.{split}
use kestrai.Store.{Labels}
use kestrai.Server.Status.{Status, status, Code}

-- `out[k] = v`, with the keys in ascending order.
unfoldable pub put_label : Str → Str → Labels → Labels
put_label k v [] = (k, v) ∷ []
put_label k v ((j, w) ∷ labels) =
    let later = put_label k v labels in
    if str_eq k j
    then (k, v) ∷ labels
    else if str_less k j
    then (k, v) ∷ (j, w) ∷ labels
    else (j, w) ∷ later

-- `%q` of the term is not modelled: the message shows the term as it is.
bad_term : Str → Status
bad_term term =
    status Code.invalid_argument
      (codes "invalid label selector term " ++ term ++ codes ": want key=value")

add_term : Str → Option (Str × Str) → Labels → Result Status Labels
unfolding bad_term
add_term term none out = err (bad_term term)
add_term term (some (k, v)) out = ok (put_label (trim_space k) (trim_space v) out)

-- One round of the loop: an empty term is skipped.
read_term : Str → Labels → Result Status Labels
unfolding add_term
read_term part out =
    let term = trim_space part in
    if is_empty term then ok out else add_term term (cut b'=' term) out

-- The loop over the terms.
parse_terms : List Str → Labels → Result Status Labels
unfolding read_term
parse_terms [] out = ok out
parse_terms (part ∷ parts) out = read_term part out >>= parse_terms parts

unfoldable pub parse_label_selector : Str → Result Status Labels
unfolding parse_terms
parse_label_selector selector =
    let sel = trim_space selector in if is_empty sel then ok [] else parse_terms (split b',' sel) []
