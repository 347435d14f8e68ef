-- ===== src/Server/Selector/RoundTrip.antt =====
-- A selector that is written as `k1=v1,k2=v2` is read as the map of its pairs.
use kestrai.Prelude.{List, [], ◌∷◌, ◌++◌}
use kestrai.Text.{Str}
use kestrai.Text.Cut.{Lacks}
use kestrai.Text.Trim.{IsGraphic}
use kestrai.Store.{Labels}
use kestrai.Server.Status.{Status}
use kestrai.Server.Selector.{put_label}

render_term : Str × Str → Str
render_term (k, v) = k ++ b'=' ∷ v

pub render : Str × Str → List (Str × Str) → Str
unfolding render_term
render pair [] = render_term pair
render pair (next ∷ pairs) = render_term pair ++ b',' ∷ render next pairs

-- The map of the pairs, where a later pair replaces an earlier one with its key.
pub put_all : List (Str × Str) → Labels → Labels
put_all [] out = out
put_all ((k, v) ∷ pairs) out = put_all pairs (put_label k v out)

-- Keys without `=`, `!` and `,`, values without `,`, both printable without spaces. A key that ends in
-- `!` would be the `!=` of a kubectl selector.
abbrev pub IsTerm : Str × Str → Type 0
IsTerm (k, v) =
    IsGraphic k × IsGraphic v × Lacks b'=' k × Lacks b',' k × Lacks b'!' k × Lacks b',' v
