-- ===== src/Store/Cursor.antt =====
-- The keyset cursor of `List` in internal/store/sqlite.go: its order and its token.
pub mod Token
pub mod Position
use kestrai.Prelude.{
  ◌≡◌, Bool, true, Option, none, some, [], ◌∷◌, ◌++◌, Result, ok, err, if◌then◌else◌,
}
use kestrai.Text.{Str, codes, str_eq}
use kestrai.Text.Order.{str_less}
use kestrai.Text.Cut.{cut}
use kestrai.Base64
use kestrai.Store.{Error, other}

pub record Cursor : Type 0 where
  pub project : Str
  pub name : Str

-- `cursorLess`
unfoldable pub cursor_less : Cursor → Cursor → Bool
cursor_less a b =
    if str_eq a.project b.project then str_less a.name b.name else str_less a.project b.project

-- `encodeContinue`
unfoldable pub encode_continue : Cursor → Str
encode_continue c = Base64.encode (c.project ++ 0 ∷ c.name)

-- What `decodeContinue` makes of the decoded bytes.
cut_cursor : Option (Str × Str) → Result Error (Option Cursor)
cut_cursor none = err (other (codes "store: malformed continue token"))
cut_cursor (some (project, name)) = ok (some (record { project = project; name = name }))

-- The error text of the base64 decoder, which names the place, is not kept.
open_token : Option Str → Result Error (Option Cursor)
unfolding cut_cursor
open_token none = err (other (codes "store: invalid continue token"))
open_token (some raw) = cut_cursor (cut 0 raw)

-- `decodeContinue`; `none` is a nil cursor.
unfoldable pub decode_continue : Str → Result Error (Option Cursor)
unfolding open_token
decode_continue [] = ok none
decode_continue (c ∷ token) = open_token (Base64.decode (c ∷ token))
