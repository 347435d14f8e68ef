-- ===== src/Store/Cursor/Token.antt =====
-- A continue token gives its cursor back.
use kestrai.Prelude.{◌≡◌, ◌≢◌, refl, some, [], ◌∷◌, ◌++◌, arith, ok, All-append, ◌<◌}
use kestrai.Text.{Str}
use kestrai.Text.Cut.{Lacks, cut-append}
use kestrai.Base64.{decode}
use kestrai.Base64.RoundTrip.{IsBytes, decode-encode, encode-ne-nil}
use kestrai.Store.Cursor.{Cursor, encode_continue, decode_continue, open_token, cut_cursor}

nonempty_with_nul : (project name : Str) → project ++ 0 ∷ name ≢ []
nonempty_with_nul [] name e = cc
nonempty_with_nul (c ∷ project) name e = cc

-- The token of a cursor is never the empty token, which stands for the last page.
pub encode_continue-ne-nil : (c : Cursor) → encode_continue c ≢ []
unfolding encode_continue
encode_continue-ne-nil c = encode-ne-nil _ (nonempty_with_nul c.project c.name)

decode_nonempty :
    (token raw : Str)
    → token ≢ []
    → decode token ≡ some raw
    → decode_continue token ≡ open_token (some raw)
unfolding decode_continue
decode_nonempty [] raw h e = absurd (h refl)
decode_nonempty (c ∷ token) raw h e = rw e

-- Decoding the token of a cursor gives the cursor back, when its strings are strings of bytes and
-- its project has no NUL byte.
pub decode_continue-encode_continue :
    (c : Cursor)
    → IsBytes c.project
    → IsBytes c.name
    → Lacks 0 c.project
    → decode_continue (encode_continue c) ≡ ok (some c)
unfolding encode_continue open_token cut_cursor
decode_continue-encode_continue c hp hn h = rw (
  decode_nonempty (encode_continue c) (c.project ++ 0 ∷ c.name) (encode_continue-ne-nil c)
      (decode-encode _ (All-append (λ b. b < 256) c.project (0 ∷ c.name) hp (omega arith, hn))),
  cut-append 0 c.project c.name h,
)
