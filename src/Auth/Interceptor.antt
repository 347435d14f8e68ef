-- ===== src/Auth/Interceptor.antt =====
-- internal/auth/interceptor.go: the interceptor that authenticates gRPC calls. The context of a call
-- is what the handlers read of it, the identity. A handler takes a state and returns the next one.
pub mod Guards
use kestrai.Prelude.{
  ℕ, ◌+◌, Bool, true, false, ◌&&◌, ◌||◌, Option, none, some, List, [], ◌∷◌, Result, ok, err,
  if◌then◌else◌, leb, length, take, drop, map_err, map,
}
use kestrai.Text.{Str, codes, str_eq}
use kestrai.Text.Trim.{trim_space}
use kestrai.Auth.{Context, context_with_identity, Identity, Headers, Credentials, Provider}
use kestrai.Server.Status.{Status, status, Code}

abbrev pub authorization_header : Str
authorization_header = codes "authorization"

-- `md.Get(key)` of a key in lower case; a missing key has no values.
unfoldable pub header_values : Headers → Str → List Str
header_values [] key = []
header_values ((k, values) ∷ md) key =
    let later = header_values md key in if str_eq k key then values else later

abbrev pub lower : ℕ → ℕ
lower c = if leb b'A' c && leb c b'Z' then c + 32 else c

abbrev pub prefix : Str
prefix = codes "bearer "

-- strings.EqualFold against the prefix: none of its letters has a fold outside ASCII.
abbrev pub has_prefix : Str → Bool
has_prefix v = leb (length prefix) (length v) && str_eq (map lower (take 7 v)) prefix

unfoldable pub token_of : List Str → Str
token_of [] = []
token_of (v ∷ values) = if has_prefix v then trim_space (drop 7 v) else []

-- `bearerToken`
unfoldable pub bearer_token : Headers → Str
unfolding token_of
bearer_token md = token_of (header_values md authorization_header)

-- The public methods are the keys of a map.
pub record Interceptor : Type 0 where
  pub provider : Provider
  pub public : List Str

unfoldable pub new_interceptor : Provider → List Str → Interceptor
new_interceptor provider methods = record { provider = provider; public = methods }

unfoldable pub is_public : List Str → Str → Bool
is_public [] method = false
is_public (m ∷ methods) method = str_eq m method || is_public methods method

-- `authenticate`, from the headers of the call to the identity in the context
unfoldable pub authenticate : Interceptor → Headers → Result Status Identity
authenticate i md =
    map_err (status Code.unauthenticated)
      (i.provider.authenticate (record { token = bearer_token md; metadata = md }))

abbrev pub Handler : Type 0 → Type 0 → Type 0
Handler S A = Context → S → S × Result Status A

-- The call behind the interceptor. `ctx` is the context before.
abbrev pub admitted :
    {S A : Type 0} → Context → Result Status Identity → Handler S A → S → S × Result Status A
admitted ctx (err e) handler s = (s, err e)
admitted ctx (ok id) handler s = handler (context_with_identity ctx id) s

-- `Unary`
unfoldable pub unary :
    {S A : Type 0} → Interceptor → Str → Headers → Context → Handler S A → S → S × Result Status A
unary i method md ctx handler s =
    if is_public i.public method then handler ctx s else admitted ctx (authenticate i md) handler s

-- `Stream`: the stream that the handler gets has the context of the identity.
unfoldable pub stream :
    {S : Type 0}
    → Interceptor
    → Str
    → Headers
    → Context
    → Handler S (Unit {0})
    → S
    → S × Result Status (Unit {0})
stream i method md ctx handler s =
    if is_public i.public method then handler ctx s else admitted ctx (authenticate i md) handler s
