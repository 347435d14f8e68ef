-- ===== src/Auth.antt =====
-- internal/auth: providers, the request identity, and the interceptor.
pub mod Interceptor
use kestrai.Prelude.{Option, none, some, List, [], ◌++◌, Result, ok, err, if◌then◌else◌}
use kestrai.Text.{Str, codes, str_eq, is_empty}
use kestrai.Store.{Labels}

abbrev pub default_tenant : Str
default_tenant = codes "default"

pub record Identity : Type 0 where
  pub subject : Str
  pub tenant_id : Str
  pub groups : List Str
  pub extra : Labels

-- internal/auth/context.go: a context is what the program reads of it, the identity that it carries,
-- if there is one.
abbrev pub Context : Type 0
Context = Option Identity

-- `ContextWithIdentity`; the identity takes the place of one that is there.
abbrev pub context_with_identity : Context → Identity → Context
context_with_identity ctx id = some id

-- `IdentityFromContext`
abbrev pub identity_from_context : Context → Option Identity
identity_from_context ctx = ctx

-- A header has a list of values.
abbrev pub Headers : Type 0
Headers = List (Str × List Str)

pub record Credentials : Type 0 where
  pub token : Str
  pub metadata : Headers

-- A `Provider`: an identity, or the text of the error.
pub record Provider : Type 0 where
  pub name : Str
  pub authenticate : Credentials → Result Str Identity

abbrev pub local_dev_name : Str
local_dev_name = codes "local-dev"

-- `LocalDev`
unfoldable pub local_dev : Provider
local_dev = record {
  name = local_dev_name;
  authenticate = λ creds.
      ok (record { subject = local_dev_name; tenant_id = default_tenant; groups = []; extra = [] });
}

pub record StaticToken : Type 0 where
  pub token : Str
  pub tenant_id : Str

-- `NewStaticToken`, with the option `WithTenant` if one is given.
unfoldable pub new_static_token : Str → Option Str → Result Str StaticToken
new_static_token [] tenant = err (codes "auth: static-token provider requires a non-empty token")
new_static_token token none = ok (record { token = token; tenant_id = default_tenant })
new_static_token token (some tenant) = ok (record { token = token; tenant_id = tenant })

abbrev pub unauthenticated : Str
unauthenticated = codes "authentication failed"

abbrev pub static_token_name : Str
static_token_name = codes "static-token"

-- `StaticToken.Authenticate`; the constant-time comparison decides equality.
unfoldable pub check_token : StaticToken → Credentials → Result Str Identity
check_token s creds =
    if is_empty creds.token
    then err (unauthenticated ++ codes ": missing bearer token")
    else if str_eq creds.token s.token
    then ok
        (record { subject = static_token_name; tenant_id = s.tenant_id; groups = []; extra = [] })
    else err (unauthenticated ++ codes ": invalid bearer token")

unfoldable pub static_token : StaticToken → Provider
unfolding check_token
static_token s = record { name = static_token_name; authenticate = check_token s }
