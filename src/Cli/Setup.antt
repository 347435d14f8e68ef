-- ===== src/Cli/Setup.antt =====
-- How internal/cli sets up its two ends: `runUp` and its helpers of up.go, the roles of server.go,
-- and the connection of client.go and config.go. Sockets, signals and flags are not modelled.
pub mod Access
use kestrai.Prelude.{
  Bool, true, false, Option, none, some, List, [], ◌∷◌, ◌++◌, map, Result, ok, err, if◌then◌else◌,
  ◌||◌,
}
use kestrai.Text.{Str, codes, str_eq, is_empty}
use kestrai.Auth.{Headers, Provider, local_dev}
use kestrai.Auth.Interceptor.{Interceptor, new_interceptor}
use kestrai.Server.System.{Server, new_server}
use kestrai.Server.Dispatch.{Request, Response, qualified, system_service}

-- `systemMethods`
unfoldable pub system_methods : List Str
system_methods = map (qualified system_service) (codes "GetHealth" ∷ codes "GetVersion" ∷ [])

-- The interceptor and the server of `runUp`.
unfoldable pub up_interceptor : Interceptor
up_interceptor = new_interceptor local_dev system_methods

unfoldable pub up_server : Server
up_server = new_server (record { version = []; api_version = []; has_store = true })

-- The environment: a variable that is not set is not there.
abbrev pub Environment : Type 0
Environment = Str → Option Str

abbrev env_value : Option Str → Str → Str
env_value none fallback = fallback
env_value (some v) fallback = if is_empty v then fallback else v

-- `envOr`
unfoldable pub env_or : Environment → Str → Str → Str
env_or env key fallback = env_value (env key) fallback

-- `defaultDBPath`; the home directory, where it is known, is a clean path other than the root, so that
-- filepath.Join puts the parts behind it.
unfoldable pub default_db_path : Option Str → Str
default_db_path none = codes "kestrai-state.db"
default_db_path (some home) = home ++ codes "/.kestrai/state.db"

-- The settings of a client with no flags given.
pub record ClientConfig : Type 0 where
  pub address : Str
  pub token : Str
  pub output : Str

unfoldable pub bind_flags : Environment → ClientConfig
bind_flags env = record {
  address = env_or env (codes "KESTRAI_ADDRESS") (codes "127.0.0.1:8585");
  token = env_or env (codes "KESTRAI_TOKEN") [];
  output = [];
}

-- `bearerCreds.GetRequestMetadata`
unfoldable pub request_metadata : Str → Headers
request_metadata token = (codes "authorization", (codes "Bearer " ++ token) ∷ []) ∷ []

-- What `dial` attaches to every call.
unfoldable pub call_headers : ClientConfig → Headers
call_headers cfg = if is_empty cfg.token then [] else request_metadata cfg.token

-- `roleNames`, which are sorted.
abbrev pub role_names : List Str
role_names = codes "agent-runtime" ∷ codes "api" ∷ codes "reconciler" ∷ codes "scheduler" ∷ []

abbrev has_role : Str → List Str → Bool
has_role role [] = false
has_role role (r ∷ roles) = str_eq r role || has_role role roles

-- `strings.Join(names, ", ")`
abbrev joined : List Str → Str
joined [] = []
joined (r ∷ []) = r
joined (r ∷ q ∷ roles) = r ++ codes ", " ++ joined (q ∷ roles)

-- `kestrai server <role>`: the lines that it prints, or its error.
unfoldable pub server_command : Str → Result Str (List Str)
server_command role =
    if has_role role role_names
    then ok (
        (codes "split-process mode (server " ++ role ++ codes ") is not wired until Phase 1.")
        ∷ codes "for local development run: kestrai up"
        ∷ [])
    else err (codes "unknown role " ++ role ++ codes "; valid roles: " ++ joined role_names)
