-- ===== src/Server/System.antt =====
-- internal/server/system.go, internal/version, and what `New` of internal/server/server.go keeps of
-- its configuration.
use kestrai.Prelude.{ok, Result, Bool, if◌then◌else◌}
use kestrai.Text.{Str, codes, is_empty}
use kestrai.Server.Status.{Status}

-- `version.Version`, which a build replaces.
abbrev pub default_version : Str
default_version = codes "0.0.0-dev"

abbrev pub default_api_version : Str
default_api_version = codes "kestrai.dev/v1alpha1"

-- `Config`; of the store it counts here whether it is nil.
pub record Config : Type 0 where
  pub version : Str
  pub api_version : Str
  pub has_store : Bool

-- The services that `New` registers: the system service with its versions, and the project and the
-- workflow service over the store or, without one, as their Unimplemented types.
pub record Server : Type 0 where
  pub version : Str
  pub api_version : Str
  pub crud : Bool

abbrev or_else : Str → Str → Str
or_else s default = if is_empty s then default else s

-- `New`
unfoldable pub new_server : Config → Server
new_server cfg = record {
  version = or_else cfg.version default_version;
  api_version = or_else cfg.api_version default_api_version;
  crud = cfg.has_store;
}

pub data ServingStatus : Type 0 where
  unspecified serving not_serving : ServingStatus

pub record VersionInfo : Type 0 where
  pub version : Str
  pub api_version : Str

-- `GetHealth`
unfoldable pub get_health : Server → Result Status ServingStatus
get_health srv = ok ServingStatus.serving

-- `GetVersion`
unfoldable pub get_version : Server → Result Status VersionInfo
get_version srv = ok (record { version = srv.version; api_version = srv.api_version })
