-- ===== src/Client/Config/Settings.antt =====
-- pkg/client/internal/config/config.go: the settings and the configuration.
use alkasir.Base.{ℕ, Bool, Str, List}
use alkasir.Base.Dict.{Dict}
use alkasir.Shared.Connection.{Connection}
use alkasir.Shared.Transport.{Transport}
use alkasir.Client.Hosts.{HostsFile}

pub record LocalSettings : Type 0 where
  pub client_bind_addr : Str
  pub client_auth_key : Str
  pub country_code : Str
  pub language : Str
  pub client_auto_update : Bool
  pub blocklist_auto_update : Bool
  pub central_addr : Str

-- A version is an `int` in Go; a negative one is treated as a future version is.
pub record Settings : Type 0 where
  pub version : ℕ
  pub last_id : ℕ
  pub local : LocalSettings
  pub connections : List Connection
  pub transports : Dict Transport

pub record Config : Type 0 where
  pub settings : Settings
  pub blocked_hosts_central : HostsFile
  pub blocked_hosts : HostsFile
  pub direct_hosts : HostsFile
  pub config_read : Bool
