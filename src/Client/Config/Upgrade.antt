-- ===== src/Client/Config/Upgrade.antt =====
-- pkg/client/internal/config/updates.go, UpgradeConfig: the configuration is taken through the
-- versions one by one. From outside come the central server's address that the build sets, a new
-- key of the browser code, the MD5 sum in hexadecimal, the decoding of connections and the order
-- of a map.
pub mod Laws
mod Tests
use alkasir.Base.{
  ℕ, zero, suc, Bool, true, false, Option, none, some, List, [], ◌∷◌, ltb, ◌==◌, not, Str, codes,
  str_eq, if◌then◌else◌,
}
use alkasir.Base.Dict.{Dict}
use alkasir.Shared.Connection.{Connection}
use alkasir.Client.Config.Settings.{LocalSettings, Settings, Config}
use alkasir.Client.Config.Connections.{ModifyConnections, update}

pub record Environment : Type 0 where
  pub central_addr : Str
  pub new_key : Str
  pub md5_hex : Str → Str
  pub decode : Str → Option Connection
  pub range : Dict Connection → List Connection

-- The changes to the connections of versions 1, 2 and 5.
unfoldable pub changes_1 : List Connection → ModifyConnections
changes_1 connections = record {
  connections = connections;
  additions =
      codes
        "aieyJ0Ijoib2JmczQiLCJzIjoiXCJjZXJ0PUdzVFAxVmNwcjBJeE9aUkNnUHZ0Z1JsZVJWQzFTRmpYWVhxSDVvSEhYVFJ4M25QVnZXN2xHK2RkREhKWmw4YjBOVFZ1VGc7aWF0LW1vZGU9MFwiIiwiYSI6IjEzOS4xNjIuMjIxLjEyMzo0NDMifQ=="
      ∷ codes
          "aieyJ0Ijoib2JmczQiLCJzIjoiXCJjZXJ0PTMzdXNkSUVDemFyRUpsWFpQM0w0Y2x0bi9vNXdhVUlOcHRUU0JSYk5BQVpVcVlsajhiZm5MWGYyb3BFNHE2c0NlYzY3Ync7aWF0LW1vZGU9MFwiIiwiYSI6IjQ2LjIxLjEwMi4xMDk6NDQzIn0="
      ∷ [];
  removals = codes "xFa9T1i6bJMJIvK6kxFA1xvQGfW58BY3OLkrPXbpvAY=" ∷ [];
  protections = [];
}

unfoldable pub changes_2 : List Connection → ModifyConnections
changes_2 connections = record {
  connections = connections;
  additions = [];
  removals = codes "Ul3D2G1dI3_Z4sLXQ9IUQdIFH4pSDyNjTwf_auy93Os" ∷ [];
  protections =
      codes "z0VZS-Kx9tMfoBEyX6br19GaJgKDe0IK0i6JKyhKp2s"
      ∷ codes "ipJ2oW8xr9TFDvfU92qGvDaPwZttf_GSjGZ4KW7inBI"
      ∷ [];
}

unfoldable pub changes_5 : List Connection → ModifyConnections
changes_5 connections = record {
  connections = connections;
  additions =
      codes
        "aieyJ0Ijoib2JmczQiLCJzIjoiXCJjZXJ0PWpvaUcwTFdzYmNDUWIvSG5zOWlWKytvUzMvSDBORGZ0RlJDRnZNbEpiYjRNZXByYThLZ2tLS2tMWDVaK3ZIV3M4ZWliQmc7aWF0LW1vZGU9MFwiIiwiYSI6IjEyOC4xOTkuOTkuMTY0OjQ0MyJ9"
      ∷ [];
  removals = codes "ipJ2oW8xr9TFDvfU92qGvDaPwZttf_GSjGZ4KW7inBI" ∷ [];
  protections = [];
}

pub data Upgraded : Type 0 where
  upgraded : Bool → Config → Upgraded
  not_read : Upgraded
  fatal : Upgraded

module _ (env : Environment) where
  -- The default of `centralAddr`.
  unfoldable pub central_server : Str
  central_server =
      if str_eq env.central_addr [] then codes "https://localhost:8080" else env.central_addr

  unfoldable pub modified : (List Connection → ModifyConnections) → ℕ → Settings → Option Settings
  modified changes next s = elim (update env.range env.decode (changes s.connections)) [
    | none ↦ none
    | some cs ↦ some (record s { connections = cs; version = next })
  ]

  -- Each case of the `switch`, and those that it falls through to.
  unfoldable pub from_5 : Settings → Option Settings
  from_5 s = modified changes_5 6 s

  unfoldable pub from_4 : Settings → Option Settings
  from_4 s =
      let addr =
        if str_eq (env.md5_hex s.local.central_addr) (codes "796547bd38f0d8722c2e0802de34b53f")
        then central_server
        else s.local.central_addr in
      from_5 (record s { local = record (s.local) { central_addr = addr }; version = 5 })

  unfoldable pub from_3 : Settings → Option Settings
  from_3 s = from_4 (record s {
    local = record (s.local) {
      client_auth_key = env.new_key;
      client_bind_addr = codes "127.0.0.1:8899";
    };
    version = 4;
  })

  unfoldable pub from_2 : Settings → Option Settings
  from_2 s = elim (modified changes_2 3 s) [ none ↦ none | some s' ↦ from_3 s' ]

  unfoldable pub from_1 : Settings → Option Settings
  from_1 s = elim (modified changes_1 2 s) [ none ↦ none | some s' ↦ from_2 s' ]

  unfoldable pub from_0 : Settings → Option Settings
  from_0 s =
      from_1 (record s { local = record (s.local) { central_addr = central_server }; version = 1 })

  unfoldable pub upgrade_from : ℕ → Settings → Option Settings
  upgrade_from zero s = from_0 s
  upgrade_from (suc zero) s = from_1 s
  upgrade_from (suc (suc zero)) s = from_2 s
  upgrade_from (suc (suc (suc zero))) s = from_3 s
  upgrade_from (suc (suc (suc (suc zero)))) s = from_4 s
  upgrade_from (suc (suc (suc (suc (suc zero))))) s = from_5 s
  upgrade_from (suc (suc (suc (suc (suc (suc n)))))) s = some s

  -- The result says whether the version changed.
  unfoldable pub upgrade_config : Config → Upgraded
  upgrade_config c =
      if not c.config_read then not_read else elim (upgrade_from c.settings.version c.settings) [
        | none ↦ fatal
        | some s ↦ upgraded (not (s.version == c.settings.version)) (record c { settings = s })
      ]
