-- ===== src/Client/Config/Upgrade/Tests.antt =====
-- A configuration of version 3, and one from the future.
use alkasir.Base.{ℕ, ◌≡◌, refl, true, some, [], arith, codes}
use alkasir.Base.Dict.{values}
use alkasir.Shared.Connection.{bare}
use alkasir.Client.Config.Settings.{Settings, Config}
use alkasir.Client.Config.Upgrade.{Environment, upgraded, upgrade_config, changes_1, changes_5}
use alkasir.Client.Config.Upgrade.Laws.{BuiltInDecode, Keeps, upgrade_config-arrives}

abbrev env : Environment
env = record {
  central_addr = [];
  new_key = codes "key";
  md5_hex = λ s. s;
  decode = λ s. some (record (bare (codes "obfs4") [] []) { id = s });
  range = values;
}

abbrev config : ℕ → Config
config version = record {
  settings = record {
    version = version;
    last_id = 0;
    local = record {
      client_bind_addr = codes "127.0.0.1:8899";
      client_auth_key = codes "old";
      country_code = codes "SE";
      language = codes "sv";
      client_auto_update = true;
      blocklist_auto_update = true;
      central_addr = codes "https://central.example";
    };
    connections = [];
    transports = [];
  };
  blocked_hosts_central = record { name = []; hosts = []; country_code = [] };
  blocked_hosts = record { name = []; hosts = []; country_code = [] };
  direct_hosts = record { name = []; hosts = []; country_code = [] };
  config_read = true;
}

env-BuiltInDecode : BuiltInDecode env
unfolding changes_1 changes_5
env-BuiltInDecode = ground arith

upgrade_config-arrives_example :
    (s : Settings) × (upgrade_config env (config 3)
      ≡ upgraded true (record (config 3) { settings = s }))
    × (s.version ≡ 6)
    × Keeps (config 3).settings s
upgrade_config-arrives_example =
    upgrade_config-arrives env env-BuiltInDecode (config 3) refl (omega arith)
