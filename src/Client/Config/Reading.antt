-- ===== src/Client/Config/Reading.antt =====
-- pkg/client/internal/config/config.go: reading the settings. The bytes of the file are given, if it can
-- be read; `parse` is the reading of Settings from JSON and `template` the built-in text. Making the
-- directory, deleting a broken file and logging are left out.
mod Laws
use alkasir.Base.{Bool, true, false, Option, none, some, List, [], ◌∷◌, map, Str, codes}
use alkasir.Base.Dict.{Dict, insert, values}
use alkasir.Shared.Connection.{Formats, ensure_id}
use alkasir.Shared.Transport.{Transport}
use alkasir.Client.Hosts.{HostsFile, read}
use alkasir.Client.Config.Settings.{Settings, Config}

unfoldable pub parse_config : Formats → (Str → Option Settings) → Str → Option Settings
parse_config f parse config = elim (parse config) [
  | none ↦ none
  | some s ↦ some (record s { connections = map (ensure_id f) s.connections })
]

-- `transports[v.Name] = v` for each.
unfoldable pub by_name : List Transport → Dict Transport → Dict Transport
by_name [] transports = transports
by_name (v ∷ vs) transports = by_name vs (insert v.name v transports)

abbrev pub built_in : List Transport
built_in =
    record { name = codes "obfs3"; bundled = true; command = []; tor_pt = true }
    ∷ record { name = codes "obfs4"; bundled = true; command = []; tor_pt = true }
    ∷ record { name = codes "shadowsocks-client"; bundled = true; command = []; tor_pt = false }
    ∷ []

module _ (f : Formats) (parse : Str → Option Settings) (template : Str) where
  -- The settings of the file, or of the template where there are none; nothing on a panic.
  unfoldable pub chosen_settings : Option Str → Option Settings
  chosen_settings none = parse_config f parse template
  chosen_settings (some file) = elim (parse_config f parse file) [
    | none ↦ parse_config f parse template
    | some s ↦ some s
  ]

  unfoldable pub read_settings : Option Str → Config → Option Config
  read_settings file c = elim (chosen_settings file) [
    | none ↦ none
    | some s ↦ some (record c {
      settings = record s { transports = by_name built_in (by_name (values s.transports) []) };
    })
  ]

  abbrev hosts_file : Str → Config → HostsFile
  hosts_file name c = record {
    name = name;
    hosts = [];
    country_code = c.settings.local.country_code;
  }

  -- The list of the central server is read, the others start empty. An error is only logged.
  unfoldable pub read_host_files : Option Str → Config → Config
  read_host_files central c = record c {
    blocked_hosts = hosts_file (codes "local-blocked") c;
    blocked_hosts_central = (read central (hosts_file (codes "central-blocked") c)).0;
    direct_hosts = hosts_file (codes "local-direct") c;
  }

  unfoldable pub read_config : Option Str → Option Str → Config → Option Config
  read_config file central c = elim (read_settings file c) [
    | none ↦ none
    | some c' ↦ some (record (read_host_files central c') { config_read = true })
  ]
