-- ===== src/Client/Hosts.antt =====
-- pkg/client/internal/config/hostsfile.go: a list of hosts, kept as a text file with one host to a
-- line. The file system is outside: reading is given the bytes of the file, or that it cannot be
-- opened; writing gives the bytes, where the file can be created and written.
pub mod Laws
mod Tests
use alkasir.Base.{
  Bool, true, false, Option, none, some, List, [], ◌∷◌, ◌++◌, Str, str_eq, not, if◌then◌else◌,
}
use alkasir.Base.Trim.{trim_space}
use alkasir.Base.Scan.{scan, write_lines}

pub record HostsFile : Type 0 where
  pub name : Str
  pub hosts : List Str
  pub country_code : Str

-- The loop of Add: is the host there already?
unfoldable pub contains : Str → List Str → Bool
contains host [] = false
contains host (h ∷ hosts) = if str_eq h host then true else contains host hosts

unfoldable pub add : Str → HostsFile → HostsFile
add host f =
    let host' = trim_space host in
    if contains host' f.hosts then f else record f { hosts = f.hosts ++ host' ∷ [] }

-- The loop of Remove.
unfoldable pub without : Str → List Str → List Str
without host [] = []
without host (h ∷ hosts) =
    let rest = without host hosts in if not (str_eq h host) then h ∷ rest else rest

unfoldable pub remove : Str → HostsFile → HostsFile
remove host f = record f { hosts = without (trim_space host) f.hosts }

pub data FileError : Type 0 where
  cannot_open cannot_scan : FileError

-- The new state of the list, and the error if there is one: the list is then as it was.
unfoldable pub read : Option Str → HostsFile → HostsFile × Option FileError
read none f = (f, some cannot_open)
read (some file) f =
    let (lines, failed) = scan file in
    if failed then (f, some cannot_scan) else (record f { hosts = lines }, none)

-- The bytes that are written, line by line.
unfoldable pub write : HostsFile → Str
write f = write_lines f.hosts
