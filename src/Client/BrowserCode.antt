-- ===== src/Client/BrowserCode.antt =====
-- pkg/browsercode/browsercode.go: the code that tells the browser extension the key, the host and the port of
-- the client. How the net package splits an address, and the random key, are arguments; the clipboard is left
-- out.
pub mod Laws
mod Tests
use alkasir.Base.{
  ℕ, suc, ◌+◌, Bool, true, false, ◌==◌, Option, none, some, List, [], ◌∷◌, ◌++◌, Str, str_eq, codes,
  if◌then◌else◌,
}

pub record BrowserCode : Type 0 where
  pub key : Str
  pub host : Str
  pub port : Str

abbrev pub colon : ℕ
colon = b':'

abbrev pub cons_first : ℕ → List Str → List Str
cons_first a [] = (a ∷ []) ∷ []
cons_first a (p ∷ ps) = (a ∷ p) ∷ ps

-- `strings.Split(s, ":")`
unfoldable pub split : Str → List Str
split [] = [] ∷ []
split (a ∷ s) = let parts = split s in if a == colon then [] ∷ parts else cons_first a parts

unfoldable pub addr : BrowserCode → Str
addr b = b.host ++ (colon ∷ b.port)

-- The host as it is written: nothing for the two usual names of this machine.
unfoldable pub written_host : Str → Str
written_host host =
    if str_eq host (codes "localhost")
    then []
    else if str_eq host (codes "127.0.0.1")
    then []
    else host

-- `none` is the error of a missing key.
unfoldable pub encode : BrowserCode → Option Str
unfolding written_host
encode b =
    if str_eq b.key []
    then none
    else some (b.key ++ (colon ∷ (written_host b.host ++ (colon ∷ b.port))))

-- The host that is meant.
unfoldable pub read_host : Str → Str
read_host host = if str_eq host [] then codes "localhost" else host

unfoldable pub of_parts : List Str → Option BrowserCode
unfolding read_host
of_parts [] = none
of_parts (_ ∷ []) = none
of_parts (_ ∷ _ ∷ []) = none
of_parts (key ∷ host ∷ port ∷ []) = some (record { key = key; host = read_host host; port = port })
of_parts (_ ∷ _ ∷ _ ∷ _ ∷ _) = none

unfoldable pub decode : Str → Option BrowserCode
unfolding of_parts split
decode encoded = of_parts (split encoded)

-- `split_host_port` is that of the net package; `none` is an error.
unfoldable pub set_hostport : (Str → Option (Str × Str)) → Str → BrowserCode → Option BrowserCode
unfolding read_host
set_hostport split_host_port hostport b = elim (split_host_port hostport) [
  | none ↦ none
  | some (host, port) ↦
      if str_eq port [] then none else some (record b { host = read_host host; port = port })
]

-- New, with the random key.
unfoldable pub new : (Str → Option (Str × Str)) → Str → Str → Option BrowserCode
unfolding set_hostport
new split_host_port key hostport =
    elim (set_hostport split_host_port hostport (record { key = []; host = []; port = [] })) [
      | none ↦ none
      | some b ↦ some (record b { key = key })
    ]
