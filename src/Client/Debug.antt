-- ===== src/Client/Debug.antt =====
-- pkg/debugexport/debug.go: NewDebugResponse, Encrypt, Decrypt and WriteToDisk. Hexadecimal text, JSON, the
-- sealed boxes of sodiumbox and the profiles of the runtime are arguments; the configuration is its JSON text.
pub mod Laws
mod Tests
use alkasir.Base.{
  ℕ, ◌<◌, Bool, true, false, not, ◌&&◌, Option, none, some, List, [], ◌∷◌, ◌++◌, Str, str_eq, codes,
  ltb, ◌==◌, length, take, if◌then◌else◌,
}
use alkasir.Base.Dict.{Dict, insert}
use alkasir.Base.Scan.{write_lines}

pub record DebugHeader : Type 0 where
  pub version : Str
  pub created_at : Str
  pub id : Str
  pub os : Str
  pub arch : Str
  pub cmd : Str
  pub go_version : Str

pub record DebugResponse : Type 0 where
  pub header : DebugHeader
  pub config : Str
  pub log : List Str
  pub heap : List Str
  pub go_routines : List Str
  pub block : List Str
  pub thread_create : List Str
  pub encrypted : Str

-- Only the header and the box; all other fields have their zero values.
abbrev pub sealed : DebugHeader → Str → DebugResponse
sealed header box = record {
  header = header;
  config = [];
  log = [];
  heap = [];
  go_routines = [];
  block = [];
  thread_create = [];
  encrypted = box;
}

pub record Tools : Type 0 where
  pub hex_encode : Str → Str
  pub hex_decode : Str → Option Str
  pub marshal : DebugResponse → Option Str
  pub unmarshal : Str → Option DebugResponse
  -- `sodiumbox.Seal` of the bytes for a public key, and `sodiumbox.SealOpen` with both keys
  pub seal : Str → Str → Option Str
  pub seal_open : Str → Str → Str → Option Str

pub data Encryption : Type 0 where
  -- The key was empty.
  no_key : Encryption
  -- `lg.Fatalln`, or the panic of a slice that is longer than the key.
  crashed : Encryption
  -- No error; also where the response is not encrypted.
  done : DebugResponse → Encryption

-- From the decoded key on.
unfoldable pub seal_response : Tools → Str → DebugResponse → Encryption
seal_response t key d = elim (t.marshal d) [
  | none ↦ done d
  | some bytes ↦ elim (t.seal bytes (take 32 key)) [
    | none ↦ done d
    | some box ↦ done (sealed d.header (t.hex_encode box))
  ]
]

unfoldable pub encrypt : Tools → Str → DebugResponse → Encryption
unfolding seal_response
encrypt t pub_key d = if str_eq pub_key [] then no_key else elim (t.hex_decode pub_key) [
  | none ↦ crashed
  | some key ↦ if ltb (length key) 32 then crashed else seal_response t key d
]

-- The end of NewDebugResponse: the response as it was made, and the public key of the build. `none` is the end
-- of the program.
unfoldable pub new_debug_response : Tools → Str → DebugResponse → Option DebugResponse
unfolding encrypt
new_debug_response t public_key d =
    if str_eq public_key []
    then some d
    else elim (encrypt t public_key d) [ no_key ↦ some d | crashed ↦ none | done d' ↦ some d' ]

pub data DecryptError : Type 0 where
  no_public_key no_secret_key not_encrypted public_key_text public_key_length : DecryptError
  secret_key_text secret_key_length box_text box_content content : DecryptError

pub data Result {ℓ} (A : Type ℓ) : Type ℓ where
  ok : A → Result A
  error : DecryptError → Result A

infixl 5 ◌>>=◌
abbrev pub ◌>>=◌ {ℓ κ} : {A : Type ℓ} {B : Type κ} → Result A → (A → Result B) → Result B
ok a >>= f = f a
error e >>= f = error e

abbrev pub or_error {ℓ} : {A : Type ℓ} → DecryptError → Option A → Result A
or_error e none = error e
or_error e (some a) = ok a

abbrev pub guard : Bool → DecryptError → Result (Unit {0})
guard true e = ok tt
guard false e = error e

-- A key of 32 bytes.
unfoldable pub decode_key : Tools → DecryptError → DecryptError → Str → Result Str
decode_key t bad_text bad_length text = do
  key ← or_error bad_text (t.hex_decode text)
  _ ← guard (length key == 32) bad_length
  ok key

unfoldable pub decrypt : Tools → Str → Str → DebugResponse → Result DebugResponse
unfolding decode_key
decrypt t pub_key sec_key d = do
  _ ← guard (not (str_eq pub_key [])) no_public_key
  _ ← guard (not (str_eq sec_key [])) no_secret_key
  _ ← guard (not (str_eq d.encrypted [])) not_encrypted
  pk ← decode_key t public_key_text public_key_length pub_key
  sk ← decode_key t secret_key_text secret_key_length sec_key
  box ← or_error box_text (t.hex_decode d.encrypted)
  bytes ← or_error box_content (t.seal_open box pk sk)
  or_error content (t.unmarshal bytes)

-- What can be written below the directory of the report.
pub record Disk : Type 0 where
  pub can_write : Str → Bool
  pub header_json : DebugHeader → Str
  pub config_json : Str → Str

abbrev pub reports : Disk → DebugResponse → List (Str × Str)
reports k d =
    (codes "header.json", k.header_json d.header)
    ∷ (codes "log.txt", write_lines d.log)
    ∷ (codes "heap.txt", write_lines d.heap)
    ∷ (codes "goroutines.txt", write_lines d.go_routines)
    ∷ (codes "block.txt", write_lines d.block)
    ∷ (codes "threadcreate.txt", write_lines d.thread_create)
    ∷ (codes "config.json", k.config_json d.config)
    ∷ []

-- Each file is tried, also after one that failed.
unfoldable pub write_files : (Str → Bool) → List (Str × Str) → Dict Str → Bool × Dict Str
write_files can_write [] files = (true, files)
write_files can_write ((name, text) ∷ rest) files =
    if can_write name
    then write_files can_write rest (insert name text files)
    else (false, (write_files can_write rest files).1)

-- Whether there was no error, and the files of the directory, which is new.
unfoldable pub write_to_disk : Disk → DebugResponse → Bool × Dict Str
unfolding write_files
write_to_disk k d =
    if not (str_eq d.encrypted []) then (false, []) else write_files k.can_write (reports k d) []
