-- ===== src/Client/Debug/Tests.antt =====
-- A response of one line, and boxes that hold the bytes behind a mark.
use alkasir.Base.{
  ℕ, zero, suc, ◌≡◌, ◌⊎◌, refl, true, false, none, some, [], ◌∷◌, Str, codes, str_eq, ltb, length,
  if◌then◌else◌,
}
use alkasir.Client.Debug.{
  DebugHeader, DebugResponse, Tools, sealed, ok, new_debug_response, decrypt, Disk, write_to_disk,
}
use alkasir.Client.Debug.Laws.{IsSealed, NotSealed, decrypt-encrypt, new_debug_response-hides}

abbrev header : DebugHeader
header = record {
  version = codes "1";
  created_at = codes "now";
  id = codes "x";
  os = codes "linux";
  arch = codes "386";
  cmd = codes "alkasir-client";
  go_version = codes "1.6";
}

abbrev logged : DebugResponse
logged = record (sealed header []) { log = codes "started" ∷ [] }

abbrev tools : Tools
tools = record {
  hex_encode = λ s. s;
  hex_decode = λ s. some s;
  marshal = λ _. some (codes "json");
  unmarshal = λ _. some logged;
  seal = λ bytes key. some (1 ∷ bytes);
  seal_open = λ box pk sk. elim box [ [] ↦ none | _ ∷ bytes ↦ some bytes ];
}

abbrev zeros : ℕ → Str
zeros zero = []
zeros (suc n) = 0 ∷ zeros n

decrypt-encrypt_example :
    (new_debug_response tools (zeros 32) logged ≡ some (sealed header (1 ∷ codes "json")))
    × (decrypt tools (zeros 32) (zeros 32) (sealed header (1 ∷ codes "json")) ≡ ok logged)
decrypt-encrypt_example =
    decrypt-encrypt tools (zeros 32) (zeros 32) (zeros 32) (zeros 32) (codes "json")
      (1 ∷ codes "json") logged (cc) (cc) refl refl refl refl refl refl refl refl refl (cc)

new_debug_response-hides_example :
    ((new_debug_response tools (zeros 32) logged ≡ none)
      × ((key : Str) → tools.hex_decode (zeros 32) ≡ some key → ltb (length key) 32 ≡ true))
    ⊎ ((key : Str) × (tools.hex_decode (zeros 32) ≡ some key)
        × (((bytes : Str) × (box : Str) × IsSealed tools key logged bytes box
              × (new_debug_response tools (zeros 32) logged ≡ some (sealed header box)))
            ⊎ ((new_debug_response tools (zeros 32) logged ≡ some logged)
                × NotSealed tools key logged)))
new_debug_response-hides_example = new_debug_response-hides tools (zeros 32) logged (cc)

-- The log cannot be written.
abbrev disk : Disk
disk = record {
  can_write = λ name. if str_eq name (codes "log.txt") then false else true;
  header_json = λ _. codes "{}";
  config_json = λ s. s;
}

log_failed : (write_to_disk disk logged).0 ≡ false
unfolding write_to_disk str_eq
log_failed = refl
