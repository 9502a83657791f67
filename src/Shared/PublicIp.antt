-- ===== src/Shared/PublicIp.antt =====
-- pkg/shared/publicip.go: shuffleStrings, the loop that asks services for the public address, and
-- GetPublicIPAddr. Random numbers and what the services answer are arguments; waiting and logging are left out.
pub mod Shuffle
pub mod Loop
mod Tests
use alkasir.Base.{
  ℕ, zero, suc, ◌+◌, ◌-◌, ◌%◌, Bool, true, false, ◌==◌, ◌||◌, Option, none, some, List, [], ◌∷◌,
  Str, length, get_elem?, set, if◌then◌else◌,
}
use alkasir.Base.Trim.{trim_space}
use alkasir.Shared.Validator.{Ip, v4, v6, Net}

-- `slc[r], slc[i] = slc[i], slc[r]`; `none` is the panic of an index out of range.
unfoldable pub swap {ℓ} : {A : Type ℓ} → ℕ → ℕ → List A → Option (List A)
swap i r xs = elim (get_elem? xs i) [
  | none ↦ none
  | some x ↦ elim (get_elem? xs r) [ none ↦ none | some y ↦ some (set (set xs r x) i y) ]
]

-- The rounds from `i` on, `left` of them; `intn` is rand.Intn in each round.
unfoldable pub shuffle_from {ℓ} : {A : Type ℓ} → (ℕ → ℕ → ℕ) → ℕ → ℕ → List A → Option (List A)
unfolding swap
shuffle_from intn i zero xs = some xs
shuffle_from intn i (suc left) xs = elim (swap i (i + intn i (suc left)) xs) [
  | none ↦ none
  | some ys ↦ shuffle_from intn (i + 1) left ys
]

unfoldable pub shuffle_strings : (ℕ → ℕ → ℕ) → List Str → Option (List Str)
unfolding shuffle_from
shuffle_strings intn slc = shuffle_from intn 0 (length slc) slc

-- `released` is whether those who wait for an address go on.
pub record PublicIp : Type 0 where
  pub service_idx : ℕ
  pub ip : Option Ip
  pub released : Bool

abbrev pub start : PublicIp
start = record { service_idx = 0; ip = none; released = false }

pub data Answer : Type 0 where
  no_response unreadable : Answer
  text : Str → Answer

-- The head of the loop, with the number of services.
unfoldable pub advance : ℕ → PublicIp → PublicIp
advance n s =
    let idx = (s.service_idx + 1) % n in
    record s { service_idx = idx; released = s.released || idx == 0 }

unfoldable pub parsed : Net → Answer → Option Ip
parsed net no_response = none
parsed net unreadable = none
parsed net (text data_) = net.parse_ip (trim_space data_)

-- The rest of the loop, with the answer of the service.
unfoldable pub receive : Net → Answer → PublicIp → PublicIp
unfolding parsed
receive net answer s = elim (parsed net answer) [
  | none ↦ s
  | some ip ↦ record s { ip = some ip; released = true }
]

unfoldable pub run : Net → ℕ → List Answer → PublicIp → PublicIp
unfolding advance receive
run net n [] s = s
run net n (a ∷ answers) s = run net n answers (receive net a (advance n s))

abbrev pub to4 : Ip → Option Ip
to4 (v4 a) = some (v4 a)
to4 (v6 a) = none

pub data Call : Type 0 where
  blocks : Call
  returns : Option Ip → Call

-- A call of GetPublicIPAddr while the loop is in a state.
unfoldable pub get_public_ip_addr : PublicIp → Call
get_public_ip_addr s =
    if s.released then returns (elim s.ip [ none ↦ none | some ip ↦ to4 ip ]) else blocks
