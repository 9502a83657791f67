-- ===== src/Central/Suggestions/Sending.antt =====
-- pkg/central/client/client.go: the requests to the central server, and what RequestToken and SendSamples
-- make of the answers. That a request struct cannot be marshalled is left out, as it is made of texts. What
-- the network and the JSON decoder give for a request is an argument.
pub mod Kept
pub mod Versions
use alkasir.Base.{
  ℕ, suc, ◌+◌, Bool, true, false, not, Option, none, some, List, [], ◌∷◌, ◌++◌, Str, str_eq, ◌==◌,
  ◌⊎◌, inl, inr, if◌then◌else◌,
}
use alkasir.Base.Dict.{lookup, insert}
use alkasir.Central.Suggestions.{
  Suggestion, Sample, Store, Mod, remove_sample, set_token, step, modify, get_suggestion,
  add_sample, prepared,
}

-- What comes of a POST: no response, or a status with the body decoded, where it can be.
pub data Post {ℓ} (R : Type ℓ) : Type ℓ where
  failed : Post R
  response : ℕ → Option R → Post R

pub data Failure : Type 0 where
  request decoding current_version new_version older : Failure
  status : ℕ → Failure

pub data Result {ℓ} (R : Type ℓ) : Type ℓ where
  ok : R → Result R
  error : Failure → Result R

-- What CreateSuggestionToken, CreateSample and UpdateHostlist have in common.
unfoldable pub received {ℓ} : {R : Type ℓ} → Post R → Result R
received failed = error request
received (response code body) =
    if not (code == 200)
    then error (status code)
    else elim body [ none ↦ error decoding | some r ↦ ok r ]

pub record TokenResponse : Type 0 where
  pub is_ok : Bool
  pub token : Str
  pub error_text : Str

pub record SampleResponse : Type 0 where
  pub is_ok : Bool

unfoldable pub create_suggestion_token : Post TokenResponse → Result TokenResponse
unfolding received
create_suggestion_token p = elim (received p) [
  | error e ↦ error e
  | ok r ↦ ok (if not (str_eq r.error_text []) then record r { is_ok = false } else r)
]

abbrev pub create_sample : Post SampleResponse → Result SampleResponse
create_sample p = received p

-- The answer, the suggestion of the caller and the map; `none` is the panic of a modification.
unfoldable pub request_token :
    Post TokenResponse → Suggestion → Store → Option (Result TokenResponse × Suggestion × Store)
unfolding step
request_token p s m = elim (create_suggestion_token p) [
  | error e ↦ some (error e, s, m)
  | ok r ↦ elim r.is_ok [
    | false ↦ some (ok r, s, m)
    | true ↦ elim (step (modify (set_token s r.token)) m) [
      | none ↦ none
      | some (m', _) ↦ some (ok r, record s { token = r.token }, m')
    ]
  ]
]

pub data Refusal : Type 0 where
  not_found conflict : Refusal

-- Suggestion.Prepared.
unfoldable pub is_prepared : Suggestion → Store → Bool ⊎ Refusal
unfolding get_suggestion
is_prepared s m =
    let (v, found) = get_suggestion s.id m in
    if not found then inr not_found else if str_eq v.token [] then inr conflict else inl v.prepared

pub data SendError : Type 0 where
  sending : Failure → SendError
  not_accepted : SendError

-- The variables of the loop of SendSamples.
pub record Sent : Type 0 where
  pub n : ℕ
  pub rerr : Option SendError
  pub store : Store

-- What the answer for one sample does; `none` is the panic of a modification.
unfoldable pub after_sample : Result SampleResponse → Suggestion → Sample → Sent → Option Sent
unfolding step
after_sample (error e) s v t = some (record t { rerr = some (sending e) })
after_sample (ok r) s v t = elim r.is_ok [
  | false ↦ some (record t { rerr = some not_accepted })
  | true ↦ elim (step (modify (remove_sample s v)) t.store) [
    | none ↦ none
    | some (m, _) ↦ some (record t { n = t.n + 1; store = m })
  ]
]

-- The loop; `i` is the number of the request.
unfoldable pub send_from :
    (ℕ → Post SampleResponse) → ℕ → Suggestion → List Sample → Sent → Option Sent
send_from answers i s [] t = some t
send_from answers i s (v ∷ vs) t = elim (after_sample (create_sample (answers i)) s v t) [
  | none ↦ none
  | some t' ↦ send_from answers (suc i) s vs t'
]

-- SendSamples with the outcome of each request: refused, or how many were sent, and the last error.
unfoldable pub send_samples : (ℕ → Post SampleResponse) → Suggestion → Store → Refusal ⊎ Option Sent
unfolding get_suggestion
send_samples answers sugg m =
    let (s, found) = get_suggestion sugg.id m in
    if not found
    then inl not_found
    else if str_eq s.token []
    then inl conflict
    else inr (send_from answers 0 s s.samples (record { n = 0; rerr = none; store = m }))
