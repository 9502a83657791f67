-- ===== src/Client/Api/Suggestions.antt =====
-- pkg/client/api.go: CreateSuggestion, GetSuggestions and SubmitSuggestion, over the store of
-- pkg/central/client. The parsing of URLs, the random ids, the measurements, the network and the time are
-- arguments. Log lines and the list of blocked hosts are left out.
pub mod Creation
pub mod Resent
mod Tests
use alkasir.Base.{
  ℕ, zero, suc, ◌+◌, ◌*◌, Bool, true, false, not, ◌&&◌, ltb, Option, none, some, List, [], ◌∷◌,
  ◌++◌, ◌⊎◌, inl, inr, Str, str_eq, if◌then◌else◌,
}
use alkasir.Base.Trim.{trim_space}
use alkasir.Base.Dict.{lookup, values}
use alkasir.Shared.Validator.{Net, Url, accepted_url, has_byte}
use alkasir.Central.Suggestions.{
  Suggestion, Sample, Store, Message, add, modify, add_sample, prepared, run, Answer,
}
use alkasir.Central.Suggestions.Sending.{
  Post, SampleResponse, Sent, Refusal, send_samples, is_prepared,
}

-- `url.Parse`, `u.String()` and the net package.
pub record Parsers : Type 0 where
  pub parse_url : Str → Option Url
  pub text : Url → Str
  pub net : Net

pub data FieldError : Type 0 where
  required invalid not_supported : FieldError

pub data Created : Type 0 where
  refused : List FieldError → Created
  panic : Created
  created : Url → Created

abbrev pub error_if : Bool → FieldError → List FieldError
error_if true e = e ∷ []
error_if false e = []

abbrev pub is_none : Option Str → Bool
is_none none = true
is_none (some _) = false

-- The checks of CreateSuggestion. Where the URL cannot be parsed `u` is nil, and `u.Host` panics.
unfoldable pub check_suggestion : Parsers → Str → Created
check_suggestion p form_url = elim (p.parse_url (trim_space form_url)) [
  | none ↦ panic
  | some u ↦
      elim (error_if (str_eq (trim_space form_url) []) required
        ++ (error_if (has_byte b':' u.host && is_none (p.net.split_host_port u.host)) invalid
            ++ error_if (not (accepted_url p.net u)) not_supported)) [
              | [] ↦ created u
              | e ∷ es ↦ refused (e ∷ es)
            ]
]

-- What the store is sent for a new suggestion: itself, the samples that could be measured, and that there
-- are no more of them.
unfoldable pub new_item : Str → Str → ℕ → Suggestion
new_item id url now = record {
  id = id;
  token = [];
  url = url;
  created_at = now;
  samples = [];
  prepared = false;
}

unfoldable pub add_samples : Suggestion → List Sample → List Message
add_samples s [] = modify (prepared s) ∷ []
add_samples s (v ∷ vs) = modify (add_sample s v) ∷ add_samples s vs

unfoldable pub creation : Str → Str → ℕ → List Sample → List Message
unfolding add_samples new_item
creation id url now samples = add (new_item id url now) ∷ add_samples (new_item id url now) samples

abbrev pub store_of : Option (Store × List Answer) → Option Store
store_of none = none
store_of (some (m, _)) = some m

-- CreateSuggestion: what comes of it, and the store; `none` is the panic of the store. `samples` are those that
-- were measured and added, none where DefaultMeasurements fails; the answer in that case is left out.
unfoldable pub create_suggestion :
    Parsers → Str → ℕ → List Sample → Str → Store → Created × Option Store
unfolding check_suggestion creation
create_suggestion p id now samples form_url m = elim (check_suggestion p form_url) [
  | panic ↦ (panic, some m)
  | refused es ↦ (refused es, some m)
  | created u ↦ (created u, store_of (run (creation id (p.text u) now samples) m))
]

-- GetSuggestions: all of them, or those that were made after a time.
unfoldable pub made_after : ℕ → List Suggestion → List Suggestion
made_after t [] = []
made_after t (v ∷ vs) = let rest = made_after t vs in if ltb t v.created_at then v ∷ rest else rest

unfoldable pub get_suggestions : Option ℕ → Store → List Suggestion
unfolding made_after
get_suggestions none m = values m
get_suggestions (some t) m = made_after t (values m)

-- What one tick of the loop of SubmitSuggestion finds: the time since the start, in seconds, the messages
-- that the store has taken since the tick before, whether there is a client for requests, and what comes of
-- each request.
pub record Tick : Type 0 where
  pub elapsed : ℕ
  pub messages : List Message
  pub has_client : Bool
  pub answers : ℕ → Post SampleResponse

-- How the loop goes on after a tick, or how it ends.
pub data Round : Type 0 where
  stop : Round
  gone : Refusal → Round
  again : Store → Round
  sent : Store → Round
  panic : Round

unfoldable pub after_sending : Refusal ⊎ Option Sent → Store → Round
after_sending (inl r) m = again m
after_sending (inr none) m = panic
after_sending (inr (some t)) m = elim t.rerr [ none ↦ sent t.store | some _ ↦ again t.store ]

unfoldable pub send_round : Suggestion → Tick → Store → Round
unfolding after_sending
send_round s t m = elim (is_prepared s m) [
  | inr r ↦ gone r
  | inl false ↦ again m
  | inl true ↦ if not t.has_client then again m else after_sending (send_samples t.answers s m) m
]

unfoldable pub round : Suggestion → Tick → Store → Round
unfolding send_round
round s t m = elim (run t.messages m) [
  | none ↦ panic
  | some (m', _) ↦ if ltb (15 * 60) t.elapsed then stop else send_round s t m'
]

-- The loop on fuel, from tick `k` on; `none` is that the fuel is used up.
unfoldable pub resend : ℕ → (ℕ → Tick) → ℕ → Suggestion → Store → Option Round
unfolding round
resend zero ticks k s m = none
resend (suc n) ticks k s m = elim (round s (ticks k) m) [
  | again m' ↦ resend n ticks (suc k) s m'
  | stop ↦ some stop
  | gone r ↦ some (gone r)
  | sent m' ↦ some (sent m')
  | panic ↦ some panic
]
