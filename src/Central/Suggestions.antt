-- ===== src/Central/Suggestions.antt =====
-- pkg/central/client/client.go: the suggestions that a client keeps until they are sent to the central
-- server. One goroutine owns the map and serves five channels; here it takes one message at a time. A time
-- is a number; the random ids of NewSuggestion and AddSample are arguments.
pub mod Sending
mod Tests
use alkasir.Base.{
  ℕ, suc, ◌+◌, Bool, true, false, not, Option, none, some, List, [], ◌∷◌, ◌++◌, Str, str_eq,
  if◌then◌else◌,
}
use alkasir.Base.Dict.{Dict, lookup, insert, values}

pub record Sample : Type 0 where
  pub id : Str
  pub sample_type : Str
  pub data_text : Str
  pub created_at : ℕ

pub record Suggestion : Type 0 where
  pub id : Str
  pub token : Str
  pub url : Str
  pub created_at : ℕ
  pub samples : List Sample
  pub prepared : Bool

-- What the map gives for a key that is not there.
abbrev pub zero_value : Suggestion
zero_value = record {
  id = [];
  token = [];
  url = [];
  created_at = 0;
  samples = [];
  prepared = false;
}

-- The suggestion a modification is for, and what it does to it.
pub record Mod : Type 0 where
  pub id : Str
  pub fn : Suggestion → Suggestion

unfoldable pub prepared : Suggestion → Mod
prepared suggestion = record { id = suggestion.id; fn = λ s. record s { prepared = true } }

unfoldable pub add_sample : Suggestion → Sample → Mod
add_sample suggestion sample = record {
  id = suggestion.id;
  fn = λ s. record s { samples = s.samples ++ sample ∷ [] };
}

-- The samples with another id.
unfoldable pub without : Str → List Sample → List Sample
without id [] = []
without id (v ∷ vs) = let rest = without id vs in if not (str_eq v.id id) then v ∷ rest else rest

unfoldable pub remove_sample : Suggestion → Sample → Mod
remove_sample suggestion samp = record {
  id = suggestion.id;
  fn = λ s. record s { samples = without samp.id s.samples };
}

unfoldable pub set_token : Suggestion → Str → Mod
set_token suggestion token = record { id = suggestion.id; fn = λ s. record s { token = token } }

pub data Message : Type 0 where
  reset all : Message
  one : Str → Message
  add : Suggestion → Message
  modify : Mod → Message

pub data Answer : Type 0 where
  none_due : Answer
  suggestion : Suggestion → Answer
  suggestions : List Suggestion → Answer

abbrev pub Store : Type 0
Store = Dict Suggestion

abbrev pub or_zero : Option Suggestion → Suggestion
or_zero none = zero_value
or_zero (some s) = s

-- One round of the loop: the new map and the answer; `none` is the panic.
unfoldable pub step : Message → Store → Option (Store × Answer)
step reset m = some ([], none_due)
step (one id) m = some (m, suggestion (or_zero (lookup id m)))
step all m = some (m, suggestions (values m))
step (add s) m = some (insert s.id s m, none_due)
step (modify c) m = elim (lookup c.id m) [
  | none ↦ none
  | some s ↦ some (insert c.id (c.fn s) m, none_due)
]

unfoldable pub run : List Message → Store → Option (Store × List Answer)
run [] m = some (m, [])
run (q ∷ qs) m = elim (step q m) [
  | none ↦ none
  | some (m', a) ↦ elim (run qs m') [ none ↦ none | some (m'', as') ↦ some (m'', a ∷ as') ]
]

-- GetSuggestion: the suggestion, and whether it is there.
unfoldable pub get_suggestion : Str → Store → Suggestion × Bool
get_suggestion id m = let v = or_zero (lookup id m) in (v, not (str_eq v.id []))

-- NewSuggestion, with the random id.
unfoldable pub new_suggestion : Str → Str → ℕ → Store → Suggestion × Store
new_suggestion id url now m =
    let item : Suggestion = record {
      id = id;
      token = [];
      url = url;
      created_at = now;
      samples = [];
      prepared = false;
    } in
    (item, insert item.id item m)
