-- ===== src/Central/Suggestions/Tests.antt =====
-- A suggestion with two samples, of which the server takes the second.
use alkasir.Base.{
  ℕ, zero, suc, ◌+◌, ◌≡◌, ◌≢◌, refl, inr, true, some, [], ◌∷◌, Str, str_eq, codes, length,
}
use alkasir.Base.Dict.{lookup}
use alkasir.Central.Suggestions.{Suggestion, Sample, Store}
use alkasir.Central.Suggestions.Sending.{Post, failed, response, SampleResponse, Sent, send_samples}
use alkasir.Central.Suggestions.Sending.Kept.{rejected, send_samples-keeps}

abbrev sample : Str → Sample
sample id = record { id = id; sample_type = codes "DNSQuery"; data_text = []; created_at = 1 }

abbrev item : Suggestion
item = record {
  id = codes "i";
  token = codes "t";
  url = codes "http://example.com/";
  created_at = 1;
  samples = sample (codes "a") ∷ sample (codes "aa") ∷ [];
  prepared = true;
}

abbrev store : Store
store = (codes "i", item) ∷ (codes "j", record item { id = codes "j" }) ∷ []

abbrev answers : ℕ → Post SampleResponse
answers zero = failed
answers (suc n) = response 200 (some (record { is_ok = true }))

send_samples-keeps_example :
    (t : Sent) × (send_samples answers item store ≡ inr (some t))
    × (lookup (codes "i") t.store
        ≡ some (record item { samples = rejected answers 0 item.samples }))
    × (t.n + length (rejected answers 0 item.samples) ≡ length item.samples)
    × ((k : Str) → codes "i" ≢ k → lookup k t.store ≡ lookup k store)
unfolding lookup str_eq
send_samples-keeps_example =
    send_samples-keeps answers item item store refl refl (λ e. cc e) (λ e. cc e)
      ((λ e. cc e, tt), (tt, tt))
