-- ===== src/Central/Analysis/Session/Complete.antt =====
-- A session with all that it needs is published.
use alkasir.Base.{
  ◌≡◌, ◌≢◌, refl, ◌∙◌, true, false, Option, some, [], ◌∷◌, arith, Str, codes, str_eq, str_eq_iff,
}
use alkasir.Base.Dict.{lookup, insert}
use alkasir.Shared.Validator.{Net, accepted_host}
use alkasir.Central.Analysis.Score.{HttpHeaderResult}
use alkasir.Central.Analysis.Session.{
  Sample, Organized, nothing_organized, add_sample, organize, published, validate, analyze,
}
use alkasir.Central.Analysis.Session.Laws.{judge_lem}

-- The first token sample.
add_sample-token :
    (s : Sample) (o : Organized)
    → s.type ≡ codes "NewClientToken"
    → o.new_token_sample.token ≡ []
    → add_sample s o ≡ some (record o { new_token_sample = s })
unfolding add_sample str_eq
add_sample-token s o type unset = rw (type, unset) refl

-- A result of the central server.
add_sample-dns :
    (s : Sample) (o : Organized)
    → s.type ≡ codes "DNSQuery"
    → s.origin ≡ codes "Central"
    → add_sample s o
      ≡ some (record o { central_samples = insert (codes "DNSQuery") s o.central_samples })
unfolding add_sample str_eq
add_sample-dns s o type origin = rw (type, origin) refl

add_sample-central :
    (s : Sample) (o : Organized)
    → s.type ≡ codes "HTTPHeader"
    → s.origin ≡ codes "Central"
    → add_sample s o
      ≡ some (record o { central_samples = insert (codes "HTTPHeader") s o.central_samples })
unfolding add_sample str_eq
add_sample-central s o type origin = rw (type, origin) refl

-- A result of the client.
add_sample-client :
    (s : Sample) (o : Organized)
    → s.type ≡ codes "HTTPHeader"
    → s.origin ≡ codes "Client"
    → add_sample s o
      ≡ some (record o { client_samples = insert (codes "HTTPHeader") s o.client_samples })
unfolding add_sample str_eq
add_sample-client s o type origin = rw (type, origin) refl

-- A token sample, the results of the two queries and the header of the central server, and a header of the
-- client, in this order.
pub record IsComplete (net : Net) (parse : Str → Option HttpHeaderResult) (t d e h c : Sample)
    : Type 0 where
  pub token_type : t.type ≡ codes "NewClientToken"
  pub token_set : t.token ≢ []
  pub token_host : accepted_host net t.host ≡ true
  pub first_type : d.type ≡ codes "DNSQuery"
  pub first_origin : d.origin ≡ codes "Central"
  pub second_type : e.type ≡ codes "DNSQuery"
  pub second_origin : e.origin ≡ codes "Central"
  pub central_type : h.type ≡ codes "HTTPHeader"
  pub central_origin : h.origin ≡ codes "Central"
  pub client_type : c.type ≡ codes "HTTPHeader"
  pub client_origin : c.origin ≡ codes "Client"
  pub central_header : HttpHeaderResult
  pub central_parsed : parse h.payload ≡ some central_header
  pub client_header : HttpHeaderResult
  pub client_parsed : parse c.payload ≡ some client_header

module _ (net : Net) (parse : Str → Option HttpHeaderResult) (t d e h c : Sample)
    (w : IsComplete net parse t d e h c) where
  abbrev all_organized : Organized
  all_organized = record {
    new_token_sample = t;
    client_samples = (codes "HTTPHeader", c) ∷ [];
    central_samples = (codes "DNSQuery", e) ∷ (codes "HTTPHeader", h) ∷ [];
  }

  organize-all : organize (t ∷ d ∷ e ∷ h ∷ c ∷ []) nothing_organized ≡ some all_organized
  unfolding organize insert str_eq
  organize-all =
      rw (add_sample-token t nothing_organized w.token_type refl, organize)
        (rw (add_sample-dns d _ w.first_type w.first_origin, organize)
          (rw (add_sample-dns e _ w.second_type w.second_origin, organize)
            (rw (add_sample-central h _ w.central_type w.central_origin, organize)
              (rw (add_sample-client c _ w.client_type w.client_origin, organize) refl))))

  pub analyze_complete : analyze net parse (t ∷ d ∷ e ∷ h ∷ c ∷ []) ≡ published t
  unfolding analyze validate lookup str_eq
  analyze_complete =
      let set : str_eq t.token [] ≡ false = ground (arith, str_eq_iff t.token [], w.token_set) in
      rw (organize-all, analyze)
        (rw (set, validate)
          (rw (w.token_host, validate)
            (judge_lem net parse t c h ∙ rw w.client_parsed (rw w.central_parsed refl))))
