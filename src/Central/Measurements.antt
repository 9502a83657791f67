-- ===== src/Central/Measurements.antt =====
-- pkg/central/measurements.go: the goroutines of startMeasurer, which measure the queued URLs and store what
-- they find. The channel is the queue of the server; its capacity, and the log, are left out.
pub mod Stored
mod Tests
use alkasir.Base.{
  ℕ, ◌+◌, ◌*◌, Bool, true, false, Option, none, some, List, [], ◌∷◌, ◌++◌, Str, codes, ltb,
  if◌then◌else◌,
}
use alkasir.Shared.Validator.{Ip}
use alkasir.Central.Api.{DbSample, Server, Clients}
use alkasir.Central.Api.Samples.{Parsers, checked_url}
use alkasir.Central.Measure.{Measurer, Network, Measurement, measurers, measure, type_name, host}

-- The fields of the sample that are used; no time is the zero value.
pub record PreparedSample : Type 0 where
  pub last_updated : Option ℕ
  pub country_code : Str
  pub asn : ℕ

abbrev pub no_prepared : PreparedSample
no_prepared = record { last_updated = none; country_code = []; asn = 0 }

-- The public address and its lookup may fail; then there is an error and nothing changes.
unfoldable pub update : Clients → Option Ip → ℕ → PreparedSample → Bool × PreparedSample
update db none now p = (false, p)
update db (some ip) now p = elim (db.ip2asn ip) [
  | none ↦ (false, p)
  | some none ↦ (false, p)
  | some (some asn) ↦
      (true, record { last_updated = some now; country_code = db.ip2country_code ip; asn = asn })
]

-- What a goroutine begins with.
unfoldable pub first_prepared : Clients → Option Ip → ℕ → PreparedSample
unfolding update
first_prepared db ip now = (update db ip now no_prepared).1

unfoldable pub is_stale : ℕ → PreparedSample → Bool
is_stale now p = elim p.last_updated [ none ↦ true | some t ↦ ltb (t + 5 * 3600) now ]

-- What a goroutine uses: the parsers, the databases, the network, and JSON.
pub record Central : Type 0 where
  pub parsers : Parsers
  pub clients : Clients
  pub network : Network
  pub marshal : Measurement → Option Str

abbrev pub measured_sample : PreparedSample → Str → Measurement → Str → Str → DbSample
measured_sample p token m host_ text = record {
  host = host_;
  country_code = p.country_code;
  asn = p.asn;
  type_name = type_name m;
  origin = codes "Central";
  token = token;
  content = text ∷ [];
  city_geo_name_id = 0;
}

-- One measurement; `none` is the end of the program.
unfoldable pub store_measurement :
    Central → PreparedSample → Str → Measurement → List DbSample → Option (List DbSample)
store_measurement c p token m samples = elim (c.marshal m) [
  | none ↦ some samples
  | some text ↦ elim (host c.parsers.net c.parsers.parse_url m) [
    | none ↦ none
    | some host_ ↦
        let sample = measured_sample p token m host_ text in
        some (if c.clients.can_insert sample then samples ++ sample ∷ [] else samples)
  ]
]

unfoldable pub measure_all :
    Central → PreparedSample → Str → List Measurer → List DbSample → Option (List DbSample)
unfolding store_measurement
measure_all c p token [] samples = some samples
measure_all c p token (v ∷ rest) samples =
    elim (store_measurement c p token (measure c.network v) samples) [
      | none ↦ none
      | some samples' ↦ measure_all c p token rest samples'
    ]

-- The measurements of a queued URL, which DefaultMeasurements has parsed and accepted.
unfoldable pub queued_measurers : Parsers → Str → List Measurer
unfolding checked_url measurers
queued_measurers p url = elim (checked_url p url) [ none ↦ [] | some u ↦ measurers p.net url u ]

-- One round of a goroutine: the request it takes from the queue. It waits where there is none.
unfoldable pub work :
    Central → Option Ip → ℕ → PreparedSample → Server → Option (PreparedSample × Server)
unfolding measure_all is_stale update queued_measurers
work c ip now p s = elim s.queued [
  | [] ↦ some (p, s)
  | (token, url) ∷ queue ↦
      let p' = if is_stale now p then (update c.clients ip now p).1 else p in
      elim (measure_all c p' token (queued_measurers c.parsers url) s.samples) [
        | none ↦ none
        | some samples ↦ some (p', record s { samples = samples; queued = queue })
      ]
]
