-- ===== src/Central/Api/Samples/Stored.antt =====
-- What StoreSample stores, and for which requests.
use alkasir.Base.{
  ℕ, Bool, true, ◌≡◌, refl, ◌⊎◌, inl, inr, some, [], ◌∷◌, ◌++◌, Str, codes, str_eq, str_eq_iff,
  Option-cases, Bool-cases,
}
use alkasir.Base.Trim.{trim_space}
use alkasir.Base.Dict.{lookup}
use alkasir.Shared.Validator.{Url}
use alkasir.Central.Tokens.{TokenData, get}
use alkasir.Central.Api.{
  Fault, Reply, api_error, json, DbSample, Server, Clients, find_asn, bad_client_addr, asn_lookup,
  database, invalid_type, invalid_token, invalid_url, not_valid_url,
}
use alkasir.Central.Api.Samples.{Parsers, Sample, client_sample_type, keep_sample, store_sample}

-- The sample is one of the client, with the token and the type that it came with.
abbrev pub IsOf : Sample → DbSample → Type 0
IsOf v x =
    (x.token ≡ v.token)
    × (x.type_name ≡ v.sample_type)
    × (x.origin ≡ codes "Client")
    × (x.content ≡ v.content ∷ [])

-- Nothing is stored and an error is told, or one sample is stored and success is told.
abbrev pub IsKept : Sample → Server → Reply Bool × Server → Type 0
IsKept v s o =
    ((c : ℕ) × (f : Fault) × (o ≡ (api_error c f, s)))
    ⊎ ((x : DbSample) × (o ≡ (json true, record s { samples = s.samples ++ x ∷ [] })) × IsOf v x)

keep_sample-IsKept :
    (p : Parsers) (db : Clients) (v : Sample) (addr : Str) (u : Url) (s : Server)
    → IsKept v s (keep_sample p db v addr u s)
unfolding keep_sample
keep_sample-IsKept p db v addr u s = elim (Option-cases (p.net.parse_ip addr)) [
  | inl e ↦ rw (e, keep_sample) (inl (400, bad_client_addr, refl))
  | inr (ip, e) ↦ elim (Option-cases (find_asn db ip)) [
    | inl f ↦ rw (e, keep_sample) (rw (f, keep_sample) (inl (500, asn_lookup, refl)))
    | inr (asn, f) ↦
        let x : DbSample = record {
          host = u.host;
          country_code = db.ip2country_code ip;
          asn = asn;
          type_name = v.sample_type;
          origin = codes "Client";
          token = v.token;
          content = v.content ∷ [];
          city_geo_name_id = 0;
        } in
        elim (Bool-cases (db.can_insert x)) [
          | inl g ↦
              rw (e, keep_sample)
                (rw (f, keep_sample)
                  (rw (g, keep_sample) (inr (x, refl, (refl, refl, refl, refl)))))
          | inr g ↦
              rw (e, keep_sample)
                (rw (f, keep_sample) (rw (g, keep_sample) (inl (500, database, refl))))
        ]
  ]
]

-- A request with a sample is always answered. It is refused with an error and nothing changes, or its
-- type is one of a client's, its token is that of a session, its URL without the space around it is that of
-- the session, and then it is stored as it came, or an error is told and nothing changes.
pub store_sample-IsKept :
    (p : Parsers) (db : Clients) (v : Sample) (addr : Str) (s : Server)
    → (o : Reply Bool × Server) × (store_sample p db
          (some (record { sample = some v; client_addr = addr }))
          s
        ≡ some o)
      × (((c : ℕ) × (f : Fault) × (o ≡ (api_error c f, s)))
          ⊎ ((t : TokenData) × (client_sample_type v.sample_type ≡ true)
              × (lookup v.token s.tokens.sessions ≡ some t)
              × (t.url ≡ trim_space v.url)
              × IsKept v s o))
unfolding store_sample get
store_sample-IsKept p db v addr s = elim (Bool-cases (client_sample_type v.sample_type)) [
  | inr a ↦
      rw (a, store_sample) ((api_error 400 invalid_type, s), refl, inl (400, invalid_type, refl))
  | inl a ↦ elim (Option-cases (lookup v.token s.tokens.sessions)) [
    | inl b ↦
        rw (a, store_sample)
          (rw (b, store_sample)
            ((api_error 400 invalid_token, s), refl, inl (400, invalid_token, refl)))
    | inr (t, b) ↦ elim (Bool-cases (str_eq t.url (trim_space v.url))) [
      | inr c ↦
          rw (a, store_sample)
            (rw (b, store_sample)
              (rw (c, store_sample)
                ((api_error 400 invalid_url, s), refl, inl (400, invalid_url, refl))))
      | inl c ↦ elim (Option-cases (p.parse_url (trim_space v.url))) [
        | inl d ↦
            rw (a, store_sample)
              (rw (b, store_sample)
                (rw (c, store_sample)
                  (rw (d, store_sample)
                    ((api_error 400 not_valid_url, s), refl, inl (400, not_valid_url, refl)))))
        | inr (u, d) ↦ (
          keep_sample p db v addr u s,
          rw (a, store_sample)
              (rw (b, store_sample) (rw (c, store_sample) (rw (d, store_sample) refl))),
          inr (
            t,
            a,
            b,
            (str_eq_iff t.url (trim_space v.url)).0 c,
            keep_sample-IsKept p db v addr u s,
          ),
        )
      ]
    ]
  ]
]
