-- ===== src/Central/Api/Hosts.antt =====
-- pkg/central/api.go: relatedHosts and GetHosts. The order in which Go goes through a map is that of the
-- list that stands for it.
pub mod Laws
mod Tests
use alkasir.Base.{
  ℕ, Bool, true, false, not, Option, none, some, List, [], ◌∷◌, ◌++◌, map, Str, str_eq,
  strip_prefix, codes, if◌then◌else◌,
}
use alkasir.Base.Dict.{Dict, lookup, insert}
use alkasir.Shared.Validator.{Ip}
use alkasir.Central.Api.{
  Fault, bad_payload, bad_client_addr, asn_lookup, database, Reply, api_error, json, SimpleSample,
  Server, Clients, find_asn,
}

-- `strings.TrimPrefix(s, "www.")`
unfoldable pub trim_www : Str → Str
trim_www s = elim (strip_prefix (codes "www.") s) [ none ↦ s | some rest ↦ rest ]

-- The loop of update: the new map from the one that the database gives.
unfoldable pub update : Dict (List Str) → Dict (List Str) → Dict (List Str)
unfolding trim_www
update [] curated = curated
update ((k, v) ∷ related) curated = update related (insert (trim_www k) v curated)

-- `items[h] = true`
unfoldable pub mark : Str → List Str → List Str
mark h [] = h ∷ []
mark h (x ∷ xs) = let rest = mark h xs in if str_eq x h then x ∷ xs else x ∷ rest

unfoldable pub mark_related : List Str → List Str → List Str
unfolding mark trim_www
mark_related [] items = items
mark_related (v ∷ vs) items =
    mark_related vs (if not (str_eq (trim_www v) []) then mark (trim_www v) items else items)

abbrev pub or_nothing : Option (List Str) → List Str
or_nothing none = []
or_nothing (some vs) = vs

-- The loop of fill over the hosts, with the keys of `items`.
unfoldable pub fill_from : Dict (List Str) → List Str → List Str → List Str
unfolding mark trim_www mark_related
fill_from related [] items = items
fill_from related (h ∷ hosts) items =
    fill_from related hosts
      (mark_related (or_nothing (lookup (trim_www h) related)) (mark (trim_www h) items))

unfoldable pub fill : Dict (List Str) → List Str → List Str
unfolding fill_from
fill related hosts = fill_from related hosts []

pub record UpdateHostlistRequest : Type 0 where
  pub client_addr : Option Ip
  pub update_id : Str
  pub client_version : Str

-- The handler of GetHosts, with the related hosts of the last update.
unfoldable pub get_hosts :
    Clients → Dict (List Str) → Option UpdateHostlistRequest → Server → Reply (List Str) × Server
unfolding fill find_asn
get_hosts db related none s = (api_error 500 bad_payload, s)
get_hosts db related (some req) s = elim req.client_addr [
  | none ↦ (api_error 400 bad_client_addr, s)
  | some ip ↦ elim (find_asn db ip) [
    | none ↦ (api_error 500 asn_lookup, s)
    | some asn ↦ elim (db.blocked_hosts (db.ip2country_code ip) asn) [
      | none ↦ (api_error 500 database, s)
      | some hosts ↦
          let ss : SimpleSample = record {
            country_code = db.ip2country_code ip;
            asn = asn;
            type_name = codes "ClientBlocklistUpdate";
            origin_id = req.update_id;
            client_version = req.client_version;
          } in
          (
            json (fill related hosts),
            if db.can_insert_simple ss
                then record s { simple_samples = s.simple_samples ++ ss ∷ [] }
                else s,
          )
    ]
  ]
]
