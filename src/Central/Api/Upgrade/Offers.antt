-- ===== src/Central/Api/Upgrade/Offers.antt =====
-- GetUpgrade of the server and CheckBinaryUpgrade of the client, one after the other.
use alkasir.Base.{
  false, ◌||◌, ◌≡◌, refl, sym, ◌∙◌, ap, inl, inr, Option, none, some, [], Str, str_eq, Option-cases,
  Bool-cases,
}
use alkasir.Shared.Version.{
  Versions, Upgrade, UpgradeRequest, Order, less, equal, greater, flip, is_less, is_equal,
  is_greater, IsAntisymmetric,
}
use alkasir.Central.Api.{Reply, api_error, json}
use alkasir.Central.Api.Upgrade.{offer, get_upgrade}
use alkasir.Central.Suggestions.Sending.{Post, response}
use alkasir.Central.Suggestions.Sending.Versions.{found, compare_versions, check_binary_upgrade}

-- What an answer of the server is to the client: the status, and the body where it is an upgrade.
abbrev pub received_as : Reply Upgrade → Post Upgrade
received_as (json res) = response 200 (some res)
received_as (api_error code f) = response code none

not_older : (o : Order) → is_less o || is_equal o ≡ false → is_greater (flip o) ≡ false
not_older less e = cc e
not_older equal e = cc e
not_older greater e = refl

only_greater : (o : Order) → is_less o || is_equal o ≡ false → o ≡ greater
only_greater less e = cc e
only_greater equal e = cc e
only_greater greater e = refl

abbrev answer_of : Upgrade → Reply Upgrade → Upgrade
answer_of d (json res) = res
answer_of d (api_error _ _) = d

-- What the server has compared where it offers an upgrade.
abbrev Offered : {V : Type 0} → Versions V → UpgradeRequest → Upgrade → Type 0
Offered {V} vs req res =
    (v server : V) × (vs.parse req.from_version ≡ some v)
    × (vs.parse res.version ≡ some server)
    × (is_less (vs.compare server v) || is_equal (vs.compare server v) ≡ false)

offer-Offered :
    {V : Type 0} (vs : Versions V) (query : Str → Option (Option Upgrade)) (req : UpgradeRequest)
    (v : V) (res : Upgrade)
    → vs.parse req.from_version ≡ some v
    → offer vs query req v ≡ json res
    → Offered vs req res
unfolding offer
offer-Offered vs query req v res p h = elim (Bool-cases (str_eq req.artifact [])) [
  | inl a ↦ cc (rw (a, offer) at h)
  | inr a ↦
      let h1 = rw (a, offer) at h in
      elim (Option-cases (query req.artifact)) [
        | inl b ↦ cc (rw (b, offer) at h1)
        | inr (none, b) ↦ cc (rw (b, offer) at h1)
        | inr (some w, b) ↦
            let h2 = rw (b, offer) at h1 in
            elim (Option-cases (vs.parse w.version)) [
              | inl c ↦ cc (rw (c, offer) at h2)
              | inr (server, c) ↦
                  let h3 = rw (c, offer) at h2 in
                  elim (Bool-cases
                    (is_less (vs.compare server v) || is_equal (vs.compare server v))) [
                      | inl d ↦ cc (rw (d, offer) at h3)
                      | inr d ↦
                          let same : w ≡ res = ap (answer_of w) (rw (d, offer) at h3) in
                          (v, server, p, ap vs.parse (ap (λ x. x.version) (sym same)) ∙ c, d)
                    ]
            ]
      ]
]

get_upgrade-Offered :
    {V : Type 0} (vs : Versions V) (query : Str → Option (Option Upgrade)) (req : UpgradeRequest)
    (res : Upgrade)
    → get_upgrade vs query (some req) ≡ json res
    → Offered vs req res
unfolding get_upgrade
get_upgrade-Offered vs query req res h = elim (Bool-cases (str_eq req.from_version [])) [
  | inl a ↦ cc (rw (a, get_upgrade) at h)
  | inr a ↦
      let h1 = rw (a, get_upgrade) at h in
      elim (Option-cases (vs.parse req.from_version)) [
        | inl b ↦ cc (rw (b, get_upgrade) at h1)
        | inr (v, b) ↦ offer-Offered vs query req v res b (rw (b, get_upgrade) at h1)
      ]
]

-- With versions whose order is the other way round where they are: every upgrade that the server offers is
-- newer than the version that asks, and the client takes it, since it does not find it older.
pub get_upgrade-found :
    {V : Type 0} (vs : Versions V) (query : Str → Option (Option Upgrade)) (req : UpgradeRequest)
    (res : Upgrade)
    → IsAntisymmetric vs
    → get_upgrade vs query (some req) ≡ json res
    → (check_binary_upgrade vs req (received_as (get_upgrade vs query (some req))) ≡ found res)
      × ((v server : V) × (vs.parse req.from_version ≡ some v)
          × (vs.parse res.version ≡ some server)
          × (vs.compare server v ≡ greater))
unfolding check_binary_upgrade compare_versions
get_upgrade-found vs query req res anti h =
    let (v, server, p, q, d) = get_upgrade-Offered vs query req res h in
    let not_greater : is_greater (vs.compare v server) ≡ false =
      ap is_greater (anti v server) ∙ not_older (vs.compare server v) d in
    (
      ap (λ x. check_binary_upgrade vs req (received_as x)) h
          ∙ rw (p, compare_versions)
              (rw (q, compare_versions) (rw (not_greater, compare_versions) refl)),
      (v, server, p, q, only_greater (vs.compare server v) d),
    )
