-- ===== src/Client/Config/Upgrade/Laws.antt =====
-- What an upgrade of the configuration guarantees.
use alkasir.Base.{
  ℕ, zero, suc, ◌≤◌, ◌≡◌, refl, ◌≢◌, inl, inr, true, false, Option, none, some, List, [], ◌∷◌,
  arith, Str, ltb, Option-cases,
}
use alkasir.Base.Dict.{Dict}
use alkasir.Shared.Connection.{Connection}
use alkasir.Client.Config.Settings.{Settings, Config}
use alkasir.Client.Config.Connections.{
  ModifyConnections, index, remove_all, add_all, updated, update,
}
use alkasir.Client.Config.Upgrade.{
  Environment, upgraded, modified, changes_1, changes_2, changes_5, from_5, from_4, from_3, from_2,
  from_1, from_0, upgrade_from, upgrade_config,
}

-- What the user has set, and what is not the business of an upgrade, stays.
pub record Keeps (s s' : Settings) : Type 0 where
  pub country_code : s'.local.country_code ≡ s.local.country_code
  pub language : s'.local.language ≡ s.local.language
  pub client_auto_update : s'.local.client_auto_update ≡ s.local.client_auto_update
  pub blocklist_auto_update : s'.local.blocklist_auto_update ≡ s.local.blocklist_auto_update
  pub last_id : s'.last_id ≡ s.last_id
  pub transports : s'.transports ≡ s.transports

Keeps-trans : (s t u : Settings) → Keeps s t → Keeps t u → Keeps s u
Keeps-trans s t u a b = ground arith

-- The result is at version 6, and keeps what is to be kept.
abbrev Arrives : Settings → Option Settings → Type 0
Arrives s none = ⊥
Arrives s (some s') = (s'.version ≡ 6) × Keeps s s'

-- Each of the texts can be decoded.
abbrev pub AllDecode : (Str → Option Connection) → List Str → Type 0
AllDecode decode [] = Unit
AllDecode decode (v ∷ vs) = (decode v ≢ none) × AllDecode decode vs

add_all_total :
    (decode : Str → Option Connection) (vs : List Str) (d : Dict Connection)
    → AllDecode decode vs
    → add_all decode vs d ≢ none
unfolding add_all
add_all_total decode [] d able = ground arith
add_all_total decode (v ∷ vs) d able = elim (Option-cases (decode v)) [
  | inl failed ↦ absurd (able.0 failed)
  | inr (c, found) ↦ rw (found, add_all) (add_all_total decode vs _ able.1)
]

update_total :
    (env : Environment) (m : ModifyConnections)
    → AllDecode env.decode m.additions
    → update env.range env.decode m ≢ none
unfolding update updated
update_total env m able = ground (
  arith,
  add_all_total env.decode m.additions (remove_all m.removals (index m.connections [])) able,
)

-- The connections that the program holds for the upgrades can be decoded.
abbrev pub BuiltInDecode : Environment → Type 0
BuiltInDecode env =
    AllDecode env.decode (changes_1 []).additions × AllDecode env.decode (changes_5 []).additions

module _ (env : Environment) (able : BuiltInDecode env) where
  -- A change of the connections ends in the version that is named.
  modified_lem :
      (changes : List Connection → ModifyConnections) (next : ℕ) (s : Settings)
      → AllDecode env.decode (changes s.connections).additions
      → (cs : List Connection) × (modified env changes next s
          ≡ some (record s { connections = cs; version = next }))
  unfolding modified
  modified_lem changes next s can =
      elim (Option-cases (update env.range env.decode (changes s.connections))) [
        | inl failed ↦ absurd (update_total env (changes s.connections) can failed)
        | inr (cs, found) ↦ (cs, rw (found, modified))
      ]

  from_5-Arrives : (s : Settings) → Arrives s (from_5 env s)
  unfolding from_5 changes_5
  from_5-Arrives s = let (cs, e) = modified_lem changes_5 6 s able.1 in rw e (refl, ground arith)

  Arrives-via : (s t : Settings) (o : Option Settings) → Keeps s t → Arrives t o → Arrives s o
  Arrives-via s t none k a = a
  Arrives-via s t (some u) k (v, a) = (v, Keeps-trans s t u k a)

  from_4-Arrives : (s : Settings) → Arrives s (from_4 env s)
  unfolding from_4
  from_4-Arrives s = Arrives-via s _ _ (ground arith) (from_5-Arrives _)

  from_3-Arrives : (s : Settings) → Arrives s (from_3 env s)
  unfolding from_3
  from_3-Arrives s = Arrives-via s _ _ (ground arith) (from_4-Arrives _)

  from_2-Arrives : (s : Settings) → Arrives s (from_2 env s)
  unfolding from_2 changes_2
  from_2-Arrives s =
      let (cs, e) = modified_lem changes_2 3 s tt in
      let s' = record s { connections = cs; version = 3 } in
      let eq : from_2 env s ≡ from_3 env s' = rw (e, from_2) in
      rw eq (Arrives-via s s' _ (ground arith) (from_3-Arrives _))

  from_1-Arrives : (s : Settings) → Arrives s (from_1 env s)
  unfolding from_1 changes_1
  from_1-Arrives s =
      let (cs, e) = modified_lem changes_1 2 s able.0 in
      let s' = record s { connections = cs; version = 2 } in
      let eq : from_1 env s ≡ from_2 env s' = rw (e, from_1) in
      rw eq (Arrives-via s s' _ (ground arith) (from_2-Arrives _))

  from_0-Arrives : (s : Settings) → Arrives s (from_0 env s)
  unfolding from_0
  from_0-Arrives s = Arrives-via s _ _ (ground arith) (from_1-Arrives _)

  upgrade_from-Arrives :
      (v : ℕ) (s : Settings) → v ≤ 6 → s.version ≡ v → Arrives s (upgrade_from env v s)
  unfolding upgrade_from
  upgrade_from-Arrives zero s h e = from_0-Arrives s
  upgrade_from-Arrives (suc zero) s h e = from_1-Arrives s
  upgrade_from-Arrives (suc (suc zero)) s h e = from_2-Arrives s
  upgrade_from-Arrives (suc (suc (suc zero))) s h e = from_3-Arrives s
  upgrade_from-Arrives (suc (suc (suc (suc zero)))) s h e = from_4-Arrives s
  upgrade_from-Arrives (suc (suc (suc (suc (suc zero))))) s h e = from_5-Arrives s
  upgrade_from-Arrives (suc (suc (suc (suc (suc (suc n)))))) s h e = (omega arith, ground arith)

  -- If the connections that the program holds for the upgrades can be decoded, a configuration that was read at a version up to 6 is
  -- taken to version 6; the result says whether the version was below 6; and the user's settings,
  -- the transports and the lists of hosts stay.
  pub upgrade_config-arrives :
      (c : Config)
      → c.config_read ≡ true
      → c.settings.version ≤ 6
      → (s : Settings) × (upgrade_config env c
          ≡ upgraded (ltb c.settings.version 6) (record c { settings = s }))
        × (s.version ≡ 6)
        × Keeps c.settings s
  unfolding upgrade_config
  upgrade_config-arrives c r h =
      elim (Option-cases (upgrade_from env c.settings.version c.settings)) [
        | inl failed ↦
            absurd (rw failed at (upgrade_from-Arrives c.settings.version c.settings h refl))
        | inr (s, found) ↦
            let (six, kept) : Arrives c.settings (some s) =
              rw found at (upgrade_from-Arrives c.settings.version c.settings h refl) in
            (s, ground arith, six, kept)
      ]

upgrade_from_later :
    (env : Environment) (v : ℕ) (s : Settings) → 6 ≤ v → upgrade_from env v s ≡ some s
unfolding upgrade_from
upgrade_from_later env zero s h = absurd (omega arith)
upgrade_from_later env (suc zero) s h = absurd (omega arith)
upgrade_from_later env (suc (suc zero)) s h = absurd (omega arith)
upgrade_from_later env (suc (suc (suc zero))) s h = absurd (omega arith)
upgrade_from_later env (suc (suc (suc (suc zero)))) s h = absurd (omega arith)
upgrade_from_later env (suc (suc (suc (suc (suc zero))))) s h = absurd (omega arith)
upgrade_from_later env (suc (suc (suc (suc (suc (suc n)))))) s h = refl

-- A configuration that was read at version 6 or later is not changed, and the result says so.
pub upgrade_config_later :
    (env : Environment) (c : Config)
    → c.config_read ≡ true
    → 6 ≤ c.settings.version
    → upgrade_config env c ≡ upgraded false c
unfolding upgrade_config
upgrade_config_later env c r h =
    ground (arith, upgrade_from_later env c.settings.version c.settings h)
