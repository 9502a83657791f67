-- ===== src/Client/Config/Reading/Laws.antt =====
-- What is read can be worked with.
use alkasir.Base.{
  ◌≡◌, ◌≢◌, refl, ◌∙◌, inl, inr, true, false, Option, none, some, List, [], ◌∷◌, arith, map, All,
  Str, codes, str_eq, str_eq_iff, Option-cases,
}
use alkasir.Base.Dict.{Dict, lookup, insert, values, lookup-insert}
use alkasir.Shared.Connection.{Connection, Formats, ensure_id, id_text}
use alkasir.Shared.Transport.{Transport}
use alkasir.Client.Config.Settings.{Settings, Config}
use alkasir.Client.Config.Reading.{
  parse_config, by_name, built_in, chosen_settings, read_settings, read_host_files, read_config,
}

-- A transport of the program is bundled under its name.
abbrev pub HasBundled : Str → Dict Transport → Type 0
HasBundled name transports =
    (t : Transport) × (lookup name transports ≡ some t) × (t.name ≡ name) × (t.bundled ≡ true)

built_in-HasBundled :
    (d : Dict Transport)
    → HasBundled (codes "obfs3") (by_name built_in d)
      × HasBundled (codes "obfs4") (by_name built_in d)
      × HasBundled (codes "shadowsocks-client") (by_name built_in d)
unfolding by_name str_eq
built_in-HasBundled d =
    let obfs3 : Transport = record {
      name = codes "obfs3";
      bundled = true;
      command = [];
      tor_pt = true;
    } in
    let obfs4 : Transport = record {
      name = codes "obfs4";
      bundled = true;
      command = [];
      tor_pt = true;
    } in
    let shadow : Transport = record {
      name = codes "shadowsocks-client";
      bundled = true;
      command = [];
      tor_pt = false;
    } in
    let d1 = insert (codes "obfs3") obfs3 d in
    let d2 = insert (codes "obfs4") obfs4 d1 in
    (
      (
        obfs3,
        lookup-insert (codes "shadowsocks-client") (codes "obfs3") shadow d2
            ∙ lookup-insert (codes "obfs4") (codes "obfs3") obfs4 d1
            ∙ lookup-insert (codes "obfs3") (codes "obfs3") obfs3 d,
        refl,
        refl,
      ),
      (
        obfs4,
        lookup-insert (codes "shadowsocks-client") (codes "obfs4") shadow d2
            ∙ lookup-insert (codes "obfs4") (codes "obfs4") obfs4 d1,
        refl,
        refl,
      ),
      (
        shadow,
        lookup-insert (codes "shadowsocks-client") (codes "shadowsocks-client") shadow d2,
        refl,
        refl,
      ),
    )

ids_given :
    (f : Formats)
    → ((s : Str) → f.hash s ≢ [])
    → (cs : List Connection) → All (λ c. c.id ≢ []) (map (ensure_id f) cs)
unfolding ensure_id
ids_given f some_hash [] = tt
ids_given f some_hash (c ∷ cs) =
    (ground (arith, str_eq_iff c.id [], some_hash (id_text c)), ids_given f some_hash cs)

module _ (f : Formats) (parse : Str → Option Settings) (template : Str) where
  -- The settings come from a parsed text.
  chosen_settings_lem :
      (file : Option Str)
      → parse template ≢ none
      → (s : Settings) × (chosen_settings f parse template file
          ≡ some (record s { connections = map (ensure_id f) s.connections }))
  unfolding chosen_settings parse_config
  chosen_settings_lem none h = elim (Option-cases (parse template)) [
    | inl broken ↦ absurd (h broken)
    | inr (s, found) ↦ (s, rw (found, chosen_settings, parse_config))
  ]
  chosen_settings_lem (some file) h = elim (Option-cases (parse file)) [
    | inr (s, found) ↦ (s, rw (found, chosen_settings, parse_config))
    | inl bad ↦ elim (Option-cases (parse template)) [
      | inl broken ↦ absurd (h broken)
      | inr (s, found) ↦ (s, rw (bad, found, chosen_settings, parse_config))
    ]
  ]

  -- If the built-in template can be parsed, and no hash is empty, then reading does not panic, whatever
  -- the files hold: the configuration counts as read, every connection has an id, and the three bundled
  -- transports are listed under their names.
  pub read_config_total :
      (file central : Option Str) (c : Config)
      → parse template ≢ none
      → ((s : Str) → f.hash s ≢ [])
      → (c' : Config) × (read_config f parse template file central c ≡ some c')
        × (c'.config_read ≡ true)
        × All (λ x. x.id ≢ []) c'.settings.connections
        × HasBundled (codes "obfs3") c'.settings.transports
        × HasBundled (codes "obfs4") c'.settings.transports
        × HasBundled (codes "shadowsocks-client") c'.settings.transports
  unfolding read_config read_settings read_host_files
  read_config_total file central c h some_hash =
      let (s, found) = chosen_settings_lem file h in
      let (a, b, d) = built_in-HasBundled (by_name (values s.transports) []) in
      rw (found, read_config, read_settings)
        (_, refl, refl, ids_given f some_hash s.connections, a, b, d)
