-- ===== src/Central/Api/Hosts/Tests.antt =====
-- A blocked host with related ones.
use mathlib.Core.List.{Memᴰ}
use alkasir.Base.{◌↔◌, ◌≡◌, refl, List, [], ◌∷◌, Str, str_eq, codes, strip_prefix}
use alkasir.Base.Dict.{Dict, insert}
use alkasir.Central.Api.Hosts.{fill, update, trim_www}
use alkasir.Central.Api.Hosts.Laws.{ComesOf, fill-Mem}

abbrev related : Dict (List Str)
related = (codes "a.com", [] ∷ codes "www.b.com" ∷ []) ∷ []

fill-Mem_example :
    Memᴰ (codes "b.com") (fill related (codes "www.a.com" ∷ codes "a.com" ∷ []))
    ↔ ComesOf related (codes "b.com") (codes "www.a.com" ∷ codes "a.com" ∷ [])
fill-Mem_example = fill-Mem related (codes "www.a.com" ∷ codes "a.com" ∷ []) (codes "b.com")

-- Two entries that differ in the `www.` alone: the one that the loop comes to last is kept.
update_last :
    update ((codes "www.a.com", codes "b.com" ∷ []) ∷ (codes "a.com", codes "c.com" ∷ []) ∷ []) []
    ≡ (codes "a.com", codes "c.com" ∷ []) ∷ []
unfolding update trim_www insert str_eq strip_prefix
update_last = refl
