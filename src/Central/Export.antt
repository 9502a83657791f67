-- ===== src/Central/Export.antt =====
-- The export of the central server: GetExportBlockedHosts and its two likes of pkg/central/db/postgres.go, and
-- GetBlockedHostsExport and its likes of pkg/central/export-api.go. A table is the list of its rows with
-- decreasing ids. An id is a number, also where the code has its text. Rows that cannot be scanned and failing
-- queries are left out.
pub mod Paging
mod Tests
use alkasir.Base.{
  ℕ, zero, suc, ◌+◌, Bool, true, false, ◌==◌, ltb, Option, none, some, List, [], ◌∷◌, ◌++◌, Str,
  take, last?, if◌then◌else◌,
}

pub record Entry : Type 0 where
  pub id : ℕ
  pub content : Str

-- `Where("id < ?", req.IDMax)`
unfoldable pub below : ℕ → List Entry → List Entry
below m [] = []
below m (e ∷ es) = let rest = below m es in if ltb e.id m then e ∷ rest else rest

-- The query, with a bound if it is not 0.
unfoldable pub query : ℕ → ℕ → List Entry → List Entry
unfolding below
query page_length id_max table =
    if id_max == 0
    then take (page_length + 1) table
    else take (page_length + 1) (below id_max table)

-- The loop over the rows; `count` is the number of those before.
unfoldable pub scan : ℕ → ℕ → List Entry → List Entry → Option ℕ → List Entry × Option ℕ
scan page_length count [] results next = (results, next)
scan page_length count (e ∷ rows) results next =
    if ltb page_length (count + 1)
    then scan page_length (count + 1) rows results (some e.id)
    else scan page_length (count + 1) rows (results ++ e ∷ []) next

unfoldable pub get_export : ℕ → ℕ → List Entry → List Entry × Option ℕ
unfolding query scan
get_export page_length id_max table = scan page_length 0 (query page_length id_max table) [] none

-- A page: its entries, and the bound in the link to the next one.
pub record Page : Type 0 where
  pub hosts : List Entry
  pub next : Option ℕ

-- The bound is the id of the last entry of this page; `none` is the panic where there is no entry.
unfoldable pub linked : List Entry × Option ℕ → Option Page
linked (hosts, none) = some (record { hosts = hosts; next = none })
linked (hosts, some _) = elim (last? hosts) [
  | none ↦ none
  | some e ↦ some (record { hosts = hosts; next = some e.id })
]

unfoldable pub export_page : ℕ → ℕ → List Entry → Option Page
unfolding get_export linked
export_page page_length id_max table = linked (get_export page_length id_max table)

-- All that someone gets who follows the links, on fuel; `none` is a panic, or that the fuel is used up.
unfoldable pub follow : ℕ → ℕ → ℕ → List Entry → Option (List Entry)
unfolding export_page
follow zero page_length id_max table = none
follow (suc n) page_length id_max table = elim (export_page page_length id_max table) [
  | none ↦ none
  | some page ↦ elim page.next [
    | none ↦ some page.hosts
    | some m ↦ elim (follow n page_length m table) [
      | none ↦ none
      | some rest ↦ some (page.hosts ++ rest)
    ]
  ]
]
