-- ===== src/Central/Export/Tests.antt =====
-- Three rows in pages of two.
use alkasir.Base.{◌≡◌, some, List, [], ◌∷◌, arith, codes}
use alkasir.Central.Export.{Entry, follow}
use alkasir.Central.Export.Paging.{follow-all}

abbrev rows : List Entry
rows =
    record { id = 7; content = codes "a" }
    ∷ record { id = 4; content = codes "b" }
    ∷ record { id = 1; content = codes "c" }
    ∷ []

follow-all_example : follow 4 2 0 rows ≡ some rows
follow-all_example = follow-all 2 rows (omega arith) (
  (omega arith, (omega arith, tt)),
  omega arith,
  ((omega arith, tt), omega arith, (tt, omega arith, tt)),
)
