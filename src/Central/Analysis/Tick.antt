-- ===== src/Central/Analysis/Tick.antt =====
-- pkg/central/analysis/analysis.go, StartAnalysis and sessionFetcher: what each tick asks for.
use alkasir.Base.{
  ℕ, ◌≤◌, ◌≡◌, refl, inl, inr, Bool-cases, Bool, Option, none, some, List, [], ◌∷◌, arith, Str,
  codes, str_eq, ltb, ◌==◌, not, ◌&&◌, All, if◌then◌else◌,
}
use alkasir.Central.Analysis.Session.{Sample}

-- The last id that was seen, and the last that was written to the database.
pub record Position : Type 0 where
  pub last_id : ℕ
  pub last_persisted_id : ℕ

-- The loop over the results: the last id, and the tokens sent to the fetchers.
unfoldable pub walk : List Sample → ℕ → ℕ × List Str
walk [] last = (last, [])
walk (s ∷ ss) last =
    let (end, tokens) = walk ss (if ltb last s.id then s.id else last) in
    if str_eq s.origin (codes "Central") && str_eq s.type (codes "HTTPHeader")
    then (end, s.token ∷ tokens)
    else (end, tokens)

-- One tick. Nothing comes from the database on an error; `persists` says whether it takes the id.
unfoldable pub tick : Option (List Sample) → Bool → Position → Position × List Str
tick none persists p = (p, [])
tick (some results) persists p =
    let (last, tokens) = walk results p.last_id in
    if not (last == p.last_persisted_id) && persists
    then (record { last_id = last; last_persisted_id = last }, tokens)
    else (record p { last_id = last }, tokens)

-- sessionFetcher: an empty token is skipped, and so is one whose samples cannot be had.
unfoldable pub fetch : (Str → Option (List Sample)) → Str → Option (List Sample)
fetch get_session_samples token = if str_eq token [] then none else get_session_samples token

-- The samples whose sessions are looked at: the headers that the central server measured.
unfoldable pub wanted_tokens : List Sample → List Str
wanted_tokens [] = []
wanted_tokens (s ∷ ss) =
    let rest = wanted_tokens ss in
    if str_eq s.origin (codes "Central") && str_eq s.type (codes "HTTPHeader")
    then s.token ∷ rest
    else rest

walk-tokens : (ss : List Sample) (last : ℕ) → (walk ss last).1 ≡ wanted_tokens ss
unfolding walk wanted_tokens
walk-tokens [] last = refl
walk-tokens (s ∷ ss) last = ground (arith, walk-tokens ss (if ltb last s.id then s.id else last))

abbrev largest : ℕ → List Sample → ℕ
largest last [] = last
largest last (s ∷ ss) = largest (if ltb last s.id then s.id else last) ss

walk-largest : (ss : List Sample) (last : ℕ) → (walk ss last).0 ≡ largest last ss
unfolding walk
walk-largest [] last = refl
walk-largest (s ∷ ss) last = ground (arith, walk-largest ss (if ltb last s.id then s.id else last))

largest-start : (ss : List Sample) (last : ℕ) → last ≤ largest last ss
largest-start [] last = omega arith
largest-start (s ∷ ss) last =
    ground (arith, largest-start ss (if ltb last s.id then s.id else last))

largest-All : (ss : List Sample) (last : ℕ) → All (λ s. s.id ≤ largest last ss) ss
largest-All [] last = tt
largest-All (s ∷ ss) last = (
  ground (arith, largest-start ss (if ltb last s.id then s.id else last)),
  largest-All ss (if ltb last s.id then s.id else last),
)

-- A tick that has results sends the tokens of all header samples of the central server, in
-- order; the last id is then no less than before and than the id of any result; and it is the
-- persisted one if the database takes it, while the persisted one stays if not.
pub tick_lem :
    (results : List Sample) (persists : Bool) (p : Position)
    → ((tick (some results) persists p).1 ≡ wanted_tokens results)
      × (p.last_id ≤ (tick (some results) persists p).0.last_id)
      × All (λ s. s.id ≤ (tick (some results) persists p).0.last_id) results
      × ((tick (some results) persists p).0.last_persisted_id
          ≡ (if persists then (tick (some results) persists p).0.last_id else p.last_persisted_id))
unfolding tick
tick_lem results persists p =
    elim (Bool-cases (not ((walk results p.last_id).0 == p.last_persisted_id) && persists)) [
      | inl taken ↦ rw taken (
        walk-tokens results p.last_id,
        rw (walk-largest results p.last_id) (largest-start results p.last_id),
        rw (walk-largest results p.last_id) (largest-All results p.last_id),
        ground arith,
      )
      | inr left ↦ rw left (
        walk-tokens results p.last_id,
        rw (walk-largest results p.last_id) (largest-start results p.last_id),
        rw (walk-largest results p.last_id) (largest-All results p.last_id),
        ground arith,
      )
    ]
