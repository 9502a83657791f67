-- ===== src/Client/Api/Suggestions/Resent.antt =====
-- The loop of SubmitSuggestion that sends the samples that are not ready yet.
use alkasir.Base.{
  ℕ, zero, suc, ◌+◌, ◌*◌, ◌≤◌, ◌<◌, ◌≡◌, refl, ◌⊎◌, inl, inr, true, ltb, Option, some, arith,
  Option-cases,
}
use alkasir.Central.Suggestions.{Suggestion, Store, run}
use alkasir.Client.Api.Suggestions.{Tick, Round, stop, gone, again, sent, panic, round, resend}

-- The loop has ended.
abbrev pub IsEnd : Round → Type 0
IsEnd (again _) = ⊥
IsEnd _ = Unit

abbrev Ends : Option Round → Type 0
Ends o = (r : Round) × (o ≡ some r) × IsEnd r

round-late : (s : Suggestion) (t : Tick) (m : Store) → 900 < t.elapsed → IsEnd (round s t m)
unfolding round
round-late s t m late = elim (Option-cases (run t.messages m)) [
  | inl e ↦ rw (e, round) tt
  | inr (o, e) ↦
      let past : ltb (15 * 60) t.elapsed ≡ true = ground (arith, late) in
      rw (e, round) (rw (past, round) tt)
]

Round-cases : (x : Round) → IsEnd x ⊎ ((m : Store) × (x ≡ again m))
Round-cases stop = inl tt
Round-cases (gone r) = inl tt
Round-cases (again m) = inr (m, refl)
Round-cases (sent m) = inl tt
Round-cases panic = inl tt

resend-end :
    (n k : ℕ) (ticks : ℕ → Tick) (s : Suggestion) (m : Store) (x : Round)
    → round s (ticks k) m ≡ x
    → IsEnd x
    → resend (suc n) ticks k s m ≡ some x
unfolding resend
resend-end n k ticks s m stop e h = rw (e, resend) refl
resend-end n k ticks s m (gone r) e h = rw (e, resend) refl
resend-end n k ticks s m (again m') e h = elim h [ ]
resend-end n k ticks s m (sent m') e h = rw (e, resend) refl
resend-end n k ticks s m panic e h = rw (e, resend) refl

round-Ends :
    (n k : ℕ) (ticks : ℕ → Tick) (s : Suggestion) (m : Store)
    → IsEnd (round s (ticks k) m)
    → Ends (resend (suc n) ticks k s m)
round-Ends n k ticks s m h =
    (round s (ticks k) m, resend-end n k ticks s m (round s (ticks k) m) refl h, h)

resend-Ends_from :
    (n k : ℕ) (ticks : ℕ → Tick) (s : Suggestion) (m : Store)
    → ((j : ℕ) → 30 * j ≤ (ticks j).elapsed)
    → 31 ≤ n + k
    → Ends (resend (suc n) ticks k s m)
unfolding resend
resend-Ends_from zero k ticks s m times h =
    round-Ends 0 k ticks s m (round-late s (ticks k) m (omega (arith, times k, h)))
resend-Ends_from (suc n) k ticks s m times h = elim (Round-cases (round s (ticks k) m)) [
  | inl end ↦ round-Ends (suc n) k ticks s m end
  | inr (m', e) ↦
      let (r, f, end) = resend-Ends_from n (suc k) ticks s m' times (omega (arith, h)) in
      (r, rw (e, resend) f, end)
]

-- The ticks come every 30 seconds at least, from the first one on: within 31 of them the loop has ended,
-- whatever the requests come to and whatever else the store has taken.
pub resend-ends :
    (ticks : ℕ → Tick) (s : Suggestion) (m : Store)
    → ((j : ℕ) → 30 * j ≤ (ticks j).elapsed)
    → (r : Round) × (resend 31 ticks 1 s m ≡ some r) × IsEnd r
resend-ends ticks s m times = resend-Ends_from 30 1 ticks s m times (omega arith)
