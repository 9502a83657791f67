-- ===== src/Central/Publication/Late.antt =====
-- A header of the client that is stored after the session was judged.
use alkasir.Base.{
  ◌≡◌, ◌≢◌, sym, ap, ◌∙◌, inl, inr, Bool, ◌&&◌, Option, none, some, List, [], ◌∷◌, arith, Str,
  codes, str_eq, str_eq_iff, str_eq_refl, All, Bool-cases,
}
use alkasir.Shared.Validator.{Net}
use alkasir.Central.Analysis.Score.{HttpHeaderResult}
use alkasir.Central.Analysis.Session.{Sample, aborted, analyze}
use alkasir.Central.Analysis.Session.Laws.{last_of, analyze-published}
use alkasir.Central.Analysis.Tick.{Position, tick, wanted_tokens, tick_lem}

apart : codes "Central" ≢ codes "Client"
unfolding str_eq
apart e = cc (sym (str_eq_refl (codes "Central")) ∙ ap (str_eq (codes "Central")) e)

-- Only headers of the central server have their sessions judged.
wanted_tokens-others :
    (token : Str) (results : List Sample)
    → All (λ s. s.token ≡ token → s.origin ≡ codes "Client") results
    → All (λ k. k ≢ token) (wanted_tokens results)
unfolding wanted_tokens str_eq
wanted_tokens-others token [] h = tt
wanted_tokens-others token (s ∷ ss) (own, h) =
    elim (Bool-cases (str_eq s.origin (codes "Central") && str_eq s.type (codes "HTTPHeader"))) [
      | inr other ↦ rw other (wanted_tokens-others token ss h)
      | inl central ↦
          let origin : s.origin ≡ codes "Central" =
            ground (arith, str_eq_iff s.origin (codes "Central")) in
          rw central (λ e. apart (sym origin ∙ own e), wanted_tokens-others token ss h)
    ]

-- A session that is judged before a header of the client is stored is given up; and a tick that finds nothing
-- else of its token than what the client stores then does not have it judged again.
pub late-unjudged :
    (net : Net) (parse : Str → Option HttpHeaderResult) (token : Str)
    (samples results : List Sample) (persists : Bool) (p : Position)
    → last_of (codes "Client") (codes "HTTPHeader") samples none ≡ none
    → All (λ s. s.token ≡ token → s.origin ≡ codes "Client") results
    → (analyze net parse samples ≡ aborted)
      × All (λ k. k ≢ token) (tick (some results) persists p).1
late-unjudged net parse token samples results persists p absent later = (
  elim (analyze-published net parse samples) [
    | inl given_up ↦ given_up
    | inr (t, _, _, _, _, has, _) ↦ absurd (has absent)
  ],
  rw ((tick_lem results persists p).0) (wanted_tokens-others token results later),
)
