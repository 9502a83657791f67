-- ===== src/Central/Analysis/Session/Laws.antt =====
-- What the analyzer publishes.
use mathlib.Core.List.{Mem, mem-cons_self, mem-cons_of_mem}
use alkasir.Base.{
  ◌≡◌, ◌≢◌, refl, sym, ◌∙◌, ap, inl, inr, ◌⊎◌, true, false, Option, none, some, List, [], ◌∷◌,
  arith, Str, codes, str_eq, str_eq_iff, ◌&&◌, if◌then◌else◌, Option-cases, Bool-cases,
}
use alkasir.Base.Dict.{lookup, lookup-insert}
use alkasir.Shared.Validator.{Net, accepted_host}
use alkasir.Central.Analysis.Score.{HttpHeaderResult, score-bounds}
use alkasir.Central.Analysis.Session.{
  Sample, Organized, nothing_organized, add_sample, organize, aborted, published, judge, validate,
  analyze,
}

-- The last sample of the list with the origin and the type, or else what was there.
abbrev pub last_of : Str → Str → List Sample → Option Sample → Option Sample
last_of origin type [] old = old
last_of origin type (s ∷ ss) old =
    last_of origin type ss (if str_eq s.origin origin && str_eq s.type type then some s else old)

-- The token samples of the list.
abbrev pub token_samples : List Sample → List Sample
token_samples [] = []
token_samples (s ∷ ss) =
    let rest = token_samples ss in if str_eq s.type (codes "NewClientToken") then s ∷ rest else rest

-- Two parsed results are always far enough apart.
pub judge_lem :
    (net : Net) (parse : Str → Option HttpHeaderResult) (t client central : Sample)
    → judge net parse t client central ≡ elim (parse client.payload) [
      | none ↦ aborted
      | some _ ↦ elim (parse central.payload) [ none ↦ aborted | some _ ↦ published t ]
    ]
unfolding judge
judge_lem net parse t client central = elim (Option-cases (parse client.payload)) [
  | inl failed ↦ rw (failed, judge)
  | inr (a, found) ↦ elim (Option-cases (parse central.payload)) [
    | inl failed ↦ rw (found, failed, judge)
    | inr (b, found') ↦ rw (found, found', judge) (ground (arith, score-bounds a b))
  ]
]

http_header : Str
http_header = codes "HTTPHeader"

-- What a round leaves under HTTPHeader, and as the token sample.
add_sample_lem :
    (s : Sample) (o o' : Organized)
    → add_sample s o ≡ some o'
    → (lookup (codes "HTTPHeader") o'.client_samples ≡ (
        if str_eq s.origin (codes "Client") && str_eq s.type (codes "HTTPHeader")
        then some s
        else lookup (codes "HTTPHeader") o.client_samples))
      × (lookup (codes "HTTPHeader") o'.central_samples ≡ (
          if str_eq s.origin (codes "Central") && str_eq s.type (codes "HTTPHeader")
          then some s
          else lookup (codes "HTTPHeader") o.central_samples))
      × (o'.new_token_sample
          ≡ (if str_eq s.type (codes "NewClientToken") then s else o.new_token_sample))
unfolding add_sample str_eq
add_sample_lem s o o' e = ground (
  arith,
  lookup-insert s.type (codes "HTTPHeader") s o.client_samples,
  lookup-insert s.type (codes "HTTPHeader") s o.central_samples,
  str_eq_iff s.type (codes "HTTPHeader"),
  str_eq_iff s.type (codes "DNSQuery"),
  str_eq_iff s.type (codes "NewClientToken"),
  str_eq_iff s.origin (codes "Central"),
  str_eq_iff s.origin (codes "Client"),
)

lookup-organize :
    (ss : List Sample) (o o' : Organized)
    → organize ss o ≡ some o'
    → (lookup (codes "HTTPHeader") o'.client_samples
        ≡ last_of
            (codes "Client")
            (codes "HTTPHeader")
            ss
            (lookup (codes "HTTPHeader") o.client_samples))
      × (lookup (codes "HTTPHeader") o'.central_samples
          ≡ last_of
              (codes "Central")
              (codes "HTTPHeader")
              ss
              (lookup (codes "HTTPHeader") o.central_samples))
unfolding organize
lookup-organize [] o o' e = ground arith
lookup-organize (s ∷ ss) o o' e = elim (Option-cases (add_sample s o)) [
  | inl failed ↦ let bad : none ≡ some o' = rw (failed, organize) at e in cc
  | inr (o1, found) ↦
      let (a, b, c) = add_sample_lem s o o1 found in
      let (x, y) = lookup-organize ss o1 o' (rw (found, organize) at e) in
      (rw (sym a) x, rw (sym b) y)
]

add_sample_other :
    (s : Sample) (o : Organized)
    → str_eq s.type (codes "NewClientToken") ≡ false
    → (o' : Organized) × (add_sample s o ≡ some o')
unfolding add_sample
add_sample_other s o e = elim (Option-cases (add_sample s o)) [
  | inl failed ↦ ground arith
  | inr found ↦ found
]

-- Without a token sample nothing stops the loop.
organize_no_token :
    (ss : List Sample) (o : Organized)
    → token_samples ss ≡ []
    → (o' : Organized) × (organize ss o ≡ some o') × (o'.new_token_sample ≡ o.new_token_sample)
unfolding organize
organize_no_token [] o e = (o, refl, refl)
organize_no_token (s ∷ ss) o e =
    let other : str_eq s.type (codes "NewClientToken") ≡ false = ground arith in
    let (o1, found) = add_sample_other s o other in
    let (a, b, c) = add_sample_lem s o o1 found in
    let (o2, x, y) = organize_no_token ss o1 (ground arith) in
    (o2, rw (found, organize) x, ground arith)

add_sample_first :
    (s : Sample) (o : Organized)
    → o.new_token_sample.token ≡ []
    → (o' : Organized) × (add_sample s o ≡ some o')
unfolding add_sample
add_sample_first s o e = elim (Option-cases (add_sample s o)) [
  | inl failed ↦ ground (arith, str_eq_iff o.new_token_sample.token [])
  | inr found ↦ found
]

-- With one token sample the loop ends, with that sample.
organize_one_token :
    (ss : List Sample) (o : Organized) (t : Sample)
    → token_samples ss ≡ t ∷ []
    → o.new_token_sample.token ≡ []
    → (o' : Organized) × (organize ss o ≡ some o') × (o'.new_token_sample ≡ t)
unfolding organize
organize_one_token [] o t e none_yet = cc
organize_one_token (s ∷ ss) o t e none_yet =
    let (o1, found) = add_sample_first s o none_yet in
    let (a, b, c) = add_sample_lem s o o1 found in
    elim (Bool-cases (str_eq s.type (codes "NewClientToken"))) [
      | inl it ↦
          let (o2, x, y) = organize_no_token ss o1 (ground arith) in
          (o2, rw (found, organize) x, ground arith)
      | inr other ↦
          let (o2, x, y) = organize_one_token ss o1 t (ground arith) (ground arith) in
          (o2, rw (found, organize) x, y)
    ]

-- A session with exactly one token sample, with a token and an accepted host, and with header
-- results of both sides that can be parsed, is published: whatever the results say.
pub analyze_publishes :
    (net : Net) (parse : Str → Option HttpHeaderResult) (samples : List Sample)
    (t client central : Sample)
    → token_samples samples ≡ t ∷ []
    → t.token ≢ []
    → accepted_host net t.host ≡ true
    → last_of (codes "Client") (codes "HTTPHeader") samples none ≡ some client
    → last_of (codes "Central") (codes "HTTPHeader") samples none ≡ some central
    → parse client.payload ≢ none
    → parse central.payload ≢ none
    → analyze net parse samples ≡ published t
unfolding analyze validate lookup
analyze_publishes net parse samples t client central one token accepted lc ld pc pd =
    let (o, found, same) = organize_one_token samples nothing_organized t one refl in
    let (x, y) = lookup-organize samples nothing_organized o found in
    let client_found : lookup (codes "HTTPHeader") o.client_samples ≡ some client = x ∙ lc in
    let central_found : lookup (codes "HTTPHeader") o.central_samples ≡ some central = y ∙ ld in
    let checked : validate net parse o ≡ judge net parse o.new_token_sample client central =
      ground (arith, str_eq_iff o.new_token_sample.token []) in
    rw (found, analyze)
      (checked ∙ ground (arith, judge_lem net parse o.new_token_sample client central))

-- The token sample is one of the session's, or what was there before.
organize-token :
    (ss : List Sample) (o o' : Organized)
    → organize ss o ≡ some o'
    → (o'.new_token_sample ≡ o.new_token_sample) ⊎ Mem o'.new_token_sample (token_samples ss)
unfolding organize
organize-token [] o o' e = inl (ground arith)
organize-token (s ∷ ss) o o' e = elim (Option-cases (add_sample s o)) [
  | inl failed ↦ let bad : none ≡ some o' = rw (failed, organize) at e in cc
  | inr (o1, found) ↦
      let (a, b, c) = add_sample_lem s o o1 found in
      elim (Bool-cases (str_eq s.type (codes "NewClientToken"))) [
        | inl it ↦ elim (organize-token ss o1 o' (rw (found, organize) at e)) [
          | inl same ↦ inr (rw it (rw (same ∙ c, it) mem-cons_self))
          | inr later ↦ inr (rw it (mem-cons_of_mem s later))
        ]
        | inr other ↦ elim (organize-token ss o1 o' (rw (found, organize) at e)) [
          | inl same ↦ inl (ground arith)
          | inr later ↦ inr (rw other later)
        ]
      ]
]

validate-cases :
    (net : Net) (parse : Str → Option HttpHeaderResult) (o : Organized)
    → (validate net parse o ≡ aborted)
      ⊎ ((validate net parse o ≡ published o.new_token_sample)
          × (o.new_token_sample.token ≢ [])
          × (accepted_host net o.new_token_sample.host ≡ true)
          × (lookup (codes "HTTPHeader") o.client_samples ≢ none)
          × (lookup (codes "HTTPHeader") o.central_samples ≢ none))
unfolding validate
validate-cases net parse o = elim (Option-cases (lookup (codes "HTTPHeader") o.client_samples)) [
  | inl absent ↦ ground arith
  | inr (client, found) ↦ elim (Option-cases (lookup (codes "HTTPHeader") o.central_samples)) [
    | inl absent ↦ ground arith
    | inr (central, found') ↦ ground (
      arith,
      str_eq_iff o.new_token_sample.token [],
      judge_lem net parse o.new_token_sample client central,
    )
  ]
]

-- The analyzer gives up a session or publishes its token sample, and holds none back for its score.
-- What it publishes is one of the session's token samples, with a token and an accepted host, and
-- the session has header samples of both sides.
pub analyze-published :
    (net : Net) (parse : Str → Option HttpHeaderResult) (samples : List Sample)
    → (analyze net parse samples ≡ aborted)
      ⊎ ((t : Sample) × (analyze net parse samples ≡ published t)
          × Mem t (token_samples samples)
          × (t.token ≢ [])
          × (accepted_host net t.host ≡ true)
          × (last_of (codes "Client") (codes "HTTPHeader") samples none ≢ none)
          × (last_of (codes "Central") (codes "HTTPHeader") samples none ≢ none))
unfolding analyze lookup
analyze-published net parse samples = elim (Option-cases (organize samples nothing_organized)) [
  | inl failed ↦ inl (rw (failed, analyze))
  | inr (o, found) ↦ elim (validate-cases net parse o) [
    | inl given_up ↦ inl (rw (found, analyze) given_up)
    | inr (judged, some_token, accepted, c, d) ↦
        let (x, y) = lookup-organize samples nothing_organized o found in
        inr (
          o.new_token_sample,
          rw (found, analyze) judged,
          elim (organize-token samples nothing_organized o found) [
            | inl same ↦ absurd (some_token (ap (λ s. s.token) same))
            | inr listed ↦ listed
          ],
          some_token,
          accepted,
          λ e. c (x ∙ e),
          λ e. d (y ∙ e),
        )
  ]
]
