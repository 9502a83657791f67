-- ===== src/Central/Analysis/Score.antt =====
-- pkg/central/analysis/score.go. The scores are multiples of a tenth and are counted in tenths; the
-- three halvings of Score make it a multiple of an eightieth, and it is counted in those. The
-- program's floating point numbers are within their rounding of these. A status code is a natural number.
use alkasir.Base.{
  ℕ, ◌+◌, ◌*◌, ◌≤◌, ◌≡◌, List, [], arith, Str, length, ltb, ◌==◌, str_eq, str_eq_iff, not, ◌&&◌,
  if◌then◌else◌,
}
use alkasir.Base.Dict.{Dict}

pub record Redirect : Type 0 where
  pub status_code : ℕ
  pub header : Dict Str
  pub url : Str

-- pkg/measure/httpheader.go
pub record HttpHeaderResult : Type 0 where
  pub url : Str
  pub response_header : Dict Str
  pub redirects : List Redirect
  pub error : Str
  pub status_code : ℕ

-- In tenths.
pub record HttpHeaderScore : Type 0 where
  pub status_code : ℕ
  pub redirects : ℕ
  pub error : ℕ

-- In eightieths: `(result + x) / 2` three times, from 1.
unfoldable pub score : HttpHeaderScore → ℕ
score h = ((10 + h.status_code) + 2 * h.error) + 4 * h.redirects

unfoldable pub score_status_code : ℕ → ℕ → ℕ
score_status_code client central =
    if ltb central 400 && ltb 400 client
    then 10
    else if not (client == central)
    then 7
    else if not (client == central)
    then 0
    else 5

unfoldable pub score_error : Str → Str → ℕ
score_error client central =
    if str_eq central client
    then 5
    else if str_eq central [] && not (str_eq client [])
    then 10
    else if not (str_eq central []) && str_eq client []
    then 5
    else 5

unfoldable pub score_redirects : List Redirect → List Redirect → ℕ
score_redirects client central = if length client == length central then 5 else 6

unfoldable pub score_http_headers : HttpHeaderResult → HttpHeaderResult → HttpHeaderScore
score_http_headers client central = record {
  status_code = score_status_code client.status_code central.status_code;
  redirects = score_redirects client.redirects central.redirects;
  error = score_error client.error central.error;
}

-- 0.5
abbrev pub threshold : ℕ
threshold = 40

-- Whatever two results are compared, the score is at least 45/80 and at most 64/80.
pub score-bounds :
    (client central : HttpHeaderResult)
    → (45 ≤ score (score_http_headers client central))
      × (score (score_http_headers client central) ≤ 64)
unfolding score score_http_headers score_status_code score_error score_redirects
score-bounds client central = ground arith

-- The score is the lowest, 45/80, exactly if the client saw nothing that speaks of blocking: the
-- same status code, as many redirects, and not an error where the central server saw none.
pub score-lowest :
    (client central : HttpHeaderResult)
    → (score (score_http_headers client central) == 45) ≡ (
        (client.status_code == central.status_code)
        && (length client.redirects == length central.redirects)
        && not (str_eq central.error [] && not (str_eq client.error [])))
unfolding score score_http_headers score_status_code score_error score_redirects
score-lowest client central = ground (
  arith,
  str_eq_iff central.error client.error,
  str_eq_iff client.error [],
  str_eq_iff central.error [],
)
