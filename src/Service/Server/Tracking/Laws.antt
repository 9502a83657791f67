-- ===== src/Service/Server/Tracking/Laws.antt =====
-- The number of an address is what was opened less what was closed.
use alkasir.Base.{
  ℕ, suc, ◌+◌, ◌-◌, ◌*◌, ◌%◌, ◌^◌, ◌<◌, ◌≤◌, ◌≡◌, sym, ◌∙◌, ap, inl, inr, none, some, List, [], ◌∷◌,
  arith, Str, str_eq, str_eq_iff, if◌then◌else◌, Option-cases,
}
use alkasir.Base.Dict.{Dict, lookup, lookup-insert, lookup-insert_self}
use alkasir.Service.Server.Tracking.{
  track_open_conn, track_close_conn, Track, open_conn, close_conn, track,
}

abbrev pub track_all : List Track → Dict ℕ → Dict ℕ
track_all [] addrs = addrs
track_all (e ∷ es) addrs = track_all es (track e addrs)

-- How often an address is opened, and closed.
abbrev pub opens : Str → List Track → ℕ
opens a [] = 0
opens a (open_conn b ∷ es) = if str_eq b a then suc (opens a es) else opens a es
opens a (close_conn b ∷ es) = opens a es

abbrev pub closes : Str → List Track → ℕ
closes a [] = 0
closes a (open_conn b ∷ es) = closes a es
closes a (close_conn b ∷ es) = if str_eq b a then suc (closes a es) else closes a es

-- One event, for an address that has a number.
track_one :
    (a : Str) (e : Track) (addrs : Dict ℕ) (n : ℕ)
    → lookup a addrs ≡ some n
    → n < 2 ^ 64
    → lookup a (track e addrs)
      ≡ some ((n + opens a (e ∷ []) + 18446744073709551615 * closes a (e ∷ [])) % 2 ^ 64)
unfolding track track_open_conn track_close_conn
track_one a (open_conn b) addrs n e h = elim (Option-cases (lookup b addrs)) [
  | inl absent ↦ ground (arith, lookup-insert b a 1 addrs, str_eq_iff b a)
  | inr (m, found) ↦ ground (arith, lookup-insert b a ((m + 1) % 2 ^ 64) addrs, str_eq_iff b a)
]
track_one a (close_conn b) addrs n e h = elim (Option-cases (lookup b addrs)) [
  | inl absent ↦ ground (arith, lookup-insert b a 0 addrs, str_eq_iff b a)
  | inr (m, found) ↦
      ground (arith, lookup-insert b a ((m + 18446744073709551615) % 2 ^ 64) addrs, str_eq_iff b a)
]

opens-cons :
    (a : Str) (e : Track) (es : List Track)
    → (opens a (e ∷ es) ≡ opens a (e ∷ []) + opens a es)
      × (closes a (e ∷ es) ≡ closes a (e ∷ []) + closes a es)
opens-cons a (open_conn b) es = ground arith
opens-cons a (close_conn b) es = ground arith

sum_mod :
    (n o c o' c' : ℕ)
    → ((((n + o + 18446744073709551615 * c) % 2 ^ 64) + o' + 18446744073709551615 * c') % 2 ^ 64)
      ≡ (n + (o + o') + 18446744073709551615 * (c + c')) % 2 ^ 64
sum_mod n o c o' c' = omega arith

track_all-word :
    (a : Str) (es : List Track) (addrs : Dict ℕ) (n : ℕ)
    → lookup a addrs ≡ some n
    → n < 2 ^ 64
    → lookup a (track_all es addrs)
      ≡ some ((n + opens a es + 18446744073709551615 * closes a es) % 2 ^ 64)
track_all-word a [] addrs n e h =
    let same : n ≡ (n + 0 + 18446744073709551615 * 0) % 2 ^ 64 = omega arith in e ∙ ap some same
track_all-word a (t ∷ es) addrs n e h =
    let o = opens a (t ∷ []) in
    let c = closes a (t ∷ []) in
    let m = (n + o + 18446744073709551615 * c) % 2 ^ 64 in
    let (oo, cc') = opens-cons a t es in
    track_all-word a es (track t addrs) m (track_one a t addrs n e h) (omega arith)
    ∙ ap some (
        sum_mod n o c (opens a es) (closes a es)
        ∙ ap (λ x. (n + x + 18446744073709551615 * (c + closes a es)) % 2 ^ 64) (sym oo)
        ∙ ap (λ x. (n + opens a (t ∷ es) + 18446744073709551615 * x) % 2 ^ 64) (sym cc'))

-- For an address that has a number, any opening and closing of connections, of this and other
-- addresses, in any order, leaves the number plus the openings less the closings, if that is not
-- below zero and the number plus the openings fits in a word.
pub track_all-count :
    (a : Str) (es : List Track) (addrs : Dict ℕ) (n : ℕ)
    → lookup a addrs ≡ some n
    → closes a es ≤ n + opens a es
    → n + opens a es < 2 ^ 64
    → lookup a (track_all es addrs) ≡ some ((n + opens a es) - closes a es)
track_all-count a es addrs n e le fits =
    let exact : ((n + opens a es + 18446744073709551615 * closes a es) % 2 ^ 64)
        ≡ (n + opens a es) - closes a es =
      omega arith in
    track_all-word a es addrs n e (omega arith) ∙ ap some exact

-- An address that has no number and is closed twice has the largest number of a word.
pub track_close_conn_twice :
    (a : Str) (addrs : Dict ℕ)
    → lookup a addrs ≡ none
    → lookup a (track_close_conn a (track_close_conn a addrs)) ≡ some 18446744073709551615
unfolding track_close_conn
track_close_conn_twice a addrs e =
    let first : lookup a (track_close_conn a addrs) ≡ some 0 =
      rw (e, track_close_conn) (lookup-insert_self a 0 addrs) in
    rw (first, track_close_conn)
      (lookup-insert_self a 18446744073709551615 (track_close_conn a addrs))
