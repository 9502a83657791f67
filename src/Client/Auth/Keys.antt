-- ===== src/Client/Auth/Keys.antt =====
-- When a key for single use opens a page.
use alkasir.Base.{
  ℕ, ◌+◌, ◌≤◌, ◌<◌, ◌≡◌, refl, sym, ◌∙◌, ap, ◌⊎◌, inl, inr, Bool, false, ◌||◌, ltb, Option, none,
  some, List, [], ◌∷◌, arith, Str, str_eq, str_eq_iff, Bool-cases, Option-cases, some_inj,
  if◌then◌else◌,
}
use alkasir.Base.Dict.{
  Dict, lookup, erase, lookup-insert, lookup-erase, IsKeyed, insert-IsKeyed, erase-IsKeyed,
}
use alkasir.Client.Auth.{
  Store, ttl, authenticate, new, clean_from, cleanup, Request, is_bearer, is_cookie, serve, Event,
  made, tried, cleaned, happen, run,
}

-- When the key was made, if it was not tried since.
abbrev pub fresh_after : Str → Event → ℕ → Option ℕ → Option ℕ
fresh_after k (made j) now o = if str_eq j k then some now else o
fresh_after k (tried j) now o = if str_eq j k then none else o
fresh_after k cleaned now o = o

abbrev pub fresh : Str → List (Event × ℕ) → Option ℕ → Option ℕ
fresh k [] o = o
fresh k ((e, now) ∷ es) o = fresh k es (fresh_after k e now o)

-- The times do not run backwards, from one on.
abbrev pub IsTimely : ℕ → List (Event × ℕ) → ℕ → Type 0
IsTimely t [] end = t ≤ end
IsTimely t ((_, now) ∷ es) end = (t ≤ now) × IsTimely now es end

-- The entry is as it should be, or it was cleaned up after its time.
abbrev IsKept : ℕ → Option ℕ → Option ℕ → Type 0
IsKept now found wanted =
    (found ≡ wanted) ⊎ ((found ≡ none) × ((t : ℕ) × (wanted ≡ some t) × (t + ttl < now)))

behind :
    (j k : Str) (v w : ℕ) (entries : Dict ℕ)
    → lookup j entries ≡ none
    → lookup k entries ≡ some w
    → lookup k ((j, v) ∷ entries) ≡ some w
unfolding lookup
behind j k v w entries n e = elim (Bool-cases (str_eq j k)) [
  | inl same ↦ cc (n, e, (str_eq_iff j k).0 same)
  | inr ne ↦ rw ne e
]

-- What the loop of Cleanup leaves of one key.
lookup-clean_from :
    (now : ℕ) (k : Str) (entries s : Dict ℕ)
    → IsKeyed entries
    → (lookup k (clean_from now entries s) ≡ lookup k s)
      ⊎ ((lookup k (clean_from now entries s) ≡ none)
          × ((v : ℕ) × (lookup k entries ≡ some v) × (v + ttl < now)))
unfolding clean_from lookup
lookup-clean_from now k [] s h = inl refl
lookup-clean_from now k ((j, v) ∷ entries) s (new_key, h) = elim (Bool-cases (ltb (v + ttl) now)) [
  | inr young ↦ rw young (elim (lookup-clean_from now k entries s h) [
    | inl same ↦ inl same
    | inr (gone, (w, e, old)) ↦ inr (gone, (w, behind j k v w entries new_key e, old))
  ])
  | inl late ↦ rw late (elim (lookup-clean_from now k entries (erase j s) h) [
    | inr (gone, (w, e, old)) ↦ inr (gone, (w, behind j k v w entries new_key e, old))
    | inl same ↦ elim (Bool-cases (str_eq j k)) [
      | inl here ↦
          inr (same ∙ lookup-erase j k s ∙ rw here refl, (v, rw here refl, ground (arith, late)))
      | inr there ↦ inl (same ∙ lookup-erase j k s ∙ rw there refl)
    ]
  ])
]

cleanup-IsKept :
    (now : ℕ) (k : Str) (s : Store) → IsKeyed s → IsKept now (lookup k (cleanup now s)) (lookup k s)
unfolding cleanup
cleanup-IsKept now k s h = lookup-clean_from now k s s h

IsKept-later :
    (t now : ℕ) (found wanted : Option ℕ)
    → t ≤ now
    → IsKept t found wanted
    → IsKept now found wanted
IsKept-later t now found wanted le (inl e) = inl e
IsKept-later t now found wanted le (inr (gone, (v, e, old))) =
    inr (gone, (v, e, omega (arith, old, le)))

lookup-authenticate :
    (j k : Str) (now : ℕ) (s : Store)
    → lookup k (authenticate j now s).1 ≡ (if str_eq j k then none else lookup k s)
unfolding authenticate
lookup-authenticate j k now s = elim (Option-cases (lookup j s)) [
  | inr (v, e) ↦ rw (e, authenticate) (lookup-erase j k s)
  | inl e ↦ elim (Bool-cases (str_eq j k)) [
    | inl here ↦
        rw (e, authenticate) (rw here (ap (λ i. lookup i s) (sym ((str_eq_iff j k).0 here)) ∙ e))
    | inr there ↦ rw (e, authenticate) (rw there refl)
  ]
]

-- An event takes an entry that is as it should be to one that is as it should be then.
happen-IsKept :
    (e : Event) (now : ℕ) (k : Str) (s : Store) (o : Option ℕ)
    → IsKeyed s
    → IsKept now (lookup k s) o
    → IsKept now (lookup k (happen e now s)) (fresh_after k e now o)
unfolding happen new authenticate
happen-IsKept (made j) now k s o h kept = elim (Bool-cases (str_eq j k)) [
  | inl here ↦ inl (lookup-insert j k now s ∙ rw here refl)
  | inr there ↦ rw there (rw (lookup-insert j k now s) (rw there kept))
]
happen-IsKept (tried j) now k s o h kept = elim (Bool-cases (str_eq j k)) [
  | inl here ↦ inl (lookup-authenticate j k now s ∙ rw here refl)
  | inr there ↦ rw there (rw (lookup-authenticate j k now s) (rw there kept))
]
happen-IsKept cleaned now k s o h kept = elim (cleanup-IsKept now k s h) [
  | inl same ↦ rw same kept
  | inr (gone, (v, e, old)) ↦ elim kept [
    | inl wanted ↦ inr (gone, (v, sym wanted ∙ e, old))
    | inr (none_there, _) ↦ cc (none_there, e)
  ]
]

clean_from-IsKeyed : (now : ℕ) (entries s : Dict ℕ) → IsKeyed s → IsKeyed (clean_from now entries s)
unfolding clean_from
clean_from-IsKeyed now [] s h = h
clean_from-IsKeyed now ((j, v) ∷ entries) s h = elim (Bool-cases (ltb (v + ttl) now)) [
  | inl late ↦ rw late (clean_from-IsKeyed now entries (erase j s) (erase-IsKeyed j s h))
  | inr young ↦ rw young (clean_from-IsKeyed now entries s h)
]

happen-IsKeyed : (e : Event) (now : ℕ) (s : Store) → IsKeyed s → IsKeyed (happen e now s)
unfolding happen new authenticate cleanup
happen-IsKeyed (made j) now s h = insert-IsKeyed j now s h
happen-IsKeyed cleaned now s h = clean_from-IsKeyed now s s h
happen-IsKeyed (tried j) now s h = elim (Option-cases (lookup j s)) [
  | inl e ↦ rw (e, happen) h
  | inr (v, e) ↦ rw (e, happen) (erase-IsKeyed j s h)
]

run-IsKept :
    (es : List (Event × ℕ)) (t end : ℕ) (k : Str) (s : Store) (o : Option ℕ)
    → IsTimely t es end
    → IsKeyed s
    → IsKept t (lookup k s) o
    → IsKept end (lookup k (run es s)) (fresh k es o)
unfolding run
run-IsKept [] t end k s o le h kept = IsKept-later t end (lookup k s) o le kept
run-IsKept ((e, now) ∷ es) t end k s o (le, timely) h kept =
    run-IsKept es now end k (happen e now s) (fresh_after k e now o) timely
      (happen-IsKeyed e now s h)
      (happen-IsKept e now k s o h (IsKept-later t now (lookup k s) o le kept))

-- A key that was made and not tried since opens till its time is over.
abbrev pub opens : ℕ → Option ℕ → Bool
opens now none = false
opens now (some t) = ltb now (t + ttl)

authenticate-opens :
    (k : Str) (now : ℕ) (s : Store) (o : Option ℕ)
    → IsKept now (lookup k s) o
    → (authenticate k now s).0 ≡ opens now o
unfolding authenticate
authenticate-opens k now s none kept = elim kept [
  | inl e ↦ rw (e, authenticate) refl
  | inr (gone, _) ↦ rw (gone, authenticate) refl
]
authenticate-opens k now s (some t) kept = elim kept [
  | inl e ↦ rw (e, authenticate) refl
  | inr (gone, (v, e, old)) ↦
      let same : t ≡ v = some_inj e in rw (gone, authenticate) (ground (arith, same, old))
]

-- Whatever keys were made, tried and cleaned up before, at times that do not run backwards: a request is
-- passed on exactly if its single use key was made less than five minutes ago and was not tried since it was
-- made, or if its query, its header or its cookie has the key of the client.
pub serve-run :
    (key : Str) (es : List (Event × ℕ)) (now : ℕ) (r : Request)
    → IsTimely 0 es now
    → (serve key now r (run es [])).0 ≡ (
        opens now (fresh r.suk es none)
        || (str_eq r.auth_key key || (is_bearer key r.authorization || is_cookie key r.cookie)))
unfolding serve lookup
serve-run key es now r timely =
    ap
      (λ b.
        b || (str_eq r.auth_key key || (is_bearer key r.authorization || is_cookie key r.cookie)))
      (authenticate-opens r.suk now (run es []) (fresh r.suk es none)
        (run-IsKept es 0 now r.suk [] none timely tt (inl refl)))
