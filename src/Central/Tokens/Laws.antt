-- ===== src/Central/Tokens/Laws.antt =====
-- The store keeps each session under its own token, and drops exactly those that are too old.
use alkasir.Base.{
  ℕ, suc, ◌≡◌, ◌≢◌, refl, ◌∙◌, ap, Bool, true, false, Option, none, some, List, [], ◌∷◌, arith, Str,
  length, str_eq, str_eq_iff, if◌then◌else◌,
}
use alkasir.Base.Dict.{Dict, lookup, insert, erase, lookup-insert, lookup-erase}
use alkasir.Central.Tokens.{
  TokenData, SessionTokenStore, get, is_expired, expired_ids, delete_all, expire_sessions, add_all,
  reset, new,
}

-- Each session is listed once, under its own id.
abbrev pub IsFiled : Dict TokenData → Type 0
IsFiled [] = Unit
IsFiled ((k, v) ∷ m) = (v.id ≡ k) × (lookup k m ≡ none) × IsFiled m

lookup-filed :
    (k : Str) (v : TokenData) (m : Dict TokenData) → IsFiled m → lookup k m ≡ some v → v.id ≡ k
unfolding lookup
lookup-filed k v [] f e = cc
lookup-filed k v ((j, w) ∷ m) f e = ground (arith, str_eq_iff j k, lookup-filed k v m)

insert-IsFiled : (v : TokenData) (m : Dict TokenData) → IsFiled m → IsFiled (insert v.id v m)
unfolding insert lookup
insert-IsFiled v [] f = (refl, refl, tt)
insert-IsFiled v ((j, w) ∷ m) f =
    ground
      (arith, str_eq_iff j v.id, lookup-insert v.id j v m, str_eq_iff v.id j, insert-IsFiled v m)

erase-IsFiled : (k : Str) (m : Dict TokenData) → IsFiled m → IsFiled (erase k m)
unfolding erase lookup
erase-IsFiled k [] f = tt
erase-IsFiled k ((j, w) ∷ m) f = ground (arith, lookup-erase k j m, erase-IsFiled k m)

delete_all-IsFiled : (ids : List Str) (m : Dict TokenData) → IsFiled m → IsFiled (delete_all ids m)
unfolding delete_all
delete_all-IsFiled [] m f = f
delete_all-IsFiled (id ∷ ids) m f = delete_all-IsFiled ids (erase id m) (erase-IsFiled id m f)

add_all-IsFiled : (vs : List TokenData) (m : Dict TokenData) → IsFiled m → IsFiled (add_all vs m)
unfolding add_all
add_all-IsFiled [] m f = f
add_all-IsFiled (v ∷ vs) m f = add_all-IsFiled vs (insert v.id v m) (insert-IsFiled v m f)

abbrev is_among : Str → List Str → Bool
is_among k [] = false
is_among k (x ∷ xs) = if str_eq x k then true else is_among k xs

lookup-delete_all :
    (k : Str) (ids : List Str) (m : Dict TokenData)
    → lookup k (delete_all ids m) ≡ (if is_among k ids then none else lookup k m)
unfolding delete_all
lookup-delete_all k [] m = refl
lookup-delete_all k (x ∷ xs) m =
    ground (arith, lookup-delete_all k xs (erase x m), lookup-erase x k m)

-- Whether a found session is too old.
abbrev too_old : ℕ → Option TokenData → Bool
too_old now none = false
too_old now (some v) = is_expired now v

among-expired_ids :
    (k : Str) (now : ℕ) (m : Dict TokenData)
    → IsFiled m
    → is_among k (expired_ids now m) ≡ too_old now (lookup k m)
unfolding expired_ids lookup
among-expired_ids k now [] f = refl
among-expired_ids k now ((j, v) ∷ m) f =
    ground (arith, str_eq_iff v.id k, str_eq_iff j k, among-expired_ids k now m)

-- A session that is not too old.
abbrev pub still : ℕ → Option TokenData → Option TokenData
still now none = none
still now (some v) = if is_expired now v then none else some v

still-too_old : (now : ℕ) (o : Option TokenData) → (if too_old now o then none else o) ≡ still now o
still-too_old now none = refl
still-too_old now (some v) = refl

-- The sessions after an expiry are those without the expired ones.
expire_sessions_lem :
    (now : ℕ) (s : SessionTokenStore)
    → (expire_sessions now s).sessions ≡ delete_all (expired_ids now s.sessions) s.sessions
unfolding expire_sessions delete_all
expire_sessions_lem now s = ground arith

-- In a store where each session is listed once, under its own id, an expiry takes away exactly the
-- sessions that are older than the timeout, and every other session is found as before.
pub get-expire_sessions :
    (now : ℕ) (s : SessionTokenStore) (k : Str)
    → IsFiled s.sessions
    → get k (expire_sessions now s) ≡ still now (get k s)
unfolding get
get-expire_sessions now s k f =
    ap (lookup k) (expire_sessions_lem now s)
    ∙ lookup-delete_all k (expired_ids now s.sessions) s.sessions
    ∙ ap (λ b. if b then none else lookup k s.sessions) (among-expired_ids k now s.sessions f)
    ∙ still-too_old now (lookup k s.sessions)

-- The last session of the list with the token.
abbrev pub last_with : Str → List TokenData → Option TokenData → Option TokenData
last_with k [] old = old
last_with k (v ∷ vs) old = last_with k vs (if str_eq v.id k then some v else old)

lookup-add_all :
    (k : Str) (vs : List TokenData) (m : Dict TokenData)
    → lookup k (add_all vs m) ≡ last_with k vs (lookup k m)
unfolding add_all
lookup-add_all k [] m = refl
lookup-add_all k (v ∷ vs) m =
    lookup-add_all k vs (insert v.id v m) ∙ ap (last_with k vs) (lookup-insert v.id k v m)

get-added :
    (k : Str) (vs : List TokenData) (s : SessionTokenStore)
    → get k (record s { sessions = add_all vs [] }) ≡ last_with k vs none
unfolding get lookup
get-added k vs s = lookup-add_all k vs []

-- After a reset a token finds the last session given with it, unless that is too old.
pub get-reset :
    (vs : List TokenData) (now : ℕ) (s : SessionTokenStore) (k : Str)
    → get k (reset vs now s) ≡ still now (last_with k vs none)
unfolding reset
get-reset vs now s k =
    get-expire_sessions now (record s { sessions = add_all vs [] }) k (add_all-IsFiled vs [] tt)
    ∙ ap (still now) (get-added k vs s)

-- The operations of the store.
pub data Operation : Type 0 where
  create : Str → Str → ℕ → Operation
  expire : ℕ → Operation
  restore : List TokenData → ℕ → Operation

-- Without a panic: a random text is there.
abbrev pub run : Operation → SessionTokenStore → SessionTokenStore
run (create id url now) s = elim (new (some id) url now s) [ some (_, s') ↦ s' | none ↦ s ]
run (expire now) s = expire_sessions now s
run (restore vs now) s = reset vs now s

abbrev pub run_all : List Operation → SessionTokenStore → SessionTokenStore
run_all [] s = s
run_all (o ∷ os) s = run_all os (run o s)

expire_sessions-IsFiled :
    (now : ℕ) (s : SessionTokenStore)
    → IsFiled s.sessions
    → IsFiled (expire_sessions now s).sessions
expire_sessions-IsFiled now s f =
    rw (expire_sessions_lem now s) (delete_all-IsFiled (expired_ids now s.sessions) s.sessions f)

run-IsFiled :
    (o : Operation) (s : SessionTokenStore) → IsFiled s.sessions → IsFiled (run o s).sessions
unfolding new reset
run-IsFiled (create id url now) s f =
    insert-IsFiled (record { id = id; created_at = now; url = url }) s.sessions f
run-IsFiled (expire now) s f = expire_sessions-IsFiled now s f
run-IsFiled (restore vs now) s f =
    expire_sessions-IsFiled now (record s { sessions = add_all vs [] }) (add_all-IsFiled vs [] tt)

-- From a store where each session is listed once and under its own id, creating, expiring and
-- restoring sessions, in any order, keeps that.
pub run_all-IsFiled :
    (os : List Operation) (s : SessionTokenStore)
    → IsFiled s.sessions
    → IsFiled (run_all os s).sessions
run_all-IsFiled [] s f = f
run_all-IsFiled (o ∷ os) s f = run_all-IsFiled os (run o s) (run-IsFiled o s f)

-- The number that is named a total since the start is set back by an expiry that finds an expired
-- session: it is then the number of the sessions that are left.
pub expire_sessions-total :
    (now : ℕ) (s : SessionTokenStore)
    → expired_ids now s.sessions ≢ []
    → (expire_sessions now s).sessions_total ≡ length (expire_sessions now s).sessions
unfolding expire_sessions
expire_sessions-total now s ne = ground arith

length-insert :
    (k : Str) (v : TokenData) (m : Dict TokenData)
    → lookup k m ≡ none
    → length (insert k v m) ≡ suc (length m)
unfolding insert lookup
length-insert k v [] e = refl
length-insert k v ((j, w) ∷ m) e = ground (arith, length-insert k v m)

-- A new session is found by its token, and every other token finds what it found before.
pub get-new :
    (id url k : Str) (now : ℕ) (s : SessionTokenStore)
    → (s' : SessionTokenStore) × (new (some id) url now s ≡ some (id, s'))
      × (get k s' ≡ (
          if str_eq id k then some (record { id = id; created_at = now; url = url }) else get k s))
unfolding new get
get-new id url k now s =
    (_, refl, lookup-insert id k (record { id = id; created_at = now; url = url }) s.sessions)

-- If the number of active sessions is right and the random token is not in use, then it is right
-- after the token is made.
pub new-active :
    (id url : Str) (now : ℕ) (s : SessionTokenStore)
    → get id s ≡ none
    → s.sessions_active ≡ length s.sessions
    → (s' : SessionTokenStore) × (new (some id) url now s ≡ some (id, s'))
      × (s'.sessions_active ≡ length s'.sessions)
unfolding new get
new-active id url now s fresh right =
    let d : TokenData = record { id = id; created_at = now; url = url } in
    (_, refl, omega (arith, length-insert id d s.sessions fresh, right))
