-- ===== src/Shared/PublicIp/Loop.antt =====
-- What the loop has found, and when those who wait go on.
use native.Mathlib.Nat.{mod-add-mod, zero-add}
use alkasir.Base.{
  ℕ, ◌+◌, ◌%◌, ◌<◌, ◌≡◌, refl, ap, ◌∙◌, inl, inr, Bool, false, ◌==◌, ◌||◌, leb, Option, none, some,
  List, [], ◌∷◌, arith, length, is_some, Option-cases, Bool-cases, if◌then◌else◌,
}
use alkasir.Shared.Validator.{Ip, Net}
use alkasir.Shared.PublicIp.{
  PublicIp, start, Answer, advance, parsed, receive, run, to4, blocks, returns, get_public_ip_addr,
}

-- The last address that was given.
abbrev pub last_ip : Net → List Answer → Option Ip → Option Ip
last_ip net [] old = old
last_ip net (a ∷ answers) old =
    last_ip net answers (elim (parsed net a) [ none ↦ old | some ip ↦ some ip ])

-- Whether an address was given.
abbrev pub has_ip : Net → List Answer → Bool
has_ip net [] = false
has_ip net (a ∷ answers) = is_some (parsed net a) || has_ip net answers

receive-ip :
    (net : Net) (a : Answer) (s : PublicIp)
    → (receive net a s).ip ≡ (elim (parsed net a) [ none ↦ s.ip | some ip ↦ some ip ])
unfolding receive
receive-ip net a s = elim (Option-cases (parsed net a)) [
  | inl e ↦ rw (e, receive) refl
  | inr (ip, e) ↦ rw (e, receive) refl
]

receive-released :
    (net : Net) (a : Answer) (s : PublicIp)
    → (receive net a s).released ≡ (s.released || is_some (parsed net a))
unfolding receive
receive-released net a s = elim (Option-cases (parsed net a)) [
  | inl e ↦ rw (e, receive) (ground arith)
  | inr (ip, e) ↦ rw (e, receive) (ground arith)
]

receive-service_idx :
    (net : Net) (a : Answer) (s : PublicIp) → (receive net a s).service_idx ≡ s.service_idx
unfolding receive
receive-service_idx net a s = elim (Option-cases (parsed net a)) [
  | inl e ↦ rw (e, receive) refl
  | inr (ip, e) ↦ rw (e, receive) refl
]

run-ip :
    (net : Net) (n : ℕ) (answers : List Answer) (s : PublicIp)
    → (run net n answers s).ip ≡ last_ip net answers s.ip
unfolding run advance
run-ip net n [] s = refl
run-ip net n (a ∷ answers) s =
    run-ip net n answers (receive net a (advance n s))
    ∙ ap (last_ip net answers) (receive-ip net a (advance n s))

-- The service of the next round: one further, and from the last one back to the first.
next_lem : (i n : ℕ) → i < n → (i + 1) % n ≡ (if i + 1 == n then 0 else i + 1)
next_lem i n h = elim (Bool-cases (i + 1 == n)) [
  | inl e ↦ let same : i + 1 ≡ n = ground (arith, e) in rw (e, same) (grind arith)
  | inr e ↦ rw e (grind arith)
]

run-service_idx :
    (net : Net) (n : ℕ) (answers : List Answer) (s : PublicIp)
    → s.service_idx < n
    → (run net n answers s).service_idx ≡ (s.service_idx + length answers) % n
unfolding run advance
run-service_idx net n [] s h = grind arith
run-service_idx net n (a ∷ answers) s h =
    run-service_idx net n answers (receive net a (advance n s))
      (rw (receive-service_idx net a (advance n s)) (grind arith))
    ∙ ap (λ i. (i + length answers) % n) (receive-service_idx net a (advance n s))
    ∙ mod-add-mod (s.service_idx + 1) n (length answers)
    ∙ ap (λ m. m % n) (omega arith)

-- Those who wait go on after an address, and once the last service was asked.
run-released :
    (net : Net) (n : ℕ) (answers : List Answer) (s : PublicIp)
    → s.service_idx < n
    → (run net n answers s).released
      ≡ (s.released || has_ip net answers || leb n (s.service_idx + length answers))
unfolding run advance
run-released net n [] s h = ground arith
run-released net n (a ∷ answers) s h =
    let t = advance n s in
    let idx = receive-service_idx net a t in
    let released = receive-released net a t in
    let next = next_lem s.service_idx n h in
    run-released net n answers (receive net a t) (rw idx (grind arith))
    ∙ rw (idx, released, next) (ground arith)

-- Whatever the services answer: a call of GetPublicIPAddr blocks exactly as long as none of them has given an
-- address and there were fewer rounds than services. After that it returns the address that was given last,
-- where there is one of IPv4, and nothing otherwise.
pub get_public_ip_addr-run :
    (net : Net) (n : ℕ) (answers : List Answer)
    → 0 < n
    → get_public_ip_addr (run net n answers start) ≡ (
        if has_ip net answers || leb n (length answers)
        then returns (elim (last_ip net answers none) [ none ↦ none | some ip ↦ to4 ip ])
        else blocks)
unfolding get_public_ip_addr
get_public_ip_addr-run net n answers h =
    rw (run-released net n answers start h, run-ip net n answers start)
      (rw (zero-add (length answers)) refl)

last_ip-none :
    (net : Net) (answers : List Answer)
    → has_ip net answers ≡ false
    → last_ip net answers none ≡ none
last_ip-none net [] h = refl
last_ip-none net (a ∷ answers) h = elim (Option-cases (parsed net a)) [
  | inl e ↦ rw e (last_ip-none net answers (rw e at h))
  | inr (ip, e) ↦ cc (rw e at h)
]

-- If all other services have been asked in vain, a call returns nothing as soon as the turn comes to the first
-- one of the shuffled list, before that one is asked.
pub get_public_ip_addr_gives_up :
    (net : Net) (n : ℕ) (answers : List Answer)
    → length answers + 1 ≡ n
    → has_ip net answers ≡ false
    → ((advance n (run net n answers start)).service_idx ≡ 0)
      × (get_public_ip_addr (run net n answers start) ≡ blocks)
      × (get_public_ip_addr (advance n (run net n answers start)) ≡ returns none)
unfolding get_public_ip_addr advance
get_public_ip_addr_gives_up net n answers full vain =
    let idx = run-service_idx net n answers start (omega (arith, full)) in
    let before : (run net n answers start).service_idx ≡ length answers =
      idx ∙ rw (zero-add (length answers)) (grind (arith, full)) in
    let now : ((run net n answers start).service_idx + 1) % n ≡ 0 =
      rw before (rw full (grind arith)) in
    let ip : (run net n answers start).ip ≡ none =
      run-ip net n answers start ∙ last_ip-none net answers vain in
    (
      now,
      get_public_ip_addr-run net n answers (omega (arith, full)) ∙ rw vain (ground (arith, full)),
      rw now (rw ip (ground arith)),
    )
