-- ===== src/Client/Updates/Blocklist/Laws.antt =====
-- What an upgrade of the list of blocked hosts leaves, and when it sends an id.
use mathlib.Core.List.Perm
use mathlib.Core.List.{Perm}
use alkasir.Base.{
  ℕ, ◌%◌, ◌≡◌, ◌≢◌, ◌↔◌, refl, sym, ◌∙◌, ◌⊎◌, inl, inr, true, ◌==◌, Option, some, List, [], ◌∷◌,
  arith, Str, str_eq_iff, length, Bool-cases,
}
use alkasir.Central.Suggestions.Sending.{response, received}
use alkasir.Client.Updates.Blocklist.{
  Local, update_blocked_list, now_id, update_id, same_hosts, take_hosts, upgraded,
  upgrade_block_list,
}

same_hosts→eq : (xs ys : List Str) → same_hosts xs ys ≡ true → xs ≡ ys
unfolding same_hosts
same_hosts→eq [] [] h = refl
same_hosts→eq [] (_ ∷ _) h = cc h
same_hosts→eq (_ ∷ _) [] h = cc h
same_hosts→eq (x ∷ xs) (y ∷ ys) h = ground (arith, str_eq_iff x y, same_hosts→eq xs ys)

same_hosts_refl : (xs : List Str) → same_hosts xs xs ≡ true
unfolding same_hosts
same_hosts_refl [] = refl
same_hosts_refl (x ∷ xs) = ground (arith, str_eq_iff x x, same_hosts_refl xs)

-- The hosts of the settings are those of the answer, and the list of the proxy configuration was made anew
-- from them and the user's own if they are others than before, and else left alone.
abbrev pub HasTaken : ℕ → List Str → Local → Local → Type 0
HasTaken now hosts s s' =
    Perm s'.central_hosts hosts
    × (Perm hosts s.central_hosts
          × (s'.blocked_list ≡ s.blocked_list)
          × (s'.last_blocklist_change ≡ s.last_blocklist_change)
        ⊎ (Perm hosts s.central_hosts → ⊥)
          × (s'.blocked_list ≡ update_blocked_list s'.central_hosts s.own_hosts)
          × (s'.last_blocklist_change ≡ now))

take_hosts-HasTaken :
    (sort : List Str → List Str) (now : ℕ) (hosts : List Str) (s : Local)
    → Perm (sort hosts) hosts
    → Perm (sort s.central_hosts) s.central_hosts
    → (Perm hosts s.central_hosts → sort hosts ≡ sort s.central_hosts)
    → HasTaken now hosts s (take_hosts sort now hosts s)
unfolding take_hosts
take_hosts-HasTaken sort now hosts s p q canon =
    elim (Bool-cases (same_hosts (sort hosts) (sort s.central_hosts))) [
      | inl same ↦
          let e = same_hosts→eq (sort hosts) (sort s.central_hosts) same in
          let r : Perm hosts s.central_hosts = Perm.trans (Perm.symm p) (rw (sym e) at q) in
          rw (same, take_hosts) (Perm.trans q (Perm.symm r), inl (r, refl, refl))
      | inr other ↦
          rw (other, take_hosts)
            (
              p,
              inr (
                λ r. cc (rw (canon r) at other, same_hosts_refl (sort s.central_hosts)),
                refl,
                refl,
              ),
            )
    ]

take_hosts-last_id :
    (sort : List Str → List Str) (now : ℕ) (hosts : List Str) (s : Local)
    → (take_hosts sort now hosts s).last_id ≡ s.last_id
unfolding take_hosts
take_hosts-last_id sort now hosts s =
    elim (Bool-cases (same_hosts (sort hosts) (sort s.central_hosts))) [
      | inl e ↦ rw (e, take_hosts) refl
      | inr e ↦ rw (e, take_hosts) refl
    ]

update_id-empty :
    (week saved : ℕ) (id : Str)
    → id ≢ []
    → (update_id week (some id) saved ≡ []) ↔ (now_id week ≡ saved)
unfolding update_id now_id
update_id-empty week saved id some_id = (
  λ e. elim (Bool-cases (now_id week == saved)) [
    | inl same ↦ ground (arith, same)
    | inr other ↦ absurd (elim (Bool-cases (saved == 0)) [
      | inl first ↦ cc (rw (first, update_id) at (rw (other, update_id) at e))
      | inr later ↦ some_id (rw (later, update_id) at (rw (other, update_id) at e))
    ])
  ],
  λ same. ground (arith, same),
)

weeks : (v w : ℕ) → now_id v ≡ now_id w → v % 3 ≡ w % 3
unfolding now_id
weeks v w e = omega (arith, e)

back : (v w : ℕ) → v % 3 ≡ w % 3 → now_id v ≡ now_id w
unfolding now_id
back v w e = omega (arith, e)

-- An upgrade that the server answers with hosts, where the settings can be written: with a sort that keeps
-- the hosts of the two lists and tells them apart only where one is no rearrangement of the other, the settings
-- then hold the hosts of the answer, and the list of the proxy configuration is made anew exactly where they
-- are not those of before. The next upgrade sends no id exactly if its week is the same modulo three.
pub upgrade_block_list-HasTaken :
    (sort : List Str → List Str) (week next_week : ℕ) (uuid : Option Str) (id : Str) (now : ℕ)
    (hosts : List Str) (s : Local)
    → Perm (sort hosts) hosts
    → Perm (sort s.central_hosts) s.central_hosts
    → (Perm hosts s.central_hosts → sort hosts ≡ sort s.central_hosts)
    → id ≢ []
    → (s' : Local) × (upgrade_block_list sort true true week uuid now (response 200 (some hosts)) s
        ≡ (upgraded (length hosts), some (update_id week uuid s.last_id), s'))
      × HasTaken now hosts s s'
      × ((update_id next_week (some id) s'.last_id ≡ []) ↔ (next_week % 3 ≡ week % 3))
unfolding upgrade_block_list received
upgrade_block_list-HasTaken sort week next_week uuid id now hosts s p q canon some_id =
    let s1 : Local = record s { last_id = now_id week } in
    let kept = take_hosts-last_id sort now hosts s1 in
    let (no_id, same) =
      update_id-empty next_week (take_hosts sort now hosts s1).last_id id some_id in
    (
      take_hosts sort now hosts s1,
      ground arith,
      take_hosts-HasTaken sort now hosts s1 p q canon,
      (λ e. weeks next_week week (no_id e ∙ kept), λ e. same (back next_week week e ∙ sym kept)),
    )
