-- ===== src/Shared/PublicIp/Tests.antt =====
-- Three services.
use mathlib.Core.List.{Perm}
use alkasir.Base.{
  ℕ, ◌-◌, ◌≡◌, refl, ◌||◌, leb, none, some, List, [], ◌∷◌, Str, codes, str_eq, arith, length,
  if◌then◌else◌,
}
use alkasir.Base.Trim.{trim_space}
use alkasir.Shared.Validator.{v4, Net}
use alkasir.Shared.PublicIp.{
  swap, shuffle_from, shuffle_strings, start, Answer, no_response, text, advance, run, to4, blocks,
  returns, get_public_ip_addr,
}
use alkasir.Shared.PublicIp.Shuffle.{shuffle_strings-perm}
use alkasir.Shared.PublicIp.Loop.{last_ip, has_ip, get_public_ip_addr-run}

abbrev services : List Str
services = codes "a" ∷ codes "b" ∷ codes "c" ∷ []

abbrev last_of_rest : ℕ → ℕ → ℕ
last_of_rest k n = n - 1

shuffled : shuffle_strings last_of_rest services ≡ some (codes "c" ∷ codes "a" ∷ codes "b" ∷ [])
unfolding shuffle_strings shuffle_from swap
shuffled = refl

shuffle_strings-perm_example :
    (ys : List Str) × (shuffle_strings last_of_rest services ≡ some ys) × Perm ys services
shuffle_strings-perm_example = shuffle_strings-perm last_of_rest services (λ k n h. omega arith)

abbrev net : Net
net = record {
  split_host_port = λ _. none;
  parse_ip = λ s. if str_eq s (codes "8.8.8.8") then some (v4 134744072) else none;
}

-- The second one that is asked gives an address.
abbrev answers : List Answer
answers = no_response ∷ text (codes "8.8.8.8") ∷ []

answered : get_public_ip_addr (run net 3 answers start) ≡ returns (some (v4 134744072))
unfolding get_public_ip_addr run trim_space str_eq
answered = refl

get_public_ip_addr-run_example : get_public_ip_addr (run net 3 answers start) ≡ (
    if has_ip net answers || leb 3 (length answers)
    then returns (elim (last_ip net answers none) [ none ↦ none | some ip ↦ to4 ip ])
    else blocks)
get_public_ip_addr-run_example = get_public_ip_addr-run net 3 answers (omega arith)

abbrev unanswered : List Answer
unanswered = no_response ∷ text (codes "?") ∷ []

gave_up : get_public_ip_addr (advance 3 (run net 3 unanswered start)) ≡ returns none
unfolding get_public_ip_addr run advance trim_space str_eq
gave_up = refl
