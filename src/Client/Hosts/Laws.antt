-- ===== src/Client/Hosts/Laws.antt =====
-- Adding, removing, and the way through the file.
use alkasir.Base.{
  ◌≡◌, refl, ap, inl, inr, true, false, none, some, List, [], ◌∷◌, ◌++◌, arith, Str, str_eq,
  str_eq_iff, not, ◌&&◌, ◌||◌, All, Bool-cases,
}
use alkasir.Base.Trim.{trim_space, trim_space_idem}
use alkasir.Base.Scan.{IsLine, scan-write_lines}
use alkasir.Client.Hosts.{HostsFile, contains, add, without, remove, read, write}

contains-append :
    (x h : Str) (hs : List Str) → contains x (hs ++ h ∷ []) ≡ (contains x hs || str_eq h x)
unfolding contains
contains-append x h [] = ground arith
contains-append x h (g ∷ hs) = ground (arith, contains-append x h hs)

add_known :
    (host : Str) (f : HostsFile) → contains (trim_space host) f.hosts ≡ true → add host f ≡ f
unfolding add
add_known host f e = rw e

add_new :
    (host : Str) (f : HostsFile)
    → contains (trim_space host) f.hosts ≡ false
    → add host f ≡ record f { hosts = f.hosts ++ trim_space host ∷ [] }
unfolding add
add_new host f e = rw e

listed_same :
    (x h : Str) (hs : List Str) → contains h hs ≡ true → str_eq h x ≡ true → contains x hs ≡ true
listed_same x h hs c e = rw ((str_eq_iff h x).0 e) at c

-- After Add a host is listed exactly if it is the added one, trimmed, or was listed before.
pub contains-add :
    (x host : Str) (f : HostsFile)
    → contains x (add host f).hosts ≡ (contains x f.hosts || str_eq (trim_space host) x)
contains-add x host f = elim (Bool-cases (contains (trim_space host) f.hosts)) [
  | inl known ↦
      rw (add_known host f known) (ground (arith, listed_same x (trim_space host) f.hosts known))
  | inr fresh ↦ rw (add_new host f fresh) (contains-append x (trim_space host) f.hosts)
]

contains-without :
    (x h : Str) (hs : List Str) → contains x (without h hs) ≡ (contains x hs && not (str_eq h x))
unfolding contains without
contains-without x h [] = refl
contains-without x h (g ∷ hs) =
    ground (arith, contains-without x h hs, str_eq_iff g h, str_eq_iff g x, str_eq_iff h x)

-- After Remove a host is listed exactly if it was listed and is not the removed one, trimmed.
pub contains-remove :
    (x host : Str) (f : HostsFile)
    → contains x (remove host f).hosts ≡ (contains x f.hosts && not (str_eq (trim_space host) x))
unfolding remove
contains-remove x host f = contains-without x (trim_space host) f.hosts

-- No host twice, and each trimmed.
abbrev pub IsClean : List Str → Type 0
IsClean [] = Unit
IsClean (h ∷ hs) = (contains h hs ≡ false) × (trim_space h ≡ h) × IsClean hs

IsClean-append :
    (h : Str) (hs : List Str)
    → contains h hs ≡ false
    → trim_space h ≡ h
    → IsClean hs
    → IsClean (hs ++ h ∷ [])
unfolding contains
IsClean-append h [] c t v = (refl, t, tt)
IsClean-append h (g ∷ hs) c t v =
    ground (arith, IsClean-append h hs, contains-append g h hs, str_eq_iff g h, str_eq_iff h g)

-- Adding to a list without doubles, of trimmed hosts, gives such a list.
pub add-IsClean : (host : Str) (f : HostsFile) → IsClean f.hosts → IsClean (add host f).hosts
add-IsClean host f v = elim (Bool-cases (contains (trim_space host) f.hosts)) [
  | inl known ↦ rw (add_known host f known) v
  | inr fresh ↦
      rw (add_new host f fresh)
        (IsClean-append (trim_space host) f.hosts fresh (trim_space_idem host) v)
]

without-IsClean : (h : Str) (hs : List Str) → IsClean hs → IsClean (without h hs)
unfolding without
without-IsClean h [] v = tt
without-IsClean h (g ∷ hs) v = ground (arith, without-IsClean h hs, contains-without g h hs)

-- Removing from a list without doubles, of trimmed hosts, gives such a list.
pub remove-IsClean : (host : Str) (f : HostsFile) → IsClean f.hosts → IsClean (remove host f).hosts
unfolding remove
remove-IsClean host f v = without-IsClean (trim_space host) f.hosts v

without-absent : (h : Str) (hs : List Str) → contains h hs ≡ false → without h (hs ++ h ∷ []) ≡ hs
unfolding contains without
without-absent h [] c = ground (arith, str_eq_iff h h)
without-absent h (g ∷ hs) c = ground (arith, without-absent h hs, str_eq_iff g h)

-- Removing what was just added for the first time gives back the list.
pub remove-add :
    (host : Str) (f : HostsFile)
    → contains (trim_space host) f.hosts ≡ false
    → remove host (add host f) ≡ f
unfolding remove
remove-add host f c =
    rw (add_new host f c)
      (ap (λ hs. record f { hosts = hs }) (without-absent (trim_space host) f.hosts c))

-- A list of lines that the scanner takes is read back from its file as it was written.
pub read-write :
    (f g : HostsFile)
    → All IsLine f.hosts
    → read (some (write f)) g ≡ (record g { hosts = f.hosts }, none)
unfolding read write
read-write f g h = rw (scan-write_lines f.hosts h)
