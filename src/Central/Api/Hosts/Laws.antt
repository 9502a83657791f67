-- ===== src/Central/Api/Hosts/Laws.antt =====
-- What GetHosts answers with.
use mathlib.Core.Path.{subst}
use mathlib.Core.List.{Memᴰ}
use alkasir.Base.{
  ◌≡◌, ◌≢◌, refl, sym, ◌∙◌, ap, ◌↔◌, ◌⊎◌, inl, inr, List, [], ◌∷◌, Str, str_eq, str_eq_iff,
  Bool-cases, All,
}
use alkasir.Base.Dict.{Dict, lookup}
use alkasir.Central.Api.Hosts.{trim_www, mark, mark_related, or_nothing, fill_from, fill}

mark-Mem : (h x : Str) (items : List Str) → Memᴰ x (mark h items) → (x ≡ h) ⊎ Memᴰ x items
unfolding mark
mark-Mem h x [] (Memᴰ.head e) = inl e
mark-Mem h x [] (Memᴰ.tail t) = elim t [ ]
mark-Mem h x (i ∷ items) m = elim (Bool-cases (str_eq i h)) [
  | inl same ↦ inr (rw same at m)
  | inr ne ↦ elim (rw ne at m) [
    | Memᴰ.head e ↦ inr (Memᴰ.head e)
    | Memᴰ.tail t ↦ elim (mark-Mem h x items t) [ inl e ↦ inl e | inr u ↦ inr (Memᴰ.tail u) ]
  ]
]

mark-here : (h : Str) (items : List Str) → Memᴰ h (mark h items)
unfolding mark
mark-here h [] = Memᴰ.head refl
mark-here h (i ∷ items) = elim (Bool-cases (str_eq i h)) [
  | inl same ↦ rw same (Memᴰ.head (sym ((str_eq_iff i h).0 same)))
  | inr ne ↦ rw ne (Memᴰ.tail (mark-here h items))
]

mark-keeps : (h x : Str) (items : List Str) → Memᴰ x items → Memᴰ x (mark h items)
unfolding mark
mark-keeps h x [] m = elim m [ ]
mark-keeps h x (i ∷ items) m = elim (Bool-cases (str_eq i h)) [
  | inl same ↦ rw same m
  | inr ne ↦ elim m [
    | Memᴰ.head e ↦ rw ne (Memᴰ.head e)
    | Memᴰ.tail t ↦ rw ne (Memᴰ.tail (mark-keeps h x items t))
  ]
]

-- The host is one of these without its `www.`, and not empty.
abbrev pub IsRelated : Str → List Str → Type 0
IsRelated x vs = (v : Str) × Memᴰ v vs × (x ≡ trim_www v) × (x ≢ [])

mark_related-Mem :
    (x : Str) (vs items : List Str) → Memᴰ x (mark_related vs items) → IsRelated x vs ⊎ Memᴰ x items
unfolding mark_related
mark_related-Mem x [] items m = inr m
mark_related-Mem x (v ∷ vs) items m = elim (Bool-cases (str_eq (trim_www v) [])) [
  | inl empty ↦ elim (mark_related-Mem x vs items (rw (empty, mark_related) at m)) [
    | inl (w, t, e, ne) ↦ inl (w, Memᴰ.tail t, e, ne)
    | inr t ↦ inr t
  ]
  | inr some_host ↦
      elim (mark_related-Mem x vs (mark (trim_www v) items) (rw (some_host, mark_related) at m)) [
        | inl (w, t, e, ne) ↦ inl (w, Memᴰ.tail t, e, ne)
        | inr t ↦ elim (mark-Mem (trim_www v) x items t) [
          | inl e ↦ inl (
            v,
            Memᴰ.head refl,
            e,
            λ empty. cc ((str_eq_iff (trim_www v) []).1 (sym e ∙ empty), some_host),
          )
          | inr u ↦ inr u
        ]
      ]
]

mark_related-keeps : (x : Str) (vs items : List Str) → Memᴰ x items → Memᴰ x (mark_related vs items)
unfolding mark_related
mark_related-keeps x [] items m = m
mark_related-keeps x (v ∷ vs) items m = elim (Bool-cases (str_eq (trim_www v) [])) [
  | inl empty ↦ rw (empty, mark_related) (mark_related-keeps x vs items m)
  | inr some_host ↦
      rw (some_host, mark_related)
        (mark_related-keeps x vs (mark (trim_www v) items) (mark-keeps (trim_www v) x items m))
]

mark_related-here :
    (x : Str) (vs items : List Str) → IsRelated x vs → Memᴰ x (mark_related vs items)
unfolding mark_related
mark_related-here x [] items (v, m, e, ne) = elim m [ ]
mark_related-here x (v ∷ vs) items (w, Memᴰ.head same, e, ne) =
    elim (Bool-cases (str_eq (trim_www v) [])) [
      | inl empty ↦ absurd (ne (e ∙ ap trim_www same ∙ (str_eq_iff (trim_www v) []).0 empty))
      | inr some_host ↦
          let at_v : x ≡ trim_www v = e ∙ ap trim_www same in
          rw (some_host, mark_related)
            (mark_related-keeps x vs (mark (trim_www v) items) (
              subst (λ y. Memᴰ y (mark (trim_www v) items)) (sym at_v)
                (mark-here (trim_www v) items)))
    ]
mark_related-here x (v ∷ vs) items (w, Memᴰ.tail t, e, ne) =
    elim (Bool-cases (str_eq (trim_www v) [])) [
      | inl empty ↦ rw (empty, mark_related) (mark_related-here x vs items (w, t, e, ne))
      | inr some_host ↦
          rw (some_host, mark_related)
            (mark_related-here x vs (mark (trim_www v) items) (w, t, e, ne))
    ]

-- The host is one of the list without its `www.`, or related to one.
abbrev pub ComesOf : Dict (List Str) → Str → List Str → Type 0
ComesOf related x hosts =
    (h : Str) × Memᴰ h hosts
    × ((x ≡ trim_www h) ⊎ IsRelated x (or_nothing (lookup (trim_www h) related)))

fill_from-Mem :
    (related : Dict (List Str)) (x : Str) (hosts items : List Str)
    → Memᴰ x (fill_from related hosts items)
    → ComesOf related x hosts ⊎ Memᴰ x items
unfolding fill_from
fill_from-Mem related x [] items m = inr m
fill_from-Mem related x (h ∷ hosts) items m =
    let vs = or_nothing (lookup (trim_www h) related) in
    elim (fill_from-Mem related x hosts (mark_related vs (mark (trim_www h) items)) m) [
      | inl (k, t, c) ↦ inl (k, Memᴰ.tail t, c)
      | inr t ↦ elim (mark_related-Mem x vs (mark (trim_www h) items) t) [
        | inl c ↦ inl (h, Memᴰ.head refl, inr c)
        | inr u ↦ elim (mark-Mem (trim_www h) x items u) [
          | inl e ↦ inl (h, Memᴰ.head refl, inl e)
          | inr w ↦ inr w
        ]
      ]
    ]

fill_from-keeps :
    (related : Dict (List Str)) (x : Str) (hosts items : List Str)
    → Memᴰ x items
    → Memᴰ x (fill_from related hosts items)
unfolding fill_from
fill_from-keeps related x [] items m = m
fill_from-keeps related x (h ∷ hosts) items m =
    let vs = or_nothing (lookup (trim_www h) related) in
    fill_from-keeps related x hosts (mark_related vs (mark (trim_www h) items))
      (mark_related-keeps x vs (mark (trim_www h) items) (mark-keeps (trim_www h) x items m))

fill_from-here :
    (related : Dict (List Str)) (x : Str) (hosts items : List Str)
    → ComesOf related x hosts
    → Memᴰ x (fill_from related hosts items)
unfolding fill_from
fill_from-here related x [] items (k, m, c) = elim m [ ]
fill_from-here related x (h ∷ hosts) items (k, Memᴰ.tail t, c) =
    let vs = or_nothing (lookup (trim_www h) related) in
    fill_from-here related x hosts (mark_related vs (mark (trim_www h) items)) (k, t, c)
fill_from-here related x (h ∷ hosts) items (k, Memᴰ.head same, c) =
    let vs = or_nothing (lookup (trim_www h) related) in
    fill_from-keeps related x hosts (mark_related vs (mark (trim_www h) items)) (elim c [
      | inl e ↦ mark_related-keeps x vs (mark (trim_www h) items) (
          subst (λ y. Memᴰ y (mark (trim_www h) items)) (sym (e ∙ ap trim_www same))
            (mark-here (trim_www h) items))
      | inr r ↦
          mark_related-here x vs (mark (trim_www h) items)
            (subst (λ y. IsRelated x (or_nothing (lookup (trim_www y) related))) same r)
    ])

-- The list that clients get has exactly these hosts: the blocked ones, and those related to a blocked one
-- that are not empty, each without its `www.`.
pub fill-Mem :
    (related : Dict (List Str)) (hosts : List Str) (x : Str)
    → Memᴰ x (fill related hosts) ↔ ComesOf related x hosts
unfolding fill
fill-Mem related hosts x = (
  λ m. elim (fill_from-Mem related x hosts [] m) [ inl c ↦ c | inr t ↦ elim t [ ] ],
  λ c. fill_from-here related x hosts [] c,
)

-- No host is twice in the list.
abbrev pub AreDistinct : List Str → Type 0
AreDistinct [] = Unit
AreDistinct (x ∷ xs) = All (λ y. x ≢ y) xs × AreDistinct xs

mark-All :
    (P : Str → Type 0) (h : Str) (items : List Str) → P h → All P items → All P (mark h items)
unfolding mark
mark-All P h [] ph a = (ph, tt)
mark-All P h (i ∷ items) ph (pi, a) = elim (Bool-cases (str_eq i h)) [
  | inl same ↦ rw same (pi, a)
  | inr ne ↦ rw ne (pi, mark-All P h items ph a)
]

mark-AreDistinct : (h : Str) (items : List Str) → AreDistinct items → AreDistinct (mark h items)
unfolding mark
mark-AreDistinct h [] d = (tt, tt)
mark-AreDistinct h (i ∷ items) (a, d) = elim (Bool-cases (str_eq i h)) [
  | inl same ↦ rw same (a, d)
  | inr ne ↦ rw ne (
    mark-All (λ y. i ≢ y) h items (λ e. cc ((str_eq_iff i h).1 e, ne)) a,
    mark-AreDistinct h items d,
  )
]

mark_related-AreDistinct :
    (vs items : List Str) → AreDistinct items → AreDistinct (mark_related vs items)
unfolding mark_related
mark_related-AreDistinct [] items d = d
mark_related-AreDistinct (v ∷ vs) items d = elim (Bool-cases (str_eq (trim_www v) [])) [
  | inl empty ↦ rw (empty, mark_related) (mark_related-AreDistinct vs items d)
  | inr some_host ↦
      rw (some_host, mark_related)
        (mark_related-AreDistinct vs (mark (trim_www v) items)
          (mark-AreDistinct (trim_www v) items d))
]

fill_from-AreDistinct :
    (related : Dict (List Str)) (hosts items : List Str)
    → AreDistinct items
    → AreDistinct (fill_from related hosts items)
unfolding fill_from
fill_from-AreDistinct related [] items d = d
fill_from-AreDistinct related (h ∷ hosts) items d =
    let vs = or_nothing (lookup (trim_www h) related) in
    fill_from-AreDistinct related hosts (mark_related vs (mark (trim_www h) items)) (
      mark_related-AreDistinct vs (mark (trim_www h) items) (mark-AreDistinct (trim_www h) items d))

-- No host is twice in the list that clients get.
pub fill-AreDistinct :
    (related : Dict (List Str)) (hosts : List Str) → AreDistinct (fill related hosts)
unfolding fill
fill-AreDistinct related hosts = fill_from-AreDistinct related hosts [] tt
