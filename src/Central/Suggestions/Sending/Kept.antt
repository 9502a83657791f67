-- ===== src/Central/Suggestions/Sending/Kept.antt =====
-- What SendSamples leaves to be sent again.
use mathlib.Core.List.{append_assoc}
use alkasir.Base.{
  ℕ, suc, ◌+◌, ◌≡◌, ◌≢◌, refl, sym, ◌∙◌, ap, inl, inr, ◌⊎◌, Bool, true, false, Option, none, some,
  List, [], ◌∷◌, ◌++◌, arith, Str, str_eq_iff, length, All, All-append, if◌then◌else◌, Bool-cases,
}
use alkasir.Base.Dict.{lookup, insert, lookup-insert_self, lookup-insert_ne}
use alkasir.Central.Suggestions.{
  Suggestion, Sample, Store, remove_sample, without, step, get_suggestion,
}
use alkasir.Central.Suggestions.Sending.{
  Post, Result, ok, error, create_sample, SampleResponse, Sent, send_from, send_samples,
  after_sample, SendError, sending, not_accepted,
}

-- The server has taken the sample.
abbrev pub is_taken : Result SampleResponse → Bool
is_taken (ok r) = r.is_ok
is_taken (error _) = false

-- The samples whose request was not answered with success, from request `i` on.
abbrev pub rejected : (ℕ → Post SampleResponse) → ℕ → List Sample → List Sample
rejected answers i [] = []
rejected answers i (v ∷ vs) =
    let rest = rejected answers (suc i) vs in
    if is_taken (create_sample (answers i)) then rest else v ∷ rest

abbrev pub IsOther : Sample → Sample → Type 0
IsOther v w = w.id ≢ v.id

-- No two samples have the same id.
abbrev pub AreDistinct : List Sample → Type 0
AreDistinct [] = Unit
AreDistinct (v ∷ vs) = All (IsOther v) vs × AreDistinct vs

without-append :
    (id : Str) (xs ys : List Sample) → without id (xs ++ ys) ≡ without id xs ++ without id ys
unfolding without
without-append id [] ys = refl
without-append id (x ∷ xs) ys = ground (arith, without-append id xs ys)

without-other : (v : Sample) (xs : List Sample) → All (IsOther v) xs → without v.id xs ≡ xs
unfolding without
without-other v [] h = refl
without-other v (x ∷ xs) (ne, h) = ground (arith, str_eq_iff x.id v.id, ne, without-other v xs h)

-- The sample in the middle is taken out.
without-middle :
    (left : List Sample) (v : Sample) (vs : List Sample)
    → All (IsOther v) left
    → All (IsOther v) vs
    → without v.id (left ++ v ∷ vs) ≡ left ++ vs
unfolding without
without-middle left v vs l r =
    without-append v.id left (v ∷ vs)
    ∙ ground (arith, str_eq_iff v.id v.id, without-other v left l, without-other v vs r)

-- The samples that are kept so far differ from those to come.
abbrev pub AreApart : List Sample → List Sample → Type 0
AreApart left vs = All (λ v. All (IsOther v) left) vs

keep-AreApart :
    (left : List Sample) (v : Sample) (vs : List Sample)
    → AreApart left vs
    → All (IsOther v) vs
    → AreApart (left ++ v ∷ []) vs
keep-AreApart left v [] a o = tt
keep-AreApart left v (w ∷ vs) (a, as') (o, os) =
    (All-append (IsOther w) left (v ∷ []) a (λ e. o (sym e), tt), keep-AreApart left v vs as' os)

after_sample-cases :
    (c : Result SampleResponse) (s : Suggestion) (v : Sample) (t : Sent)
    → (is_taken c ≡ false)
        × ((x : Option SendError) × (after_sample c s v t ≡ some (record t { rerr = x })))
      ⊎ (is_taken c ≡ true)
        × ((u : Suggestion)
            → lookup s.id t.store ≡ some u
            → after_sample c s v t
              ≡ some (record t {
                n = t.n + 1;
                store = insert s.id (record u { samples = without v.id u.samples }) t.store;
              }))
unfolding after_sample step remove_sample
after_sample-cases (error e) s v t = inl (refl, (some (sending e), refl))
after_sample-cases (ok r) s v t = elim (Bool-cases r.is_ok) [
  | inl fine ↦ inr (fine, λ u e. rw (fine, after_sample) (rw (e, step) refl))
  | inr bad ↦ inl (bad, (some not_accepted, rw (bad, after_sample) refl))
]

send_from-keeps :
    (answers : ℕ → Post SampleResponse) (i : ℕ) (s s0 : Suggestion) (left vs : List Sample)
    (t : Sent)
    → AreDistinct vs
    → AreApart left vs
    → lookup s.id t.store ≡ some (record s0 { samples = left ++ vs })
    → (t' : Sent) × (send_from answers i s vs t ≡ some t')
      × (lookup s.id t'.store ≡ some (record s0 { samples = left ++ rejected answers i vs }))
      × (t'.n + length (rejected answers i vs) ≡ t.n + length vs)
      × ((k : Str) → s.id ≢ k → lookup k t'.store ≡ lookup k t.store)
unfolding send_from
send_from-keeps answers i s s0 left [] t d a e = (t, refl, e, refl, λ k ne. refl)
send_from-keeps answers i s s0 left (v ∷ vs) t (o, d) (a, as') e =
    elim (after_sample-cases (create_sample (answers i)) s v t) [
      | inl (bad, (x, step_e)) ↦
          let regroup : (r : List Sample)
              → some (record s0 { samples = (left ++ v ∷ []) ++ r })
                ≡ some (record s0 { samples = left ++ v ∷ r }) =
            λ r. ap (λ l. some (record s0 { samples = l })) (append_assoc left (v ∷ []) r) in
          let (t', run_e, here, count, elsewhere) =
            send_from-keeps answers (suc i) s s0 (left ++ v ∷ []) vs (record t { rerr = x }) d
              (keep-AreApart left v vs as' o) (e ∙ sym (regroup vs)) in
          (
            t',
            rw (step_e, send_from) run_e,
            rw bad (here ∙ regroup (rejected answers (suc i) vs)),
            rw bad (omega (arith, count)),
            elsewhere,
          )
      | inr (fine, then_e) ↦
          let t1 : Sent = record t {
            n = t.n + 1;
            store = insert s.id (record s0 { samples = without v.id (left ++ v ∷ vs) }) t.store;
          } in
          let (t', run_e, here, count, elsewhere) =
            send_from-keeps answers (suc i) s s0 left vs t1 d as' (
              lookup-insert_self s.id (record s0 { samples = without v.id (left ++ v ∷ vs) })
                t.store
              ∙ ap (λ l. some (record s0 { samples = l })) (without-middle left v vs a o)) in
          (
            t',
            rw (then_e (record s0 { samples = left ++ v ∷ vs }) e, send_from) run_e,
            rw fine here,
            rw fine (omega (arith, count)),
            λ k ne.
                elsewhere k ne
                ∙ lookup-insert_ne s.id k (record s0 { samples = without v.id (left ++ v ∷ vs) })
                    t.store ne,
          )
    ]

AreApart-nothing : (vs : List Sample) → AreApart [] vs
AreApart-nothing [] = tt
AreApart-nothing (v ∷ vs) = (tt, AreApart-nothing vs)

-- Whatever the requests come to: SendSamples on a suggestion that is in the map under its own id, which is not
-- empty, with a token and with samples whose ids differ, does not panic. It leaves in the map exactly the samples whose
-- request was not answered with success, in their order; the number that it returns and the number of
-- those that are left add up to the number there was; the other suggestions stay as they are.
pub send_samples-keeps :
    (answers : ℕ → Post SampleResponse) (sugg s : Suggestion) (m : Store)
    → lookup sugg.id m ≡ some s
    → s.id ≡ sugg.id
    → s.id ≢ []
    → s.token ≢ []
    → AreDistinct s.samples
    → (t : Sent) × (send_samples answers sugg m ≡ inr (some t))
      × (lookup s.id t.store ≡ some (record s { samples = rejected answers 0 s.samples }))
      × (t.n + length (rejected answers 0 s.samples) ≡ length s.samples)
      × ((k : Str) → s.id ≢ k → lookup k t.store ≡ lookup k m)
unfolding send_samples get_suggestion
send_samples-keeps answers sugg s m e own some_id some_token d =
    let start : Sent = record { n = 0; rerr = none; store = m } in
    let (t, run_e, here, count, elsewhere) =
      send_from-keeps answers 0 s s [] s.samples start d (AreApart-nothing s.samples)
        (ap (λ k. lookup k m) own ∙ e) in
    (
      t,
      rw (e, send_samples)
          (ground (arith, str_eq_iff s.id [], str_eq_iff s.token [], some_id, some_token, run_e)),
      here,
      count ∙ omega arith,
      elsewhere,
    )
