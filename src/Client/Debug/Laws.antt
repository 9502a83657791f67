-- ===== src/Client/Debug/Laws.antt =====
-- What leaves the client, what can be read of it with the secret key, and what is written to disk.
use mathlib.Core.Path.{subst}
use alkasir.Base.{
  ◌≡◌, ◌≢◌, refl, sym, ◌∙◌, ◌⊎◌, inl, inr, Bool, true, false, ◌&&◌, none, some, List, [], ◌∷◌, Str,
  str_eq, str_eq_iff, arith, ltb, ◌==◌, length, take, take-all, All, Bool-cases, Option-cases,
  some_inj,
}
use alkasir.Base.Dict.{Dict, lookup, insert, lookup-insert, lookup-insert_self, IsKeyed}
use alkasir.Client.Debug.{
  DebugResponse, Tools, sealed, done, seal_response, encrypt, new_debug_response, DecryptError,
  public_key_text, public_key_length, secret_key_text, secret_key_length, ok, ◌>>=◌, or_error,
  guard, decode_key, decrypt, Disk, reports, write_files, write_to_disk,
}

str_eq-ne : (s t : Str) → s ≢ t → str_eq s t ≡ false
str_eq-ne s t h = ground (arith, str_eq_iff s t)

decode_key-decoded :
    (t : Tools) (e f : DecryptError) (text key : Str)
    → t.hex_decode text ≡ some key
    → length key ≡ 32
    → decode_key t e f text ≡ ok key
unfolding decode_key
decode_key-decoded t e f text key h long =
    rw (h, ◌>>=◌)
      (let same : (length key == 32) ≡ true = ground (arith, long) in rw (same, guard) refl)

-- With two keys of 32 bytes that fit each other, a response that can be marshalled and sealed is encrypted to
-- its header and the box alone; and who has both keys reads it back whole.
pub decrypt-encrypt :
    (t : Tools) (pub_key sec_key pk sk bytes box : Str) (d : DebugResponse)
    → pub_key ≢ []
    → sec_key ≢ []
    → t.hex_decode pub_key ≡ some pk
    → t.hex_decode sec_key ≡ some sk
    → length pk ≡ 32
    → length sk ≡ 32
    → t.marshal d ≡ some bytes
    → t.unmarshal bytes ≡ some d
    → t.seal bytes pk ≡ some box
    → t.seal_open box pk sk ≡ some bytes
    → t.hex_decode (t.hex_encode box) ≡ some box
    → t.hex_encode box ≢ []
    → (new_debug_response t pub_key d ≡ some (sealed d.header (t.hex_encode box)))
      × (decrypt t pub_key sec_key (sealed d.header (t.hex_encode box)) ≡ ok d)
unfolding new_debug_response encrypt seal_response decrypt
decrypt-encrypt t pub_key sec_key pk sk bytes box d hp hs pd sd pl sl m u s o x y =
    let whole : take 32 pk ≡ pk = take-all 32 pk (omega (arith, pl)) in
    let short : ltb (length pk) 32 ≡ false = ground (arith, pl) in
    (
      rw (str_eq-ne pub_key [] hp) (
          rw (pd, encrypt)
            (rw (short, encrypt) (rw (m, seal_response) (rw whole (rw (s, seal_response) refl))))),
      rw (str_eq-ne pub_key [] hp, guard)
          (rw (str_eq-ne sec_key [] hs, guard)
            (rw (str_eq-ne (t.hex_encode box) [] y, guard)
              (rw (decode_key-decoded t public_key_text public_key_length pub_key pk pd pl, ◌>>=◌)
                (rw (decode_key-decoded t secret_key_text secret_key_length sec_key sk sd sl, ◌>>=◌)
                  (rw (x, ◌>>=◌) (rw (o, ◌>>=◌) (rw (u, or_error) refl))))))),
    )

-- Nothing is sealed of it: it cannot be marshalled, or not sealed.
abbrev pub NotSealed : Tools → Str → DebugResponse → Type 0
NotSealed t key d =
    (t.marshal d ≡ none)
    ⊎ ((bytes : Str) × (t.marshal d ≡ some bytes) × (t.seal bytes (take 32 key) ≡ none))

-- The box is the whole response, marshalled and sealed for the key.
abbrev pub IsSealed : Tools → Str → DebugResponse → Str → Str → Type 0
IsSealed t key d bytes box = (t.marshal d ≡ some bytes) × (t.seal bytes (take 32 key) ≡ some box)

seal_response-cases :
    (t : Tools) (key : Str) (d : DebugResponse)
    → ((bytes : Str) × (box : Str) × IsSealed t key d bytes box
        × (seal_response t key d ≡ done (sealed d.header (t.hex_encode box))))
      ⊎ ((seal_response t key d ≡ done d) × NotSealed t key d)
unfolding seal_response
seal_response-cases t key d = elim (Option-cases (t.marshal d)) [
  | inl e ↦ inr (rw (e, seal_response) refl, inl e)
  | inr (bytes, e) ↦ elim (Option-cases (t.seal bytes (take 32 key))) [
    | inl f ↦ inr (rw (e, seal_response) (rw (f, seal_response) refl), inr (bytes, e, f))
    | inr (box, f) ↦ inl (bytes, box, (e, f), rw (e, seal_response) (rw (f, seal_response) refl))
  ]
]

-- With a public key built in, what the client hands out is its header alone, and with it the hexadecimal text
-- of the box that the whole response is sealed in for the first 32 bytes of that key, unless it could not be
-- marshalled or sealed: then it is handed out as it was, in the clear. There is nothing only where the key is
-- no hexadecimal text of 32 bytes or more.
pub new_debug_response-hides :
    (t : Tools) (public_key : Str) (d : DebugResponse)
    → public_key ≢ []
    → ((new_debug_response t public_key d ≡ none)
        × ((key : Str) → t.hex_decode public_key ≡ some key → ltb (length key) 32 ≡ true))
      ⊎ ((key : Str) × (t.hex_decode public_key ≡ some key)
          × (((bytes : Str) × (box : Str) × IsSealed t key d bytes box
                × (new_debug_response t public_key d ≡ some (sealed d.header (t.hex_encode box))))
              ⊎ ((new_debug_response t public_key d ≡ some d) × NotSealed t key d)))
unfolding new_debug_response encrypt
new_debug_response-hides t public_key d set = elim (Option-cases (t.hex_decode public_key)) [
  | inl e ↦
      inl (rw (str_eq-ne public_key [] set) (rw (e, encrypt) refl), λ key found. cc (e, found))
  | inr (key, e) ↦ elim (Bool-cases (ltb (length key) 32)) [
    | inl short ↦ inl (
      rw (str_eq-ne public_key [] set) (rw (e, encrypt) (rw short refl)),
      λ key' found. rw (some_inj (sym found ∙ e)) short,
    )
    | inr long ↦ elim (seal_response-cases t key d) [
      | inl (bytes, box, whole, f) ↦ inr (
        key,
        e,
        inl (
          bytes,
          box,
          whole,
          rw (str_eq-ne public_key [] set) (rw (e, encrypt) (rw long (rw f refl))),
        ),
      )
      | inr (f, why) ↦ inr (
        key,
        e,
        inr (rw (str_eq-ne public_key [] set) (rw (e, encrypt) (rw long (rw f refl))), why),
      )
    ]
  ]
]

abbrev pub all_written : (Str → Bool) → List (Str × Str) → Bool
all_written can_write [] = true
all_written can_write ((name, _) ∷ rest) = can_write name && all_written can_write rest

-- Each file that can be written holds its text.
abbrev pub AreWritten : (Str → Bool) → List (Str × Str) → Dict Str → Type 0
AreWritten can_write reports files =
    All (λ r. can_write r.0 ≡ true → lookup r.0 files ≡ some r.1) reports

abbrev WellWritten : (Str → Bool) → List (Str × Str) → Bool × Dict Str → Type 0
WellWritten can_write reports w =
    (w.0 ≡ all_written can_write reports) × AreWritten can_write reports w.1

-- Files of other names stay.
write_files-keeps :
    (can_write : Str → Bool) (rest : List (Str × Str)) (name : Str) (files : Dict Str)
    → lookup name rest ≡ none
    → lookup name (write_files can_write rest files).1 ≡ lookup name files
unfolding write_files lookup
write_files-keeps can_write [] name files h = refl
write_files-keeps can_write ((n, text) ∷ rest) name files h = elim (Bool-cases (str_eq n name)) [
  | inl same ↦ cc (rw (same, lookup) at h)
  | inr other ↦
      let h' = rw (other, lookup) at h in
      elim (Bool-cases (can_write n)) [
        | inl e ↦
            rw (e, write_files)
              (write_files-keeps can_write rest name (insert n text files) h'
                ∙ lookup-insert n name text files
                ∙ rw other refl)
        | inr e ↦ rw (e, write_files) (write_files-keeps can_write rest name files h')
      ]
]

write_files-written :
    (can_write : Str → Bool) (n text : Str) (rest : List (Str × Str)) (files : Dict Str)
    → can_write n ≡ true
    → write_files can_write ((n, text) ∷ rest) files
      ≡ write_files can_write rest (insert n text files)
unfolding write_files
write_files-written can_write n text rest files e = rw e refl

write_files-failed :
    (can_write : Str → Bool) (n text : Str) (rest : List (Str × Str)) (files : Dict Str)
    → can_write n ≡ false
    → write_files can_write ((n, text) ∷ rest) files ≡ (false, (write_files can_write rest files).1)
unfolding write_files
write_files-failed can_write n text rest files e = rw e refl

write_files-AreWritten :
    (can_write : Str → Bool) (rs : List (Str × Str)) (files : Dict Str)
    → IsKeyed rs
    → WellWritten can_write rs (write_files can_write rs files)
write_files-AreWritten can_write [] files k = (unfold write_files in refl, tt)
write_files-AreWritten can_write ((n, text) ∷ rest) files (free, k) =
    elim (Bool-cases (can_write n)) [
      | inl e ↦
          let (fine, all) = write_files-AreWritten can_write rest (insert n text files) k in
          subst (WellWritten can_write ((n, text) ∷ rest))
            (sym (write_files-written can_write n text rest files e))
            (
              fine ∙ rw e refl,
              (
                λ _.
                    write_files-keeps can_write rest n (insert n text files) free
                    ∙ lookup-insert_self n text files,
                all,
              ),
            )
      | inr e ↦
          let (_, all) = write_files-AreWritten can_write rest files k in
          subst (WellWritten can_write ((n, text) ∷ rest))
            (sym (write_files-failed can_write n text rest files e))
            (rw e refl, (λ h. cc (h, e), all))
    ]

-- A report that is not encrypted: all its seven files are tried, those that can be written hold their texts,
-- and there is no error exactly if all can be.
pub write_to_disk-AreWritten :
    (k : Disk) (d : DebugResponse)
    → d.encrypted ≡ []
    → ((write_to_disk k d).0 ≡ all_written k.can_write (reports k d))
      × AreWritten k.can_write (reports k d) (write_to_disk k d).1
unfolding write_to_disk str_eq
write_to_disk-AreWritten k d clear =
    rw (clear, write_to_disk)
      (write_files-AreWritten k.can_write (reports k d) []
        (unfold lookup str_eq in (refl, (refl, (refl, (refl, (refl, (refl, (refl, tt)))))))))
