-- ===== src/Central/Credentials.antt =====
-- pkg/central/db/apicredentials.go: the password of an account of the export API. The derivation of a
-- key from a password and a salt, PBKDF2 with 4096 rounds, and the random salt come from outside.
mod Tests
use alkasir.Base.{
  ℕ, ◌≡◌, ◌≢◌, refl, sym, ◌∙◌, Bool, true, false, Option, none, some, List, [], ◌∷◌, arith, Str,
  str_eq, str_eq_iff, str_eq_refl, length, ◌==◌, not, if◌then◌else◌, Option-cases, inl, inr,
}

pub record ApiCredentials : Type 0 where
  pub username : Str
  pub password_hash : Option Str
  pub salt : Option Str
  pub enabled : Bool

pub data CredentialsError : Type 0 where
  no_hash no_salt bad_salt : CredentialsError

abbrev password_salt_len : ℕ
password_salt_len = 16

module _ (derive : Str → Str → Str) where
  unfoldable pub is_valid : Str → ApiCredentials → Bool × Option CredentialsError
  is_valid password a = if not a.enabled then (false, none) else elim a.password_hash [
    | none ↦ (false, some no_hash)
    | some hash ↦ elim a.salt [
      | none ↦ (false, some no_salt)
      | some salt ↦
          if not (length salt == password_salt_len)
          then (false, some bad_salt)
          else (str_eq hash (derive password salt), none)
    ]
  ]

  -- Nothing where there are no random bytes.
  unfoldable pub set_password : Option Str → Str → ApiCredentials → Option ApiCredentials
  set_password none password a = none
  set_password (some salt) password a =
      some (record a { salt = some salt; password_hash = some (derive password salt) })

  -- After a password was set with a salt of sixteen bytes, a password is valid exactly if the account
  -- is enabled and it derives the same key as the one that was set; there is no error.
  pub is_valid-set_password :
      (salt password tried : Str) (a : ApiCredentials)
      → length salt ≡ 16
      → (a' : ApiCredentials) × (set_password (some salt) password a ≡ some a')
        × (is_valid tried a' ≡ (
          (if a.enabled then str_eq (derive password salt) (derive tried salt) else false),
          none,
        ))
  unfolding is_valid set_password
  is_valid-set_password salt password tried a long = (_, refl, ground arith)

  -- A disabled account has no valid password, and one that has is enabled and has a hash and a salt.
  pub is_valid-enabled :
      (password : Str) (a : ApiCredentials)
      → (is_valid password a).0 ≡ true
      → (salt : Str) × (a.enabled ≡ true)
        × (a.salt ≡ some salt)
        × (length salt ≡ 16)
        × (a.password_hash ≡ some (derive password salt))
  unfolding is_valid
  is_valid-enabled password a h = elim (Option-cases a.salt) [
    | inl absent ↦ elim (Option-cases a.password_hash) [
      | inl unset ↦ ground arith
      | inr (hash, found) ↦ ground arith
    ]
    | inr (salt, found) ↦ elim (Option-cases a.password_hash) [
      | inl unset ↦ ground arith
      | inr (hash, found') ↦
          let all : (a.enabled ≡ true)
              × (length salt ≡ 16)
              × (a.password_hash ≡ some (derive password salt)) =
            ground (arith, str_eq_iff hash (derive password salt)) in
          (salt, all.0, found, all.1, all.2)
    ]
  ]
