-- ===== src/Central/Credentials/Tests.antt =====
-- An account, with a derivation that joins password and salt.
use alkasir.Base.{◌≡◌, refl, true, some, ◌++◌, Str, codes, str_eq}
use alkasir.Central.Credentials.{ApiCredentials, is_valid}

abbrev derive : Str → Str → Str
derive password salt = password ++ salt

abbrev salt : Str
salt = codes "0123456789abcdef"

abbrev account : ApiCredentials
account = record {
  username = codes "a";
  password_hash = some (derive (codes "secret") salt);
  salt = some salt;
  enabled = true;
}

is_valid-account : (is_valid derive (codes "secret") account).0 ≡ true
unfolding is_valid str_eq
is_valid-account = refl
