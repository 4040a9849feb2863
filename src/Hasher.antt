-- ===== src/Hasher.antt =====
-- app/core/security/password_hasher.py: Argon2 hashes, and the bcrypt hashes of earlier versions.
-- bcrypt and pwdlib are parameters; the salt of a new hash is an argument.
pub mod Migration
use text.Mathlib.Text.{starts_with}
use fastapi_project_structur.Common.{
  ℕ, ◌+◌, ◌/◌, ◌%◌, String, ◌≡◌, Bool, true, false, Option, none, some, List, [], ◌∷◌, ◌++◌, ltb,
  codes, take, if◌then◌else◌,
}

pub record PasswordLibrary : Type 0 where
  -- PasswordHash.hash, with its salt
  pub argon_hash : (salt password : String) → String
  -- PasswordHash.verify_and_update; `none` is UnknownHashError
  pub argon_verify : (salt password stored : String) → Option (Bool × Option String)
  -- bcrypt.checkpw on the bytes of the password; `none` is ValueError
  pub bcrypt_check : List ℕ → String → Option Bool
  -- a hash that was just made verifies and needs no update, and is no bcrypt hash
  pub argon_verify-hash :
      (salt salt' password : String)
      → argon_verify salt' password (argon_hash salt password) ≡ some (true, none)
  pub argon_prefix : (salt password : String) → starts_with (argon_hash salt password) "$2" ≡ false

-- str.encode("utf-8")
unfoldable pub utf8 : ℕ → List ℕ
utf8 c =
    if ltb c 0x80
    then c ∷ []
    else if ltb c 0x800
    then (0xC0 + c / 64) ∷ (0x80 + c % 64) ∷ []
    else if ltb c 0x10000
    then (0xE0 + c / 4096) ∷ (0x80 + c / 64 % 64) ∷ (0x80 + c % 64) ∷ []
    else (0xF0 + c / 262144) ∷ (0x80 + c / 4096 % 64) ∷ (0x80 + c / 64 % 64) ∷ (0x80 + c % 64) ∷ []

unfoldable pub encode_codes : List ℕ → List ℕ
encode_codes [] = []
encode_codes (c ∷ cs) = utf8 c ++ encode_codes cs

unfoldable pub encode : String → List ℕ
encode s = encode_codes (codes s)

abbrev pub legacy_bcrypt_max_bytes : ℕ
legacy_bcrypt_max_bytes = 72

module _ (lib : PasswordLibrary) where
  unfoldable pub hash : (salt password : String) → String
  hash salt password = lib.argon_hash salt password

  -- the outcome of bcrypt.checkpw
  unfoldable pub migrate : (salt password : String) → Option Bool → Bool × Option String
  migrate salt password none = (false, none)
  migrate salt password (some true) = (true, some (hash salt password))
  migrate salt password (some false) = (false, none)

  unfoldable pub known : Option (Bool × Option String) → Bool × Option String
  known none = (false, none)
  known (some r) = r

  unfoldable pub verify_and_update : (salt password stored_hash : String) → Bool × Option String
  verify_and_update salt password stored_hash =
      if starts_with stored_hash "$2"
      then migrate salt password
          (lib.bcrypt_check (take legacy_bcrypt_max_bytes (encode password)) stored_hash)
      else known (lib.argon_verify salt password stored_hash)
