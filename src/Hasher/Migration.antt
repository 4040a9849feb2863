-- ===== src/Hasher/Migration.antt =====
-- The replacement of a bcrypt hash at login.
use text.Mathlib.Text.{starts_with}
use fastapi_project_structur.Common.{String, ◌≡◌, true, none, some, take}
use fastapi_project_structur.Hasher.{
  PasswordLibrary, verify_and_update, hash, migrate, known, encode, legacy_bcrypt_max_bytes,
}

pub fresh_hash_verifies :
    (lib : PasswordLibrary) (salt salt' password : String)
    → verify_and_update lib salt' password (hash lib salt password) ≡ (true, none)
unfolding verify_and_update known hash
fresh_hash_verifies lib salt salt' password =
    rw (lib.argon_prefix salt password, lib.argon_verify-hash salt salt' password, known)

-- A bcrypt hash that the password matches is replaced by an Argon2 hash of the same password,
-- which the next verification accepts with nothing left to replace.
pub migration_settles :
    (lib : PasswordLibrary) (salt salt' password stored : String)
    → starts_with stored "$2" ≡ true
    → lib.bcrypt_check (take legacy_bcrypt_max_bytes (encode password)) stored ≡ some true
    → (verify_and_update lib salt password stored ≡ (true, some (hash lib salt password)))
      × (verify_and_update lib salt' password (hash lib salt password) ≡ (true, none))
unfolding verify_and_update migrate known hash
migration_settles lib salt salt' password stored old matches = (
  rw (old, matches, migrate),
  rw (lib.argon_prefix salt password, lib.argon_verify-hash salt salt' password, known),
)
