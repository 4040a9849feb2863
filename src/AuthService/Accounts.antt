-- ===== src/AuthService/Accounts.antt =====
-- app/features/auth/services/auth_service.py, register and authenticate, and get_current_user of
-- app/features/auth/dependencies/auth_dependencies.py. The users table is an interface.
use fastapi_project_structur.Common.{
  String, ◌≡◌, refl, ap, true, false, not, Option, none, some, is_some, ◌==◌, if◌then◌else◌, take,
}
use text.Mathlib.Text.{starts_with}
use fastapi_project_structur.Exceptions.{invalid_token, username_already_exists, Result, ok, err}
use fastapi_project_structur.Hasher.{
  PasswordLibrary, hash, encode, legacy_bcrypt_max_bytes, verify_and_update,
}
use fastapi_project_structur.Hasher.Migration.{migration_settles, fresh_hash_verifies}
use fastapi_project_structur.AuthService.{User, verify_credentials}
use fastapi_project_structur.AuthService.Credentials.{verify_credentials_iff}

-- The queries of UserRepository that the service sends, and what they answer: a created user has
-- the values given and the defaults of the model, and a row that was written is found.
pub record Accounts : Type 1 where
  pub Table : Type 0
  pub get_by_username : String → Table → Option User
  pub create : (username email hashed_password : String) → Table → User × Table
  pub set_hash : (user_id hashed_password : String) → Table → Table
  pub get-create :
      (username email h : String) (table : Table)
      → get_by_username username (create username email h table).1
        ≡ some (create username email h table).0
  pub hash-create :
      (username email h : String) (table : Table)
      → (create username email h table).0.hashed_password ≡ some h
  pub active-create :
      (username email h : String) (table : Table)
      → (create username email h table).0.is_active ≡ true
  pub get-set_hash :
      (username h : String) (u : User) (table : Table)
      → get_by_username username table ≡ some u
      → get_by_username username (set_hash u.id h table)
        ≡ some (record u { hashed_password = some h })

-- from the user that the token's subject names
pub get_current_user : Option User → Result User
get_current_user none = err invalid_token
get_current_user (some user) = if not user.is_active then err invalid_token else ok user

module _ (lib : PasswordLibrary) (dummy_hash : String) (users : Accounts) where
  open users use {Table}

  pub register : (username email salt password : String) → Table → Result User × Table
  register username email salt password table =
      if is_some (users.get_by_username username table)
      then (err username_already_exists, table)
      else (let (user, table') = users.create username email (hash lib salt password) table in
          (ok user, table'))

  -- the new hash, if there is one, is written
  unfoldable pub settled : Result (User × Option String) → Table → Result User × Table
  settled (err e) table = (err e, table)
  settled (ok (user, none)) table = (ok user, table)
  settled (ok (user, some new_hash)) table = (ok user, users.set_hash user.id new_hash table)

  unfoldable pub authenticate : (username salt password : String) → Table → Result User × Table
  authenticate username salt password table =
      settled
        (verify_credentials lib dummy_hash (users.get_by_username username table) salt password)
        table

  verified :
      (username salt password stored : String) (u : User) (new_hash : Option String) (table : Table)
      → users.get_by_username username table ≡ some u
      → u.hashed_password ≡ some stored
      → (stored == "") ≡ false
      → u.is_active ≡ true
      → verify_and_update lib salt password stored ≡ (true, new_hash)
      → authenticate username salt password table ≡ settled (ok (u, new_hash)) table
  unfolding authenticate
  verified username salt password stored u new_hash table there at not_blank active matches =
      ap (λ r. settled r table)
        ((verify_credentials_iff lib dummy_hash _ salt password u new_hash).1 (record {
          stored = stored;
          found = there;
          has_hash = at;
          not_blank = not_blank;
          active = active;
          verified = matches;
        }))

  -- A user who registers with a name that is free can log in with the same password at once:
  -- the login returns the user and leaves the table as the registration left it, if the hash
  -- of the password is not blank.
  pub registered_logs_in :
      (username email salt salt' password : String) (table : Table)
      → users.get_by_username username table ≡ none
      → (hash lib salt password == "") ≡ false
      → authenticate username salt' password (register username email salt password table).1
        ≡ register username email salt password table
  unfolding register settled
  registered_logs_in username email salt salt' password table free not_blank =
      let h = hash lib salt password in
      let matches = fresh_hash_verifies lib salt salt' password in
      rw
        (
          free,
          verified username salt' password h _ none _ (users.get-create username email h table)
              (users.hash-create username email h table) not_blank
              (users.active-create username email h table) matches,
          settled,
        )
        refl

  -- For an active user whose bcrypt hash the password matches, a login writes an Argon2 hash
  -- of the password, and the next login with it succeeds and writes nothing, if neither hash
  -- is blank.
  pub migrated_logs_in :
      (username salt salt' password stored : String) (u : User) (table : Table)
      → users.get_by_username username table ≡ some u
      → u.is_active ≡ true
      → u.hashed_password ≡ some stored
      → (stored == "") ≡ false
      → starts_with stored "$2" ≡ true
      → lib.bcrypt_check (take legacy_bcrypt_max_bytes (encode password)) stored ≡ some true
      → (hash lib salt password == "") ≡ false
      → (authenticate username salt password table
          ≡ (ok u, users.set_hash u.id (hash lib salt password) table))
        × (authenticate username salt' password (users.set_hash u.id (hash lib salt password) table)
            ≡ (
              ok (record u { hashed_password = some (hash lib salt password) }),
              users.set_hash u.id (hash lib salt password) table,
            ))
  unfolding settled
  migrated_logs_in username salt salt' password stored u table there active at not_blank old matches
        ok_hash =
      let (first, second) = migration_settles lib salt salt' password stored old matches in
      let h = hash lib salt password in
      (
        verified username salt password stored u (some h) table there at not_blank active first,
        verified username salt' password h (record u { hashed_password = some h }) none _
            (users.get-set_hash username h u table there) refl ok_hash active second,
      )
