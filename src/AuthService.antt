-- ===== src/AuthService.antt =====
-- app/features/auth/services/auth_service.py: credentials, token pairs, rotation and logout.
-- A method that uses Redis takes the database and returns the new one beside its result. The users
-- table is a parameter: what its queries return. Random values and the clock are arguments.
pub mod Credentials
pub mod Accounts
pub mod Rotation
pub mod History
use fastapi_project_structur.Common.{
  ℕ, String, Bool, true, false, not, ◌&&◌, ◌||◌, Option, none, some, is_some, ◌==◌, if◌then◌else◌,
}
use fastapi_project_structur.Exceptions.{
  AppException, invalid_token, invalid_credentials, Result, ok, err,
}
use fastapi_project_structur.Json.{Json, text}
use fastapi_project_structur.Redis.{Redis}
use fastapi_project_structur.Stored.{Stored}
use fastapi_project_structur.Hasher.{PasswordLibrary, verify_and_update}
use fastapi_project_structur.Tokens.{
  refresh, Claims, Jwt, JwtSettings, access_ttl, refresh_ttl, issue_access, issue_refresh, decode,
}
use fastapi_project_structur.RefreshStore.{register, consume, revoke_family, is_family_revoked}

-- app/features/user/models/models.py; the times of creation and of change are left out
pub record User : Type 0 where
  pub id : String
  pub username : String
  pub email : String
  pub hashed_password : Option String
  pub is_active : Bool
  pub is_superuser : Bool

-- app/features/auth/schemas/auth_schema.py
pub record TokenResponse : Type 0 where
  pub access_token : String
  pub refresh_token : String
  pub expires_in : ℕ

-- The two values of uuid4 that a pair of tokens takes.
pub record Ids : Type 0 where
  pub access_jti : String
  pub refresh_jti : String

-- `user.hashed_password`, where it is neither None nor ""
abbrev pub usable_hash : Option User → Option String
usable_hash none = none
usable_hash (some user) = elim user.hashed_password [
  | none ↦ none
  | some h ↦ if h == "" then none else some h
]

abbrev pub get_or : Option String → String → String
get_or none d = d
get_or (some h) d = h

module _ (lib : PasswordLibrary) (dummy_hash : String) where
  -- `raise` or return, and the hash that `users.update` writes, if any
  unfoldable pub check : Option User → Bool × Option String → Result (User × Option String)
  check none verdict = err invalid_credentials
  check (some user) (matches, new_hash) =
      if not (is_some (usable_hash (some user))) || not user.is_active || not matches
      then err invalid_credentials
      else ok (user, new_hash)

  -- The user is what `get_by_username` returned.
  unfoldable pub verify_credentials :
      Option User → (salt password : String) → Result (User × Option String)
  verify_credentials user salt password =
      check user (verify_and_update lib salt password (get_or (usable_hash user) dummy_hash))

-- claims["fam"]; `decode` has checked that it is a text
abbrev pub family_of : Claims → String
family_of c = elim c.fam [ none ↦ "" | some v ↦ elim v [ text s ↦ s | _ ↦ "" ] ]

module _ (R : Redis Stored) (jwt : Jwt) (settings : JwtSettings) (now : ℕ) where
  open R use {Db}

  ttl : ℕ
  ttl = refresh_ttl jwt settings

  pub issue : User → String → Ids → Db → Db × TokenResponse
  unfolding ttl
  issue user family ids db =
      let (refresh_token, jti) = issue_refresh jwt settings user.id family now ids.refresh_jti in
      (
        register R ttl jti user.id family db,
        record {
          access_token =
              issue_access jwt settings user.id user.username user.is_superuser now ids.access_jti;
          refresh_token = refresh_token;
          expires_in = access_ttl jwt settings;
        },
      )

  -- The family is a third value of uuid4.
  pub issue_tokens : User → (family : String) → Ids → Db → Db × TokenResponse
  issue_tokens user family ids db = issue user family ids db

  -- from the result of `get_by_id` on
  pub renew : Option User → String → Ids → Db → Db × Result TokenResponse
  unfolding ttl
  renew none family ids db = (revoke_family R ttl family db, err invalid_token)
  renew (some user) family ids db =
      if not user.is_active
      then (revoke_family R ttl family db, err invalid_token)
      else (let (db', pair) = issue user family ids db in (db', ok pair))

  -- from the reply of `consume` on
  pub after_consume :
      (String → Option User) → Claims → Ids → Option Stored → Db → Db × Result TokenResponse
  unfolding ttl
  after_consume get_by_id claims ids none db =
      (revoke_family R ttl (family_of claims) db, err invalid_token)
  after_consume get_by_id claims ids (some found) db =
      if is_family_revoked R ttl (family_of claims) db
      then (db, err invalid_token)
      else renew (get_by_id claims.sub) (family_of claims) ids db

  pub rotate_claims : (String → Option User) → Result Claims → Ids → Db → Db × Result TokenResponse
  unfolding ttl
  rotate_claims get_by_id (err e) ids db = (db, err e)
  rotate_claims get_by_id (ok claims) ids db =
      let (found, db') = consume R ttl claims.jti db in after_consume get_by_id claims ids found db'

  pub rotate :
      (String → Option User) → (refresh_token : String) → Ids → Db → Db × Result TokenResponse
  rotate get_by_id refresh_token ids db =
      rotate_claims get_by_id (decode jwt settings refresh_token refresh now) ids db

  pub logout_claims : Result Claims → Db → Db × Result (Unit {0})
  unfolding ttl
  logout_claims (err e) db = (db, err e)
  logout_claims (ok claims) db = (revoke_family R ttl (family_of claims) db, ok tt)

  pub logout : (refresh_token : String) → Db → Db × Result (Unit {0})
  logout refresh_token db = logout_claims (decode jwt settings refresh_token refresh now) db
