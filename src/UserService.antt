-- ===== src/UserService.antt =====
-- app/features/user/services/user_service.py: users, and the end of a user's sessions when access
-- is lost. The users table is a parameter: what its queries answer. The store of admin sessions is
-- none where the admin pages are off.
pub mod Index
pub mod Revoking
use fastapi_project_structur.Common.{
  ℕ, String, Bool, true, false, not, ◌&&◌, ◌||◌, Option, none, some, List, [], ◌∷◌, is_some, any,
  ◌==◌, if◌then◌else◌,
}
use fastapi_project_structur.Exceptions.{
  AppException, user_not_found, username_duplicate, privileged_field, Result, ok, err, and_then,
}
use fastapi_project_structur.Redis.{Redis}
use fastapi_project_structur.Stored.{Stored}
use fastapi_project_structur.Json.{text}
use fastapi_project_structur.AdminSession.{Settings}
use fastapi_project_structur.AdminSession
use fastapi_project_structur.Hasher.{PasswordLibrary, hash}
use fastapi_project_structur.RefreshStore.{revoke_user}
use fastapi_project_structur.AuthService.{User}
use fastapi_project_structur.Authorization.{Principal, ensure_can_modify}

-- The set fields of UserUpdate.
pub record UserUpdate : Type 0 where
  pub email : Option String
  pub is_active : Option Bool
  pub is_superuser : Option Bool

pub record UserCreate : Type 0 where
  pub username : String
  pub email : String
  pub is_superuser : Bool

pub record Users : Type 1 where
  pub Table : Type 0
  pub get_by_id : String → Table → Option User
  pub get_by_username : String → Table → Option User
  pub get_all : (skip limit : ℕ) → Table → List User
  pub count : Table → ℕ
  pub create : UserCreate → (hashed_password : String) → Table → User × Table
  pub update : String → UserUpdate → Table → Option User × Table
  pub delete : String → Table → Bool × Table

pub record Revocation : Type 0 where
  pub admin_sessions : Bool
  pub refresh : Bool

abbrev pub deleted : Revocation
deleted = record { admin_sessions = true; refresh = true }

-- The fields in REVOKING_FIELDS.
pub record Access : Type 0 where
  pub is_active : Bool
  pub is_superuser : Bool
  pub hashed_password : Option String

abbrev pub same_hash : Option String → Option String → Bool
same_hash none none = true
same_hash (some a) (some b) = a == b
same_hash _ _ = false

pub revocation_for : Access → Access → Revocation
revocation_for before after =
    let lost =
      before.is_active && not after.is_active
      || before.is_superuser && not after.is_superuser
      || not (same_hash before.hashed_password after.hashed_password) in
    record { admin_sessions = lost; refresh = lost }

abbrev pub get_or {ℓ} : {A : Type ℓ} → Option A → A → A
get_or none d = d
get_or (some a) d = a

pub before_of : User → Access
before_of u = record {
  is_active = u.is_active;
  is_superuser = u.is_superuser;
  hashed_password = u.hashed_password;
}

-- UserUpdate has no password, so that the hash stays
pub after_of : User → UserUpdate → Access
after_of u changes = record {
  is_active = get_or changes.is_active u.is_active;
  is_superuser = get_or changes.is_superuser u.is_superuser;
  hashed_password = u.hashed_password;
}

unfoldable pub has_privileged_field : UserUpdate → Bool
has_privileged_field changes = is_some changes.is_active || is_some changes.is_superuser

unfoldable pub revoke_admin : {D : Type 0} → Option (String → D → D) → String → D → D
revoke_admin none user_id db = db
revoke_admin (some revoke) user_id db = revoke user_id db

-- AdminSessionStore.revoke_user, where the admin pages are on
unfoldable pub admin_store :
    (R : Redis Stored)
    → Settings
    → (now : ℕ) (pages : Bool) → Option (String → Redis.Db R → Redis.Db R)
admin_store R settings now true =
    some (λ user_id db. AdminSession.revoke_user R settings now (text user_id) db)
admin_store R settings now false = none

module _ (R : Redis Stored) (ttl : ℕ) (admin_sessions : Option (String → Redis.Db R → Redis.Db R))
    (users : Users) where
  open R use {Db}
  open users use {Table}

  pub revoke_user_access : String → Revocation → Db → Db
  revoke_user_access user_id what db =
      let db' = if what.refresh then revoke_user R ttl user_id db else db in
      if what.admin_sessions then revoke_admin admin_sessions user_id db' else db'

  pub get_user : Option User → Result User
  get_user none = err user_not_found
  get_user (some user) = ok user

  -- UserService.get_user; the one above is `_get`
  pub get_user_as : String → Principal → Table → Result User
  get_user_as user_id principal table =
      and_then (λ _. get_user (users.get_by_id user_id table))
        (ensure_can_modify (some user_id) principal)

  -- The user, if the principal may make these changes.
  pub changeable : String → UserUpdate → Principal → Table → Result User
  changeable user_id changes principal table =
      and_then
        (λ _.
          if not principal.is_superuser && has_privileged_field changes
          then err privileged_field
          else get_user (users.get_by_id user_id table))
        (ensure_can_modify (some user_id) principal)

  abbrev pub or_existing : Option User → User → User
  or_existing none existing = existing
  or_existing (some updated) existing = updated

  pub change : Result User → String → UserUpdate → Db × Table → Result User × Db × Table
  change (err e) user_id changes (db, table) = (err e, db, table)
  change (ok existing) user_id changes (db, table) =
      let what = revocation_for (before_of existing) (after_of existing changes) in
      let (updated, table') = users.update user_id changes table in
      (ok (or_existing updated existing), revoke_user_access user_id what db, table')

  pub update_user : String → UserUpdate → Principal → Db × Table → Result User × Db × Table
  update_user user_id changes principal (db, table) =
      change (changeable user_id changes principal table) user_id changes (db, table)

  pub delete_user : String → Db × Table → Result (Unit {0}) × Db × Table
  delete_user user_id (db, table) =
      let (gone, table') = users.delete user_id table in
      if not gone
      then (err user_not_found, db, table')
      else (ok tt, revoke_user_access user_id deleted db, table')

  pub create_user :
      PasswordLibrary → (salt password : String) → UserCreate → Table → Result User × Table
  create_user lib salt password values table =
      if is_some (users.get_by_username values.username table)
      then (err username_duplicate, table)
      else (let (user, table') = users.create values (hash lib salt password) table in
          (ok user, table'))

  unfoldable pub list_users : (skip limit : ℕ) → Table → List User × ℕ
  list_users skip limit table = (users.get_all skip limit table, users.count table)
