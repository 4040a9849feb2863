-- ===== src/UserService/Revoking.antt =====
-- The ends of a user's sessions, and who may cause them (app/features/user).
use fastapi_project_structur.Common.{
  ℕ, ◌<◌, String, ◌≡◌, ◌∙◌, ◌⊎◌, inl, inr, refl, true, false, Option, none, some, arith, ◌==◌,
  eq_iff, contains, Bool-cases, if◌then◌else◌, Bool, false,
}
use fastapi_project_structur.Exceptions.{forbidden, privileged_field, ok, err}
use fastapi_project_structur.Redis.{Redis}
use fastapi_project_structur.Stored.{Stored}
use fastapi_project_structur.RefreshStore.{user_key, revoke_user, is_family_revoked}
use fastapi_project_structur.RefreshStore.Effects.{revoked-revoke_user}
use fastapi_project_structur.AuthService.{User}
use fastapi_project_structur.Authorization.{Principal, ensure_can_modify}
use fastapi_project_structur.UserService.{
  UserUpdate, Users, Revocation, deleted, revocation_for, before_of, after_of, has_privileged_field,
  revoke_admin, revoke_user_access, get_user, changeable, change, update_user, delete_user,
  same_hash, admin_store,
}
use fastapi_project_structur.AdminSession.{Settings}
use fastapi_project_structur.UserService.Index.{
  IndexesSessions, revoke_user-index, revoked-delete_all, deleted-ne-revoked_key,
}
use fastapi_project_structur.AdminSession

-- A user that was active and is not any more, or was a superuser and is not any more.
unfoldable pub Loses : User → UserUpdate → Type 0
Loses u changes =
    ((u.is_active ≡ true) × (changes.is_active ≡ some false))
    ⊎ ((u.is_superuser ≡ true) × (changes.is_superuser ≡ some false))

same_hash_refl : (h : Option String) → same_hash h h ≡ true
same_hash_refl none = refl
same_hash_refl (some h) = (eq_iff h h).1 refl

Loses-revokes :
    (u : User) (changes : UserUpdate)
    → Loses u changes
    → (revocation_for (before_of u) (after_of u changes)).refresh ≡ true
unfolding revocation_for before_of after_of Loses
Loses-revokes u changes h = ground (arith, h)

module _ (R : Redis Stored) (ttl : ℕ) (pos : 0 < ttl)
    (admin : Option (String → Redis.Db R → Redis.Db R)) (users : Users) where
  open R use {Db}
  open users use {Table}

  -- The admin pages' store leaves a family revoked that the refresh tokens' store has revoked.
  abbrev KeepsMark : (user_id f : String) → Db → Type 0
  KeepsMark user_id f db =
      is_family_revoked R ttl f (revoke_user R ttl user_id db) ≡ true
      → is_family_revoked R ttl f (revoke_admin admin user_id (revoke_user R ttl user_id db)) ≡ true

  revoke_user-ends :
      (sub f : String) (db : Db)
      → contains f (R.members (user_key sub) db) ≡ true
      → is_family_revoked R ttl f (revoke_user R ttl sub db) ≡ true
  revoke_user-ends sub f db h = revoked-revoke_user R ttl pos sub f db ∙ rw h refl

  ends_access :
      (user_id f : String) (what : Revocation) (db : Db)
      → what.refresh ≡ true
      → contains f (R.members (user_key user_id) db) ≡ true
      → KeepsMark user_id f db
      → is_family_revoked R ttl f (revoke_user_access R ttl admin users user_id what db) ≡ true
  unfolding revoke_user_access
  ends_access user_id f what db lost known keeps = elim (Bool-cases what.admin_sessions) [
    | inl e ↦ rw (lost, e) (keeps (revoke_user-ends user_id f db known))
    | inr e ↦ rw (lost, e) (revoke_user-ends user_id f db known)
  ]

  changeable-superuser :
      (user_id : String) (changes : UserUpdate) (p : Principal) (table : Table) (u : User)
      → users.get_by_id user_id table ≡ some u
      → p.is_superuser ≡ true
      → changeable R ttl admin users user_id changes p table ≡ ok u
  unfolding changeable ensure_can_modify get_user
  changeable-superuser user_id changes p table u there super = rw (there, super) refl

  update_user-ends :
      (user_id f : String) (changes : UserUpdate) (p : Principal) (db : Db) (table : Table)
      (u : User)
      → users.get_by_id user_id table ≡ some u
      → p.is_superuser ≡ true
      → Loses u changes
      → contains f (R.members (user_key user_id) db) ≡ true
      → KeepsMark user_id f db
      → is_family_revoked R ttl f (update_user R ttl admin users user_id changes p (db, table)).1
        ≡ true
  unfolding update_user change
  update_user-ends user_id f changes p db table u there super loses known keeps =
      rw (changeable-superuser user_id changes p table u there super, change)
        (ends_access user_id f (revocation_for (before_of u) (after_of u changes)) db
          (Loses-revokes u changes loses) known keeps)

  delete_user-ends :
      (user_id f : String) (db : Db) (table : Table)
      → (users.delete user_id table).0 ≡ true
      → contains f (R.members (user_key user_id) db) ≡ true
      → KeepsMark user_id f db
      → is_family_revoked R ttl f (delete_user R ttl admin users user_id (db, table)).1 ≡ true
  unfolding delete_user
  delete_user-ends user_id f db table gone known keeps =
      rw gone (ends_access user_id f deleted db refl known keeps)

  -- A principal who is not a superuser and sends is_active or is_superuser changes nothing:
  -- the answer is PrivilegedField for the own account and Forbidden for another's, and neither
  -- Redis nor the table changes. The lifetime of refresh tokens is positive.
  pub privileged_change_refused :
      (user_id : String) (changes : UserUpdate) (p : Principal) (db : Db) (table : Table)
      → p.is_superuser ≡ false
      → has_privileged_field changes ≡ true
      → update_user R ttl admin users user_id changes p (db, table)
        ≡ (err (if user_id == p.id then privileged_field else forbidden), db, table)
  unfolding update_user change changeable ensure_can_modify
  privileged_change_refused user_id changes p db table ordinary privileged =
      elim (Bool-cases (user_id == p.id)) [
        | inl e ↦ rw (ordinary, e, privileged) refl
        | inr e ↦ rw (ordinary, e) refl
      ]

-- With the store of admin sessions that the program has, or without one.
module _ (R : Redis Stored) (ttl : ℕ) (pos : 0 < ttl) (settings : Settings) (now : ℕ) (pages : Bool)
    (users : Users) where
  open R use {Db}
  open users use {Table}

  abbrev pub store : Option (String → Db → Db)
  store = admin_store R settings now pages

  store-KeepsMark :
      (user_id f : String) (db : Db)
      → IndexesSessions R ttl pos settings now user_id db
      → KeepsMark R ttl pos store users user_id f db
  unfolding admin_store revoke_admin AdminSession.revoke_user
  store-KeepsMark user_id f db indexes marked = kept pages
    where
      kept :
          (b : Bool)
          → is_family_revoked R ttl f
              (revoke_admin (admin_store R settings now b) user_id (revoke_user R ttl user_id db))
            ≡ true
      kept false = marked
      kept true =
          revoked-delete_all R ttl pos settings now _ f _ (λ k h.
            deleted-ne-revoked_key R ttl pos settings now user_id f k db indexes
              (rw (revoke_user-index R ttl pos settings now user_id user_id db) at h))
          ∙ marked

  -- When a superuser deactivates an active user or takes superuser rights from one who has
  -- them, every family of refresh tokens that is registered for the user is revoked
  -- afterwards, whether the admin pages are off or on, where the same call deletes the user's
  -- admin sessions, if the index of the user's admin sessions has keys of such sessions only.
  -- The lifetime of refresh tokens is positive.
  pub update_user-ends_sessions :
      (user_id f : String) (changes : UserUpdate) (p : Principal) (db : Db) (table : Table)
      (u : User)
      → users.get_by_id user_id table ≡ some u
      → p.is_superuser ≡ true
      → Loses u changes
      → contains f (R.members (user_key user_id) db) ≡ true
      → IndexesSessions R ttl pos settings now user_id db
      → is_family_revoked R ttl f (update_user R ttl store users user_id changes p (db, table)).1
        ≡ true
  update_user-ends_sessions user_id f changes p db table u there super loses known indexes =
      update_user-ends R ttl pos store users user_id f changes p db table u there super loses known
        (store-KeepsMark user_id f db indexes)

  -- Deleting a user who exists revokes every family of refresh tokens that is registered for
  -- the user, also where the admin pages' store revokes the user's admin sessions, whose index has keys
  -- of such sessions only. The lifetime of refresh tokens is positive.
  pub delete_user-ends_sessions :
      (user_id f : String) (db : Db) (table : Table)
      → (users.delete user_id table).0 ≡ true
      → contains f (R.members (user_key user_id) db) ≡ true
      → IndexesSessions R ttl pos settings now user_id db
      → is_family_revoked R ttl f (delete_user R ttl store users user_id (db, table)).1 ≡ true
  delete_user-ends_sessions user_id f db table gone known indexes =
      delete_user-ends R ttl pos store users user_id f db table gone known
        (store-KeepsMark user_id f db indexes)
