-- ===== src/UserService/Index.antt =====
-- The admin pages' store of sessions leaves the revoked families of refresh tokens alone
-- (app/core/security/admin_session.py, refresh_store.py).
use mathlib.Core.Path.{subst}
use fastapi_project_structur.Common.{
  ℕ, ◌<◌, String, ◌≡◌, ◌∙◌, inl, inr, refl, true, false, arith, ◌==◌, eq_iff, contains, Bool-cases,
  List, [], ◌∷◌, ◌+++◌, eq_refl, eq_false, append-ne_of_differ, false,
}
use fastapi_project_structur.Redis.{Redis}
use fastapi_project_structur.Stored.{Stored}
use fastapi_project_structur.RefreshStore.{
  user_key, revoked_key, revoke_all, revoke_user, is_family_revoked,
}
use fastapi_project_structur.Json.{text}
use fastapi_project_structur.AdminSession.{Settings}
use fastapi_project_structur.AdminSession.Indexed.{Indexed}
use fastapi_project_structur.AdminSession

module _ (R : Redis Stored) (ttl : ℕ) (pos : 0 < ttl) (settings : Settings) (now : ℕ) where
  open R use {Db}

  abbrev pub index_key : String → String
  index_key user_id = AdminSession.user_key R settings now (text user_id)

  -- The index of a user's admin sessions has keys of admin sessions only.
  abbrev pub IndexesSessions : String → Db → Type 0
  IndexesSessions user_id db = Indexed R settings now (index_key user_id) db

  session_key-ne-revoked_key :
      (sid f : String) → (AdminSession.key R settings now sid == revoked_key f) ≡ false
  unfolding AdminSession.key revoked_key
  session_key-ne-revoked_key sid f =
      eq_false _ _ (append-ne_of_differ "admin:sess:" "auth:fam:" _ (f +++ ":revoked") refl)

  index_key-ne-revoked_key : (u f : String) → (index_key u == revoked_key f) ≡ false
  unfolding AdminSession.user_key revoked_key
  index_key-ne-revoked_key u f =
      eq_false _ _
        (append-ne_of_differ "admin:user_sessions:" "auth:fam:" _ (f +++ ":revoked") refl)

  revoked_key-ne-index_key : (f u : String) → (revoked_key f == index_key u) ≡ false
  unfolding AdminSession.user_key revoked_key
  revoked_key-ne-index_key f u =
      eq_false _ _
        (append-ne_of_differ "auth:fam:" "admin:user_sessions:" (f +++ ":revoked") _ refl)

  user_key-ne-index_key : (sub u : String) → (user_key sub == index_key u) ≡ false
  unfolding AdminSession.user_key user_key
  user_key-ne-index_key sub u =
      eq_false _ _
        (append-ne_of_differ "auth:user:" "admin:user_sessions:" (sub +++ ":fams") _ refl)

  revoke_all-index :
      (fams : List String) (u : String) (db : Db)
      → R.members (index_key u) (revoke_all R ttl fams db) ≡ R.members (index_key u) db
  unfolding revoke_all
  revoke_all-index [] u db = refl
  revoke_all-index (f ∷ fams) u db =
      revoke_all-index fams u _ ∙ R.members-set _ _ _ _ _ (revoked_key-ne-index_key f u)

  pub revoke_user-index :
      (sub u : String) (db : Db)
      → R.members (index_key u) (revoke_user R ttl sub db) ≡ R.members (index_key u) db
  unfolding revoke_user
  revoke_user-index sub u db =
      R.members-delete _ _ _
      ∙ rw (user_key-ne-index_key sub u) (revoke_all-index (R.members (user_key sub) db) u db)

  revoked-delete :
      (k f : String) (db : Db)
      → (k == revoked_key f) ≡ false
      → is_family_revoked R ttl f (R.delete k db) ≡ is_family_revoked R ttl f db
  unfolding is_family_revoked
  revoked-delete k f db h = simp (R.exists-eq, R.get-delete, R.members-delete, h)

  pub revoked-delete_all :
      (ks : List String) (f : String) (db : Db)
      → ((k : String) → contains k ks ≡ true → (k == revoked_key f) ≡ false)
      → is_family_revoked R ttl f (AdminSession.delete_all R settings now ks db)
        ≡ is_family_revoked R ttl f db
  unfolding AdminSession.delete_all
  revoked-delete_all [] f db h = refl
  revoked-delete_all (k ∷ ks) f db h =
      revoked-delete_all ks f _ (λ j e. h j (ground (arith, e)))
      ∙ revoked-delete k f db (h k (rw (eq_refl k) refl))

  pub deleted-ne-revoked_key :
      (user_id f k : String) (db : Db)
      → IndexesSessions user_id db
      → contains k (index_key user_id ∷ R.members (index_key user_id) db) ≡ true
      → (k == revoked_key f) ≡ false
  unfolding Indexed
  deleted-ne-revoked_key user_id f k db indexes h = elim (Bool-cases (index_key user_id == k)) [
    | inl e ↦
        subst (λ x. (x == revoked_key f) ≡ false) ((eq_iff (index_key user_id) k).0 e)
          (index_key-ne-revoked_key user_id f)
    | inr e ↦
        let (sid, same) = indexes k (ground (arith, h, e)) in
        rw same (session_key-ne-revoked_key sid f)
  ]
