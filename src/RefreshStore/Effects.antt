-- ===== src/RefreshStore/Effects.antt =====
-- What each operation of the store does to the three observations: the record under a token, the
-- families that are revoked, and the families of a user.
use fastapi_project_structur.Common.{
  ℕ, ◌<◌, String, ◌≡◌, refl, ◌&&◌, ◌||◌, none, some, List, [], ◌∷◌, inl, inr, ◌∙◌, Bool-cases,
  eq_iff, eq_refl, arith, ◌==◌, contains, if◌then◌else◌,
}
use fastapi_project_structur.Redis.{Redis}
use fastapi_project_structur.Stored.{Stored, refresh_record, mark}
use fastapi_project_structur.RefreshStore.{
  token_key, user_key, revoked_key, register, consume, revoke_family, is_family_revoked, revoke_all,
  revoke_user,
}
use fastapi_project_structur.RefreshStore.Keys.{
  token_key-ne-revoked_key, user_key-ne-revoked_key, revoked_key-ne-user_key, token_key-ne-user_key,
  user_key-ne-token_key, revoked_key-ne-token_key, revoked_key-eq, token_key-eq, user_key-eq,
}

ruleset keys = (
  token_key-ne-revoked_key, user_key-ne-revoked_key, revoked_key-ne-user_key, token_key-ne-user_key,
  user_key-ne-token_key, revoked_key-ne-token_key, revoked_key-eq, token_key-eq, user_key-eq,
)

module _ (R : Redis Stored) (ttl : ℕ) (pos : 0 < ttl) where
  open R use {Db}

  pub revoked-register :
      (jti sub fam f : String) (db : Db)
      → is_family_revoked R ttl f (register R ttl jti sub fam db) ≡ is_family_revoked R ttl f db
  unfolding is_family_revoked register
  revoked-register jti sub fam f db = simp (
    R.exists-eq, R.get-expire, R.get-sadd, R.get-set, R.members-expire, R.members-sadd_ne,
    R.members-set, pos, keys,
  )

  pub revoked-consume :
      (jti f : String) (db : Db)
      → is_family_revoked R ttl f (consume R ttl jti db).1 ≡ is_family_revoked R ttl f db
  unfolding is_family_revoked consume
  revoked-consume jti f db = simp (R.exists-eq, R.get-getdel, R.members-getdel, keys)

  pub revoked-revoke_family :
      (fam f : String) (db : Db)
      → is_family_revoked R ttl f (revoke_family R ttl fam db)
        ≡ (fam == f || is_family_revoked R ttl f db)
  unfolding is_family_revoked revoke_family
  revoked-revoke_family fam f db = elim (Bool-cases (fam == f)) [
    | inl same ↦ simp (R.exists-eq, R.get-set, pos, keys, same)
    | inr other ↦
        simp (R.exists-eq, R.get-set, pos, keys, other)
          (rw (R.members-set _ _ _ _ _ (revoked_key-eq fam f ∙ other)) refl)
  ]

  pub token-register :
      (jti sub fam j : String) (db : Db)
      → R.get (token_key j) (register R ttl jti sub fam db) ≡ (
          if jti == j
          then some (refresh_record (record { fam = fam; sub = sub }))
          else R.get (token_key j) db)
  unfolding register
  token-register jti sub fam j db = simp (R.get-expire, R.get-sadd, R.get-set, pos, keys)

  pub consume-reply : (jti : String) (db : Db) → (consume R ttl jti db).0 ≡ R.get (token_key jti) db
  unfolding consume
  consume-reply jti db = R.getdel-reply (token_key jti) db

  pub token-consume :
      (jti j : String) (db : Db)
      → R.get (token_key j) (consume R ttl jti db).1
        ≡ (if jti == j then none else R.get (token_key j) db)
  unfolding consume
  token-consume jti j db = simp (R.get-getdel, keys)

  pub token-revoke_family :
      (fam j : String) (db : Db)
      → R.get (token_key j) (revoke_family R ttl fam db) ≡ R.get (token_key j) db
  unfolding revoke_family
  token-revoke_family fam j db = simp (R.get-set, pos, keys)

  pub families-register :
      (jti sub fam s f : String) (db : Db)
      → contains f (R.members (user_key s) (register R ttl jti sub fam db))
        ≡ (sub == s && fam == f || contains f (R.members (user_key s) db))
  unfolding register
  families-register jti sub fam s f db = elim (Bool-cases (sub == s)) [
    | inl same ↦
        let e = (eq_iff sub s).0 same in
        rw (e, eq_refl) (simp (R.members-expire, pos) (simp (R.members-sadd, R.members-set, keys)))
    | inr other ↦
        let apart = user_key-eq sub s ∙ other in
        simp (R.members-expire, pos, R.members-sadd_ne, apart, R.members-set, keys, other)
  ]

  revoked-revoke_all :
      (fams : List String) (f : String) (db : Db)
      → is_family_revoked R ttl f (revoke_all R ttl fams db)
        ≡ (contains f fams || is_family_revoked R ttl f db)
  unfolding revoke_all revoke_family
  revoked-revoke_all [] f db = refl
  revoked-revoke_all (fam ∷ fams) f db = ground (
    arith,
    revoked-revoke_all fams f (R.set (revoked_key fam) mark ttl db),
    revoked-revoke_family fam f db,
  )

  revoked-delete_user :
      (sub f : String) (db : Db)
      → is_family_revoked R ttl f (R.delete (user_key sub) db) ≡ is_family_revoked R ttl f db
  unfolding is_family_revoked
  revoked-delete_user sub f db = simp (R.exists-eq, R.get-delete, R.members-delete, keys)

  pub revoked-revoke_user :
      (sub f : String) (db : Db)
      → is_family_revoked R ttl f (revoke_user R ttl sub db)
        ≡ (contains f (R.members (user_key sub) db) || is_family_revoked R ttl f db)
  unfolding revoke_user
  revoked-revoke_user sub f db =
      revoked-delete_user sub f _ ∙ revoked-revoke_all (R.members (user_key sub) db) f db

  token-revoke_all :
      (fams : List String) (j : String) (db : Db)
      → R.get (token_key j) (revoke_all R ttl fams db) ≡ R.get (token_key j) db
  unfolding revoke_all
  token-revoke_all [] j db = refl
  token-revoke_all (fam ∷ fams) j db = token-revoke_all fams j _ ∙ simp (R.get-set, pos, keys)

  pub token-revoke_user :
      (sub j : String) (db : Db)
      → R.get (token_key j) (revoke_user R ttl sub db) ≡ R.get (token_key j) db
  unfolding revoke_user
  token-revoke_user sub j db = simp (R.get-delete, keys) (token-revoke_all _ j db)
