-- ===== src/AuthService/Rotation.antt =====
-- One rotation: what a success has checked and written, and what a reused token or a revoked
-- family leads to.
use fastapi_project_structur.Common.{
  ℕ, ◌<◌, String, ◌≡◌, refl, sym, ap, ◌∙◌, Bool, true, false, not, Option, none, some, arith, inl,
  inr, Bool-cases, ◌==◌, eq_refl, if◌then◌else◌,
}
use fastapi_project_structur.Exceptions.{AppException, invalid_token, Result, ok, err}
use fastapi_project_structur.Redis.{Redis}
use fastapi_project_structur.Stored.{Stored}
use fastapi_project_structur.Tokens.{
  refresh, Claims, Jwt, JwtSettings, refresh_ttl, issue_refresh, decode,
}
use fastapi_project_structur.RefreshStore.{
  token_key, register, consume, revoke_family, is_family_revoked,
}
use fastapi_project_structur.RefreshStore.Effects.{
  revoked-consume, consume-reply, revoked-revoke_family, token-consume, token-revoke_family,
}
use fastapi_project_structur.AuthService.{
  User, TokenResponse, Ids, family_of, issue, renew, after_consume, rotate_claims, rotate,
}

module _ (R : Redis Stored) (jwt : Jwt) (settings : JwtSettings)
    (pos : 0 < refresh_ttl jwt settings) (now : ℕ) where
  open R use {Db}

  abbrev ttl : ℕ
  ttl = refresh_ttl jwt settings

  abbrev revoked : String → Db → Bool
  revoked = is_family_revoked R ttl

  -- What a rotation that returned tokens has found, and the database that it left.
  pub record IsRotated (get_by_id : String → Option User) (token : String) (ids : Ids) (db db' : Db)
      : Type 0 where
    pub claims : Claims
    pub user : User
    pub found : Stored
    pub decoded : decode jwt settings token refresh now ≡ ok claims
    pub registered : R.get (token_key claims.jti) db ≡ some found
    pub live : is_family_revoked R (refresh_ttl jwt settings) (family_of claims) db ≡ false
    pub known : get_by_id claims.sub ≡ some user
    pub active : user.is_active ≡ true
    pub written :
        db'
        ≡ register R
            (refresh_ttl jwt settings)
            ids.refresh_jti
            user.id
            (family_of claims)
            (consume R (refresh_ttl jwt settings) claims.jti db).1

  if_err_else_ok :
      (b : Bool) (x y z : Db) (e : AppException) (p q : TokenResponse)
      → ◌≡◌ {A = Db × Result TokenResponse} (if b then (x, err e) else (y, ok p)) (z, ok q)
      → (b ≡ false) × (y ≡ z)
  if_err_else_ok true x y z e p q h = absurd (cc (ap (λ (r : Db × Result TokenResponse). r.1) h))
  if_err_else_ok false x y z e p q h = (refl, ap (λ (r : Db × Result TokenResponse). r.0) h)

  renew-ok :
      (o : Option User) (family : String) (ids : Ids) (db db' : Db) (pair : TokenResponse)
      → renew R jwt settings now o family ids db ≡ (db', ok pair)
      → (user : User) × (o ≡ some user)
        × (user.is_active ≡ true)
        × (db' ≡ register R ttl ids.refresh_jti user.id family db)
  unfolding renew issue issue_refresh
  renew-ok none family ids db db' pair h = cc (ap (λ (r : Db × Result TokenResponse). r.1) h)
  renew-ok (some user) family ids db db' pair h =
      let (inactive, same) = if_err_else_ok (not user.is_active) _ _ _ _ _ _ h in
      (user, refl, ground arith, sym same)

  -- from the reply of `consume`
  after_consume-ok :
      (get_by_id : String → Option User) (c : Claims) (ids : Ids) (o : Option Stored) (db db' : Db)
      (pair : TokenResponse)
      → after_consume R jwt settings now get_by_id c ids o db ≡ (db', ok pair)
      → (found : Stored) × (user : User) × (o ≡ some found)
        × (revoked (family_of c) db ≡ false)
        × (get_by_id c.sub ≡ some user)
        × (user.is_active ≡ true)
        × (db' ≡ register R ttl ids.refresh_jti user.id (family_of c) db)
  unfolding after_consume
  after_consume-ok get_by_id c ids none db db' pair h =
      cc (ap (λ (r : Db × Result TokenResponse). r.1) h)
  after_consume-ok get_by_id c ids (some found) db db' pair h =
      elim (Bool-cases (revoked (family_of c) db)) [
        | inl dead ↦
            absurd (let e = rw dead at h in cc (ap (λ (r : Db × Result TokenResponse). r.1) e))
        | inr live ↦
            let (user, known, act, written) =
              renew-ok (get_by_id c.sub) (family_of c) ids db db' pair (rw live at h) in
            (found, user, refl, live, known, act, written)
      ]

  rotate_claims-ok :
      (get_by_id : String → Option User) (token : String) (r : Result Claims) (ids : Ids)
      (db db' : Db) (pair : TokenResponse)
      → decode jwt settings token refresh now ≡ r
      → rotate_claims R jwt settings now get_by_id r ids db ≡ (db', ok pair)
      → IsRotated get_by_id token ids db db'
  unfolding rotate_claims
  rotate_claims-ok get_by_id token (err e) ids db db' pair d h =
      absurd (cc (ap (λ (r : Db × Result TokenResponse). r.1) h))
  rotate_claims-ok get_by_id token (ok c) ids db db' pair d h =
      let (found, user, o, live, known, act, written) =
        after_consume-ok get_by_id c ids _ _ db' pair h in
      record {
        claims = c;
        user = user;
        found = found;
        decoded = d;
        registered = sym (consume-reply R ttl pos c.jti db) ∙ o;
        live = sym (revoked-consume R ttl pos c.jti (family_of c) db) ∙ live;
        known = known;
        active = act;
        written = written;
      }

  -- A rotation that returns tokens has decoded the token as a refresh token, found its jti
  -- registered and its family not revoked, and found the user active; and the database that it
  -- leaves is the one before it with the old jti consumed and the new one registered in the
  -- same family. The lifetime of refresh tokens is positive.
  pub rotate-IsRotated :
      (get_by_id : String → Option User) (token : String) (ids : Ids) (db db' : Db)
      (pair : TokenResponse)
      → rotate R jwt settings now get_by_id token ids db ≡ (db', ok pair)
      → IsRotated get_by_id token ids db db'
  unfolding rotate
  rotate-IsRotated get_by_id token ids db db' pair h =
      rotate_claims-ok get_by_id token _ ids db db' pair refl h

  reused_claims :
      (get_by_id : String → Option User) (c : Claims) (ids : Ids) (db : Db)
      → R.get (token_key c.jti) db ≡ none
      → rotate_claims R jwt settings now get_by_id (ok c) ids db
        ≡ (revoke_family R ttl (family_of c) (consume R ttl c.jti db).1, err invalid_token)
  unfolding rotate_claims after_consume
  reused_claims get_by_id c ids db h = rw (consume-reply R ttl pos c.jti db ∙ h, after_consume)

  -- A valid refresh token whose jti is not registered (it was used before) is refused, and its
  -- whole family is revoked.
  pub rotate_reused :
      (get_by_id : String → Option User) (token : String) (c : Claims) (ids : Ids) (db : Db)
      → decode jwt settings token refresh now ≡ ok c
      → R.get (token_key c.jti) db ≡ none
      → ((rotate R jwt settings now get_by_id token ids db).1 ≡ err invalid_token)
        × (is_family_revoked R
              (refresh_ttl jwt settings)
              (family_of c)
              (rotate R jwt settings now get_by_id token ids db).0
            ≡ true)
  unfolding rotate
  rotate_reused get_by_id token c ids db d h = rw d (
      rw (reused_claims get_by_id c ids db h)
        (refl, revoked-revoke_family R ttl pos (family_of c) (family_of c) _ ∙ simp eq_refl))

  revoked_claims :
      (get_by_id : String → Option User) (c : Claims) (ids : Ids) (o : Option Stored) (db : Db)
      → revoked (family_of c) db ≡ true
      → ((after_consume R jwt settings now get_by_id c ids o db).1 ≡ err invalid_token)
        × ((j : String)
            → R.get (token_key j) (after_consume R jwt settings now get_by_id c ids o db).0
              ≡ R.get (token_key j) db)
  unfolding after_consume
  revoked_claims get_by_id c ids none db h =
      (refl, λ j. token-revoke_family R ttl pos (family_of c) j db)
  revoked_claims get_by_id c ids (some found) db h = rw h (refl, λ j. refl)

  -- A token of a revoked family is refused, and no token is registered.
  pub rotate_revoked :
      (get_by_id : String → Option User) (token : String) (c : Claims) (ids : Ids) (db : Db)
      → decode jwt settings token refresh now ≡ ok c
      → is_family_revoked R (refresh_ttl jwt settings) (family_of c) db ≡ true
      → ((rotate R jwt settings now get_by_id token ids db).1 ≡ err invalid_token)
        × ((j : String)
            → R.get (token_key j) (rotate R jwt settings now get_by_id token ids db).0
              ≡ (if c.jti == j then none else R.get (token_key j) db))
  unfolding rotate rotate_claims
  rotate_revoked get_by_id token c ids db d h =
      let (refused, kept) =
        revoked_claims get_by_id c ids (consume R ttl c.jti db).0 (consume R ttl c.jti db).1
          (revoked-consume R ttl pos c.jti (family_of c) db ∙ h) in
      rw (d, rotate_claims) (refused, λ j. kept j ∙ token-consume R ttl pos c.jti j db)

  after_consume-live :
      (get_by_id : String → Option User) (c : Claims) (ids : Ids) (o : Option Stored)
      (found : Stored) (user : User) (db : Db)
      → o ≡ some found
      → revoked (family_of c) db ≡ false
      → get_by_id c.sub ≡ some user
      → user.is_active ≡ true
      → after_consume R jwt settings now get_by_id c ids o db ≡ (
        (issue R jwt settings now user (family_of c) ids db).0,
        ok (issue R jwt settings now user (family_of c) ids db).1,
      )
  unfolding after_consume renew
  after_consume-live get_by_id c ids o found user db there live known active =
      rw (there, live, known, active) refl

  -- The other way round: a registered token of a live family and an active user is rotated.
  pub rotate_live :
      (get_by_id : String → Option User) (token : String) (c : Claims) (ids : Ids) (found : Stored)
      (user : User) (db : Db)
      → decode jwt settings token refresh now ≡ ok c
      → R.get (token_key c.jti) db ≡ some found
      → revoked (family_of c) db ≡ false
      → get_by_id c.sub ≡ some user
      → user.is_active ≡ true
      → rotate R jwt settings now get_by_id token ids db ≡ (
        (issue R jwt settings now user (family_of c) ids (consume R ttl c.jti db).1).0,
        ok (issue R jwt settings now user (family_of c) ids (consume R ttl c.jti db).1).1,
      )
  unfolding rotate rotate_claims
  rotate_live get_by_id token c ids found user db d there live known active =
      rw (d, rotate_claims)
        (after_consume-live get_by_id c ids (consume R ttl c.jti db).0 found user
          (consume R ttl c.jti db).1 (consume-reply R ttl pos c.jti db ∙ there)
          (revoked-consume R ttl pos c.jti (family_of c) db ∙ live) known active)
