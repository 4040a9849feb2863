-- ===== src/AuthService/History.antt =====
-- Any sequence of the requests that reach the refresh store (app/features/auth, app/core/security)
-- and of delays.
use fastapi_project_structur.Common.{
  ℕ, ◌<◌, String, ◌≡◌, refl, sym, ◌∙◌, Bool, true, false, ◌||◌, Option, none, some, List, [], ◌∷◌,
  arith, ◌==◌, eq_refl, All, if◌then◌else◌,
}
use fastapi_project_structur.Exceptions.{invalid_token, Result, ok, err}
use fastapi_project_structur.Redis.{survives, Redis}
use fastapi_project_structur.Stored.{Stored}
use fastapi_project_structur.Tokens.{
  refresh, Claims, Jwt, JwtSettings, refresh_ttl, issue_refresh, decode,
}
use fastapi_project_structur.RefreshStore.{
  token_key, register, consume, revoke_family, revoke_user, is_family_revoked,
}
use fastapi_project_structur.RefreshStore.Effects.{
  revoked-register, revoked-consume, revoked-revoke_family, revoked-revoke_user, token-register,
  token-consume, token-revoke_family, token-revoke_user,
}
use fastapi_project_structur.AuthService.{
  User, TokenResponse, Ids, family_of, issue, issue_tokens, renew, after_consume, rotate_claims,
  rotate, logout_claims, logout,
}
use fastapi_project_structur.AuthService.Rotation.{rotate-IsRotated, rotate_reused, rotate_revoked}

-- A request that reaches the store, with the time and the random values that it takes.
pub data Event : Type 0 where
  login : ℕ → User → (family : String) → Ids → Event
  rotation : ℕ → (String → Option User) → (refresh_token : String) → Ids → Event
  logged_out : ℕ → (refresh_token : String) → Event
  access_revoked : (user_id : String) → Event
  -- that many seconds go by, and keys expire
  elapsed : ℕ → Event

or_true : (a : Bool) {b : Bool} → b ≡ true → (a || b) ≡ true
or_true a h = ground arith

none_if {ℓ} : {A : Type ℓ} (b : Bool) {o : Option A} → o ≡ none → (if b then none else o) ≡ none
none_if true h = refl
none_if false h = h

ok_injective {ℓ} : {A : Type ℓ} {a b : A} → ok a ≡ ok b → a ≡ b
ok_injective h = cc

if_none {ℓ} : {A : Type ℓ} (b : Bool) {o : Option A} → o ≡ none → (if b then o else none) ≡ none
if_none true h = h
if_none false h = refl

-- The jti that the event may register satisfies P, and the time that it takes T.
abbrev pub Allows : (String → Type 0) → (ℕ → Type 0) → Event → Type 0
Allows P T (login now user family ids) = P ids.refresh_jti
Allows P T (rotation now users token ids) = P ids.refresh_jti
Allows P T (elapsed n) = T n
Allows P T _ = Unit

-- The event registers no token under this jti: uuid4 does not repeat a value.
abbrev pub IsFresh : String → Event → Type 0
IsFresh jti = Allows (λ other. (other == jti) ≡ false) (λ n. Unit)

-- The event lets no key expire.
abbrev pub IsInstant : Event → Type 0
IsInstant = Allows (λ jti. Unit) (λ n. ⊥)

module _ (R : Redis Stored) (jwt : Jwt) (settings : JwtSettings) where
  open R use {Db}

  pub step : Event → Db → Db
  step (login now user family ids) db = (issue_tokens R jwt settings now user family ids db).0
  step (rotation now users token ids) db = (rotate R jwt settings now users token ids db).0
  step (logged_out now token) db = (logout R jwt settings now token db).0
  step (access_revoked user_id) db = revoke_user R (refresh_ttl jwt settings) user_id db
  step (elapsed n) db = R.pass n db

  pub run : List Event → Db → Db
  run [] db = db
  run (e ∷ es) db = run es (step e db)

  abbrev ttl : ℕ
  ttl = refresh_ttl jwt settings

  -- What the four operations of the store keep, every event keeps.
  module _ (P : Db → Type 0) (Q : String → Type 0) (T : ℕ → Type 0)
      (on_register : (jti sub fam : String) (db : Db)
        → Q jti
        → P db
        → P (register R ttl jti sub fam db))
      (on_consume : (jti : String) (db : Db) → P db → P (consume R ttl jti db).1)
      (on_revoke_family : (fam : String) (db : Db) → P db → P (revoke_family R ttl fam db))
      (on_revoke_user : (sub : String) (db : Db) → P db → P (revoke_user R ttl sub db))
      (on_pass : (n : ℕ) (db : Db) → T n → P db → P (R.pass n db)) where
    keeps_if :
        (b : Bool) (r r' : Db × Result TokenResponse) → P r.0 → P r'.0 → P (if b then r else r').0
    keeps_if true r r' h h' = h
    keeps_if false r r' h h' = h'

    keeps-issue :
        (now : ℕ) (user : User) (fam : String) (ids : Ids) (db : Db)
        → Q ids.refresh_jti
        → P db
        → P (issue R jwt settings now user fam ids db).0
    unfolding issue issue_refresh
    keeps-issue now user fam ids db q h = on_register _ _ _ db q h

    keeps-renew :
        (now : ℕ) (o : Option User) (fam : String) (ids : Ids) (db : Db)
        → Q ids.refresh_jti
        → P db
        → P (renew R jwt settings now o fam ids db).0
    unfolding renew
    keeps-renew now none fam ids db q h = on_revoke_family fam db h
    keeps-renew now (some user) fam ids db q h =
        keeps_if _ _ _ (on_revoke_family fam db h) (keeps-issue now user fam ids db q h)

    keeps-after_consume :
        (now : ℕ) (users : String → Option User) (c : Claims) (ids : Ids) (o : Option Stored)
        (db : Db)
        → Q ids.refresh_jti
        → P db
        → P (after_consume R jwt settings now users c ids o db).0
    unfolding after_consume
    keeps-after_consume now users c ids none db q h = on_revoke_family _ db h
    keeps-after_consume now users c ids (some found) db q h =
        keeps_if _ _ _ h (keeps-renew now (users c.sub) (family_of c) ids db q h)

    keeps-rotate_claims :
        (now : ℕ) (users : String → Option User) (r : Result Claims) (ids : Ids) (db : Db)
        → Q ids.refresh_jti
        → P db
        → P (rotate_claims R jwt settings now users r ids db).0
    unfolding rotate_claims
    keeps-rotate_claims now users (err e) ids db q h = h
    keeps-rotate_claims now users (ok c) ids db q h =
        keeps-after_consume now users c ids _ _ q (on_consume c.jti db h)

    keeps-logout_claims :
        (now : ℕ) (r : Result Claims) (db : Db) → P db → P (logout_claims R jwt settings now r db).0
    unfolding logout_claims
    keeps-logout_claims now (err e) db h = h
    keeps-logout_claims now (ok c) db h = on_revoke_family _ db h

    keeps-step : (e : Event) (db : Db) → Allows Q T e → P db → P (step e db)
    unfolding step issue_tokens rotate logout
    keeps-step (login now user family ids) db q h = keeps-issue now user family ids db q h
    keeps-step (rotation now users token ids) db q h = keeps-rotate_claims now users _ ids db q h
    keeps-step (logged_out now token) db q h = keeps-logout_claims now _ db h
    keeps-step (access_revoked user_id) db q h = on_revoke_user user_id db h
    keeps-step (elapsed n) db q h = on_pass n db q h

    keeps-run : (es : List Event) (db : Db) → All (Allows Q T) es → P db → P (run es db)
    unfolding run
    keeps-run [] db q h = h
    keeps-run (e ∷ es) db (q, qs) h = keeps-run es (step e db) qs (keeps-step e db q h)

module _ (R : Redis Stored) (jwt : Jwt) (settings : JwtSettings)
    (pos : 0 < refresh_ttl jwt settings) where
  open R use {Db}

  -- A family that was revoked stays revoked, whatever requests follow.
  pub revoked-run :
      (f : String) (es : List Event) (db : Db)
      → All IsInstant es
      → is_family_revoked R (refresh_ttl jwt settings) f db ≡ true
      → is_family_revoked R (refresh_ttl jwt settings) f (run R jwt settings es db) ≡ true
  revoked-run f es db instant h =
      keeps-run R jwt settings (λ db. is_family_revoked R (refresh_ttl jwt settings) f db ≡ true)
        (λ jti. Unit) (λ n. ⊥) (λ jti sub fam db q p. revoked-register R _ pos jti sub fam f db ∙ p)
        (λ jti db p. revoked-consume R _ pos jti f db ∙ p)
        (λ fam db p. revoked-revoke_family R _ pos fam f db ∙ or_true (fam == f) p)
        (λ sub db p. revoked-revoke_user R _ pos sub f db ∙ or_true _ p) (λ n db t p. absurd t) es
        db instant h

  -- A jti that is not registered stays so, as long as uuid4 does not yield it again.
  pub absent-run :
      (jti : String) (es : List Event) (db : Db)
      → All (IsFresh jti) es
      → R.get (token_key jti) db ≡ none
      → R.get (token_key jti) (run R jwt settings es db) ≡ none
  absent-run jti es db fresh h =
      keeps-run R jwt settings (λ db. R.get (token_key jti) db ≡ none)
        (λ other. (other == jti) ≡ false) (λ n. Unit)
        (λ other sub fam db q p. token-register R _ pos other sub fam jti db ∙ rw q p)
        (λ other db p. token-consume R _ pos other jti db ∙ none_if (other == jti) p)
        (λ fam db p. token-revoke_family R _ pos fam jti db ∙ p)
        (λ sub db p. token-revoke_user R _ pos sub jti db ∙ p)
        (λ n db t p.
          R.get-pass n (token_key jti) db ∙ if_none (survives n (R.ttl (token_key jti) db)) p)
        es db fresh h

  absent_after_rotation :
      (now : ℕ) (users : String → Option User) (token : String) (c : Claims) (ids : Ids)
      (db db' : Db) (pair : TokenResponse)
      → decode jwt settings token refresh now ≡ ok c
      → rotate R jwt settings now users token ids db ≡ (db', ok pair)
      → (ids.refresh_jti == c.jti) ≡ false
      → R.get (token_key c.jti) db' ≡ none
  absent_after_rotation now users token c ids db db' pair valid rotated fresh =
      let r = rotate-IsRotated R jwt settings pos now users token ids db db' pair rotated in
      let same : r.claims ≡ c = ok_injective (sym r.decoded ∙ valid) in
      rw (r.written, same)
        (token-register R _ pos ids.refresh_jti r.user.id (family_of c) c.jti _
          ∙ rw fresh (token-consume R _ pos c.jti c.jti db ∙ simp eq_refl))

  -- If a refresh token was rotated once, and any logins, rotations, logouts, revocations and
  -- delays follow in which uuid4 does not repeat the token's jti, then presenting the token
  -- again while it still decodes is refused with InvalidToken; and after any further requests,
  -- no key expiring meanwhile, every valid refresh token of the same family is refused too.
  -- The lifetime of refresh tokens is positive.
  pub replay_ends_family :
      (now later latest : ℕ) (users users' users'' : String → Option User) (token other : String)
      (c c' : Claims) (ids ids' ids'' : Ids) (pair : TokenResponse) (es es' : List Event)
      (db db' : Db)
      → decode jwt settings token refresh now ≡ ok c
      → decode jwt settings token refresh later ≡ ok c
      → decode jwt settings other refresh latest ≡ ok c'
      → family_of c' ≡ family_of c
      → rotate R jwt settings now users token ids db ≡ (db', ok pair)
      → All (IsFresh c.jti) (rotation now users token ids ∷ es)
      → All IsInstant es'
      → ((rotate R jwt settings later users' token ids' (run R jwt settings es db')).1
          ≡ err invalid_token)
        × ((rotate R jwt settings latest users'' other ids'' (
              run R jwt settings es'
                (rotate R jwt settings later users' token ids' (run R jwt settings es db')).0)).1
            ≡ err invalid_token)
  replay_ends_family now later latest users users' users'' token other c c' ids ids' ids'' pair es
        es' db db' valid still_valid other_valid same_family rotated (fresh, all_fresh) instant =
      let consumed = absent_after_rotation now users token c ids db db' pair valid rotated fresh in
      let (refused, dead) =
        rotate_reused R jwt settings pos later users' token c ids' (run R jwt settings es db')
          still_valid (absent-run c.jti es db' all_fresh consumed) in
      let still_dead = revoked-run (family_of c) es' _ instant dead in
      (
        refused,
        (rotate_revoked R jwt settings pos latest users'' other c' ids'' _ other_valid
            (rw same_family still_dead)).0,
      )
