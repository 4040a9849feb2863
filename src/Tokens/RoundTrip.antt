-- ===== src/Tokens/RoundTrip.antt =====
-- What a token that TokenService issues decodes to, and as which type.
use fastapi_project_structur.Common.{
  ℕ, ◌+◌, ◌≤◌, ◌<◌, String, ◌≡◌, refl, ap, Bool, Option, none, some,
}
use fastapi_project_structur.Exceptions.{invalid_token, ok, err}
use fastapi_project_structur.Json.{text, flag}
use fastapi_project_structur.Tokens.{
  TokenType, access, refresh, Claims, Jwt, JwtSettings, type_claims, access_ttl, refresh_ttl,
  payload, sign, issue_access, issue_refresh, accept, decode,
}

module _ (jwt : Jwt) (settings : JwtSettings) where
  -- An access token decodes, as an access token, to the claims that were put into it, from its
  -- time of issue until it expires, the leeway allowed on both ends.
  pub decode-issue_access :
      (sub username : String) (is_superuser : Bool) (issued now : ℕ) (jti : String)
      → issued ≤ now + settings.jwt_leeway_seconds
      → now < issued + access_ttl jwt settings + settings.jwt_leeway_seconds
      → decode jwt settings
          (issue_access jwt settings sub username is_superuser issued jti)
          access
          now
        ≡ ok (
            payload jwt settings sub access
              (access_ttl jwt settings)
              (some (text username))
              (some (flag is_superuser))
              none
              issued
              jti)
  unfolding decode issue_access sign payload accept type_claims
  decode-issue_access sub username is_superuser issued now jti h k =
      ap (accept jwt settings access) (jwt.decode-encode _ _ _ _ now h h k)

  -- A refresh token decodes, as a refresh token, to the claims that were put into it, from its
  -- time of issue until it expires, the leeway allowed on both ends.
  pub decode-issue_refresh :
      (sub family : String) (issued now : ℕ) (jti : String)
      → issued ≤ now + settings.jwt_leeway_seconds
      → now < issued + refresh_ttl jwt settings + settings.jwt_leeway_seconds
      → decode jwt settings (issue_refresh jwt settings sub family issued jti).0 refresh now
        ≡ ok (
            payload jwt settings sub refresh
              (refresh_ttl jwt settings)
              none
              none
              (some (text family))
              issued
              jti)
  unfolding decode issue_refresh sign payload accept type_claims
  decode-issue_refresh sub family issued now jti h k =
      ap (accept jwt settings refresh) (jwt.decode-encode _ _ _ _ now h h k)

  accept-payload :
      (expected : TokenType) (o : Option Claims) (c : Claims)
      → ((c' : Claims) → o ≡ some c' → c ≡ c')
      → accept jwt settings expected (some c) ≡ err invalid_token
      → accept jwt settings expected o ≡ err invalid_token
  unfolding accept
  accept-payload expected none c same h = refl
  accept-payload expected (some c') c same h = rw (same c' refl) at h

  -- A refresh token is never accepted as an access token, at any time and even under equal
  -- signing keys.
  refresh_as_access :
      (sub family : String) (issued now : ℕ) (jti : String)
      → decode jwt settings (issue_refresh jwt settings sub family issued jti).0 access now
        ≡ err invalid_token
  unfolding decode issue_refresh sign
  refresh_as_access sub family issued now jti =
      accept-payload access _ _ (λ c' e. jwt.decode_payload _ c' _ _ _ _ _ _ _ _ e)
        (unfold accept payload in refl)

  -- An access token is never accepted as a refresh token, at any time and even under equal
  -- signing keys.
  access_as_refresh :
      (sub username : String) (is_superuser : Bool) (issued now : ℕ) (jti : String)
      → decode jwt settings
          (issue_access jwt settings sub username is_superuser issued jti)
          refresh
          now
        ≡ err invalid_token
  unfolding decode issue_access sign
  access_as_refresh sub username is_superuser issued now jti =
      accept-payload refresh _ _ (λ c' e. jwt.decode_payload _ c' _ _ _ _ _ _ _ _ e)
        (unfold accept payload in refl)

  -- A refresh token is never accepted as an access token, nor an access token as a refresh
  -- token, at any time and even under equal signing keys.
  pub kinds_not_confused :
      (sub username family : String) (is_superuser : Bool) (issued now : ℕ) (jti : String)
      → (decode jwt settings (issue_refresh jwt settings sub family issued jti).0 access now
          ≡ err invalid_token)
        × (decode jwt settings
              (issue_access jwt settings sub username is_superuser issued jti)
              refresh
              now
            ≡ err invalid_token)
  kinds_not_confused sub username family is_superuser issued now jti = (
    refresh_as_access sub family issued now jti,
    access_as_refresh sub username is_superuser issued now jti,
  )
