-- ===== src/Tokens.antt =====
-- app/core/security/tokens.py: JWT access and refresh tokens. PyJWT is a parameter; the values
-- that the code takes from the clock and from uuid4 are arguments.
pub mod RoundTrip
pub mod Written
use fastapi_project_structur.Common.{
  ℕ, ◌+◌, ◌*◌, ◌≤◌, ◌<◌, String, ◌≡◌, Bool, true, false, ◌&&◌, Option, none, some, ◌==◌,
  if◌then◌else◌,
}
use fastapi_project_structur.Json.{Json, text, flag, is_text, is_flag, equals_text}
use fastapi_project_structur.Exceptions.{AppException, invalid_token, Result, ok, err}

pub data TokenType : Type 0 where
  access refresh : TokenType

abbrev pub type_name : TokenType → String
type_name access = "access"
type_name refresh = "refresh"

-- The claims in a token: the required ones (`_REQUIRED_CLAIMS`, which PyJWT enforces), and those
-- of one type, which may be absent. Times are seconds.
pub record Claims : Type 0 where
  pub sub : String
  pub kind : Json
  pub iat : ℕ
  pub nbf : ℕ
  pub exp : ℕ
  pub jti : String
  pub iss : String
  pub aud : String
  pub username : Option Json
  pub su : Option Json
  pub fam : Option Json

-- PyJWT: `none` stands for any `jwt.InvalidTokenError`. The laws are its documented behaviour: a
-- token decodes to the claims that were signed into it, never to others; the audience and the
-- issuer are those asked for; nbf, iat and exp are checked with the leeway.
pub record Jwt : Type 0 where
  pub encode : Claims → String → String → String
  pub decode : (token secret algorithm audience issuer : String) (leeway now : ℕ) → Option Claims
  pub decode-encode :
      (c : Claims) (secret algorithm : String) (leeway now : ℕ)
      → c.iat ≤ now + leeway
      → c.nbf ≤ now + leeway
      → now < c.exp + leeway
      → decode (encode c secret algorithm) secret algorithm c.aud c.iss leeway now ≡ some c
  pub decode_payload :
      (c c' : Claims) (secret algorithm secret' algorithm' audience issuer : String)
      (leeway now : ℕ)
      → decode (encode c secret algorithm) secret' algorithm' audience issuer leeway now ≡ some c'
      → c ≡ c'
  pub decode_valid :
      (token secret algorithm audience issuer : String) (leeway now : ℕ) (c : Claims)
      → decode token secret algorithm audience issuer leeway now ≡ some c
      → (now < c.exp + leeway) × (c.nbf ≤ now + leeway) × (c.aud ≡ audience) × (c.iss ≡ issuer)

-- The fields of JWTSettings that the service reads.
pub record JwtSettings : Type 0 where
  pub access_token_secret_key : String
  pub refresh_token_secret_key : String
  pub jwt_algorithm : String
  pub jwt_issuer : String
  pub jwt_audience : String
  pub jwt_leeway_seconds : ℕ
  pub access_token_expire_minutes : ℕ
  pub refresh_token_expire_days : ℕ

-- `_TYPE_CLAIMS`: the further claims of each type, with their Python types
pub type_claims : TokenType → Claims → Bool
type_claims access c = is_text c.username && is_flag c.su
type_claims refresh c = is_text c.fam

module _ (jwt : Jwt) (settings : JwtSettings) where
  unfoldable pub access_ttl : ℕ
  access_ttl = settings.access_token_expire_minutes * 60

  unfoldable pub refresh_ttl : ℕ
  refresh_ttl = settings.refresh_token_expire_days * 86400

  pub secret : TokenType → String
  secret access = settings.access_token_secret_key
  secret refresh = settings.refresh_token_secret_key

  -- The payload of `_encode`, before PyJWT signs it.
  unfoldable pub payload :
      String → TokenType → ℕ → (username su fam : Option Json) → (now : ℕ) → (jti : String) → Claims
  payload sub kind ttl username su fam now jti = record {
    sub = sub;
    kind = text (type_name kind);
    iat = now;
    nbf = now;
    exp = now + ttl;
    jti = jti;
    iss = settings.jwt_issuer;
    aud = settings.jwt_audience;
    username = username;
    su = su;
    fam = fam;
  }

  pub sign : TokenType → Claims → String
  sign kind c = jwt.encode c (secret kind) settings.jwt_algorithm

  unfoldable pub issue_access : (sub username : String) → Bool → (now : ℕ) → (jti : String) → String
  issue_access sub username is_superuser now jti =
      sign access (
        payload sub access access_ttl (some (text username)) (some (flag is_superuser)) none now
          jti)

  unfoldable pub issue_refresh :
      (sub family : String) → (now : ℕ) → (jti : String) → String × String
  issue_refresh sub family now jti =
      (sign refresh (payload sub refresh refresh_ttl none none (some (text family)) now jti), jti)

  -- The check after `jwt.decode` has returned.
  pub accept : TokenType → Option Claims → Result Claims
  accept expected none = err invalid_token
  accept expected (some c) =
      if equals_text c.kind (type_name expected) && type_claims expected c
      then ok c
      else err invalid_token

  pub decode : String → TokenType → ℕ → Result Claims
  decode token expected now = accept expected (
      jwt.decode token (secret expected) settings.jwt_algorithm settings.jwt_audience
        settings.jwt_issuer settings.jwt_leeway_seconds now)
