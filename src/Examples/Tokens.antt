-- ===== src/Examples/Tokens.antt =====
-- Examples of app/core/security: settings, tokens and users.
use fastapi_project_structur.Common.{ℕ, ◌+◌, ◌<◌, ◌≡◌, true, false, none, some, arith}
use fastapi_project_structur.Json.{text, flag}
use fastapi_project_structur.Exceptions.{ok, err, invalid_token}
use fastapi_project_structur.Tokens.{
  access, refresh, JwtSettings, access_ttl, refresh_ttl, payload, issue_access, issue_refresh,
  decode,
}
use fastapi_project_structur.Tokens.RoundTrip.{
  decode-issue_access, decode-issue_refresh, kinds_not_confused,
}
use fastapi_project_structur.Tokens.Written.{written}

abbrev pub settings : JwtSettings
settings = record {
  access_token_secret_key = "access key";
  refresh_token_secret_key = "refresh key";
  jwt_algorithm = "HS256";
  jwt_issuer = "fastapi";
  jwt_audience = "clients";
  jwt_leeway_seconds = 5;
  access_token_expire_minutes = 15;
  refresh_token_expire_days = 7;
}

access_lives : 20 < 10 + access_ttl written settings + 5
unfolding access_ttl
access_lives = omega arith

pub refresh_lives : (now : ℕ) → now < 100 → now < 10 + refresh_ttl written settings + 5
unfolding refresh_ttl
refresh_lives now h = omega (arith, h)

pub refresh_positive : 0 < refresh_ttl written settings
unfolding refresh_ttl
refresh_positive = omega arith

decode-issue_access_example :
    decode written settings (issue_access written settings "1" "ann" false 10 "j") access 20
    ≡ ok (
        payload written settings "1" access
          (access_ttl written settings)
          (some (text "ann"))
          (some (flag false))
          none
          10
          "j")
decode-issue_access_example =
    decode-issue_access written settings "1" "ann" false 10 20 "j" (omega arith) access_lives

decode-issue_refresh_example :
    decode written settings (issue_refresh written settings "1" "f" 10 "j").0 refresh 20
    ≡ ok (
        payload written settings "1" refresh
          (refresh_ttl written settings)
          none
          none
          (some (text "f"))
          10
          "j")
decode-issue_refresh_example =
    decode-issue_refresh written settings "1" "f" 10 20 "j" (omega arith)
      (refresh_lives 20 (omega arith))

kinds_not_confused_example :
    (decode written settings (issue_refresh written settings "1" "f" 10 "j").0 access 20
      ≡ err invalid_token)
    × (decode written settings (issue_access written settings "1" "ann" true 10 "j") refresh 20
        ≡ err invalid_token)
kinds_not_confused_example = kinds_not_confused written settings "1" "ann" "f" true 10 20 "j"
