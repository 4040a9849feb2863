-- ===== src/Examples/Auth.antt =====
-- Examples of app/features/auth: credentials, rotation and reuse.
use fastapi_project_structur.Common.{
  ℕ, ◌<◌, ◌+◌, String, ◌≡◌, refl, true, false, Option, none, some, List, [], ◌∷◌, arith,
}
use fastapi_project_structur.Json.{text}
use fastapi_project_structur.Exceptions.{ok, err, invalid_token}
use fastapi_project_structur.Redis.{Redis}
use fastapi_project_structur.Redis.Memory.{Tables, empty, memory}
use fastapi_project_structur.Stored.{Stored, refresh_record}
use fastapi_project_structur.Tokens.{refresh, Claims, refresh_ttl, payload, issue_refresh, decode}
use fastapi_project_structur.Tokens.RoundTrip.{decode-issue_refresh}
use fastapi_project_structur.Tokens.Written.{written}
use fastapi_project_structur.RefreshStore.{token_key, register, consume, is_family_revoked}
use fastapi_project_structur.RefreshStore.Effects.{token-register, revoked-register}
use fastapi_project_structur.AuthService.{User, TokenResponse, Ids, issue, rotate}
use fastapi_project_structur.AuthService.Rotation.{IsRotated, rotate-IsRotated, rotate_live}
use fastapi_project_structur.AuthService.History.{Event, elapsed, login, run, replay_ends_family}
use fastapi_project_structur.Examples.Tokens.{settings, refresh_lives, refresh_positive}

abbrev pub ann : User
ann = record {
  id = "1";
  username = "ann";
  email = "ann@example.com";
  hashed_password = some "secret hash";
  is_active = true;
  is_superuser = false;
}

abbrev users : String → Option User
users id = some ann

abbrev ids : Ids
ids = record { access_jti = "a2"; refresh_jti = "j2" }

abbrev ttl : ℕ
ttl = refresh_ttl written settings

abbrev R : Redis Stored
R = memory Stored

-- ann has logged in, with the family f and the refresh token j1.
abbrev db : Tables Stored
db = register R ttl "j1" "1" "f" empty

abbrev token : String
token = (issue_refresh written settings "1" "f" 10 "j1").0

abbrev claims : Claims
claims = payload written settings "1" refresh ttl none none (some (text "f")) 10 "j1"

decoded : (now : ℕ) → 10 < now → now < 100 → decode written settings token refresh now ≡ ok claims
decoded now h k =
    decode-issue_refresh written settings "1" "f" 10 now "j1" (omega (arith, h))
      (refresh_lives now k)

registered : R.get (token_key "j1") db ≡ some (refresh_record (record { fam = "f"; sub = "1" }))
registered = token-register R ttl refresh_positive "j1" "1" "f" "j1" empty

live : is_family_revoked R ttl "f" db ≡ false
unfolding is_family_revoked
live = revoked-register R ttl refresh_positive "j1" "1" "f" "f" empty

abbrev first : Tables Stored × TokenResponse
first = issue R written settings 20 ann "f" ids (consume R ttl "j1" db).1

rotated : rotate R written settings 20 users token ids db ≡ (first.0, ok first.1)
unfolding payload
rotated =
    rotate_live R written settings refresh_positive 20 users token claims ids _ ann db
      (decoded 20 (omega arith) (omega arith)) registered live refl refl

rotate-IsRotated_example :
    IsRotated R written settings refresh_positive 20 users token ids db first.0
rotate-IsRotated_example =
    rotate-IsRotated R written settings refresh_positive 20 users token ids db first.0 first.1
      rotated

-- the pair of the first rotation
abbrev second : String
second = (issue_refresh written settings "1" "f" 20 "j2").0

abbrev second_claims : Claims
second_claims = payload written settings "1" refresh ttl none none (some (text "f")) 20 "j2"

later_lives : 40 < 20 + ttl + 5
unfolding refresh_ttl
later_lives = omega arith

second_decoded : decode written settings second refresh 40 ≡ ok second_claims
second_decoded =
    decode-issue_refresh written settings "1" "f" 20 40 "j2" (omega arith) (later_lives)

-- After the rotation, ann logs in elsewhere and some time goes by; then the used token is
-- presented again, and at last the token of the first rotation.
abbrev meanwhile : List Event
meanwhile = login 25 ann "g" (record { access_jti = "a3"; refresh_jti = "j3" }) ∷ elapsed 3 ∷ []

replay_ends_family_example :
    ((rotate R written settings 30 users token ids (run R written settings meanwhile first.0)).1
      ≡ err invalid_token)
    × ((rotate R written settings 40 users second ids (
          run R written settings []
            (rotate R written settings 30 users token ids
              (run R written settings meanwhile first.0)).0)).1
        ≡ err invalid_token)
unfolding payload
replay_ends_family_example =
    replay_ends_family R written settings refresh_positive 20 30 40 users users users token second
      claims second_claims ids ids ids first.1 meanwhile [] db first.0
      (decoded 20 (omega arith) (omega arith)) (decoded 30 (omega arith) (omega arith))
      second_decoded refl rotated (refl, (refl, (tt, tt))) tt
