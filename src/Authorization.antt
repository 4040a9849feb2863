-- ===== src/Authorization.antt =====
-- app/core/security/authorization.py and dependencies.py: the principal that an access token
-- names, and who may change what.
use fastapi_project_structur.Common.{
  ℕ, String, Bool, false, not, Option, none, some, ◌==◌, if◌then◌else◌,
}
use fastapi_project_structur.Exceptions.{unauthorized, forbidden, Result, ok, err, and_then}
use fastapi_project_structur.Json.{Json, text, flag}
use fastapi_project_structur.Tokens.{access, Claims, Jwt, JwtSettings, decode}

pub record Principal : Type 0 where
  pub id : String
  pub username : String
  pub is_superuser : Bool

-- OwnershipPolicy.ensure_can_modify
unfoldable pub ensure_can_modify : Option String → Principal → Result (Unit {0})
ensure_can_modify owner_id principal = if principal.is_superuser then ok tt else elim owner_id [
  | none ↦ err forbidden
  | some owner ↦ if not (owner == principal.id) then err forbidden else ok tt
]

-- claims["username"] and claims["su"], whose types `decode` has checked
abbrev pub text_of : Option Json → String
text_of (some (text s)) = s
text_of _ = ""

abbrev pub flag_of : Option Json → Bool
flag_of (some (flag b)) = b
flag_of _ = false

pub principal_of : Claims → Principal
principal_of c = record { id = c.sub; username = text_of c.username; is_superuser = flag_of c.su }

pub named : Result Claims → Result Principal
named r = and_then (λ c. ok (principal_of c)) r

pub get_current_principal : Jwt → JwtSettings → Option String → ℕ → Result Principal
get_current_principal jwt settings none now = err unauthorized
get_current_principal jwt settings (some token) now =
    if token == "" then err unauthorized else named (decode jwt settings token access now)

pub require_superuser : Principal → Result Principal
require_superuser principal = if not principal.is_superuser then err forbidden else ok principal
