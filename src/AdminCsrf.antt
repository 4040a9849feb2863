-- ===== src/AdminCsrf.antt =====
-- app/features/auth/admin_auth.py: the CSRF check of the admin pages. The parser of forms is a
-- parameter, `none` where it raises; the messages that `receive` yields are a list, after which the
-- client has disconnected. `str.encode` is injective, so that texts are compared as texts.
pub mod Guard
use fastapi_project_structur.Common.{
  ℕ, ◌+◌, String, Bool, true, false, not, ◌&&◌, ◌||◌, Option, none, some, List, [], ◌∷◌, ◌++◌, ltb,
  length, contains, ◌==◌, if◌then◌else◌,
}
use fastapi_project_structur.Json.{Json, null, text}
use fastapi_project_structur.Stored.{Session}
use fastapi_project_structur.AdminSession.{get_entry}

abbrev pub max_form_body_bytes : ℕ
max_form_body_bytes = 10485760

abbrev pub unsafe_methods : List String
unsafe_methods = "POST" ∷ "PUT" ∷ "PATCH" ∷ "DELETE" ∷ []

unfoldable pub is_valid : Json → Json → Bool
is_valid (text expected) (text submitted) = not (expected == "") && submitted == expected
is_valid _ _ = false

-- The submitted value is null where there is none.
unfoldable pub csrf_valid : Session → Json → Bool
csrf_valid session submitted = is_valid (get_entry "csrf_token" session) submitted

pub record Message : Type 0 where
  pub is_request : Bool
  pub body : List ℕ
  pub more_body : Bool

-- the chunks so far, joined
unfoldable pub read_from : (limit : ℕ) → List ℕ → List Message → Option (List ℕ)
read_from limit chunks [] = some chunks
read_from limit chunks (m ∷ ms) =
    let joined = chunks ++ m.body in
    let rest = read_from limit joined ms in
    if not m.is_request
    then some chunks
    else if ltb limit (length joined)
    then none
    else if not m.more_body
    then some joined
    else rest

unfoldable pub read_body : (limit : ℕ) → List Message → Option (List ℕ)
read_body limit messages = read_from limit [] messages

pub record Request : Type 0 where
  pub is_http : Bool
  pub method : String
  pub route_path : String
  -- X-CSRF-Token, and whether the content type is a form's
  pub header : Option String
  pub is_form : Bool
  -- int(content-length), where it is all digits
  pub content_length : Option ℕ
  pub messages : List Message
  pub session : Session

-- What the middleware does: it calls the application, with the body that it has buffered, or it
-- answers with a status.
pub data Outcome : Type 0 where
  called : Option (List ℕ) → Outcome
  answered : ℕ → Outcome

unfoldable pub is_exempt : Request → Bool
is_exempt r = not r.is_http || not (contains r.method unsafe_methods) || r.route_path == "/login"

unfoldable pub too_long : Option ℕ → Bool
too_long none = false
too_long (some n) = ltb max_form_body_bytes n

unfoldable pub checked : Request → Json → Option (List ℕ) → Outcome
checked r submitted body = if csrf_valid r.session submitted then called body else answered 403

module _ (form_token : List ℕ → Option Json) where
  unfoldable pub parsed : Request → List ℕ → Option Json → Outcome
  parsed r body none = answered 400
  parsed r body (some submitted) = checked r submitted (some body)

  unfoldable pub buffered : Request → Option (List ℕ) → Outcome
  buffered r none = answered 413
  buffered r (some body) = parsed r body (form_token body)

  unfoldable pub submitted_by : Request → Option String → Outcome
  submitted_by r (some token) = checked r (text token) none
  submitted_by r none =
      if r.is_form
      then buffered r
          (if too_long r.content_length then none else read_body max_form_body_bytes r.messages)
      else checked r null none

  unfoldable pub call : Request → Outcome
  call r = if is_exempt r then called none else submitted_by r r.header
