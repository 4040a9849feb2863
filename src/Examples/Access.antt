-- ===== src/Examples/Access.antt =====
-- Examples of passwords, access levels, client addresses and driver errors.
use fastapi_project_structur.Common.{
  String, ◌≡◌, ◌↔◌, refl, Bool, true, false, not, ◌||◌, ◌&&◌, Option, none, some, List, [], ◌∷◌,
  ◌++◌, arith, All, ◌==◌, length, eqb, codes, take, ap, eq_refl, Bool-cases, inl, inr, ◌≤◌,
  if◌then◌else◌,
}
use text.Mathlib.Text.{starts_with}
use fastapi_project_structur.Exceptions.{ok, status_code}
use fastapi_project_structur.Hasher.{
  PasswordLibrary, hash, encode, legacy_bcrypt_max_bytes, encode_codes, utf8,
}
use fastapi_project_structur.AuthService.{User, verify_credentials}
use fastapi_project_structur.AuthService.Accounts.{
  Accounts, register, authenticate, registered_logs_in,
}
use fastapi_project_structur.AuthService.Credentials.{IsVerified, verify_credentials_iff}
use fastapi_project_structur.AccessPolicy.{
  Call, public_marker, get_current_principal, Dependant, dependant, none, and, AccessLevel, Route,
  declared_levels, operations, verify, violations, violations_of, problem, operations_from,
  assign_all, assign, has_call, have_call,
}
use fastapi_project_structur.AccessPolicy
use fastapi_project_structur.AccessPolicy.Verdict.{
  IsFitting, verify_iff, verified_view, verify_shadowed, view,
}
use fastapi_project_structur.ClientIp.{Text, forwarded, hops_of_header, hops_of_parts, resolve}
use fastapi_project_structur.Common.Characters.{split, split_from, strip, lstrip, is_space}
use fastapi_project_structur.ClientIp.Spoofing.{request_of, resolve_spoofed}
use fastapi_project_structur.DbErrors.{DbError, number, translate}
use fastapi_project_structur.DbErrors.Kinds.{
  is_duplicate, is_null, is_referenced, translate_conflict_iff,
}

-- A library that knows two hashes, and whose bcrypt hashes match passwords of two bytes.
abbrev pub argon_hash : (salt password : String) → String
argon_hash salt password = if password == "pw" then "argon pw" else "argon other"

abbrev pub argon_verify : (salt password stored : String) → Option (Bool × Option String)
argon_verify salt password stored = some (stored == argon_hash salt password, none)

pub argon_verify-hash :
    (salt salt' password : String)
    → argon_verify salt' password (argon_hash salt password) ≡ some (true, none)
argon_verify-hash salt salt' password =
    ap (λ b. some (b, none)) (eq_refl (argon_hash salt password))

pub argon_prefix : (salt password : String) → starts_with (argon_hash salt password) "$2" ≡ false
argon_prefix salt password = elim (Bool-cases (password == "pw")) [
  | inl e ↦ rw e refl
  | inr e ↦ rw e refl
]

abbrev pub plain : PasswordLibrary
plain = record {
  argon_hash = argon_hash;
  argon_verify = argon_verify;
  bcrypt_check = λ bytes stored. some (eqb (length bytes) 2);
  argon_verify-hash = argon_verify-hash;
  argon_prefix = argon_prefix;
}

two_bytes : plain.bcrypt_check (take legacy_bcrypt_max_bytes (encode "pw")) "$2b$old" ≡ some true
unfolding encode encode_codes utf8
two_bytes = refl

abbrev bob : User
bob = record {
  id = "2";
  username = "bob";
  email = "bob@example.com";
  hashed_password = some "argonpw";
  is_active = true;
  is_superuser = false;
}

verify_credentials_iff_example :
    (verify_credentials plain "dummy" (some bob) "s" "pw" ≡ ok (bob, none))
    ↔ IsVerified plain "dummy" (some bob) "s" "pw" bob none
verify_credentials_iff_example = verify_credentials_iff plain "dummy" (some bob) "s" "pw" bob none

-- A public page, and a page for users.
abbrev page : Dependant
page = dependant public_marker none

abbrev own_page : Dependant
own_page = dependant (AccessPolicy.other 0) (and (dependant get_current_principal none) none)

abbrev routes : List Route
routes = view "GET" "/posts" page ∷ view "POST" "/posts" own_page ∷ []

verify_iff_example :
    (verify routes ≡ true) ↔ All (λ o. IsFitting o.method o.levels) (operations routes)
verify_iff_example = verify_iff routes

verified : verify routes ≡ true
unfolding verify violations violations_of problem operations operations_from assign_all assign
    declared_levels has_call have_call
verified = refl

verified_view_example : IsFitting "POST" (declared_levels own_page)
verified_view_example =
    verified_view "POST" "/posts" (view "GET" "/posts" page ∷ []) (view "POST" "/posts" own_page) []
      verified refl refl

-- A view that declares nothing, before one of the same method and path.
abbrev open_page : Dependant
open_page = dependant (AccessPolicy.other 1) none

verify_shadowed_example :
    verify (view "POST" "/posts" open_page ∷ view "POST" "/posts" own_page ∷ [])
    ≡ verify (view "POST" "/posts" own_page ∷ [])
verify_shadowed_example = verify_shadowed "POST" "/posts" open_page own_page [] []

-- Every text is an address.
abbrev parse : Text → Option Text
parse text = some text

one_hop : 1 ≤ length (forwarded (codes "9.9.9.9" ∷ []))
unfolding forwarded hops_of_header hops_of_parts split split_from strip lstrip is_space
one_hop = omega arith

resolve_spoofed_example :
    resolve parse 1 (
      request_of parse 1 none
        (codes "6.6.6.6" ∷ (codes "1.1.1.1" ++ b',' ∷ codes "9.9.9.9") ∷ [])
        (some (codes "7.7.7.7")))
    ≡ resolve parse 1 (request_of parse 1 none (codes "9.9.9.9" ∷ []) none)
resolve_spoofed_example =
    resolve_spoofed parse 1 none (codes "6.6.6.6" ∷ []) (codes "1.1.1.1") (codes "9.9.9.9") []
      (some (codes "7.7.7.7")) (omega arith) one_hop

abbrev in_use : DbError
in_use = record { is_integrity = true; args = number 1451 ∷ []; orig = "referenced" }

translate_conflict_iff_example :
    (status_code (translate in_use "Post" "DELETE").exception ≡ 409)
    ↔ ((is_duplicate in_use || (not (is_null in_use) && is_referenced in_use "DELETE")) ≡ true)
translate_conflict_iff_example = translate_conflict_iff in_use "Post" "DELETE"

-- A table of one user at most.
abbrev pub by_name : String → Option User → Option User
by_name name none = none
by_name name (some u) = if u.username == name then some u else none

abbrev pub rehashed : String → String → Option User → Option User
rehashed id h none = none
rehashed id h (some u) = some (record u { hashed_password = some h })

pub by_name-rehashed :
    (name h : String) (u : User) (table : Option User)
    → by_name name table ≡ some u
    → by_name name (rehashed u.id h table) ≡ some (record u { hashed_password = some h })
by_name-rehashed name h u none e = cc
by_name-rehashed name h u (some x) e = elim (Bool-cases (x.username == name)) [
  | inl hit ↦ ground (arith, e, hit)
  | inr miss ↦ ground (arith, e, miss)
]

abbrev pub new_user : (username email h : String) → User
new_user username email h = record {
  id = "1";
  username = username;
  email = email;
  hashed_password = some h;
  is_active = true;
  is_superuser = false;
}

pub by_name-new :
    (username email h : String)
    → by_name username (some (new_user username email h)) ≡ some (new_user username email h)
by_name-new username email h = rw (eq_refl username) refl

abbrev pub accounts : Accounts
accounts = record {
  Table = Option User;
  get_by_username = by_name;
  create = λ username email h table. (new_user username email h, some (new_user username email h));
  set_hash = rehashed;
  get-create = λ username email h table. by_name-new username email h;
  hash-create = λ username email h table. refl;
  active-create = λ username email h table. refl;
  get-set_hash = by_name-rehashed;
}

hash_is_text : (hash plain "s" "pw" == "") ≡ false
unfolding hash
hash_is_text = refl

registered_logs_in_example :
    authenticate plain "dummy" accounts "ann" "t" "pw"
      (register plain "dummy" accounts "ann" "ann@example.com" "s" "pw" none).1
    ≡ register plain "dummy" accounts "ann" "ann@example.com" "s" "pw" none
registered_logs_in_example =
    registered_logs_in plain "dummy" accounts "ann" "ann@example.com" "s" "t" "pw" none refl
      hash_is_text

abbrev old_ann : User
old_ann = new_user "ann" "ann@example.com" "$2b$old"
