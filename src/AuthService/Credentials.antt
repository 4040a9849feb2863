-- ===== src/AuthService/Credentials.antt =====
-- When a password is accepted, and how an old hash is replaced.
use mathlib.Core.Path.{subst}
use fastapi_project_structur.Common.{
  String, ◌≡◌, ◌↔◌, refl, ap, ◌∙◌, Bool, true, false, not, ◌||◌, Option, none, some, is_some, arith,
  ◌==◌, if◌then◌else◌,
}
use fastapi_project_structur.Exceptions.{AppException, invalid_credentials, ok, err}
use fastapi_project_structur.Hasher.{PasswordLibrary, verify_and_update, hash}
use fastapi_project_structur.AuthService.{User, usable_hash, get_or, check, verify_credentials}

module _ (lib : PasswordLibrary) (dummy_hash : String) where
  -- The user exists, is active, and has a hash that the password verifies against.
  pub record IsVerified (user : Option User) (salt password : String) (u : User)
      (new_hash : Option String) : Type 0 where
    pub stored : String
    pub found : user ≡ some u
    pub has_hash : u.hashed_password ≡ some stored
    pub not_blank : (stored == "") ≡ false
    pub active : u.is_active ≡ true
    pub verified : verify_and_update lib salt password stored ≡ (true, new_hash)

  if_err_else_ok :
      (b : Bool) (e : AppException) (p q : User × Option String)
      → (if b then err e else ok p) ≡ ok q
      → (b ≡ false) × (p ≡ q)
  if_err_else_ok true e p q h = cc
  if_err_else_ok false e p q h = (refl, cc)

  refusals :
      (a b c : Bool) → (not a || not b || not c) ≡ false → (a ≡ true) × (b ≡ true) × (c ≡ true)
  refusals a b c h = ground arith

  check-ok :
      (o : Option User) (verdict : Bool × Option String) (u : User) (new_hash : Option String)
      → check lib dummy_hash o verdict ≡ ok (u, new_hash)
      → (o ≡ some u)
        × (is_some (usable_hash o) ≡ true)
        × (u.is_active ≡ true)
        × (verdict ≡ (true, new_hash))
  unfolding check
  check-ok none verdict u new_hash h = cc
  check-ok (some user) (matches, hash) u new_hash h =
      let (passed, same) =
        if_err_else_ok
          (not (is_some (usable_hash (some user))) || not user.is_active || not matches)
          invalid_credentials (user, hash) (u, new_hash) h in
      let (has_hash, active, matched) = refusals _ _ _ passed in
      let same_user : user ≡ u = ap (λ (r : User × Option String). r.0) same in
      let same_hash : hash ≡ new_hash = ap (λ (r : User × Option String). r.1) same in
      (
        ap (λ (x : User). some x) same_user,
        has_hash,
        subst (λ (x : User). x.is_active ≡ true) same_user active,
        λ i. (matched i, same_hash i),
      )

  usable :
      (u : User)
      → is_some (usable_hash (some u)) ≡ true
      → (h : String) × (u.hashed_password ≡ some h)
        × ((h == "") ≡ false)
        × (usable_hash (some u) ≡ some h)
  usable u h = ground arith

  usable_of :
      (u : User) (h : String)
      → u.hashed_password ≡ some h
      → (h == "") ≡ false
      → usable_hash (some u) ≡ some h
  usable_of u h e f = ground arith

  check_passed :
      (u : User) (new_hash : Option String) (h : String)
      → usable_hash (some u) ≡ some h
      → u.is_active ≡ true
      → check lib dummy_hash (some u) (true, new_hash) ≡ ok (u, new_hash)
  unfolding check
  check_passed u new_hash h e a = ground arith

  accepted :
      (user : Option User) (salt password : String) (u : User) (new_hash : Option String)
      → IsVerified user salt password u new_hash
      → verify_credentials lib dummy_hash user salt password ≡ ok (u, new_hash)
  unfolding verify_credentials
  accepted user salt password u new_hash v =
      let at = usable_of u v.stored v.has_hash v.not_blank in
      let V : String → Bool × Option String = verify_and_update lib salt password in
      ap (λ (o : Option User). check lib dummy_hash o (V (get_or (usable_hash o) dummy_hash)))
        v.found
      ∙ ap (λ (o : Option String). check lib dummy_hash (some u) (V (get_or o dummy_hash))) at
      ∙ ap (check lib dummy_hash (some u)) v.verified
      ∙ check_passed u new_hash v.stored at v.active

  -- Credentials are accepted, with a replacement hash or without one, exactly if the user
  -- exists and is active, has a hash that is not blank, and the password verifies against that
  -- hash with this replacement.
  pub verify_credentials_iff :
      (user : Option User) (salt password : String) (u : User) (new_hash : Option String)
      → (verify_credentials lib dummy_hash user salt password ≡ ok (u, new_hash))
        ↔ IsVerified user salt password u new_hash
  unfolding verify_credentials
  verify_credentials_iff user salt password u new_hash = (
    (λ h.
        let (found, has_hash, active, verdict) = check-ok user _ u new_hash h in
        let (stored, at, not_blank, usable_at) =
          usable u (subst (λ (o : Option User). is_some (usable_hash o) ≡ true) found has_hash) in
        record {
          stored = stored;
          found = found;
          has_hash = at;
          not_blank = not_blank;
          active = active;
          verified =
              subst (λ (x : String). verify_and_update lib salt password x ≡ (true, new_hash))
                (ap (λ (o : Option User). get_or (usable_hash o) dummy_hash) found
                  ∙ ap (λ (o : Option String). get_or o dummy_hash) usable_at)
                verdict;
        }),
    (λ v. accepted user salt password u new_hash v),
  )

  pub verify_credentials_refusal :
      (user : Option User) (salt password : String) (e : AppException)
      → verify_credentials lib dummy_hash user salt password ≡ err e
      → e ≡ invalid_credentials
  unfolding verify_credentials check
  verify_credentials_refusal none salt password e h = ground arith
  verify_credentials_refusal (some u) salt password e h = ground arith
