-- ===== src/AdminCsrf/Guard.antt =====
-- The requests that pass the CSRF check (app/features/auth/admin_auth.py).
use fastapi_project_structur.Common.{
  ℕ, String, ◌≡◌, refl, sym, ap, ◌∙◌, Bool, true, false, Option, none, some, List, arith, ◌==◌,
  eq_iff, ◌⊎◌, inl, inr, if◌then◌else◌,
}
use fastapi_project_structur.Json.{Json, null, text}
use fastapi_project_structur.AdminSession.{get_entry}
use fastapi_project_structur.AdminCsrf.{
  Request, Outcome, called, max_form_body_bytes, is_valid, csrf_valid, read_body, is_exempt,
  too_long, checked, parsed, buffered, submitted_by, call,
}

-- The token that a request sends: in the header, or else in the form of its buffered body.
pub Sends : (List ℕ → Option Json) → Request → String → Option (List ℕ) → Type 0
Sends form_token r token body =
    ((r.header ≡ some token) × (body ≡ none))
    ⊎ ((r.header ≡ none)
        × ((bytes : List ℕ) × (body ≡ some bytes)
            × (form_token bytes ≡ some (text token))
            × (read_body max_form_body_bytes r.messages ≡ some bytes)))

checked-called :
    (r : Request) (submitted : Json) (body body' : Option (List ℕ))
    → checked r submitted body ≡ called body'
    → (body ≡ body') × (csrf_valid r.session submitted ≡ true)
unfolding checked
checked-called r submitted body body' h = ground (arith, h)

is_valid-token :
    (expected submitted : Json)
    → is_valid expected submitted ≡ true
    → (token : String) × (submitted ≡ text token)
      × (expected ≡ text token)
      × ((token == "") ≡ false)
unfolding is_valid
is_valid-token (text e) (text s) h =
    let same = eq_iff s e in (e, ground (arith, h, same), refl, ground (arith, h))
is_valid-token expected submitted h = absurd (cc h)

text_injective : (a b : String) → text a ≡ text b → a ≡ b
text_injective a b h = cc

some_if :
    (b : Bool) (o : Option (List ℕ)) (x : List ℕ) → (if b then none else o) ≡ some x → o ≡ some x
some_if b o x h = ground (arith, h)

-- The token in the session, which this value equals.
pub HasToken : Request → Json → Type 0
HasToken r submitted =
    (token : String) × (submitted ≡ text token)
    × (get_entry "csrf_token" r.session ≡ text token)
    × ((token == "") ≡ false)

valid-HasToken :
    (r : Request) (submitted : Json) → csrf_valid r.session submitted ≡ true → HasToken r submitted
unfolding csrf_valid HasToken
valid-HasToken r submitted h = is_valid-token (get_entry "csrf_token" r.session) submitted h

branches : (b : Bool) (x y z : Outcome) → (if b then x else y) ≡ z → (x ≡ z) ⊎ (y ≡ z)
branches true x y z h = inl h
branches false x y z h = inr h

module _ (form_token : List ℕ → Option Json) where
  -- What a call of the application has found.
  pub Passed : Request → Option (List ℕ) → Type 0
  Passed r body =
      (token : String) × Sends form_token r token body
      × (get_entry "csrf_token" r.session ≡ text token)
      × ((token == "") ≡ false)

  parsed-Passed :
      (r : Request) (bytes : List ℕ) (o : Option Json) (body : Option (List ℕ))
      → r.header ≡ none
      → form_token bytes ≡ o
      → read_body max_form_body_bytes r.messages ≡ some bytes
      → parsed form_token r bytes o ≡ called body
      → Passed r body
  unfolding parsed Passed Sends HasToken
  parsed-Passed r bytes none body no_header at read h = absurd (cc h)
  parsed-Passed r bytes (some submitted) body no_header at read h =
      let (same, valid) = checked-called r submitted (some bytes) body h in
      let (token, sent, kept, not_blank) = valid-HasToken r submitted valid in
      (token, inr (no_header, (bytes, sym same, at ∙ ap some sent, read)), kept, not_blank)

  buffered-Passed :
      (r : Request) (o : Option (List ℕ)) (body : Option (List ℕ))
      → r.header ≡ none
      → ((bytes : List ℕ) → o ≡ some bytes → read_body max_form_body_bytes r.messages ≡ some bytes)
      → buffered form_token r o ≡ called body
      → Passed r body
  unfolding buffered
  buffered-Passed r none body no_header read h = absurd (cc h)
  buffered-Passed r (some bytes) body no_header read h =
      parsed-Passed r bytes (form_token bytes) body no_header refl (read bytes refl) h

  no_token : (r : Request) (body : Option (List ℕ)) → checked r null none ≡ called body → ⊥
  unfolding HasToken
  no_token r body h =
      let (same, valid) = checked-called r null none body h in
      let (token, sent, kept, not_blank) = valid-HasToken r null valid in cc sent

  submitted-Passed :
      (r : Request) (o : Option String) (body : Option (List ℕ))
      → r.header ≡ o
      → submitted_by form_token r o ≡ called body
      → Passed r body
  unfolding submitted_by Passed Sends HasToken
  submitted-Passed r (some token) body at h =
      let (same, valid) = checked-called r (text token) none body h in
      let (sent, is_sent, kept, not_blank) = valid-HasToken r (text token) valid in
      (sent, inl (at ∙ ap some (text_injective token sent is_sent), sym same), kept, not_blank)
  submitted-Passed r none body at h = elim (branches r.is_form _ _ _ h) [
    | inl form ↦
        buffered-Passed r _ body at (λ bytes e. some_if (too_long r.content_length) _ bytes e) form
    | inr plain ↦ absurd (no_token r body plain)
  ]

  -- If the middleware lets a request through that is not exempt, an HTTP request by a writing
  -- method other than the login, then the request carries a text that is not empty and equals
  -- the CSRF token of its session: in the header, and the body is not buffered; or, without
  -- the header, in the form that the buffered body, the whole body read within the limit,
  -- parses to, and the application is given that body.
  pub call-Passed :
      (r : Request) (body : Option (List ℕ))
      → is_exempt r ≡ false
      → call form_token r ≡ called body
      → Passed r body
  unfolding call
  call-Passed r body guarded h = submitted-Passed r r.header body refl (rw guarded at h)
