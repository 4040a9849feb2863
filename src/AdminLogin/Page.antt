-- ===== src/AdminLogin/Page.antt =====
-- What the login page makes of a session (app/features/auth/admin_auth.py, csrf_token).
use fastapi_project_structur.Common.{
  String, ◌≡◌, ◌∙◌, sym, refl, inl, inr, true, false, ◌==◌, eq_iff, Bool-cases, arith,
}
use fastapi_project_structur.Json.{Json, text, null, flag, number}
use fastapi_project_structur.Stored.{Session}
use fastapi_project_structur.AdminSession.{get_entry}
use fastapi_project_structur.AdminCsrf.{is_valid}
use fastapi_project_structur.AdminLogin.{ensured, usable_token, set_entry}

module _ (fresh : String) where
  -- The entries of a session after the login page: as they were if they had a token that is not
  -- empty, and otherwise with a new one and without any other change.
  pub data Shown (entries : Session) : Session → Type 0 where
    had_token :
        (token : String)
        → (token == "") ≡ false
        → get_entry "csrf_token" entries ≡ text token
        → Shown entries entries
    new_token :
        ((token : String) → get_entry "csrf_token" entries ≡ text token → token ≡ "")
        → Shown entries (set_entry "csrf_token" (text fresh) entries)

  pub shown :
      (entries : Session) (value : Json)
      → get_entry "csrf_token" entries ≡ value
      → Shown entries (ensured (usable_token value) fresh entries).1
  unfolding usable_token ensured
  shown entries (text token) h = elim (Bool-cases (token == "")) [
    | inl e ↦ rw e (new_token (λ t k. cc (sym h ∙ k, (eq_iff token "").0 e)))
    | inr e ↦ rw e (had_token token e h)
  ]
  shown entries null h = new_token (λ t k. absurd (cc (sym h ∙ k)))
  shown entries (flag b) h = new_token (λ t k. absurd (cc (sym h ∙ k)))
  shown entries (number n) h = new_token (λ t k. absurd (cc (sym h ∙ k)))

  pub usable_kept :
      (entries : Session) (expected submitted : Json)
      → is_valid expected submitted ≡ true
      → (ensured (usable_token expected) fresh entries).1 ≡ entries
  unfolding is_valid usable_token ensured
  usable_kept entries (text e) (text t) h = elim (Bool-cases (e == "")) [
    | inl k ↦ absurd (ground (arith, h, k))
    | inr k ↦ rw k refl
  ]
  usable_kept entries (text e) null h = absurd (cc h)
  usable_kept entries (text e) (flag b) h = absurd (cc h)
  usable_kept entries (text e) (number n) h = absurd (cc h)
  usable_kept entries null t h = absurd (cc h)
  usable_kept entries (flag b) t h = absurd (cc h)
  usable_kept entries (number n) t h = absurd (cc h)
