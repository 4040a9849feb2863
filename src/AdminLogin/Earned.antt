-- ===== src/AdminLogin/Earned.antt =====
-- When a login at the admin pages is earned, and what each answer leaves behind
-- (app/features/auth/admin_auth.py).
use mathlib.Core.Path.{subst}
use fastapi_project_structur.Common.{
  ℕ, suc, ◌<◌, ◌≤◌, String, ◌≡◌, refl, sym, ap, ◌∙◌, ◌⊎◌, inl, inr, Bool, true, false, not, Option,
  none, some, List, [], ◌∷◌, ◌==◌, if◌then◌else◌, leb, arith, eq_refl, eq_false,
  append-ne_of_differ,
}
use fastapi_project_structur.Exceptions.{Result, ok, err}
use fastapi_project_structur.Json.{text}
use fastapi_project_structur.Stored.{Session}
use fastapi_project_structur.AdminCsrf.{csrf_valid}
use fastapi_project_structur.AdminLogin.Page.{Shown, shown, usable_kept}
use fastapi_project_structur.RateLimiter.{Counters, hit, reset}
use fastapi_project_structur.RateLimiter.Limits.{hit-allowed, count-hit}
use fastapi_project_structur.Hasher.{PasswordLibrary}
use fastapi_project_structur.AuthService.{User, verify_credentials}
use fastapi_project_structur.AuthService.Accounts.{Accounts, authenticate, settled}
use fastapi_project_structur.AuthService.Credentials.{IsVerified, verify_credentials_iff}
use fastapi_project_structur.AdminLogin.{
  Form, Limits, Answer, rendered, throttled, logged_in, State, ip_key, user_key, limited, renewed,
  verified, admitted, login, render, throttle, csrf_token,
}

le_of_leb : (a b : ℕ) → leb (suc a) b ≡ false → b ≤ a
le_of_leb a b h = ground arith

lt_of_leb : (a b : ℕ) → leb (suc a) b ≡ true → a < b
lt_of_leb a b h = ground arith

user_of :
    (a b : User) (g h : Option String)
    → ◌≡◌ {A = Result (User × Option String)} (ok (a, g)) (ok (b, h))
    → a ≡ b
user_of a b g h e = ap (λ r. elim r [ err _ ↦ a | ok p ↦ p.0 ]) e

either :
    {A : Type 0} (P : A → Type 0) {x y : A} (b : Bool)
    → (b ≡ false → P x)
    → (b ≡ true → P y)
    → P (if not b then x else y)
either P true f g = g refl
either P false f g = f refl

module _ (K : Counters) (lib : PasswordLibrary) (dummy_hash : String) (users : Accounts)
    (limits : Limits) (form : Form) (salt fresh : String) (pos : 0 < limits.window) where
  abbrev Db : Type 0
  Db = K.Db

  abbrev Here : Type 0
  Here = State K lib dummy_hash users

  abbrev ip_count : Db → ℕ
  ip_count db = K.count (ip_key form.ip) db

  abbrev user_count : Db → ℕ
  user_count db = K.count (user_key form.ip form.lowered) db

  -- What the two limits find.
  data Limited (db : Db) : Option ℕ × Db → Type 0 where
    over :
        {retry_after : ℕ} {after : Db}
        → (limits.ip_max_attempts ≤ ip_count db) ⊎ (limits.max_attempts ≤ user_count db)
        → Limited db (some retry_after, after)
    within :
        {after : Db}
        → ip_count db < limits.ip_max_attempts
        → user_count db < limits.max_attempts
        → Limited db (none, after)

  other_key : (ip_key form.ip == user_key form.ip form.lowered) ≡ false
  other_key = eq_false _ _ (append-ne_of_differ "admin:rl:login-ip:" "admin:rl:login:" _ _ refl)

  user_count_kept :
      (db : Db)
      → user_count ((hit K (ip_key form.ip) limits.ip_max_attempts limits.window db).1)
        ≡ user_count db
  user_count_kept db =
      count-hit K limits.ip_max_attempts limits.window pos (ip_key form.ip) _ db ∙ rw other_key refl

  abbrev both : List (String × ℕ)
  both =
      (ip_key form.ip, limits.ip_max_attempts)
      ∷ (user_key form.ip form.lowered, limits.max_attempts)
      ∷ []

  limited-Limited : (db : Db) → Limited db (limited K lib dummy_hash users both limits.window db)
  unfolding limited
  limited-Limited db =
      let first = hit K (ip_key form.ip) limits.ip_max_attempts limits.window db in
      let second =
        hit K (user_key form.ip form.lowered) limits.max_attempts limits.window first.1 in
      let ip_verdict = hit-allowed K limits.ip_max_attempts limits.window pos (ip_key form.ip) db in
      let user_verdict =
        hit-allowed K limits.max_attempts limits.window pos (user_key form.ip form.lowered)
          first.1 in
      either (Limited db) first.0.allowed (λ e. over (inl (le_of_leb _ _ (sym ip_verdict ∙ e))))
        (λ e.
          either (Limited db) second.0.allowed
            (λ e'. over (inr (rw user_count_kept at (le_of_leb _ _ (sym user_verdict ∙ e')))))
            (λ e'.
              within (lt_of_leb _ _ (sym ip_verdict ∙ e))
                (rw user_count_kept at (lt_of_leb _ _ (sym user_verdict ∙ e')))))

  -- the page after a valid token leaves the session as it is
  render-kept :
      (code : ℕ) (s : Here) (after : Db)
      → csrf_valid s.entries form.csrf_token ≡ true
      → render K lib dummy_hash users fresh code (record s { counters = after })
        ≡ (rendered code, record s { counters = after })
  unfolding render csrf_token csrf_valid
  render-kept code s after valid =
      ap (λ e. (rendered code, record s { entries = e; counters = after }))
        (usable_kept fresh s.entries _ _ valid)

  -- How a login in this state may end.
  pub data Login (s : Here) : Answer × Here → Type 0 where
    forged :
        {page : Session}
        → csrf_valid s.entries form.csrf_token ≡ false
        → Shown fresh s.entries page
        → Login s (rendered 403, record s { entries = page })
    slowed :
        {retry_after : ℕ} {after : Db}
        → csrf_valid s.entries form.csrf_token ≡ true
        → (limits.ip_max_attempts ≤ ip_count s.counters)
          ⊎ (limits.max_attempts ≤ user_count s.counters)
        → Login s (throttled retry_after, record s { counters = after })
    refused :
        {after : Db}
        → csrf_valid s.entries form.csrf_token ≡ true
        → ((u : User) (h : Option String)
            → IsVerified lib dummy_hash
                (users.get_by_username form.username s.table)
                salt
                form.password
                u
                h
            → u.is_superuser ≡ false)
        → Login s (rendered 400, record s { counters = after })
    earned :
        {user : User} {new_hash : Option String} {s' : Here}
        → csrf_valid s.entries form.csrf_token ≡ true
        → ip_count s.counters < limits.ip_max_attempts
        → user_count s.counters < limits.max_attempts
        → IsVerified lib dummy_hash
            (users.get_by_username form.username s.table)
            salt
            form.password
            user
            new_hash
        → user.is_superuser ≡ true
        → s'.entries ≡ ("user_id", text user.id) ∷ ("csrf_token", text fresh) ∷ []
        → s'.rotates ≡ true
        → s'.table ≡ (authenticate lib dummy_hash users form.username salt form.password s.table).1
        → user_count s'.counters ≡ 0
        → Login s (logged_in, s')

  abbrev verified_as : Here → Result (User × Option String)
  verified_as s =
      verify_credentials lib dummy_hash (users.get_by_username form.username s.table) salt
        form.password

  reset_count : (db : Db) → user_count (reset K (user_key form.ip form.lowered) db) ≡ 0
  unfolding reset
  reset_count db = K.count-delete _ _ db ∙ rw (eq_refl (user_key form.ip form.lowered)) refl

  module _ (s : Here) (after : Db) (valid : csrf_valid s.entries form.csrf_token ≡ true)
      (in_ip : ip_count s.counters < limits.ip_max_attempts)
      (in_user : user_count s.counters < limits.max_attempts) where
    by_rights :
        (user : User) (new_hash : Option String) (table : users.Table)
        → verified_as s ≡ ok (user, new_hash)
        → table ≡ (settled lib dummy_hash users (verified_as s) s.table).1
        → Login s (
            verified K lib dummy_hash users form fresh
              (ok user, table)
              (record s { counters = after }))
    unfolding verified renewed authenticate
    by_rights user new_hash table e same_table =
        either (Login s) user.is_superuser
          (λ f. rw (render-kept 400 s after valid) (
            refused valid (λ u h v.
              subst (λ x. x.is_superuser ≡ false)
                (user_of user u new_hash h
                  (sym e ∙ (verify_credentials_iff lib dummy_hash _ salt form.password u h).1 v))
                f)))
          (λ t.
            earned valid in_ip in_user
              ((verify_credentials_iff lib dummy_hash _ salt form.password user new_hash).0 e) t
              refl refl same_table (reset_count after))

    left_by :
        (r : Result (User × Option String))
        → verified_as s ≡ r
        → (settled lib dummy_hash users r s.table).1
          ≡ (settled lib dummy_hash users (verified_as s) s.table).1
    left_by r h = ap (λ x. (settled lib dummy_hash users x s.table).1) (sym h)

    verified-Login :
        (r : Result (User × Option String))
        → verified_as s ≡ r
        → Login s (
            verified K lib dummy_hash users form fresh
              (settled lib dummy_hash users r s.table)
              (record s { counters = after }))
    unfolding settled verified
    verified-Login (err e) h = rw (render-kept 400 s after valid) (
        refused valid (λ u g v.
          absurd
            (cc (sym h ∙ (verify_credentials_iff lib dummy_hash _ salt form.password u g).1 v))))
    verified-Login (ok (user, none)) h = by_rights user none s.table h (left_by _ h)
    verified-Login (ok (user, some g)) h = by_rights user (some g) _ h (left_by _ h)

  admitted-Login :
      (s : Here) (l : Option ℕ × Db)
      → csrf_valid s.entries form.csrf_token ≡ true
      → Limited s.counters l
      → Login s (admitted K lib dummy_hash users form salt fresh l s)
  unfolding admitted authenticate throttle
  admitted-Login s (some retry_after, after) valid (over why) =
      rw (render-kept 429 s after valid) (slowed valid why)
  admitted-Login s (none, after) valid (within in_ip in_user) =
      verified-Login s after valid in_ip in_user (verified_as s) refl

  pub login-Login : (s : Here) → Login s (login K lib dummy_hash users limits form salt fresh s)
  unfolding login render csrf_token
  login-Login s =
      either (Login s) (csrf_valid s.entries form.csrf_token)
        (λ wrong. forged wrong (shown fresh s.entries _ refl))
        (λ valid. admitted-Login s _ valid (limited-Limited s.counters))
