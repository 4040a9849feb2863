-- ===== src/Config/Safety/Gate.antt =====
-- When the program may start with its settings (config.py validate_deployment_safety).
use fastapi_project_structur.Common.{
  ◌≤◌, ◌≡◌, ◌≢◌, ◌↔◌, ◌⊎◌, inl, inr, refl, sym, ap, ◌∙◌, Bool, true, false, not, ◌&&◌, List, [],
  ◌∷◌, ◌++◌, arith, codes, length, ltb, is_empty, if◌then◌else◌, Bool-cases,
}
use fastapi_project_structur.Common.Characters.{strip}
use mathlib.Core.Path.{ap₂}
use fastapi_project_structur.Config.Hosts.{Text}
use fastapi_project_structur.Config.Safety.{
  is_test, is_deployed, same_text, Settings, Secret, access_token_secret_key,
  refresh_token_secret_key, session_secret_key, mysql_password, Problem, secret_key_min_length,
  is_key, noted, text_of, debug, redis_placeholder, same_keys, wildcard_cors, sql_echo,
  debug_log_level, problems, too_short, is_placeholder_secret, secret_problem,
  validate_deployment_safety,
}

same_text_refl : (s : Text) → same_text s s ≡ true
same_text_refl [] = refl
same_text_refl (c ∷ s) = ground (arith, same_text_refl s)

pub same_text_eq : (s t : Text) → same_text s t ≡ true → s ≡ t
same_text_eq [] [] h = refl
same_text_eq [] (d ∷ t) h = absurd (cc h)
same_text_eq (c ∷ s) [] h = absurd (cc h)
same_text_eq (c ∷ s) (d ∷ t) h = ap₂ ◌∷◌ (ground arith) (same_text_eq s t (ground arith))

same_text_ne : (s t : Text) → (same_text s t ≡ false) ↔ (s ≢ t)
same_text_ne s t = (
  (λ h e. absurd (cc (sym h ∙ ap (same_text s) (sym e) ∙ same_text_refl s))),
  (λ h. elim (Bool-cases (same_text s t)) [ inl e ↦ absurd (h (same_text_eq s t e)) | inr e ↦ e ]),
)

noted_nil : (b : Bool) (p : Problem) → (noted b p ≡ []) ↔ (b ≡ false)
noted_nil true p = (λ h. absurd (cc h), λ h. absurd (cc h))
noted_nil false p = (λ h. refl, λ h. refl)

append_nil : {A : Type 0} (xs ys : List A) → (xs ++ ys ≡ []) ↔ ((xs ≡ []) × (ys ≡ []))
append_nil [] ys = (λ h. (refl, h), λ h. h.1)
append_nil (x ∷ xs) ys = (λ h. absurd (cc h), λ h. absurd (cc h.0))

choice :
    (a b : Bool) (p q : Problem)
    → ((if a then p ∷ [] else noted b q) ≡ []) ↔ ((a ≡ false) × (b ≡ false))
choice true b p q = (λ h. absurd (cc h), λ h. absurd (cc h.0))
choice false true p q = (λ h. absurd (cc h), λ h. absurd (cc h.1))
choice false false p q = (λ h. (refl, refl), λ h. refl)

infixr 40 ◌⇔◌
◌⇔◌ : {P Q S : Type 0} → (P ↔ Q) → (Q ↔ S) → (P ↔ S)
f ⇔ g = ((λ h. g.0 (f.0 h)), (λ h. f.1 (g.1 h)))

-- A list that is appended is empty, in terms of its parts.
both :
    {A : Type 0} {P Q : Type 0} {xs ys : List A}
    → ((xs ≡ []) ↔ P)
    → ((ys ≡ []) ↔ Q)
    → ((xs ++ ys ≡ []) ↔ (P × Q))
both {xs} {ys} f g = (
  (λ h. let (a, b) = (append_nil xs ys).0 h in (f.0 a, g.0 b)),
  (λ h. (append_nil xs ys).1 (f.1 h.0, g.1 h.1)),
)

module _ (lower upper : Text → Text) where
  -- a signing key that is no example and long enough, and a password that is no example
  abbrev pub IsKey : Text → Type 0
  IsKey v =
      (is_placeholder_secret lower upper v ≡ false) × (secret_key_min_length ≤ length (strip v))

  -- The conditions on the settings of an environment that is not the tests'.
  abbrev pub IsSafe : Settings → Type 0
  IsSafe s =
      ((is_deployed s.env && s.debug) ≡ false)
      × (IsKey s.access_token_secret_key
          × (IsKey s.refresh_token_secret_key
              × (IsKey s.session_secret_key
                  × ((is_placeholder_secret lower upper s.mysql_password ≡ false)
                      × (((s.redis_password ≡ [])
                            ⊎ (is_placeholder_secret lower upper s.redis_password ≡ false))
                          × ((s.access_token_secret_key ≢ s.refresh_token_secret_key)
                              × (((is_deployed s.env && s.wildcard_origin) ≡ false)
                                  × (((is_deployed s.env && s.log_sql_echo_enabled) ≡ false)
                                      × ((is_deployed s.env
                                            && same_text (upper (text_of s.log_level))
                                                (codes "DEBUG"))
                                          ≡ false)))))))))

  signing_problem :
      (name : Secret) (v : Text)
      → is_key name ≡ true
      → (secret_problem lower upper name v ≡ []) ↔ IsKey v
  unfolding secret_problem
  signing_problem name v h =
      let split =
        choice (is_placeholder_secret lower upper v)
          (is_key name && ltb (length (strip v)) secret_key_min_length) _ _ in
      (
        (λ e. let (a, b) = split.0 e in (a, ground (arith, b, h))),
        (λ k. split.1 (k.0, ground (arith, k.1))),
      )

  password_problem :
      (v : Text)
      → (secret_problem lower upper mysql_password v ≡ [])
        ↔ (is_placeholder_secret lower upper v ≡ false)
  unfolding secret_problem is_key
  password_problem v =
      let split = choice (is_placeholder_secret lower upper v) false _ (too_short mysql_password) in
      ((λ e. (split.0 e).0), (λ k. split.1 (k, refl)))

  redis_problem :
      (v : Text)
      → ((not (is_empty v) && is_placeholder_secret lower upper v) ≡ false)
        ↔ ((v ≡ []) ⊎ (is_placeholder_secret lower upper v ≡ false))
  redis_problem [] = ((λ _. inl refl), (λ _. refl))
  redis_problem (c ∷ v) = ((λ h. inr h), (λ h. elim h [ inl e ↦ absurd (cc e) | inr e ↦ e ]))

  problems_nil : (s : Settings) → (problems lower upper s ≡ []) ↔ IsSafe s
  unfolding problems is_key
  problems_nil s = both (noted_nil _ debug) (
      both (signing_problem access_token_secret_key s.access_token_secret_key refl) (
        both (signing_problem refresh_token_secret_key s.refresh_token_secret_key refl) (
          both (signing_problem session_secret_key s.session_secret_key refl) (
            both (password_problem s.mysql_password) (
              both (noted_nil _ redis_placeholder ⇔ redis_problem s.redis_password) (
                both
                  (noted_nil _ same_keys
                    ⇔ same_text_ne s.access_token_secret_key s.refresh_token_secret_key)
                  (both (noted_nil _ wildcard_cors)
                    (both (noted_nil _ sql_echo) (noted_nil _ debug_log_level)))))))))

  -- Outside of tests, the settings have no problem that stops the start exactly if the three
  -- signing keys are no examples and have at least 32 characters, the database's password is
  -- no example, Redis has no password or one that is no example, the keys of access and
  -- refresh tokens differ, and a deployed environment has no debug mode, no wildcard origin,
  -- no echo of SQL and no log level DEBUG.
  pub validate_deployment_safety_iff :
      (s : Settings)
      → is_test s.env ≡ false
      → (validate_deployment_safety lower upper s ≡ []) ↔ IsSafe s
  unfolding validate_deployment_safety
  validate_deployment_safety_iff s h = gate (is_test s.env) h (problems_nil s)
    where
      gate :
          (b : Bool) {P : Type 0}
          → b ≡ false
          → (problems lower upper s ≡ []) ↔ P
          → ((if b then [] else problems lower upper s) ≡ []) ↔ P
      gate true e f = absurd (cc e)
      gate false e f = f
