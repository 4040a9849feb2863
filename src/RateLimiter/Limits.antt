-- ===== src/RateLimiter/Limits.antt =====
-- The hits that a window allows (app/core/security/rate_limiter.py).
use fastapi_project_structur.Common.{
  ℕ, suc, ◌-◌, ◌<◌, String, ◌≡◌, refl, false, List, [], ◌∷◌, min, leb, arith, ◌==◌, if◌then◌else◌,
  Bool-cases, inl, inr, eq_iff, eq_false, append-ne_of_differ, ap, ◌∙◌, ◌≤◌,
}
use fastapi_project_structur.Exceptions.{too_many_requests, err}
use fastapi_project_structur.RateLimiter.{
  Counters, judged, hit, check, ip_key, user_key, second, login_rate_limit,
}

abbrev pub occurrences : String → List String → ℕ
occurrences k [] = 0
occurrences k (j ∷ js) = let rest = occurrences k js in if j == k then suc rest else rest

module _ (K : Counters) (limit window : ℕ) (pos : 0 < window) where
  open K use {Db}

  -- How many of the hits on k are allowed, among hits on any keys, within one window.
  abbrev pub allowed_hits : String → List String → Db → ℕ
  allowed_hits k [] db = 0
  allowed_hits k (j ∷ js) db =
      let (result, after) = hit K j limit window db in
      let rest = allowed_hits k js after in
      if j == k then (if result.allowed then suc rest else rest) else rest

  pub count-hit :
      (j k : String) (db : Db)
      → K.count k (hit K j limit window db).1
        ≡ (if j == k then suc (K.count k db) else K.count k db)
  unfolding hit
  count-hit j k db = simp (K.count-expire_nx, K.count-incr, pos) refl

  pub hit-allowed :
      (j : String) (db : Db) → (hit K j limit window db).0.allowed ≡ leb (suc (K.count j db)) limit
  unfolding hit judged
  hit-allowed j db = simp (K.incr-reply) (ground arith)

  -- Among any hits on any keys within one window, of positive length, exactly as many hits on
  -- a key are allowed as there are, up to what the limit leaves of the key's count at the
  -- start.
  pub allowed_hits-exact :
      (k : String) (js : List String) (db : Db)
      → allowed_hits k js db ≡ min (occurrences k js) (limit - K.count k db)
  allowed_hits-exact k [] db = omega arith
  allowed_hits-exact k (j ∷ js) db =
      let after = (hit K j limit window db).1 in
      let rest = allowed_hits-exact k js after in
      let counted = count-hit j k db in
      let verdict = hit-allowed j db in
      elim (Bool-cases (j == k)) [
        | inr e ↦ ground (arith, rest, counted, e)
        | inl e ↦
            let same = ap (λ x. leb (suc (K.count x db)) limit) ((eq_iff j k).0 e) in
            ground (arith, rest, counted, e, verdict ∙ same)
      ]

module _ (K : Counters) (window : ℕ) (pos : 0 < window) where
  open K use {Db}

  keys_differ : (ip lowered : String) → (ip_key K ip == user_key K ip lowered) ≡ false
  keys_differ ip lowered =
      eq_false _ _ (append-ne_of_differ "auth:rl:login-ip:" "auth:rl:login:" _ _ refl)

  too_many : (count limit : ℕ) → limit ≤ count → leb (suc count) limit ≡ false
  too_many count limit h = ground (arith, h)

  -- A login from an address whose count has reached the limit is refused with 429 and is not
  -- counted against the user name, for a window of positive length.
  refused_by_address :
      (ip lowered : String) (ip_limit user_limit : ℕ) (db : Db)
      → ip_limit ≤ K.count (ip_key K ip) db
      → ((retry : ℕ) × ((login_rate_limit K ip lowered ip_limit user_limit window db).0
            ≡ err (too_many_requests retry)))
        × (K.count
              (user_key K ip lowered)
              (login_rate_limit K ip lowered ip_limit user_limit window db).1
            ≡ K.count (user_key K ip lowered) db)
  unfolding login_rate_limit second check
  refused_by_address ip lowered ip_limit user_limit db full =
      let first = (hit K (ip_key K ip) ip_limit window db).0 in
      let verdict = hit-allowed K ip_limit window pos (ip_key K ip) db in
      let over = verdict ∙ too_many (K.count (ip_key K ip) db) ip_limit full in
      let counted = count-hit K ip_limit window pos (ip_key K ip) (user_key K ip lowered) db in
      (
        (first.retry_after, rw (over, second) refl),
        rw (over, second) (counted ∙ rw (keys_differ ip lowered) refl),
      )
