-- ===== src/Repository/Endings.antt =====
-- How the parts of a repository's methods end, and the state that they leave
-- (app/core/repositories).
use fastapi_project_structur.Common.{
  String, ◌≡◌, refl, ap, ◌⊎◌, inl, inr, Bool, true, false, not, List, ◌∷◌, if◌then◌else◌, arith,
}
use fastapi_project_structur.Repository.{
  Model, Session, Sql, routing_error, sql_error, done, Outcome, routing_failed, raised, returned,
  flush, reread, db_error,
}
use fastapi_project_structur.Repository.Requests.{Reply, continue, before, replying}

pub taken :
    {A : Type 0} {x y z : A} (b : Bool)
    → (if b then x else y) ≡ z
    → ((b ≡ true) × (x ≡ z)) ⊎ ((b ≡ false) × (y ≡ z))
taken true h = inl (refl, h)
taken false h = inr (refl, h)

pub either :
    {A : Type 0} {B : Type 0} (f : A → B) {x y : A} {z : B} (b : Bool)
    → f x ≡ z
    → f y ≡ z
    → f (if b then x else y) ≡ z
either f true h k = h
either f false h k = k

pub unnegated : (b : Bool) → not b ≡ false → b ≡ true
unnegated b h = ground arith

pub returned_eq : {A : Type 0} {a b : A} → returned a ≡ returned b → a ≡ b
returned_eq h = cc h

module _ {model : Model} (session : Session model) where
  open model use {Row}
  open session use {State}

  -- a flush that succeeds is the library's
  pub flush_done : (s t : State) → flush session s ≡ (done tt, t) → session.flush s ≡ (done tt, t)
  unfolding flush
  flush_done s t h = elim (taken (session.routing s).read_only h) [
    | inl (_, e) ↦ absurd (cc (ap (λ p. p.0) e))
    | inr (_, e) ↦ e
  ]

  pub flush_refused :
      (s : State) → (session.routing s).read_only ≡ true → flush session s ≡ (routing_error, s)
  unfolding flush
  flush_refused s h = ap (λ b. if b then (routing_error, s) else session.flush s) h

  pub reread_done :
      (e r : Row) (x : Sql (Unit {0}) × State) (t : State)
      → reread session e x ≡ (done r, t)
      → (x ≡ (done tt, t)) × (session.refresh e t ≡ done r)
  unfolding reread
  reread_done e r (routing_error, s) t h = absurd (cc (ap (λ p. p.0) h))
  reread_done e r (sql_error _, s) t h = absurd (cc (ap (λ p. p.0) h))
  reread_done e r (done tt, s) t h =
      let same_state = ap (λ p. p.1) h in
      (ap (λ u. (done tt, u)) same_state, rw (← same_state) (ap (λ p. p.0) h))

  pub db_error_returned :
      {A B : Type 0} (reply : A → B) (operation : String) (x : Sql A × State) (b : B) (t : State)
      → db_error session reply operation x ≡ (returned b, t)
      → (a : A) × (b ≡ reply a) × (x ≡ (done a, t))
  unfolding db_error
  db_error_returned reply operation (routing_error, s) b t h = absurd (cc (ap (λ p. p.0) h))
  db_error_returned reply operation (sql_error _, s) b t h = absurd (cc (ap (λ p. p.0) h))
  db_error_returned reply operation (done a, s) b t h =
      (a, cc (ap (λ p. p.0) h), ap (λ u. (done a, u)) (ap (λ p. p.1) h))

  pub replying_returned :
      {A : Type 0} (reply : A → Reply model) (x : Outcome A × State) (r : Reply model) (t : State)
      → replying session reply x ≡ (returned r, t)
      → (a : A) × (r ≡ reply a) × (x ≡ (returned a, t))
  unfolding replying
  replying_returned reply (routing_failed, s) r t h = absurd (cc (ap (λ p. p.0) h))
  replying_returned reply (raised _, s) r t h = absurd (cc (ap (λ p. p.0) h))
  replying_returned reply (returned a, s) r t h =
      (a, cc (ap (λ p. p.0) h), ap (λ u. (returned a, u)) (ap (λ p. p.1) h))

  pub reread_state : (e : Row) (x : Sql (Unit {0}) × State) → (reread session e x).1 ≡ x.1
  unfolding reread
  reread_state e (routing_error, s) = refl
  reread_state e (sql_error _, s) = refl
  reread_state e (done _, s) = refl

  pub db_error_state :
      {A B : Type 0} (reply : A → B) (operation : String) (x : Sql A × State)
      → (db_error session reply operation x).1 ≡ x.1
  unfolding db_error
  db_error_state reply operation (routing_error, s) = refl
  db_error_state reply operation (sql_error _, s) = refl
  db_error_state reply operation (done _, s) = refl

  pub replying_state :
      {A : Type 0} (reply : A → Reply model) (x : Outcome A × State)
      → (replying session reply x).1 ≡ x.1
  unfolding replying
  replying_state reply (routing_failed, s) = refl
  replying_state reply (raised _, s) = refl
  replying_state reply (returned _, s) = refl

  pub before_returned :
      (reply : Reply model) (x : Outcome (List (Reply model)) × State) (rs : List (Reply model))
      (t : State)
      → before session reply x ≡ (returned rs, t)
      → (rs' : List (Reply model)) × (rs ≡ reply ∷ rs') × (x ≡ (returned rs', t))
  unfolding before
  before_returned reply (routing_failed, s) rs t h = absurd (cc (ap (λ p. p.0) h))
  before_returned reply (raised _, s) rs t h = absurd (cc (ap (λ p. p.0) h))
  before_returned reply (returned rs', s) rs t h =
      (rs', cc (ap (λ p. p.0) h), ap (λ u. (returned rs', u)) (ap (λ p. p.1) h))

  pub continue_returned :
      (rest : State → Outcome (List (Reply model)) × State) (x : Outcome (Reply model) × State)
      (rs : List (Reply model)) (t : State)
      → continue session rest x ≡ (returned rs, t)
      → (r : Reply model) × (u : State) × (x ≡ (returned r, u))
        × (before session r (rest u) ≡ (returned rs, t))
  unfolding continue
  continue_returned rest (routing_failed, s) rs t h = absurd (cc (ap (λ p. p.0) h))
  continue_returned rest (raised _, s) rs t h = absurd (cc (ap (λ p. p.0) h))
  continue_returned rest (returned r, u) rs t h = (r, u, refl, h)

  pub before_state :
      (reply : Reply model) (x : Outcome (List (Reply model)) × State)
      → (before session reply x).1 ≡ x.1
  unfolding before
  before_state reply (routing_failed, s) = refl
  before_state reply (raised _, s) = refl
  before_state reply (returned _, s) = refl
