-- ===== src/AdminSession/Indexed.antt =====
-- The index of a user's admin sessions (app/core/security/admin_session.py) has keys of sessions only,
-- which the ends of a user's sessions rely on.
use fastapi_project_structur.Common.{
  ℕ, ◌<◌, String, ◌≡◌, refl, sym, ◌∙◌, inl, inr, ◌||◌, Bool, true, false, List, [], ◌∷◌, arith,
  ◌==◌, eqb, contains, without, eq_iff, eq_false, append-ne_of_differ, Bool-cases, if◌then◌else◌,
}
use fastapi_project_structur.Json.{Json, is_truthy}
use fastapi_project_structur.Redis.{Redis}
use fastapi_project_structur.Stored.{Stored, Session}
use fastapi_project_structur.AdminSession.{
  Settings, key, user_key, user_id_of, ttl, delete, put, index, save,
}

module _ (R : Redis Stored) (settings : Settings) (now : ℕ) where
  open R use {Db}

  -- the members of a set are keys of sessions
  unfoldable pub Indexed : String → Db → Type 0
  Indexed set db =
      (k : String)
      → contains k (R.members set db) ≡ true
      → (sid : String) × (k ≡ key R settings now sid)

  moved :
      (set : String) (db after : Db)
      → R.members set after ≡ R.members set db
      → Indexed set db
      → Indexed set after
  unfolding Indexed
  moved set db after same h k e = h k (rw same at e)

  key-ne-user_key :
      (sid : String) (u : Json) → (key R settings now sid == user_key R settings now u) ≡ false
  unfolding key user_key
  key-ne-user_key sid u =
      eq_false _ _ (append-ne_of_differ "admin:sess:" "admin:user_sessions:" _ _ refl)

  contains-without :
      (k m : String) (xs : List String) → contains k (without m xs) ≡ true → contains k xs ≡ true
  contains-without k m [] h = h
  contains-without k m (x ∷ xs) h = elim (Bool-cases (m_is x)) [
    | inl e ↦ ground (arith, contains-without k m xs, h, e)
    | inr e ↦ ground (arith, contains-without k m xs, h, e)
  ]
    where
      m_is : String → Bool
      m_is y = y == m

  chosen :
      (k m : String) (b : Bool) (xs : List String)
      → contains k (if b then without m xs else xs) ≡ true
      → contains k xs ≡ true
  chosen k m true xs h = contains-without k m xs h
  chosen k m false xs h = h

  srem-Indexed : (set other m : String) (db : Db) → Indexed set db → Indexed set (R.srem other m db)
  unfolding Indexed
  srem-Indexed set other m db h k e = h k (chosen k m _ _ (rw (R.members-srem other m set db) at e))

  sadd-Indexed :
      (set other sid : String) (db : Db)
      → Indexed set db
      → Indexed set (R.sadd other (key R settings now sid) db)
  unfolding Indexed
  sadd-Indexed set other sid db h k e = elim (Bool-cases (other == set)) [
    | inr apart ↦ h k (rw (R.members-sadd_ne other _ set db apart) at e)
    | inl same ↦ elim (Bool-cases (key R settings now sid == k)) [
      | inl new ↦ (sid, sym ((eq_iff _ k).0 new))
      | inr old ↦ h k (
          left_over _ _ old (
            sym (R.members-sadd set (key R settings now sid) db k)
            ∙ (rw ((eq_iff other set).0 same) at e)))
    ]
  ]
    where
      left_over : (a b : Bool) → a ≡ false → (a || b) ≡ true → b ≡ true
      left_over a b h e = ground (arith, h, e)

  -- the index of a user
  abbrev IndexOf : Json → Db → Type 0
  IndexOf u db = Indexed (user_key R settings now u) db

  gone-Indexed :
      (u : Json) (sid : String) (db : Db)
      → IndexOf u db
      → IndexOf u (R.delete (key R settings now sid) db)
  gone-Indexed u sid db h =
      moved (user_key R settings now u) db _
        (R.members-delete _ _ db ∙ rw (key-ne-user_key sid u) refl) h

  set-Indexed :
      (u : Json) (sid : String) (v : Stored) (t : ℕ) (db : Db)
      → IndexOf u db
      → IndexOf u (R.set (key R settings now sid) v t db)
  set-Indexed u sid v t db h =
      moved (user_key R settings now u) db _ (R.members-set _ _ v t db (key-ne-user_key sid u)) h

  delete-Indexed :
      (u v : Json) (sid : String) (db : Db)
      → IndexOf u db
      → IndexOf u (delete R settings now sid v db)
  unfolding delete
  delete-Indexed u v sid db h = elim (Bool-cases (is_truthy v)) [
    | inl e ↦ rw e (srem-Indexed _ _ _ _ (gone-Indexed u sid db h))
    | inr e ↦ rw e (gone-Indexed u sid db h)
  ]

  put-Indexed :
      (u : Json) (sid : String) (v : Stored) (t : ℕ) (create : Bool) (db : Db)
      → IndexOf u db
      → IndexOf u ((put R settings now (key R settings now sid) v t create db).1)
  unfolding put
  put-Indexed u sid v t true db h = set-Indexed u sid v t db h
  put-Indexed u sid v t false db h = elim (Bool-cases (R.exists (key R settings now sid) db)) [
    | inl e ↦ rw (R.set_xx-present _ v t db e) (set-Indexed u sid v t db h)
    | inr e ↦ rw (R.set_xx-absent _ v t db e) h
  ]

  index-Indexed :
      (u v : Json) (sid : String) (x : Bool × Db)
      → 0 < settings.max_age
      → IndexOf u (x.1)
      → IndexOf u (index R settings now sid v x)
  unfolding index
  index-Indexed u v sid (false, db) lives h = h
  index-Indexed u v sid (true, db) lives h = elim (Bool-cases (is_truthy v)) [
    | inl e ↦ rw e (
        moved (user_key R settings now u) _ _ (R.members-expire _ _ _ _ lives)
          (sadd-Indexed _ _ sid db h))
    | inr e ↦ rw e h
  ]

  -- Saving a session keeps the index of any user one of sessions, if sessions live for some time.
  save-Indexed :
      (u : Json) (sid : String) (entries : Session) (created_at : ℕ) (create : Bool) (db : Db)
      → 0 < settings.max_age
      → Indexed (user_key R settings now u) db
      → Indexed (user_key R settings now u) (save R settings now sid entries created_at create db)
  unfolding save
  save-Indexed u sid entries created_at create db lives h =
      elim (Bool-cases (eqb (ttl R settings now created_at) 0)) [
        | inl e ↦ rw e (delete-Indexed u (user_id_of entries) sid db h)
        | inr e ↦
            rw e
              (index-Indexed u (user_id_of entries) sid _ lives (put-Indexed u sid _ _ create db h))
      ]
