-- ===== src/AdminSession/Rotated.antt =====
-- A session whose id is rotated leaves nothing under the old id (app/core/security/admin_session.py).
use fastapi_project_structur.Common.{
  ℕ, ◌<◌, ◌+◌, ◌-◌, min, String, ◌≡◌, sym, ◌∙◌, Bool, true, false, some, ◌∷◌, arith, eqb, ◌==◌,
  Bool-cases, inl, inr,
}
use fastapi_project_structur.Json.{Json, is_truthy}
use fastapi_project_structur.Redis.{Redis}
use fastapi_project_structur.Stored.{Stored, Session}
use fastapi_project_structur.AdminSession.{
  SessionRecord, Settings, key, user_key, user_id_of, ttl, delete, put, index, save, forget,
  commit_kept, commit,
}
use fastapi_project_structur.AdminSession.Revoked.{
  Gone, exists-delete, delete-Gone, keys_differ, positive,
}

module _ (R : Redis Stored) (settings : Settings) (now : ℕ) where
  open R use {Db}

  abbrev K : String → String
  K sid = key R settings now sid

  abbrev U : Json → String
  U user_id = user_key R settings now user_id

  abbrev IsGone : String → Db → Type 0
  IsGone sid db = Gone R settings now (K sid) db

  srem-Gone :
      (sid m : String) (user_id : Json) (db : Db)
      → IsGone sid db
      → IsGone sid (R.srem (U user_id) m db)
  srem-Gone sid m user_id db h =
      simp (R.exists-eq, R.get-srem, R.members-srem, keys_differ R settings now user_id sid)
        (sym (R.exists-eq (K sid) db) ∙ h)

  deleted-Gone :
      (sid other : String) (user_id : Json) (db : Db)
      → IsGone sid db
      → IsGone sid (delete R settings now other user_id db)
  unfolding delete
  deleted-Gone sid other user_id db h =
      let gone = exists-delete R settings now (K other) (K sid) db h in
      elim (Bool-cases (is_truthy user_id)) [
        | inl e ↦ rw e (srem-Gone sid _ user_id _ gone)
        | inr e ↦ rw e gone
      ]

  delete_own-Gone :
      (sid : String) (user_id : Json) (db : Db) → IsGone sid (delete R settings now sid user_id db)
  unfolding delete
  delete_own-Gone sid user_id db =
      let gone = delete-Gone R settings now (K sid) db in
      elim (Bool-cases (is_truthy user_id)) [
        | inl e ↦ rw e (srem-Gone sid _ user_id _ gone)
        | inr e ↦ rw e gone
      ]

  set-Gone :
      (sid other : String) (v : Stored) (t : ℕ) (db : Db)
      → 0 < t
      → (K other == K sid) ≡ false
      → IsGone sid db
      → IsGone sid (R.set (K other) v t db)
  set-Gone sid other v t db pos differ h =
      simp (R.exists-eq, R.get-set, R.members-set, differ, pos) (sym (R.exists-eq (K sid) db) ∙ h)

  indexed-Gone :
      (sid : String) (user_id : Json) (m : String) (db : Db)
      → 0 < settings.max_age
      → IsGone sid db
      → IsGone sid (R.expire (U user_id) settings.max_age (R.sadd (U user_id) m db))
  indexed-Gone sid user_id m db pos h =
      simp
        (
          R.exists-eq,
          R.get-expire,
          R.members-expire,
          R.get-sadd,
          R.members-sadd_ne,
          keys_differ R settings now user_id sid,
          pos,
        )
        (sym (R.exists-eq (K sid) db) ∙ h)

  max_age_positive :
      (idle max_age : ℕ) → eqb (min idle (now + max_age - now)) 0 ≡ false → 0 < max_age
  max_age_positive idle max_age h = ground arith

  new-Gone :
      (sid new_sid : String) (entries : Session) (db : Db)
      → (K new_sid == K sid) ≡ false
      → IsGone sid db
      → IsGone sid (save R settings now new_sid entries now true db)
  unfolding save put index ttl
  new-Gone sid new_sid entries db differ h =
      elim (Bool-cases (eqb (min settings.idle (now + settings.max_age - now)) 0)) [
        | inl e ↦ rw e (deleted-Gone sid new_sid (user_id_of entries) db h)
        | inr e ↦
            let set = set-Gone sid new_sid _ _ db (positive R settings now _ e) differ h in
            elim (Bool-cases (is_truthy (user_id_of entries))) [
              | inl t ↦ rw (e, t) (indexed-Gone sid _ _ _ (max_age_positive settings.idle _ e) set)
              | inr t ↦ rw (e, t) set
            ]
      ]

  pub commit_rotated-Gone :
      (r : SessionRecord) (sid new_sid : String) (changed : Bool) (entry : String × Json)
      (entries : Session) (db : Db)
      → (sid == "") ≡ false
      → (K new_sid == K sid) ≡ false
      → IsGone sid
          (commit R settings now (some r) (some sid) true changed new_sid (entry ∷ entries) db).1
  unfolding commit commit_kept forget
  commit_rotated-Gone r sid new_sid changed entry entries db given differ =
      new-Gone sid new_sid (entry ∷ entries) _ differ (rw given (delete_own-Gone sid _ db))
