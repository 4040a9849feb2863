-- ===== src/AdminSession/Revoked.antt =====
-- Sessions of the admin pages after their revocation (app/core/security/admin_session.py).
use fastapi_project_structur.Common.{
  ℕ, ◌<◌, String, ◌≡◌, sym, ◌∙◌, refl, Bool, true, false, some, List, [], ◌∷◌, arith, eqb, ◌==◌,
  eq_refl, eq_iff, contains, append-ne_of_differ, eq_false, Bool-cases, inl, inr,
}
use mathlib.Core.Path.{subst}
use fastapi_project_structur.Json.{Json, is_truthy}
use fastapi_project_structur.Redis.{Redis}
use fastapi_project_structur.Stored.{Stored, Session}
use fastapi_project_structur.AdminSession.{
  SessionRecord, Settings, key, user_key, user_id_of, ttl, delete, put, index, save, touch,
  delete_all, revoke_user, keep, forget, commit_kept, commit,
}

module _ (R : Redis Stored) (settings : Settings) (now : ℕ) where
  open R use {Db}

  abbrev pub Gone : String → Db → Type 0
  Gone k db = R.exists k db ≡ false

  pub keys_differ :
      (u : Json) (sid : String) → (user_key R settings now u == key R settings now sid) ≡ false
  unfolding user_key key
  keys_differ u sid =
      eq_false _ _ (append-ne_of_differ "admin:user_sessions:" "admin:sess:" _ _ refl)

  pub exists-delete : (k j : String) (db : Db) → Gone j db → Gone j (R.delete k db)
  exists-delete k j db h = elim (Bool-cases (k == j)) [
    | inl e ↦ simp (R.exists-eq, R.get-delete, R.members-delete, e) refl
    | inr e ↦ simp (R.exists-eq, R.get-delete, R.members-delete, e) (sym (R.exists-eq j db) ∙ h)
  ]

  pub delete-Gone : (k : String) (db : Db) → Gone k (R.delete k db)
  delete-Gone k db = simp (R.exists-eq, R.get-delete, R.members-delete, eq_refl) refl

  delete_all-keeps :
      (k : String) (ks : List String) (db : Db)
      → Gone k db
      → Gone k (delete_all R settings now ks db)
  unfolding delete_all
  delete_all-keeps k [] db h = h
  delete_all-keeps k (j ∷ js) db h = delete_all-keeps k js _ (exists-delete j k db h)

  delete_all-Gone :
      (k : String) (ks : List String) (db : Db)
      → contains k ks ≡ true
      → Gone k (delete_all R settings now ks db)
  unfolding delete_all
  delete_all-Gone k [] db h = ground (arith, h)
  delete_all-Gone k (j ∷ js) db h = elim (Bool-cases (j == k)) [
    | inl e ↦
        delete_all-keeps k js _
          (subst (λ x. Gone k (R.delete x db)) (sym ((eq_iff j k).0 e)) (delete-Gone k db))
    | inr e ↦ delete_all-Gone k js _ (ground (arith, h, e))
  ]

  remove-Gone :
      (sid : String) (user_id : Json) (db : Db)
      → Gone (key R settings now sid) db
      → Gone (key R settings now sid) (delete R settings now sid user_id db)
  unfolding delete
  remove-Gone sid user_id db h =
      let k = key R settings now sid in
      let gone = exists-delete k k db h in
      elim (Bool-cases (is_truthy user_id)) [
        | inl e ↦ rw e (
            simp (R.exists-eq, R.get-srem, R.members-srem, keys_differ user_id sid)
              (sym (R.exists-eq k _) ∙ gone))
        | inr e ↦ rw e gone
      ]

  save-Gone :
      (sid : String) (entries : Session) (created_at : ℕ) (db : Db)
      → Gone (key R settings now sid) db
      → Gone (key R settings now sid) (save R settings now sid entries created_at false db)
  unfolding save put index
  save-Gone sid entries created_at db h =
      elim (Bool-cases (eqb (ttl R settings now created_at) 0)) [
        | inl e ↦ rw e (remove-Gone sid (user_id_of entries) db h)
        | inr e ↦ rw (e, R.set_xx-absent _ _ _ db h, index) h
      ]

  pub positive : (n : ℕ) → eqb n 0 ≡ false → 0 < n
  positive n h = ground (arith, h)

  touch-Gone :
      (sid : String) (created_at : ℕ) (db : Db)
      → Gone (key R settings now sid) db
      → Gone (key R settings now sid) (touch R settings now sid created_at db)
  unfolding touch
  touch-Gone sid created_at db h =
      let k = key R settings now sid in
      elim (Bool-cases (eqb (ttl R settings now created_at) 0)) [
        | inl e ↦ rw e (exists-delete k k db h)
        | inr e ↦
            let pos = positive _ e in
            rw e
              (simp (R.exists-eq, R.get-expire, R.members-expire, pos) (sym (R.exists-eq k db) ∙ h))
      ]

  pub forget-Gone :
      (r : SessionRecord) (sid : String) (db : Db)
      → Gone (key R settings now sid) db
      → Gone (key R settings now sid) (forget R settings now (some r) (some sid) db)
  unfolding forget
  forget-Gone r sid db h = elim (Bool-cases (sid == "")) [
    | inl e ↦ rw e h
    | inr e ↦ rw e (remove-Gone sid (user_id_of r.entries) db h)
  ]

  commit-Gone :
      (r : SessionRecord) (sid new_sid : String) (changed : Bool) (entries : Session) (db : Db)
      → Gone (key R settings now sid) db
      → Gone
          (key R settings now sid)
          (commit R settings now (some r) (some sid) false changed new_sid entries db).1
  unfolding commit commit_kept keep
  commit-Gone r sid new_sid changed [] db h = forget-Gone r sid db h
  commit-Gone r sid new_sid true (e ∷ es) db h = save-Gone sid (e ∷ es) r.created_at db h
  commit-Gone r sid new_sid false (e ∷ es) db h = touch-Gone sid r.created_at db h

  -- If the sessions of a user are revoked within a request, the middleware's commit at the
  -- start of the response does not bring the request's own session back, whether its content
  -- changed, stayed or was emptied, when the session was indexed under the user and its id is
  -- not rotated.
  pub revoked_session_stays_gone :
      (user_id : Json) (r : SessionRecord) (sid new_sid : String) (changed : Bool)
      (entries : Session) (db : Db)
      → contains (key R settings now sid) (R.members (user_key R settings now user_id) db) ≡ true
      → R.exists
          (key R settings now sid)
          (commit R settings now
            (some r)
            (some sid)
            false
            changed
            new_sid
            entries
            (revoke_user R settings now user_id db)).1
        ≡ false
  unfolding revoke_user
  revoked_session_stays_gone user_id r sid new_sid changed entries db h =
      commit-Gone r sid new_sid changed entries _
        (delete_all-Gone (key R settings now sid) _ db (rw (keys_differ user_id sid) h))
