-- ===== src/AdminSession.antt =====
-- app/core/security/admin_session.py: the sessions of the admin pages, kept in Redis, and what the
-- middleware does with one when the response starts. The HMAC of a session id and `str` of a user
-- id are parameters; times are in seconds.
pub mod Revoked
pub mod Indexed
pub mod Rotated
use fastapi_project_structur.Common.{
  ℕ, ◌+◌, ◌-◌, String, Bool, true, false, not, ◌&&◌, ◌||◌, Option, none, some, List, [], ◌∷◌, ◌==◌,
  ◌+++◌, eqb, min, is_empty, is_some, if◌then◌else◌,
}
use fastapi_project_structur.Json.{Json, null, is_truthy}
use fastapi_project_structur.Redis.{Redis}
use fastapi_project_structur.Stored.{Stored, Session, SessionPayload, session}

-- What `load` returns.
pub record SessionRecord : Type 0 where
  pub entries : Session
  pub created_at : ℕ

-- data.get(name), null where it is missing
unfoldable pub get_entry : String → Session → Json
get_entry name [] = null
get_entry name ((key, value) ∷ rest) =
    let later = get_entry name rest in if key == name then value else later

unfoldable pub user_id_of : Session → Json
user_id_of entries = get_entry "user_id" entries

pub record Settings : Type 0 where
  pub max_age : ℕ
  pub idle : ℕ
  -- hmac.new(secret, sid, sha256).hexdigest()
  pub digest : String → String
  pub str : Json → String

module _ (R : Redis Stored) (settings : Settings) (now : ℕ) where
  open R use {Db}

  unfoldable pub key : String → String
  key sid = "admin:sess:" +++ settings.digest sid

  unfoldable pub user_key : Json → String
  user_key user_id = "admin:user_sessions:" +++ settings.str user_id

  -- 0 where it is expired
  unfoldable pub ttl : ℕ → ℕ
  ttl created_at = min settings.idle (created_at + settings.max_age - now)

  pub delete : String → Json → Db → Db
  delete sid user_id db =
      let gone = R.delete (key sid) db in
      if is_truthy user_id then R.srem (user_key user_id) (key sid) gone else gone

  pub loaded : String → Option Stored → Db → Option SessionRecord × Db
  loaded sid (some (session p)) db =
      if eqb (ttl p.created_at) 0
      then (none, delete sid (user_id_of p.entries) db)
      else (some (record { entries = p.entries; created_at = p.created_at }), db)
  loaded sid _ db = (none, db)

  pub load : String → Db → Option SessionRecord × Db
  load sid db = loaded sid (R.get (key sid) db) db

  -- SET, or SET … XX
  unfoldable pub put : String → Stored → ℕ → Bool → Db → Bool × Db
  put k value t true db = (true, R.set k value t db)
  put k value t false db = R.set_xx k value t db

  unfoldable pub index : String → Json → Bool × Db → Db
  index sid user_id (false, db) = db
  index sid user_id (true, db) =
      if is_truthy user_id
      then R.expire (user_key user_id) settings.max_age (R.sadd (user_key user_id) (key sid) db)
      else db

  unfoldable pub save : String → Session → ℕ → (create : Bool) → Db → Db
  save sid entries created_at create db =
      let user_id = user_id_of entries in
      let value =
        session (record { entries = entries; user_id = user_id; created_at = created_at }) in
      if eqb (ttl created_at) 0
      then delete sid user_id db
      else index sid user_id (put (key sid) value (ttl created_at) create db)

  pub touch : String → ℕ → Db → Db
  touch sid created_at db =
      if eqb (ttl created_at) 0
      then R.delete (key sid) db
      else R.expire (key sid) (ttl created_at) db

  -- redis.delete(user_key, *keys)
  unfoldable pub delete_all : List String → Db → Db
  delete_all [] db = db
  delete_all (k ∷ ks) db = delete_all ks (R.delete k db)

  unfoldable pub revoke_user : Json → Db → Db
  revoke_user user_id db = delete_all (user_key user_id ∷ R.members (user_key user_id) db) db

  -- The cookie in the response.
  pub data Cookie : Type 0 where
    unchanged cleared : Cookie
    renewed : String → Cookie

  pub forget : Option SessionRecord → Option String → Db → Db
  forget (some r) (some sid) db =
      if not (sid == "") then delete sid (user_id_of r.entries) db else db
  forget _ _ db = db

  abbrev pub is_given : Option String → Bool
  is_given none = false
  is_given (some sid) = not (sid == "")

  pub keep : Option String → SessionRecord → (changed : Bool) → Session → Db → Db
  keep none r changed entries db = db
  keep (some sid) r true entries db = save sid entries r.created_at false db
  keep (some sid) r false entries db = touch sid r.created_at db

  -- `changed` is `session != initial`; `new_sid` the value of token_urlsafe
  pub commit_kept :
      Option SessionRecord
      → (sid : Option String) → (rotate changed : Bool) → (new_sid : String) → Session
      → Db
      → Cookie × Db
  commit_kept none sid rotate changed new_sid entries db =
      (renewed new_sid, save new_sid entries now true db)
  commit_kept (some r) sid rotate changed new_sid entries db =
      if rotate
      then (renewed new_sid, save new_sid entries now true (forget (some r) sid db))
      else (unchanged, keep sid r changed entries db)

  pub commit :
      Option SessionRecord
      → (sid : Option String) → (rotate changed : Bool) → (new_sid : String) → Session
      → Db
      → Cookie × Db
  commit r sid rotate changed new_sid entries db =
      if is_empty entries
      then (if is_given sid then cleared else unchanged, forget r sid db)
      else commit_kept r sid rotate changed new_sid entries db
