-- ===== src/RefreshStore.antt =====
-- app/core/security/refresh_store.py: refresh tokens that are consumed once, and the families
-- that are revoked. The database is the one of Redis.antt.
pub mod Keys
pub mod Effects
use fastapi_project_structur.Common.{ℕ, String, Bool, Option, List, [], ◌∷◌, ◌+++◌}
use fastapi_project_structur.Redis.{Redis}
use fastapi_project_structur.Stored.{RefreshRecord, Stored, refresh_record, mark}

unfoldable pub token_key : String → String
token_key jti = "auth:rt:" +++ jti

unfoldable pub user_key : String → String
user_key sub = "auth:user:" +++ (sub +++ ":fams")

unfoldable pub revoked_key : String → String
revoked_key fam = "auth:fam:" +++ (fam +++ ":revoked")

module _ (R : Redis Stored) (ttl : ℕ) where
  open R use {Db}

  -- the three commands of one transaction
  unfoldable pub register : (jti sub fam : String) → Db → Db
  register jti sub fam db = R.expire (user_key sub) ttl (
      R.sadd (user_key sub) fam
        (R.set (token_key jti) (refresh_record (record { fam = fam; sub = sub })) ttl db))

  -- `none`: used before, or not known
  pub consume : String → Db → Option Stored × Db
  consume jti db = R.getdel (token_key jti) db

  pub revoke_family : String → Db → Db
  revoke_family fam db = R.set (revoked_key fam) mark ttl db

  unfoldable pub is_family_revoked : String → Db → Bool
  is_family_revoked fam db = R.exists (revoked_key fam) db

  -- the loop over the families of a user
  unfoldable pub revoke_all : List String → Db → Db
  revoke_all [] db = db
  revoke_all (fam ∷ families) db = revoke_all families (R.set (revoked_key fam) mark ttl db)

  unfoldable pub revoke_user : String → Db → Db
  revoke_user sub db = R.delete (user_key sub) (revoke_all (R.members (user_key sub) db) db)
