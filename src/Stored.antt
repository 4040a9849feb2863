-- ===== src/Stored.antt =====
-- The values that the program keeps under Redis keys, as JSON texts or as a mark.
use fastapi_project_structur.Common.{ℕ, String, List}
use fastapi_project_structur.Json.{Json}

-- app/core/security/refresh_store.py
pub record RefreshRecord : Type 0 where
  pub fam : String
  pub sub : String

-- The dictionary of a session: its keys are distinct texts.
abbrev pub Session : Type 0
Session = List (String × Json)

-- app/core/security/admin_session.py: the JSON object that `save` writes
pub record SessionPayload : Type 0 where
  pub entries : Session
  pub user_id : Json
  pub created_at : ℕ

pub data Stored : Type 0 where
  refresh_record : RefreshRecord → Stored
  session : SessionPayload → Stored
  -- the number 1 under the key of a revoked family
  mark : Stored
