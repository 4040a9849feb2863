-- ===== src/Content/Replies.antt =====
-- app/features/reply/services/reply_service.py.
use fastapi_project_structur.Common.{ℕ, String, List}
use fastapi_project_structur.Exceptions.{reply_not_found, Result}
use fastapi_project_structur.Authorization.{Principal}
use fastapi_project_structur.Content.{Entry, Repository, create, get, list, update, delete}

module _ {F Changes : Type 0} (repository : Repository F Changes) where
  open repository use {Table}

  unfoldable pub create_reply : F → Principal → Table → Entry F × Table
  create_reply = create repository reply_not_found

  unfoldable pub get_reply : String → Table → Result (Entry F)
  get_reply = get repository reply_not_found

  unfoldable pub list_replies : ℕ → ℕ → Table → List (Entry F) × ℕ
  list_replies = list repository reply_not_found

  unfoldable pub update_reply : String → Changes → Principal → Table → Result (Entry F) × Table
  update_reply = update repository reply_not_found

  unfoldable pub delete_reply : String → Principal → Table → Result (Unit {0}) × Table
  delete_reply = delete repository reply_not_found
