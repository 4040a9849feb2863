-- ===== src/Content/Sns.antt =====
-- app/features/sns/services/sns_service.py.
use fastapi_project_structur.Common.{ℕ, String, List}
use fastapi_project_structur.Exceptions.{sns_post_not_found, Result}
use fastapi_project_structur.Authorization.{Principal}
use fastapi_project_structur.Content.{Entry, Repository, create, get, list, update, delete}

module _ {F Changes : Type 0} (repository : Repository F Changes) where
  open repository use {Table}

  unfoldable pub create_post : F → Principal → Table → Entry F × Table
  create_post = create repository sns_post_not_found

  unfoldable pub get_post : String → Table → Result (Entry F)
  get_post = get repository sns_post_not_found

  unfoldable pub list_posts : ℕ → ℕ → Table → List (Entry F) × ℕ
  list_posts = list repository sns_post_not_found

  unfoldable pub update_post : String → Changes → Principal → Table → Result (Entry F) × Table
  update_post = update repository sns_post_not_found

  unfoldable pub delete_post : String → Principal → Table → Result (Unit {0}) × Table
  delete_post = delete repository sns_post_not_found
