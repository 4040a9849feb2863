-- ===== src/Content.antt =====
-- The services of blog, reply and sns (app/features/*/services): entries that their author or a
-- superuser changes. The repository over the database session is a parameter: its queries, and
-- what they answer.
pub mod Ownership
pub mod Blog
pub mod Replies
pub mod Sns
use fastapi_project_structur.Common.{
  ℕ, String, Bool, true, false, not, Option, none, some, List, ◌==◌, if◌then◌else◌,
}
use fastapi_project_structur.Exceptions.{
  AppException, post_not_found, reply_not_found, sns_post_not_found, Result, ok, err, and_then,
}
use fastapi_project_structur.Authorization.{Principal, ensure_can_modify}

-- An entry's author, beside its other fields.
pub record Entry (F : Type 0) : Type 0 where
  pub id : String
  pub author_id : Option String
  pub author : String
  pub fields : F

-- What a repository does: `update` replies none where no row changed, `delete` whether one went.
pub record Repository (F Changes : Type 0) : Type 1 where
  pub Table : Type 0
  pub get_by_id : String → Table → Option (Entry F)
  pub get_all : ℕ → ℕ → Table → List (Entry F)
  pub count : Table → ℕ
  pub create : F → (author_id author : String) → Table → Entry F × Table
  pub update : String → Changes → Table → Option (Entry F) × Table
  pub delete : String → Table → Bool × Table

module _ {F Changes : Type 0} (repository : Repository F Changes) (missing : AppException) where
  open repository use {Table}

  pub create : F → Principal → Table → Entry F × Table
  create values principal table = repository.create values principal.id principal.username table

  pub found : Option (Entry F) → Result (Entry F)
  found none = err missing
  found (some entry) = ok entry

  pub get : String → Table → Result (Entry F)
  get id table = found (repository.get_by_id id table)

  pub list : ℕ → ℕ → Table → List (Entry F) × ℕ
  list skip limit table = (repository.get_all skip limit table, repository.count table)

  -- the entry, if this principal may change it
  pub modifiable : String → Principal → Table → Result (Entry F)
  modifiable id principal table =
      and_then
        (λ existing. and_then (λ _. ok existing) (ensure_can_modify existing.author_id principal))
        (get id table)

  abbrev pub or_existing : Option (Entry F) → Entry F → Entry F
  or_existing none existing = existing
  or_existing (some updated) existing = updated

  pub write : Result (Entry F) → String → Changes → Table → Result (Entry F) × Table
  write (err e) id changes table = (err e, table)
  write (ok existing) id changes table =
      let (updated, table') = repository.update id changes table in
      (ok (or_existing updated existing), table')

  pub update : String → Changes → Principal → Table → Result (Entry F) × Table
  update id changes principal table = write (modifiable id principal table) id changes table

  pub erase : Result (Entry F) → String → Table → Result (Unit {0}) × Table
  erase (err e) id table = (err e, table)
  erase (ok existing) id table =
      let (deleted, table') = repository.delete id table in
      (if not deleted then err missing else ok tt, table')

  pub delete : String → Principal → Table → Result (Unit {0}) × Table
  delete id principal table = erase (modifiable id principal table) id table
