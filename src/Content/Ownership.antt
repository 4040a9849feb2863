-- ===== src/Content/Ownership.antt =====
-- Who may change an entry.
use fastapi_project_structur.Common.{
  String, ◌≡◌, ◌↔◌, ◌⊎◌, inl, inr, refl, true, Option, none, some, arith, eq_iff,
}
use fastapi_project_structur.Exceptions.{
  AppException, post_not_found, reply_not_found, sns_post_not_found, forbidden, Result, ok, err,
}
use fastapi_project_structur.Authorization.{Principal, ensure_can_modify}
use fastapi_project_structur.Content.{
  Entry, Repository, found, get, modifiable, write, update, erase, delete, or_existing,
}
use fastapi_project_structur.Content.Blog.{update_post, delete_post}
use fastapi_project_structur.Content.Replies.{update_reply, delete_reply}
use fastapi_project_structur.Content.Sns

-- A superuser, or the author.
unfoldable pub MayModify : {F : Type 0} → Entry F → Principal → Type 0
MayModify entry principal = (principal.is_superuser ≡ true) ⊎ (entry.author_id ≡ some principal.id)

ensure_iff :
    (owner : Option String) (p : Principal)
    → (ensure_can_modify owner p ≡ ok tt) ↔ ((p.is_superuser ≡ true) ⊎ (owner ≡ some p.id))
unfolding ensure_can_modify
ensure_iff none p = ground arith
ensure_iff (some o) p = ground (arith, eq_iff o p.id)

ensure-cases :
    (owner : Option String) (p : Principal)
    → (ensure_can_modify owner p ≡ ok tt) ⊎ (ensure_can_modify owner p ≡ err forbidden)
unfolding ensure_can_modify
ensure-cases owner p = ground arith

clash : ◌≡◌ {A = Result (Unit {0})} (ok tt) (err forbidden) → ⊥
clash h = cc

module _ {F Changes : Type 0} (repository : Repository F Changes) (missing : AppException) where
  open repository use {Table}

  may_not :
      (entry : Entry F) (p : Principal)
      → (MayModify entry p → ⊥)
      → ensure_can_modify entry.author_id p ≡ err forbidden
  unfolding MayModify
  may_not entry p no_right = elim (ensure-cases entry.author_id p) [
    | inl passed ↦ absurd (no_right ((ensure_iff entry.author_id p).0 passed))
    | inr stopped ↦ stopped
  ]

  modifiable-foreign :
      (id : String) (p : Principal) (table : Table) (entry : Entry F)
      → repository.get_by_id id table ≡ some entry
      → (MayModify entry p → ⊥)
      → modifiable repository missing id p table ≡ err forbidden
  unfolding modifiable get found
  modifiable-foreign id p table entry there no_right = rw (there, may_not entry p no_right) refl

  pub foreign_change_refused :
      (id : String) (changes : Changes) (p : Principal) (table : Table) (entry : Entry F)
      → repository.get_by_id id table ≡ some entry
      → (MayModify entry p → ⊥)
      → (update repository missing id changes p table ≡ (err forbidden, table))
        × (delete repository missing id p table ≡ (err forbidden, table))
  unfolding update delete write erase
  foreign_change_refused id changes p table entry there no_right =
      let stopped = modifiable-foreign id p table entry there no_right in
      (rw (stopped, write) refl, rw (stopped, erase) refl)

  -- The author and a superuser can change an entry: the result is what the repository returns,
  -- or the entry as it was if the repository changed no row; and a deletion by them leaves the
  -- table that the repository leaves.
  own_change_made :
      (id : String) (changes : Changes) (p : Principal) (table : Table) (entry : Entry F)
      → repository.get_by_id id table ≡ some entry
      → MayModify entry p
      → (update repository missing id changes p table ≡ (
        ok (or_existing repository missing (repository.update id changes table).0 entry),
        (repository.update id changes table).1,
      ))
        × ((delete repository missing id p table).1 ≡ (repository.delete id table).1)
  unfolding update delete write erase modifiable get found MayModify
  own_change_made id changes p table entry there right =
      let passed = (ensure_iff entry.author_id p).1 right in
      (rw (there, passed) refl, rw (there, passed) refl)

-- Each of the three services, for the same entry.
module _ {F Changes : Type 0} (repository : Repository F Changes) where
  open repository use {Table}

  -- In the services of blog, reply and sns, a principal who is neither the author nor a
  -- superuser can neither change nor delete an entry: each attempt is refused with Forbidden
  -- and leaves the table as it was.
  pub services_refuse :
      (id : String) (changes : Changes) (p : Principal) (table : Table) (entry : Entry F)
      → repository.get_by_id id table ≡ some entry
      → (MayModify entry p → ⊥)
      → (update_post repository id changes p table ≡ (err forbidden, table))
        × (delete_post repository id p table ≡ (err forbidden, table))
        × (update_reply repository id changes p table ≡ (err forbidden, table))
        × (delete_reply repository id p table ≡ (err forbidden, table))
        × (Sns.update_post repository id changes p table ≡ (err forbidden, table))
        × (Sns.delete_post repository id p table ≡ (err forbidden, table))
  unfolding update_post delete_post update_reply delete_reply Sns.update_post Sns.delete_post
  services_refuse id changes p table entry there no_right =
      let blog =
        foreign_change_refused repository post_not_found id changes p table entry there no_right in
      let reply =
        foreign_change_refused repository reply_not_found id changes p table entry there no_right in
      let sns =
        foreign_change_refused repository sns_post_not_found id changes p table entry there
          no_right in
      (blog.0, blog.1, reply.0, reply.1, sns.0, sns.1)
