-- ===== src/Examples/Sessions.antt =====
-- Examples of the ends of sessions: users, admin sessions, rate limits and entries.
use fastapi_project_structur.Common.{
  Bool, ℕ, suc, String, ◌≡◌, refl, sym, true, false, none, some, List, [], ◌∷◌, arith, ◌==◌,
  if◌then◌else◌, contains, eq_iff, inl, inr,
}
use fastapi_project_structur.Json.{Json, text}
use fastapi_project_structur.Exceptions.{err, forbidden, privileged_field}
use fastapi_project_structur.Redis.{Redis}
use fastapi_project_structur.Redis.Memory.{Tables, empty, memory}
use fastapi_project_structur.Stored.{Stored, Session}
use fastapi_project_structur.RefreshStore.{user_key, is_family_revoked}
use fastapi_project_structur.AuthService.{User}
use fastapi_project_structur.Authorization.{Principal}
use fastapi_project_structur.UserService.{
  UserUpdate, Users, has_privileged_field, update_user, admin_store,
}
use fastapi_project_structur.AdminSession.Indexed.{Indexed}
use fastapi_project_structur.UserService.Index.{IndexesSessions}
use fastapi_project_structur.UserService.Revoking.{
  Loses, update_user-ends_sessions, privileged_change_refused,
}
use fastapi_project_structur.AdminSession.{SessionRecord, Settings, commit}
use fastapi_project_structur.AdminSession
use fastapi_project_structur.AdminSession.Revoked.{revoked_session_stays_gone}
use fastapi_project_structur.RateLimiter.{Counters}
use fastapi_project_structur.RateLimiter.Limits.{allowed_hits, allowed_hits-exact}
use fastapi_project_structur.Content.{Entry, Repository}
use fastapi_project_structur.Content.Blog.{update_post, delete_post}
use fastapi_project_structur.Content.Replies.{update_reply, delete_reply}
use fastapi_project_structur.Content.Sns
use fastapi_project_structur.Content.Ownership.{MayModify, services_refuse}
use fastapi_project_structur.Common.{Option, min, ◌-◌}
use fastapi_project_structur.AdminSession.{get_entry}
use fastapi_project_structur.AdminCsrf.{
  Request, called, is_exempt, call, submitted_by, too_long, read_body, read_from, buffered, parsed,
  checked, csrf_valid, is_valid,
}
use fastapi_project_structur.AdminCsrf.Guard.{Passed, call-Passed}
use fastapi_project_structur.AccessLogRetention.{Logs, purge_expired}
use fastapi_project_structur.AccessLogRetention.Purge.{purge_expired_ends}

abbrev ann : User
ann = record {
  id = "1";
  username = "ann";
  email = "ann@example.com";
  hashed_password = some "hash";
  is_active = true;
  is_superuser = false;
}

-- A table of one user, whom a deletion finds.
abbrev users : Users
users = record {
  Table = List User;
  get_by_id = λ id table. if id == "1" then some ann else none;
  get_by_username = λ name table. none;
  get_all = λ skip limit table. table;
  count = λ table. 1;
  create = λ values hashed table. (ann, ann ∷ table);
  update = λ id changes table. (none, table);
  delete = λ id table. (id == "1", []);
}

abbrev root : Principal
root = record { id = "0"; username = "root"; is_superuser = true }

abbrev own : Principal
own = record { id = "1"; username = "ann"; is_superuser = false }

abbrev deactivation : UserUpdate
deactivation = record { email = none; is_active = some false; is_superuser = none }

abbrev pub R : Redis Stored
R = memory Stored

-- ann has a family of refresh tokens.
abbrev db : Tables Stored
db = R.sadd (user_key "1") "f" empty

loses : Loses ann deactivation
unfolding Loses
loses = inl (refl, refl)

-- She has a session of the admin pages, too.
abbrev pages : Settings
pages = record { max_age = 100; idle = 50; digest = λ sid. sid; str = λ user_id. "1" }

abbrev signed_in : Tables Stored
signed_in = AdminSession.save R pages 10 "s" (("user_id", text "1") ∷ []) 10 true db

known : contains "f" (R.members (user_key "1") signed_in) ≡ true
unfolding user_key AdminSession.save AdminSession.index AdminSession.user_key AdminSession.key
    AdminSession.put AdminSession.ttl AdminSession.user_id_of get_entry
known = refl

or_false : (b : Bool) → (if b then true else false) ≡ true → b ≡ true
or_false true h = refl
or_false false h = h

indexes : IndexesSessions R 60 (omega arith) pages 10 "1" signed_in
unfolding Indexed user_key AdminSession.save AdminSession.index AdminSession.user_key
    AdminSession.key AdminSession.put AdminSession.ttl AdminSession.user_id_of get_entry
indexes k h = ("s", sym ((eq_iff "admin:sess:s" k).0 (or_false _ h)))

update_user-ends_sessions_example :
    is_family_revoked R 60 "f"
      (update_user R 60
        (admin_store R pages 10 true)
        users
        "1"
        deactivation
        root
        (signed_in, ann ∷ [])).1
    ≡ true
update_user-ends_sessions_example =
    update_user-ends_sessions R 60 (omega arith) pages 10 true users "1" "f" deactivation root
      signed_in (ann ∷ []) ann refl refl loses known indexes

privileged : has_privileged_field deactivation ≡ true
unfolding has_privileged_field
privileged = refl

privileged_change_refused_example :
    update_user R 60 none users "1" deactivation own (db, ann ∷ [])
    ≡ (err privileged_field, db, ann ∷ [])
privileged_change_refused_example =
    privileged_change_refused R 60 (omega arith) none users "1" deactivation own db (ann ∷ []) refl
      privileged

abbrev pub settings : Settings
settings = record { max_age = 100; idle = 30; digest = λ sid. sid; str = λ user_id. "1" }

-- ann is logged in to the admin pages, and revoked in the same request.
abbrev admin_db : Tables Stored
admin_db =
    R.sadd (AdminSession.user_key R settings 10 (text "1")) (AdminSession.key R settings 10 "sid")
      empty

indexed :
    contains
      (AdminSession.key R settings 10 "sid")
      (R.members (AdminSession.user_key R settings 10 (text "1")) admin_db)
    ≡ true
unfolding AdminSession.user_key AdminSession.key
indexed = refl

abbrev found : SessionRecord
found = record { entries = ("user_id", text "1") ∷ []; created_at = 5 }

abbrev changed : Session
changed = ("user_id", text "1") ∷ ("note", text "x") ∷ []

revoked_session_stays_gone_example :
    R.exists
      (AdminSession.key R settings 10 "sid")
      (commit R settings 10
        (some found)
        (some "sid")
        false
        true
        "new"
        changed
        (AdminSession.revoke_user R settings 10 (text "1") admin_db)).1
    ≡ false
revoked_session_stays_gone_example =
    revoked_session_stays_gone R settings 10 (text "1") found "sid" "new" true changed admin_db
      indexed

-- Counters that never expire.
abbrev pub counters : Counters
counters = record {
  Db = String → ℕ;
  count = λ k db. db k;
  ttl = λ k db. 30;
  incr = λ k db. (suc (db k), λ j. if k == j then suc (db j) else db j);
  expire_nx = λ k t db. db;
  delete = λ k db j. if k == j then 0 else db j;
  incr-reply = λ k db. refl;
  count-incr = λ k j db. refl;
  count-expire_nx = λ k j t db pos. refl;
  count-delete = λ k j db. refl;
}

allowed_hits-exact_example :
    allowed_hits counters 2 60 (omega arith) "k" ("k" ∷ "j" ∷ "k" ∷ "k" ∷ []) (λ k. 0) ≡ 2
allowed_hits-exact_example =
    allowed_hits-exact counters 2 60 (omega arith) "k" ("k" ∷ "j" ∷ "k" ∷ "k" ∷ []) (λ k. 0)

abbrev post : Entry String
post = record { id = "p"; author_id = some "1"; author = "ann"; fields = "hello" }

-- A table of one entry.
abbrev posts : Repository String String
posts = record {
  Table = List (Entry String);
  get_by_id = λ id table. if id == "p" then some post else none;
  get_all = λ skip limit table. table;
  count = λ table. 1;
  create = λ values author_id author table. (post, table);
  update = λ id changes table.
      (some (record post { fields = changes }), record post { fields = changes } ∷ []);
  delete = λ id table. (id == "p", []);
}

abbrev stranger : Principal
stranger = record { id = "9"; username = "eve"; is_superuser = false }

not_hers : MayModify post stranger → ⊥
unfolding MayModify
not_hers h = ground (arith, h, eq_iff "1" "9")

hers : MayModify post own
unfolding MayModify
hers = inr refl

services_refuse_example :
    (update_post posts "p" "bye" stranger (post ∷ []) ≡ (err forbidden, post ∷ []))
    × (delete_post posts "p" stranger (post ∷ []) ≡ (err forbidden, post ∷ []))
    × (update_reply posts "p" "bye" stranger (post ∷ []) ≡ (err forbidden, post ∷ []))
    × (delete_reply posts "p" stranger (post ∷ []) ≡ (err forbidden, post ∷ []))
    × (Sns.update_post posts "p" "bye" stranger (post ∷ []) ≡ (err forbidden, post ∷ []))
    × (Sns.delete_post posts "p" stranger (post ∷ []) ≡ (err forbidden, post ∷ []))
services_refuse_example = services_refuse posts "p" "bye" stranger (post ∷ []) post refl not_hers

-- A deletion from the admin pages, whose form carries the token of the session.
abbrev deletion : Request
deletion = record {
  is_http = true;
  method = "POST";
  route_path = "/user/delete";
  header = none;
  is_form = true;
  content_length = some 3;
  messages =
      record { is_request = true; body = 1 ∷ 2 ∷ []; more_body = true }
      ∷ record { is_request = true; body = 3 ∷ []; more_body = false }
      ∷ [];
  session = ("csrf_token", text "token") ∷ [];
}

-- Every form has the field.
abbrev form_token : List ℕ → Option Json
form_token bytes = some (text "token")

guarded : is_exempt deletion ≡ false
unfolding is_exempt
guarded = refl

passes : call form_token deletion ≡ called (some (1 ∷ 2 ∷ 3 ∷ []))
unfolding call is_exempt submitted_by too_long read_body read_from buffered parsed checked
    csrf_valid is_valid get_entry
passes = refl

call-Passed_example : Passed form_token deletion (some (1 ∷ 2 ∷ 3 ∷ []))
call-Passed_example = call-Passed form_token deletion (some (1 ∷ 2 ∷ 3 ∷ [])) guarded passes

-- A table of which only the number of old rows is known.
abbrev logs : Logs
logs = record {
  Table = ℕ;
  expired = λ before table. table;
  delete_created_before = λ before limit table. (min limit table, table - min limit table);
  delete-reply = λ before limit table. refl;
  expired-delete = λ before limit table. refl;
}

purge_expired_ends_example :
    (after : ℕ) × (purge_expired logs 30 2 6 100 5 ≡ some (5, after)) × (after ≡ 0)
purge_expired_ends_example =
    purge_expired_ends logs 30 2 (omega arith) 6 100 5 (omega arith) (omega arith)
