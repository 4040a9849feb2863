-- ===== src/Redis.antt =====
-- What the program asks of Redis (a service, not code of this repository): the commands that
-- app/core/security sends, over an abstract database, and their documented behaviour as laws.
-- A stored JSON text is represented by the value that it encodes. A command acts at one instant;
-- `pass n` lets n seconds go by.
pub mod Memory
use fastapi_project_structur.Common.{
  ℕ, ◌-◌, ◌<◌, String, ◌≡◌, Bool, true, false, not, ◌||◌, Option, none, some, List, [], ltb, ◌==◌,
  is_some, is_empty, contains, without, if◌then◌else◌,
}

-- The reply of TTL: -2 (no key), -1 (no expiry), or the seconds that are left.
pub data Ttl : Type 0 where
  missing persistent : Ttl
  seconds : ℕ → Ttl

-- Whether a key with this TTL is still there after n seconds.
abbrev pub survives : ℕ → Ttl → Bool
survives n (seconds s) = ltb n s
survives n t = true

abbrev pub after : ℕ → Ttl → Ttl
after n (seconds s) = if ltb n s then seconds (s - n) else missing
after n t = t

pub record Redis (V : Type 0) : Type 1 where
  pub Db : Type 0
  -- GET, SMEMBERS, TTL and EXISTS
  pub get : String → Db → Option V
  pub members : String → Db → List String
  pub ttl : String → Db → Ttl
  pub exists : String → Db → Bool
  -- SET key value EX seconds; SET … XX, which replies whether it wrote
  pub set : String → V → ℕ → Db → Db
  pub set_xx : String → V → ℕ → Db → Bool × Db
  -- GETDEL and DEL
  pub getdel : String → Db → Option V × Db
  pub delete : String → Db → Db
  -- EXPIRE, SADD and SREM
  pub expire : String → ℕ → Db → Db
  pub sadd : String → String → Db → Db
  pub srem : String → String → Db → Db
  pub pass : ℕ → Db → Db
  pub exists-eq :
      (j : String) (db : Db) → exists j db ≡ (is_some (get j db) || not (is_empty (members j db)))
  pub get-set :
      (k j : String) (v : V) (t : ℕ) (db : Db)
      → 0 < t
      → get j (set k v t db) ≡ (if k == j then some v else get j db)
  pub members-set :
      (k j : String) (v : V) (t : ℕ) (db : Db)
      → (k == j) ≡ false
      → members j (set k v t db) ≡ members j db
  pub ttl-set :
      (k j : String) (v : V) (t : ℕ) (db : Db)
      → 0 < t
      → ttl j (set k v t db) ≡ (if k == j then seconds t else ttl j db)
  pub set_xx-absent :
      (k : String) (v : V) (t : ℕ) (db : Db) → exists k db ≡ false → set_xx k v t db ≡ (false, db)
  pub set_xx-present :
      (k : String) (v : V) (t : ℕ) (db : Db)
      → exists k db ≡ true
      → set_xx k v t db ≡ (true, set k v t db)
  pub getdel-reply : (k : String) (db : Db) → (getdel k db).0 ≡ get k db
  pub get-getdel :
      (k j : String) (db : Db) → get j (getdel k db).1 ≡ (if k == j then none else get j db)
  pub members-getdel :
      (k j : String) (db : Db) → (k == j) ≡ false → members j (getdel k db).1 ≡ members j db
  pub get-delete :
      (k j : String) (db : Db) → get j (delete k db) ≡ (if k == j then none else get j db)
  pub members-delete :
      (k j : String) (db : Db) → members j (delete k db) ≡ (if k == j then [] else members j db)
  pub get-expire : (k j : String) (t : ℕ) (db : Db) → 0 < t → get j (expire k t db) ≡ get j db
  pub members-expire :
      (k j : String) (t : ℕ) (db : Db) → 0 < t → members j (expire k t db) ≡ members j db
  pub ttl-expire :
      (k j : String) (t : ℕ) (db : Db)
      → 0 < t
      → exists k db ≡ true
      → ttl j (expire k t db) ≡ (if k == j then seconds t else ttl j db)
  pub get-sadd : (k m j : String) (db : Db) → (k == j) ≡ false → get j (sadd k m db) ≡ get j db
  pub members-sadd_ne :
      (k m j : String) (db : Db) → (k == j) ≡ false → members j (sadd k m db) ≡ members j db
  pub members-sadd :
      (k m : String) (db : Db) (x : String)
      → contains x (members k (sadd k m db)) ≡ (m == x || contains x (members k db))
  pub ttl-sadd : (k m j : String) (db : Db) → (k == j) ≡ false → ttl j (sadd k m db) ≡ ttl j db
  pub get-srem : (k m j : String) (db : Db) → (k == j) ≡ false → get j (srem k m db) ≡ get j db
  pub members-srem :
      (k m j : String) (db : Db)
      → members j (srem k m db) ≡ (if k == j then without m (members j db) else members j db)
  pub get-pass :
      (n : ℕ) (j : String) (db : Db)
      → get j (pass n db) ≡ (if survives n (ttl j db) then get j db else none)
  pub members-pass :
      (n : ℕ) (j : String) (db : Db)
      → members j (pass n db) ≡ (if survives n (ttl j db) then members j db else [])
  pub ttl-pass : (n : ℕ) (j : String) (db : Db) → ttl j (pass n db) ≡ after n (ttl j db)
