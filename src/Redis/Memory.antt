-- ===== src/Redis/Memory.antt =====
-- A database in memory that meets the laws of the interface: tables for the strings, the sets and
-- the times to live. It shows that the laws can hold, and runs the examples.
use fastapi_project_structur.Common.{
  ℕ, String, ◌≡◌, refl, Bool, true, false, not, ◌||◌, Option, none, List, [], ◌∷◌, arith, ◌==◌,
  eq_refl, is_some, is_empty, contains, without, if◌then◌else◌,
}
use fastapi_project_structur.Redis.{Ttl, missing, seconds, survives, after, Redis}

pub record Tables (V : Type 0) : Type 0 where
  pub strings : String → Option V
  pub sets : String → List String
  pub left : String → Ttl

abbrev pub empty : {V : Type 0} → Tables V
empty = record { strings = λ k. none; sets = λ k. []; left = λ k. missing }

abbrev update {ℓ} : {A : Type ℓ} → String → A → (String → A) → String → A
update k a f j = if k == j then a else f j

module _ {V : Type 0} where
  abbrev exists : String → Tables V → Bool
  exists k db = is_some (db.strings k) || not (is_empty (db.sets k))

  abbrev set : String → V → ℕ → Tables V → Tables V
  set k v t db = record db {
    strings = update k (Option.some v) db.strings;
    left = update k (seconds t) db.left;
  }

  abbrev set_xx : String → V → ℕ → Tables V → Bool × Tables V
  set_xx k v t db = if exists k db then (true, set k v t db) else (false, db)

  abbrev delete : String → Tables V → Tables V
  delete k db = record {
    strings = update k none db.strings;
    sets = update k [] db.sets;
    left = update k missing db.left;
  }

  abbrev expire : String → ℕ → Tables V → Tables V
  expire k t db = record db {
    left = update k (if exists k db then seconds t else db.left k) db.left;
  }

  abbrev sadd : String → String → Tables V → Tables V
  sadd k m db = record db { sets = update k (m ∷ db.sets k) db.sets }

  abbrev srem : String → String → Tables V → Tables V
  srem k m db = record db { sets = λ j. if k == j then without m (db.sets j) else db.sets j }

  abbrev pass : ℕ → Tables V → Tables V
  pass n db = record {
    strings = λ j. if survives n (db.left j) then db.strings j else none;
    sets = λ j. if survives n (db.left j) then db.sets j else [];
    left = λ j. after n (db.left j);
  }

pub contains-sadd :
    {V : Type 0} (k m : String) (db : Tables V) (x : String)
    → contains x ((sadd k m db).sets k) ≡ (m == x || contains x (db.sets k))
contains-sadd k m db x = simp eq_refl (ground arith)

-- Every law of the interface holds of the tables.
abbrev pub memory : (V : Type 0) → Redis V
memory V = record {
  Db = Tables V;
  get = λ k db. db.strings k;
  members = λ k db. db.sets k;
  ttl = λ k db. db.left k;
  exists = exists;
  set = set;
  set_xx = set_xx;
  getdel = λ k db. (db.strings k, delete k db);
  delete = delete;
  expire = expire;
  sadd = sadd;
  srem = srem;
  pass = pass;
  exists-eq = λ j db. refl;
  get-set = λ k j v t db h. refl;
  members-set = λ k j v t db h. refl;
  ttl-set = λ k j v t db h. refl;
  set_xx-absent = λ k v t db h. rw h;
  set_xx-present = λ k v t db h. rw h;
  getdel-reply = λ k db. refl;
  get-getdel = λ k j db. refl;
  members-getdel = λ k j db h. rw h;
  get-delete = λ k j db. refl;
  members-delete = λ k j db. refl;
  get-expire = λ k j t db h. refl;
  members-expire = λ k j t db h. refl;
  ttl-expire = λ k j t db h e. rw e;
  get-sadd = λ k m j db h. refl;
  members-sadd_ne = λ k m j db h. rw h;
  members-sadd = contains-sadd;
  ttl-sadd = λ k m j db h. refl;
  get-srem = λ k m j db h. refl;
  members-srem = λ k m j db. refl;
  get-pass = λ n j db. refl;
  members-pass = λ n j db. refl;
  ttl-pass = λ n j db. refl;
}
