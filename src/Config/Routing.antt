-- ===== src/Config/Routing.antt =====
-- config.py DatabaseSettings: the writer's and the replicas' URLs, and the check of the routing.
-- URL.create takes its parts as they are; rendering them is SQLAlchemy's.
pub mod Replicas
use fastapi_project_structur.Common.{
  ℕ, Bool, true, false, not, ◌&&◌, Option, none, some, List, [], ◌∷◌, is_empty, if◌then◌else◌,
}
use fastapi_project_structur.Common.Characters.{strip}
use fastapi_project_structur.Config.Hosts.{
  Text, Unicode, Invalid, Parsed, invalid, parsed, bare_host, split_host_port,
}

pub record DatabaseSettings : Type 0 where
  pub mysql_host : Text
  pub mysql_port : ℕ
  pub mysql_user : Text
  pub mysql_password : Text
  pub mysql_database : Text
  pub db_router_enabled : Bool
  pub db_replication_enabled : Bool
  pub db_read_sticky_after_write : Bool
  pub mysql_replica_hosts : List Text
  pub mysql_replica_port : ℕ
  pub mysql_replica_user : Option Text
  pub mysql_replica_password : Option Text
  pub mysql_replica_database : Option Text
  pub alembic_database_url : Option Text

-- What URL.create is given.
pub record Url : Type 0 where
  pub drivername : Text
  pub username : Text
  pub password : Text
  pub host : Text
  pub port : ℕ
  pub database : Text

pub data Mode : Type 0 where
  single router_single router_replicated : Mode

-- The ValueErrors of the check.
pub data RoutingError : Type 0 where
  needs_router needs_replicas : RoutingError
  bad_entry : Invalid → RoutingError

-- `value or default`
unfoldable pub or_default : Option Text → Text → Text
or_default none d = d
or_default (some v) d = if is_empty v then d else v

unfoldable pub stripped_entries : List Text → List Text
stripped_entries [] = []
stripped_entries (host ∷ hosts) =
    let rest = stripped_entries hosts in if is_empty (strip host) then rest else strip host ∷ rest

unfoldable pub replica_entries : DatabaseSettings → List Text
replica_entries s = stripped_entries s.mysql_replica_hosts

unfoldable pub replication_active : DatabaseSettings → Bool
replication_active s = s.db_router_enabled && s.db_replication_enabled

unfoldable pub routing_mode : DatabaseSettings → Mode
routing_mode s =
    if not s.db_router_enabled
    then single
    else if replication_active s
    then router_replicated
    else router_single

unfoldable pub mysql_url : (aiomysql : Text) → DatabaseSettings → Url
mysql_url aiomysql s = record {
  drivername = aiomysql;
  username = s.mysql_user;
  password = s.mysql_password;
  host = bare_host s.mysql_host;
  port = s.mysql_port;
  database = s.mysql_database;
}

-- `make_url` is SQLAlchemy's parser
unfoldable pub alembic_url :
    (make_url : Text → Url) → (aiomysql pymysql : Text) → DatabaseSettings → Url
alembic_url make_url aiomysql pymysql s =
    if is_empty (or_default s.alembic_database_url [])
    then record (mysql_url aiomysql s) { drivername = pymysql }
    else make_url (or_default s.alembic_database_url [])

module _ (U : Unicode) where
  unfoldable pub replica_url : (aiomysql : Text) → DatabaseSettings → Text × ℕ → Url
  replica_url aiomysql s (host, port) = record {
    drivername = aiomysql;
    username = or_default s.mysql_replica_user s.mysql_user;
    password = or_default s.mysql_replica_password s.mysql_password;
    host = host;
    port = port;
    database = or_default s.mysql_replica_database s.mysql_database;
  }

  unfoldable pub consed : {A : Type 0} → Parsed A → Parsed (List A) → Parsed (List A)
  consed (invalid e) rest = invalid e
  consed (parsed a) (invalid e) = invalid e
  consed (parsed a) (parsed as_) = parsed (a ∷ as_)

  unfoldable pub mapped : {A B : Type 0} → (A → B) → Parsed A → Parsed B
  mapped f (invalid e) = invalid e
  mapped f (parsed a) = parsed (f a)

  unfoldable pub urls_of : (aiomysql : Text) → DatabaseSettings → List Text → Parsed (List Url)
  urls_of aiomysql s [] = parsed []
  urls_of aiomysql s (entry ∷ entries) =
      consed (mapped (replica_url aiomysql s) (split_host_port U entry s.mysql_replica_port))
        (urls_of aiomysql s entries)

  unfoldable pub mysql_replica_urls : (aiomysql : Text) → DatabaseSettings → Parsed (List Url)
  mysql_replica_urls aiomysql s =
      if not (replication_active s) then parsed [] else urls_of aiomysql s (replica_entries s)

  -- the loop over the entries
  unfoldable pub entry_error : Parsed (Text × ℕ) → Option RoutingError → Option RoutingError
  entry_error (invalid e) rest = some (bad_entry e)
  entry_error (parsed _) rest = rest

  unfoldable pub entries_error : ℕ → List Text → Option RoutingError
  entries_error port [] = none
  entries_error port (entry ∷ entries) =
      entry_error (split_host_port U entry port) (entries_error port entries)

  unfoldable pub validate_routing : DatabaseSettings → Option RoutingError
  validate_routing s =
      if s.db_replication_enabled && not s.db_router_enabled
      then some needs_router
      else if s.db_replication_enabled && is_empty (replica_entries s)
      then some needs_replicas
      else entries_error s.mysql_replica_port (replica_entries s)
