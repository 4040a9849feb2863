-- ===== src/Examples/Settings.antt =====
-- Examples of settings.
use fastapi_project_structur.Common.{
  ℕ, ◌-◌, ◌≤◌, ◌≡◌, ◌↔◌, refl, Bool, true, false, ◌&&◌, Option, none, some, List, [], ◌∷◌, arith,
  codes, leb, length, is_empty, if◌then◌else◌,
}
use fastapi_project_structur.Common.Characters.{strip, lstrip, is_space}
use fastapi_project_structur.Config.Hosts.{
  Unicode, parsed, split_host_port, begins, count, isdigit, int, digits, split_stripped, plain,
  partition, with_port, numbered, bracketed, tail,
}
use fastapi_project_structur.Config.Hosts.Printing.{printed, split_host_port-printed}
use fastapi_project_structur.Config.Routing.{
  DatabaseSettings, Url, mysql_replica_urls, replica_entries, stripped_entries, validate_routing,
  entries_error, entry_error,
}
use fastapi_project_structur.Config.Routing.Replicas.{validated_replicas}
use fastapi_project_structur.Config.Safety.{
  Settings, production, is_test, validate_deployment_safety,
}
use fastapi_project_structur.Config.Safety.Gate.{IsSafe, validate_deployment_safety_iff}

-- The digits of ASCII only.
abbrev is_ascii : ℕ → Bool
is_ascii c = leb 48 c && leb c 57

abbrev ascii_value : ℕ → Option ℕ
ascii_value c = if is_ascii c then some (c - 48) else none

ascii_digit : (c : ℕ) → 48 ≤ c → c ≤ 57 → (is_ascii c ≡ true) × (ascii_value c ≡ some (c - 48))
ascii_digit c h k = ground arith

abbrev ascii : Unicode
ascii = record {
  is_digit = is_ascii;
  value = ascii_value;
  ascii_digit = ascii_digit;
  colon_digit = refl;
}

starts_plain : begins b'[' (codes "::1") ≡ false
unfolding begins
starts_plain = refl

no_bracket : count b']' (codes "::1") ≡ 0
unfolding count
no_bracket = refl

are_digits : isdigit ascii (codes "3307") ≡ true
unfolding isdigit
are_digits = refl

is_3307 : int ascii (codes "3307") ≡ some 3307
unfolding int digits
is_3307 = refl

as_printed : strip (codes " [::1]:3307") ≡ printed (codes "::1") (codes "3307")
unfolding strip lstrip is_space printed count
as_printed = refl

split_host_port-printed_example :
    split_host_port ascii (codes " [::1]:3307") 3306 ≡ parsed (codes "::1", 3307)
split_host_port-printed_example =
    split_host_port-printed ascii 3306 (codes "::1") (codes "3307") (codes " [::1]:3307") 3307 refl
      starts_plain no_bracket are_digits is_3307 as_printed

abbrev replicated : DatabaseSettings
replicated = record {
  mysql_host = codes "db";
  mysql_port = 3306;
  mysql_user = codes "app";
  mysql_password = codes "pw";
  mysql_database = codes "main";
  db_router_enabled = true;
  db_replication_enabled = true;
  db_read_sticky_after_write = true;
  mysql_replica_hosts = codes "a:3307" ∷ codes " b" ∷ [];
  mysql_replica_port = 3306;
  mysql_replica_user = none;
  mysql_replica_password = none;
  mysql_replica_database = none;
  alembic_database_url = none;
}

validates : validate_routing ascii replicated ≡ none
unfolding validate_routing replica_entries stripped_entries entries_error entry_error
    split_host_port split_stripped plain partition with_port numbered bracketed tail isdigit int
    digits begins count strip lstrip is_space
validates = refl

validated_replicas_example :
    (urls : List Url) × (mysql_replica_urls ascii (codes "mysql+aiomysql") replicated ≡ parsed urls)
    × (is_empty urls ≡ false)
    × (length urls ≡ length (replica_entries replicated))
validated_replicas_example = validated_replicas ascii (codes "mysql+aiomysql") replicated validates

abbrev deployed : Settings
deployed = record {
  env = production;
  debug = false;
  access_token_secret_key = codes "0123456789abcdef0123456789abcdef";
  refresh_token_secret_key = codes "fedcba9876543210fedcba9876543210";
  session_secret_key = codes "00112233445566778899aabbccddeeff";
  mysql_password = codes "pw";
  redis_password = [];
  wildcard_origin = false;
  log_sql_echo_enabled = false;
  log_level = none;
}

not_a_test : is_test deployed.env ≡ false
unfolding is_test
not_a_test = refl

validate_deployment_safety_iff_example :
    (validate_deployment_safety (λ s. s) (λ s. s) deployed ≡ []) ↔ IsSafe (λ s. s) (λ s. s) deployed
validate_deployment_safety_iff_example =
    validate_deployment_safety_iff (λ s. s) (λ s. s) deployed not_a_test
