-- ===== src/Config/Safety.antt =====
-- config.py: what stops the program from starting, and the smaller checks of the settings. A text
-- is its code points; `lower` and `upper` are Unicode's.
pub mod Gate
use fastapi_project_structur.Common.{
  ℕ, Bool, true, false, not, ◌&&◌, ◌||◌, Option, none, some, List, [], ◌∷◌, ◌++◌, String, codes,
  length, ltb, eqb, is_empty, contains, map, ◌==◌, if◌then◌else◌,
}
use fastapi_project_structur.Common.Characters.{strip, split}
use fastapi_project_structur.DbErrors.{starts, included}
use fastapi_project_structur.Config.Hosts.{Text, partition}

pub data Env : Type 0 where
  development staging production test : Env

unfoldable pub is_test : Env → Bool
is_test test = true
is_test _ = false

unfoldable pub is_deployed : Env → Bool
is_deployed staging = true
is_deployed production = true
is_deployed _ = false

abbrev pub same_text : Text → Text → Bool
same_text [] [] = true
same_text [] (d ∷ t) = false
same_text (c ∷ s) [] = false
same_text (c ∷ s) (d ∷ t) = eqb c d && same_text s t

-- the settings that validate_deployment_safety reads
pub record Settings : Type 0 where
  pub env : Env
  pub debug : Bool
  pub access_token_secret_key : Text
  pub refresh_token_secret_key : Text
  pub session_secret_key : Text
  pub mysql_password : Text
  pub redis_password : Text
  -- "*" in CORS_ALLOW_ORIGINS
  pub wildcard_origin : Bool
  pub log_sql_echo_enabled : Bool
  pub log_level : Option Text

pub data Secret : Type 0 where
  access_token_secret_key refresh_token_secret_key session_secret_key mysql_password : Secret

pub data Problem : Type 0 where
  debug : Problem
  placeholder : Secret → Problem
  too_short : Secret → Problem
  redis_placeholder : Problem
  same_keys : Problem
  wildcard_cors : Problem
  sql_echo : Problem
  debug_log_level : Problem

abbrev pub secret_key_min_length : ℕ
secret_key_min_length = 32

-- `name != "MYSQL_PASSWORD"`
unfoldable pub is_key : Secret → Bool
is_key mysql_password = false
is_key _ = true

abbrev pub noted : Bool → Problem → List Problem
noted true p = p ∷ []
noted false p = []

unfoldable pub text_of : Option Text → Text
text_of none = []
text_of (some s) = s

module _ (lower upper : Text → Text) where
  unfoldable pub is_placeholder_secret : Text → Bool
  is_placeholder_secret value =
      let v = lower (strip value) in
      included (codes "change-this") v || starts (codes "your-") v || is_empty v

  unfoldable pub secret_problem : Secret → Text → List Problem
  secret_problem name value =
      if is_placeholder_secret value
      then placeholder name ∷ []
      else noted (is_key name && ltb (length (strip value)) secret_key_min_length) (too_short name)

  -- the problems, in the order in which they are reported
  unfoldable pub problems : Settings → List Problem
  problems s =
      let deployed = is_deployed s.env in
      noted (deployed && s.debug) debug
      ++ (secret_problem access_token_secret_key s.access_token_secret_key
          ++ (secret_problem refresh_token_secret_key s.refresh_token_secret_key
              ++ (secret_problem session_secret_key s.session_secret_key
                  ++ (secret_problem mysql_password s.mysql_password
                      ++ (noted
                            (not (is_empty s.redis_password)
                              && is_placeholder_secret s.redis_password)
                            redis_placeholder
                          ++ (noted (same_text s.access_token_secret_key s.refresh_token_secret_key)
                                same_keys
                              ++ (noted (deployed && s.wildcard_origin) wildcard_cors
                                  ++ (noted (deployed && s.log_sql_echo_enabled) sql_echo
                                      ++ noted
                                          (deployed
                                            && same_text (upper (text_of s.log_level))
                                                (codes "DEBUG"))
                                          debug_log_level))))))))

  -- the problems that the RuntimeError reports; it is raised where there is one
  unfoldable pub validate_deployment_safety : Settings → List Problem
  validate_deployment_safety s = if is_test s.env then [] else problems s

abbrev pub required_without_env_file : List String
required_without_env_file =
    "ENV" ∷ "ACCESS_TOKEN_SECRET_KEY" ∷ "REFRESH_TOKEN_SECRET_KEY" ∷ "SESSION_SECRET_KEY"
    ∷ "MYSQL_HOST" ∷ "MYSQL_USER" ∷ "MYSQL_PASSWORD" ∷ "MYSQL_DATABASE" ∷ []

-- the names that are not in the environment
unfoldable pub absent : List String → List String → List String
absent environ [] = []
absent environ (name ∷ names) =
    let rest = absent environ names in if contains name environ then rest else name ∷ rest

-- the names that the RuntimeError tells; `is_file` is whether there is a .env file
unfoldable pub validate_env_source : Env → (is_file : Bool) → (environ : List String) → List String
validate_env_source env is_file environ =
    if is_test env || is_file then [] else absent environ required_without_env_file

-- whether it raises; `dotenv` are the names in the .env file, if there is one
unfoldable pub validate_renamed_settings :
    (upper : String → String)
    → Env
    → (dotenv : Option (List String)) → (environ : List String) → Bool
validate_renamed_settings upper env none environ =
    not (is_test env) && contains "ADMIN" (map upper environ)
validate_renamed_settings upper env (some names) environ =
    not (is_test env) && contains "ADMIN" (map upper environ ++ map upper names)

-- whether the model validators of CORSSettings and SessionSettings raise
unfoldable pub reject_wildcard_with_credentials : (allow_credentials : Bool) → List String → Bool
reject_wildcard_with_credentials allow_credentials origins =
    allow_credentials && contains "*" origins

unfoldable pub idle_within_max_age : (idle max_age : ℕ) → Bool
idle_within_max_age idle max_age = ltb max_age idle

unfoldable pub effective_level : Option String → (debugging : Bool) → String
effective_level (some level) debugging = level
effective_level none debugging = if debugging then "DEBUG" else "INFO"

-- log_secret_values, of the texts among the values
unfoldable pub log_secret_values : List Text → List Text
log_secret_values [] = []
log_secret_values (v ∷ vs) =
    let rest = log_secret_values vs in if is_empty (strip v) then rest else v ∷ rest

-- levels[name] = level
unfoldable pub set_level : Text → Text → List (Text × Text) → List (Text × Text)
set_level name level [] = (name, level) ∷ []
set_level name level ((n, l) ∷ rest) =
    let later = set_level name level rest in
    if same_text n name then (n, level) ∷ rest else (n, l) ∷ later

unfoldable pub known_level : List Text → Text → Bool
known_level [] level = false
known_level (n ∷ names) level = same_text n level || known_level names level

module _ (upper : Text → Text) (log_level_names : List Text) where
  unfoldable pub add_level : Text × Bool × Text → List (Text × Text) → Option (List (Text × Text))
  add_level (name, sep, level) levels =
      if not sep || is_empty (strip name) || not (known_level log_level_names (upper (strip level)))
      then none
      else some (set_level (strip name) (upper (strip level)) levels)

  unfoldable pub bound :
      Option (List (Text × Text))
      → (List (Text × Text) → Option (List (Text × Text)))
      → Option (List (Text × Text))
  bound none rest = none
  bound (some levels) rest = rest levels

  unfoldable pub parse_items : List Text → List (Text × Text) → Option (List (Text × Text))
  parse_items [] levels = some levels
  parse_items (part ∷ parts) levels =
      let skipped = parse_items parts levels in
      let taken = bound (add_level (partition b'=' (strip part)) levels) (parse_items parts) in
      if is_empty (strip part) then skipped else taken

  -- none is ValueError
  unfoldable pub parse_app_levels : Text → Option (List (Text × Text))
  parse_app_levels value = parse_items (split b',' value) []
