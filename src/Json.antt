-- ===== src/Json.antt =====
-- Values of type `Any`: what a JWT claim or an entry of a session dictionary can be.
use fastapi_project_structur.Common.{ℕ, String, Bool, true, false, not, Option, some, eqb, ◌==◌}

-- A value of a decoded JSON object, as far as the code tells them apart.
pub data Json : Type 0 where
  null : Json
  text : String → Json
  flag : Bool → Json
  number : ℕ → Json

-- isinstance(value, str) and isinstance(value, bool), for claims.get(name)
abbrev pub is_text : Option Json → Bool
is_text (some (text s)) = true
is_text _ = false

abbrev pub is_flag : Option Json → Bool
is_flag (some (flag b)) = true
is_flag _ = false

-- value == "…" for a value of any type
abbrev pub equals_text : Json → String → Bool
equals_text (text s) t = s == t
equals_text _ t = false

-- bool(value)
abbrev pub is_truthy : Json → Bool
is_truthy null = false
is_truthy (text s) = not (s == "")
is_truthy (flag b) = b
is_truthy (number n) = not (eqb n 0)
