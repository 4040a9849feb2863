-- ===== src/Config/Hosts.antt =====
-- config.py bare_host and split_host_port. A text is its code points. Which characters are digits,
-- and of what value, is Unicode's: a parameter.
pub mod Printing
use fastapi_project_structur.Common.{
  ℕ, suc, ◌+◌, ◌*◌, ◌-◌, ◌≤◌, ◌≡◌, Bool, true, false, not, ◌&&◌, Option, none, some, List, [], ◌∷◌,
  ◌++◌, eqb, ltb, length, all, any, is_empty, if◌then◌else◌,
}
use fastapi_project_structur.Common.Characters.{strip}

abbrev pub Text : Type 0
Text = List ℕ

pub record Unicode : Type 0 where
  -- str.isdigit of one character, and its decimal value, if it has one
  pub is_digit : ℕ → Bool
  pub value : ℕ → Option ℕ
  pub ascii_digit : (c : ℕ) → 48 ≤ c → c ≤ 57 → (is_digit c ≡ true) × (value c ≡ some (c - 48))
  pub colon_digit : is_digit b':' ≡ false

-- text.startswith(c) for one character
unfoldable pub begins : ℕ → Text → Bool
begins c [] = false
begins c (x ∷ xs) = eqb x c

-- text.endswith(c)
unfoldable pub ends : ℕ → Text → Bool
ends c [] = false
ends c (x ∷ []) = eqb x c
ends c (x ∷ y ∷ xs) = ends c (y ∷ xs)

-- text[1:] and text[:-1]
unfoldable pub tail : Text → Text
tail [] = []
tail (x ∷ xs) = xs

unfoldable pub init : Text → Text
init [] = []
init (x ∷ []) = []
init (x ∷ y ∷ xs) = x ∷ init (y ∷ xs)

unfoldable pub count : ℕ → Text → ℕ
count c [] = 0
count c (x ∷ xs) = let rest = count c xs in if eqb x c then suc rest else rest

-- text.partition(c): before, whether c was found, after
unfoldable pub partition : ℕ → Text → Text × Bool × Text
partition c [] = ([], false, [])
partition c (x ∷ xs) =
    let (before, found, after) = partition c xs in
    if eqb x c then ([], true, xs) else (x ∷ before, found, after)

unfoldable pub bare_host : Text → Text
bare_host host =
    let stripped = strip host in
    if begins b'[' stripped && ends b']' stripped then tail (init stripped) else stripped

-- The ValueErrors of split_host_port, and that of int.
pub data Invalid : Type 0 where
  unclosed malformed bare_ipv6 no_host bad_port not_an_int : Invalid

pub data Parsed (A : Type 0) : Type 0 where
  invalid : Invalid → Parsed A
  parsed : A → Parsed A

module _ (U : Unicode) where
  unfoldable pub isdigit : Text → Bool
  isdigit s = not (is_empty s) && all U.is_digit s

  unfoldable pub digits : ℕ → Text → Option ℕ
  digits n [] = some n
  digits n (c ∷ s) = elim (U.value c) [ none ↦ none | some d ↦ digits (n * 10 + d) s ]

  -- int, of at most 4300 digits
  unfoldable pub int : Text → Option ℕ
  int s = if ltb 4300 (length s) then none else digits 0 s

  unfoldable pub numbered : Text → Option ℕ → Parsed (Text × ℕ)
  numbered host none = invalid not_an_int
  numbered host (some port) = parsed (host, port)

  unfoldable pub with_port : (default_port : ℕ) → Text → Text → Parsed (Text × ℕ)
  with_port default_port host port =
      if is_empty host
      then invalid no_host
      else if not (is_empty port) && not (isdigit port)
      then invalid bad_port
      else if is_empty port
      then parsed (host, default_port)
      else numbered host (int port)

  unfoldable pub bracketed : (default_port : ℕ) → Text × Bool × Text → Parsed (Text × ℕ)
  bracketed default_port (host, closing, rest) =
      if not closing
      then invalid unclosed
      else if not (is_empty rest) && not (begins b':' rest)
      then invalid malformed
      else with_port default_port (tail host) (tail rest)

  unfoldable pub plain : (default_port : ℕ) → Text × Bool × Text → Parsed (Text × ℕ)
  plain default_port (host, _, port) = with_port default_port host port

  unfoldable pub split_stripped : (default_port : ℕ) → Text → Parsed (Text × ℕ)
  split_stripped default_port entry =
      if begins b'[' entry
      then bracketed default_port (partition b']' entry)
      else if ltb 1 (count b':' entry)
      then invalid bare_ipv6
      else plain default_port (partition b':' entry)

  unfoldable pub split_host_port : Text → (default_port : ℕ) → Parsed (Text × ℕ)
  split_host_port entry default_port = split_stripped default_port (strip entry)
