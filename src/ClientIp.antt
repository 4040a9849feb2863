-- ===== src/ClientIp.antt =====
-- app/core/middlewares/client_ip.py: the client address, by the number of trusted proxies. Texts
-- are lists of code points; `str(ipaddress.ip_address(text))` is the parameter `parse`, `none` on
-- its ValueError. A resolver with a negative number of hops cannot be constructed.
pub mod Spoofing
use mathlib.Core.List.{filter_map}
use fastapi_project_structur.Common.{
  ℕ, ◌-◌, Bool, true, false, not, Option, none, some, List, [], ◌∷◌, ◌++◌, map, eqb, ltb, is_empty,
  length, get_elem?, if◌then◌else◌,
}
use fastapi_project_structur.Common.Characters.{strip, split}

abbrev pub Text : Type 0
Text = List ℕ

-- What `resolve` reads of a request.
pub record Request : Type 0 where
  pub client_host : Option Text
  pub x_forwarded_for : List Text
  pub x_real_ip : Option Text

-- "unknown"
abbrev pub unknown_client : Text
unknown_client = 117 ∷ 110 ∷ 107 ∷ 110 ∷ 111 ∷ 119 ∷ 110 ∷ []

abbrev pub get_or {ℓ} : {A : Type ℓ} → Option A → A → A
get_or none d = d
get_or (some a) d = a

-- the hops of one header: stripped, the empty ones left out
unfoldable pub hops_of_parts : List Text → List Text
hops_of_parts [] = []
hops_of_parts (part ∷ parts) =
    let hop = strip part in
    let rest = hops_of_parts parts in if is_empty hop then rest else hop ∷ rest

unfoldable pub hops_of_header : Text → List Text
hops_of_header header = hops_of_parts (split b',' header)

unfoldable pub forwarded : List Text → List Text
forwarded [] = []
forwarded (header ∷ headers) = hops_of_header header ++ forwarded headers

-- `forwarded[-n]`, for 0 < n ≤ len(forwarded)
pub from_right : ℕ → List Text → Text
from_right n hops = get_or (get_elem? hops (length hops - n)) []

module _ (parse : Text → Option Text) (trusted_proxy_hops : ℕ) where
  pub peer : Request → Text
  peer request = get_or request.client_host unknown_client

  -- `none`: return the peer
  pub candidate : Request → Option Text
  candidate request =
      let hops = forwarded request.x_forwarded_for in
      if not (is_empty hops)
      then (if ltb (length hops) trusted_proxy_hops
          then none
          else some (from_right trusted_proxy_hops hops))
      else some (strip (get_or request.x_real_ip []))

  pub parsed : Option Text → Option Text
  parsed none = none
  parsed (some text) = parse text

  pub resolve : Request → Text
  resolve request =
      if eqb trusted_proxy_hops 0
      then peer request
      else get_or (parsed (candidate request)) (peer request)
