-- ===== src/ClientIp/Spoofing.antt =====
-- What a client writes into X-Forwarded-For itself, left of what the trusted proxies append.
use fastapi_project_structur.Common.{
  ℕ, zero, suc, ◌+◌, ◌-◌, ◌≤◌, ◌<◌, ◌≡◌, refl, sym, ap, ◌∙◌, false, Option, none, some, List, [],
  ◌∷◌, ◌++◌, arith, is_empty, length, length-append, get_elem?,
}
use mathlib.Core.List.{append_assoc}
use fastapi_project_structur.Common.Characters.{split-append}
use fastapi_project_structur.ClientIp.{
  Text, Request, get_or, hops_of_parts, hops_of_header, forwarded, from_right, peer, candidate,
  resolve,
}

hops_of_parts-append :
    (xs ys : List Text) → hops_of_parts (xs ++ ys) ≡ hops_of_parts xs ++ hops_of_parts ys
unfolding hops_of_parts
hops_of_parts-append [] ys = refl
hops_of_parts-append (x ∷ xs) ys = ground (arith, hops_of_parts-append xs ys)

forwarded-append : (xs ys : List Text) → forwarded (xs ++ ys) ≡ forwarded xs ++ forwarded ys
unfolding forwarded
forwarded-append [] ys = refl
forwarded-append (x ∷ xs) ys =
    rw (forwarded-append xs ys)
      (sym (append_assoc (hops_of_header x) (forwarded xs) (forwarded ys)))

-- One header line, of which the part before a comma was written by the client.
hops_of_header-append :
    (s t : Text) → hops_of_header (s ++ b',' ∷ t) ≡ hops_of_header s ++ hops_of_header t
unfolding hops_of_header
hops_of_header-append s t = ap hops_of_parts (split-append b',' s t) ∙ hops_of_parts-append _ _

zero_offset : (k i : ℕ) → k ≡ 0 + i → k ≡ i
zero_offset k i h = omega (arith, h)

get_elem?-append_right :
    (xs ys : List Text) (i k : ℕ) → k ≡ length xs + i → get_elem? (xs ++ ys) k ≡ get_elem? ys i
get_elem?-append_right [] ys i k h = ap (get_elem? ys) (zero_offset k i h)
get_elem?-append_right (x ∷ xs) ys i zero h = ground (arith, h)
get_elem?-append_right (x ∷ xs) ys i (suc k) h = get_elem?-append_right xs ys i k (omega (arith, h))

from_right-append :
    (n : ℕ) (xs ys : List Text) → n ≤ length ys → from_right n (xs ++ ys) ≡ from_right n ys
unfolding from_right
from_right-append n xs ys h =
    ap (λ t. get_or t [])
      (get_elem?-append_right xs ys (length ys - n) _ (omega (arith, h, length-append xs ys)))

is_empty-append : (xs ys : List Text) → 0 < length ys → is_empty (xs ++ ys) ≡ false
is_empty-append [] [] h = ground (arith, h)
is_empty-append [] (y ∷ ys) h = refl
is_empty-append (x ∷ xs) ys h = refl

module _ (parse : Text → Option Text) (n : ℕ) (host : Option Text) where
  -- A request that carries these X-Forwarded-For lines and this X-Real-IP.
  abbrev pub request_of : List Text → Option Text → Request
  request_of lines real_ip = record {
    client_host = host;
    x_forwarded_for = lines;
    x_real_ip = real_ip;
  }

  candidate-append :
      (xs lines ys : List Text) (real_ip : Option Text)
      → forwarded lines ≡ xs ++ ys
      → 0 < n
      → n ≤ length ys
      → candidate parse n (request_of lines real_ip) ≡ some (from_right n ys)
  unfolding candidate
  candidate-append xs lines ys real_ip e pos h =
      let ne = is_empty-append xs ys (omega (arith, pos, h)) in
      let long = length-append xs ys in
      let same = from_right-append n xs ys h in rw e (rw ne (ground (arith, h, long, same)))

  forwarded_prefix :
      (before : List Text) (s t : Text) (lines : List Text)
      → forwarded (before ++ (s ++ b',' ∷ t) ∷ lines)
        ≡ (forwarded before ++ hops_of_header s) ++ forwarded (t ∷ lines)
  unfolding forwarded
  forwarded_prefix before s t lines =
      rw (forwarded-append before ((s ++ b',' ∷ t) ∷ lines))
        (rw (hops_of_header-append s t) (simp append_assoc refl))

  -- What a client writes into its request does not change the address that is resolved: header
  -- lines put before the others, text put left of a comma in the first trusted line, and
  -- X-Real-IP, when at least one proxy is trusted and the trusted part of the header has at
  -- least as many hops as there are trusted proxies.
  pub resolve_spoofed :
      (before : List Text) (s t : Text) (lines : List Text) (real_ip : Option Text)
      → 0 < n
      → n ≤ length (forwarded (t ∷ lines))
      → resolve parse n (request_of (before ++ (s ++ b',' ∷ t) ∷ lines) real_ip)
        ≡ resolve parse n (request_of (t ∷ lines) none)
  unfolding resolve peer
  resolve_spoofed before s t lines real_ip pos h =
      let hops = forwarded (t ∷ lines) in
      let spoofed = candidate-append _ _ hops real_ip (forwarded_prefix before s t lines) pos h in
      let plain = candidate-append [] (t ∷ lines) hops none refl pos h in rw spoofed (rw plain refl)
