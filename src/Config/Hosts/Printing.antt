-- ===== src/Config/Hosts/Printing.antt =====
-- Addresses with a port, as config.py split_host_port reads them.
use fastapi_project_structur.Common.{
  ℕ, suc, ◌+◌, ◌≡◌, refl, ap, true, false, some, [], ◌∷◌, ◌++◌, arith, eqb, ltb, all, is_empty,
  if◌then◌else◌, eqb_iff, Bool-cases, inl, inr,
}
use fastapi_project_structur.Common.Characters.{strip}
use fastapi_project_structur.Config.Hosts.{
  Text, Unicode, begins, tail, count, partition, parsed, isdigit, int, numbered, with_port,
  bracketed, plain, split_stripped, split_host_port,
}

-- An address with its port: in brackets, if it has a colon.
unfoldable pub printed : Text → Text → Text
printed host port =
    if eqb (count b':' host) 0 then host ++ b':' ∷ port else b'[' ∷ (host ++ b']' ∷ b':' ∷ port)

partition-append : (c : ℕ) (s t : Text) → count c s ≡ 0 → partition c (s ++ c ∷ t) ≡ (s, true, t)
unfolding partition count
partition-append c [] t h = ground arith
partition-append c (x ∷ s) t h = elim (Bool-cases (eqb x c)) [
  | inl e ↦ absurd (ground arith)
  | inr e ↦ rw (e, partition-append c s t (ground arith)) refl
]

count-append : (c : ℕ) (s t : Text) → count c (s ++ t) ≡ count c s + count c t
unfolding count
count-append c [] t = omega arith
count-append c (x ∷ s) t = ground (arith, count-append c s t)

counted_self : (c : ℕ) (s : Text) → count c (c ∷ s) ≡ suc (count c s)
unfolding count
counted_self c s = ground arith

module _ (U : Unicode) where
  no_colon : (s : Text) → all U.is_digit s ≡ true → count b':' s ≡ 0
  unfolding count
  no_colon [] h = refl
  no_colon (x ∷ s) h = elim (Bool-cases (eqb x b':')) [
    | inl e ↦ absurd (ground (arith, U.colon_digit, ap U.is_digit ((eqb_iff x b':').0 e)))
    | inr e ↦ ground (arith, no_colon s)
  ]

  some_digits : (port : Text) → isdigit U port ≡ true → is_empty port ≡ false
  unfolding isdigit
  some_digits port k = ground arith

  all_digits : (port : Text) → isdigit U port ≡ true → all U.is_digit port ≡ true
  unfolding isdigit
  all_digits port k = ground arith

  with_port_printed :
      (d : ℕ) (host port : Text) (n : ℕ)
      → is_empty host ≡ false
      → isdigit U port ≡ true
      → int U port ≡ some n
      → with_port U d host port ≡ parsed (host, n)
  unfolding with_port numbered isdigit
  with_port_printed d host port n h k e = rw (h, e, some_digits port k, all_digits port k) refl

  one_colon :
      (host port : Text)
      → count b':' host ≡ 0
      → isdigit U port ≡ true
      → ltb 1 (count b':' (host ++ b':' ∷ port)) ≡ false
  one_colon host port none_there k =
      let rest = no_colon port (all_digits port k) in
      let whole = count-append b':' host (b':' ∷ port) in
      let first = counted_self b':' port in ground (arith, whole, first, rest, none_there)

  opened : (host : Text) → count b']' host ≡ 0 → count b']' (b'[' ∷ host) ≡ 0
  unfolding count
  opened host h = h

  split_plain :
      (d : ℕ) (host port : Text) (n : ℕ)
      → is_empty host ≡ false
      → begins b'[' host ≡ false
      → count b':' host ≡ 0
      → isdigit U port ≡ true
      → int U port ≡ some n
      → split_stripped U d (host ++ b':' ∷ port) ≡ parsed (host, n)
  unfolding split_stripped plain begins
  split_plain d [] port n h open' one k e = absurd (cc h)
  split_plain d (x ∷ host) port n h open' one k e =
      rw (open', one_colon (x ∷ host) port one k, partition-append b':' (x ∷ host) port one)
        (with_port_printed d (x ∷ host) port n h k e)

  split_bracketed :
      (d : ℕ) (host port : Text) (n : ℕ)
      → is_empty host ≡ false
      → count b']' host ≡ 0
      → isdigit U port ≡ true
      → int U port ≡ some n
      → split_stripped U d (b'[' ∷ (host ++ b']' ∷ b':' ∷ port)) ≡ parsed (host, n)
  unfolding split_stripped bracketed begins tail
  split_bracketed d host port n h closed k e =
      rw (partition-append b']' (b'[' ∷ host) (b':' ∷ port) (opened host closed))
        (with_port_printed d host port n h k e)

  -- A host and a port, written as host:port, or as [host]:port if the host has a colon, are
  -- read back, white space around them allowed, when the host is not empty, has no closing
  -- bracket and does not begin with an opening one, and the port's digits are a number.
  pub split_host_port-printed :
      (d : ℕ) (host port entry : Text) (n : ℕ)
      → is_empty host ≡ false
      → begins b'[' host ≡ false
      → count b']' host ≡ 0
      → isdigit U port ≡ true
      → int U port ≡ some n
      → strip entry ≡ printed host port
      → split_host_port U entry d ≡ parsed (host, n)
  unfolding split_host_port printed
  split_host_port-printed d host port entry n h open' closed k e same =
      elim (Bool-cases (eqb (count b':' host) 0)) [
        | inl p ↦ rw (same, p) (split_plain d host port n h open' ((eqb_iff _ 0).0 p) k e)
        | inr p ↦ rw (same, p) (split_bracketed d host port n h closed k e)
      ]
