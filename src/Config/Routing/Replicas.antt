-- ===== src/Config/Routing/Replicas.antt =====
-- The replicas of settings that pass their check (config.py DatabaseSettings).
use fastapi_project_structur.Common.{
  ℕ, suc, ◌≡◌, refl, ap, ◌∙◌, Bool, true, false, not, ◌&&◌, Option, none, some, List, [], ◌∷◌,
  arith, length, is_empty, if◌then◌else◌,
}
use fastapi_project_structur.Config.Hosts.{Text, Unicode, Parsed, invalid, parsed}
use fastapi_project_structur.Config.Routing.{
  DatabaseSettings, Url, RoutingError, needs_router, needs_replicas, replica_entries,
  replication_active, replica_url, consed, mapped, urls_of, mysql_replica_urls, entry_error,
  entries_error, validate_routing,
}

module _ (U : Unicode) (aiomysql : Text) (s : DatabaseSettings) where
  -- a list of URLs of this length
  abbrev HasUrls : ℕ → Parsed (List Url) → Type 0
  HasUrls n p = (urls : List Url) × (p ≡ parsed urls) × (length urls ≡ n)

  consed-HasUrls :
      (n : ℕ) (first : Parsed (Text × ℕ)) (rest : Parsed (List Url)) (later : Option RoutingError)
      → entry_error U first later ≡ none
      → (later ≡ none → HasUrls n rest)
      → HasUrls (suc n) (consed U (mapped U (replica_url U aiomysql s) first) rest)
  unfolding entry_error consed mapped
  consed-HasUrls n (invalid e) rest later h k = absurd (cc h)
  consed-HasUrls n (parsed a) rest later h k =
      let (urls, e, l) = k h in (replica_url U aiomysql s a ∷ urls, rw e refl, ap suc l)

  urls_of-HasUrls :
      (entries : List Text)
      → entries_error U s.mysql_replica_port entries ≡ none
      → HasUrls (length entries) (urls_of U aiomysql s entries)
  unfolding entries_error urls_of
  urls_of-HasUrls [] h = ([], refl, refl)
  urls_of-HasUrls (entry ∷ entries) h =
      consed-HasUrls (length entries) _ _ _ h (λ k. urls_of-HasUrls entries k)

  length_of : (xs : List Url) (ys : List Text) → length xs ≡ length ys → is_empty xs ≡ is_empty ys
  length_of [] [] h = refl
  length_of [] (y ∷ ys) h = absurd (omega (arith, h))
  length_of (x ∷ xs) [] h = absurd (omega (arith, h))
  length_of (x ∷ xs) (y ∷ ys) h = refl

  passed :
      (a b : Bool) (x y : RoutingError) {z : Option RoutingError}
      → (if a then some x else if b then some y else z) ≡ none
      → (a ≡ false) × (b ≡ false) × (z ≡ none)
  passed true b x y h = absurd (cc h)
  passed false true x y h = absurd (cc h)
  passed false false x y h = (refl, refl, h)

  -- what each setting of the two switches comes to
  switched :
      (on router : Bool) (entries : List Text) (p : Parsed (List Url))
      → on && not router ≡ false
      → on && is_empty entries ≡ false
      → HasUrls (length entries) p
      → (urls : List Url) × ((if not (router && on) then parsed [] else p) ≡ parsed urls)
        × (is_empty urls ≡ not on)
        × (length urls ≡ (if on then length entries else 0))
  switched true true entries p routed there (urls, e, l) =
      (urls, e, length_of urls entries l ∙ there, l)
  switched true false entries p routed there found = absurd (cc routed)
  switched false true entries p routed there found = ([], refl, refl, refl)
  switched false false entries p routed there found = ([], refl, refl, refl)

  -- Settings that pass the check of the routing have URLs of their replicas, without an
  -- exception: none if replication is off, and otherwise one for each entry that is not blank,
  -- of which there is at least one.
  pub validated_replicas :
      validate_routing U s ≡ none
      → (urls : List Url) × (mysql_replica_urls U aiomysql s ≡ parsed urls)
        × (is_empty urls ≡ not s.db_replication_enabled)
        × (length urls ≡ (if s.db_replication_enabled then length (replica_entries s) else 0))
  unfolding validate_routing mysql_replica_urls replication_active
  validated_replicas h =
      let (routed, there, fine) =
        passed (s.db_replication_enabled && not s.db_router_enabled)
          (s.db_replication_enabled && is_empty (replica_entries s)) needs_router needs_replicas
          h in
      switched s.db_replication_enabled s.db_router_enabled (replica_entries s)
        (urls_of U aiomysql s (replica_entries s)) routed there
        (urls_of-HasUrls (replica_entries s) fine)
