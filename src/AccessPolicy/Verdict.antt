-- ===== src/AccessPolicy/Verdict.antt =====
-- The guard's verdict (app/core/security/access.py, AccessPolicyGuard) against a description of
-- the policy: each operation has exactly one level, and it fits the method.
use fastapi_project_structur.Common.{
  String, eq_refl, ◌≡◌, ◌↔◌, inl, inr, refl, sym, ap, ◌∙◌, Bool, true, false, not, ◌&&◌, Option,
  none, some, List, [], ◌∷◌, ◌++◌, ◌==◌, eq_iff, arith, contains, is_empty, any, All, if◌then◌else◌,
  Bool-cases,
}
use fastapi_project_structur.AccessPolicy.{
  AccessLevel, public, public_write, login, superuser, Dependant, Route, Operation, declared_levels,
  assign, assign_all, operations_from, operations, safe_methods, problem, violations_of, violations,
  verify,
}

-- A level that a view of this method may declare.
abbrev pub fits : String → AccessLevel → Bool
fits method public = contains method safe_methods
fits method public_write = not (contains method safe_methods)
fits method _ = true

-- Exactly one level, which fits.
pub IsFitting : String → List AccessLevel → Type 0
IsFitting method levels = (l : AccessLevel) × (levels ≡ l ∷ []) × (fits method l ≡ true)

problem-none :
    (m p : String) (levels : List AccessLevel)
    → problem (record { method = m; path = p; levels = levels }) ≡ []
    → IsFitting m levels
unfolding problem IsFitting
problem-none m p [] h = ground (arith, h)
problem-none m p (a ∷ b ∷ ls) h = ground (arith, h)
problem-none m p (public ∷ []) h = (public, refl, ground (arith, h))
problem-none m p (public_write ∷ []) h = (public_write, refl, ground (arith, h))
problem-none m p (login ∷ []) h = (login, refl, refl)
problem-none m p (superuser ∷ []) h = (superuser, refl, refl)

none-problem :
    (m p : String) (levels : List AccessLevel) (l : AccessLevel)
    → levels ≡ l ∷ []
    → fits m l ≡ true
    → problem (record { method = m; path = p; levels = levels }) ≡ []
unfolding problem
none-problem m p levels public e h = rw e (ground (arith, h))
none-problem m p levels public_write e h = rw e (ground (arith, h))
none-problem m p levels login e h = rw e refl
none-problem m p levels superuser e h = rw e refl

append-nil : {A : Type 0} (xs ys : List A) → xs ++ ys ≡ [] → (xs ≡ []) × (ys ≡ [])
append-nil [] ys h = (refl, h)
append-nil (x ∷ xs) ys h = ground (arith, h)

abbrev AllFit : List Operation → Type 0
AllFit os = All (λ o. IsFitting o.method o.levels) os

violations_of-nil : (os : List Operation) → violations_of os ≡ [] → AllFit os
unfolding violations_of
violations_of-nil [] h = tt
violations_of-nil (o ∷ os) h =
    let parts = append-nil (problem o) (violations_of os) h in
    (problem-none o.method o.path o.levels parts.0, violations_of-nil os parts.1)

nil-violations_of : (os : List Operation) → AllFit os → violations_of os ≡ []
unfolding violations_of IsFitting
nil-violations_of [] h = refl
nil-violations_of (o ∷ os) (h, hs) =
    let here = none-problem o.method o.path o.levels h.0 h.1 h.2 in
    rw here (nil-violations_of os hs)

is_empty-nil : {A : Type 0} (xs : List A) → is_empty xs ≡ true → xs ≡ []
is_empty-nil [] h = refl
is_empty-nil (x ∷ xs) h = ground (arith, h)

-- The guard lets an application start exactly if every operation that it collects has exactly
-- one access level and the level fits the method: Public for reading methods only, PublicWrite
-- for the others only.
pub verify_iff :
    (routes : List Route)
    → (verify routes ≡ true) ↔ All (λ o. IsFitting o.method o.levels) (operations routes)
unfolding verify violations
verify_iff routes = (
  (λ h. violations_of-nil (operations routes) (is_empty-nil (violations_of (operations routes)) h)),
  (λ h. ap is_empty (nil-violations_of (operations routes) h)),
)

-- result.get((method, path))
abbrev lookup : String → String → List Operation → Option (List AccessLevel)
lookup m p [] = none
lookup m p (o ∷ os) =
    let rest = lookup m p os in if o.method == m && o.path == p then some o.levels else rest

abbrev pub serves : String → String → Route → Bool
serves m p r = contains m r.methods && r.path == p

lookup-assign :
    (m p n q : String) (ls : List AccessLevel) (os : List Operation)
    → lookup m p (assign n q ls os) ≡ (if n == m && q == p then some ls else lookup m p os)
unfolding assign
lookup-assign m p n q ls [] = refl
lookup-assign m p n q ls (o ∷ os) =
    let ih = lookup-assign m p n q ls os in grind (arith, ih, eq_iff)

lookup-assign_all :
    (m p : String) (ns : List String) (q : String) (ls : List AccessLevel) (os : List Operation)
    → lookup m p (assign_all ns q ls os)
      ≡ (if contains m ns && q == p then some ls else lookup m p os)
unfolding assign_all
lookup-assign_all m p [] q ls os = refl
lookup-assign_all m p (n ∷ ns) q ls os =
    let ih = lookup-assign_all m p ns q ls (assign n q ls os) in
    let first = lookup-assign m p n q ls os in ground (arith, ih, first)

lookup-operations_from :
    (m p : String) (routes : List Route) (os : List Operation)
    → any (serves m p) routes ≡ false
    → lookup m p (operations_from routes os) ≡ lookup m p os
unfolding operations_from
lookup-operations_from m p [] os h = refl
lookup-operations_from m p (r ∷ rs) os h =
    let step = lookup-assign_all m p r.methods r.path (declared_levels r.tree) os in
    let rest = assign_all r.methods r.path (declared_levels r.tree) os in
    let ih = lookup-operations_from m p rs rest in ground (arith, h, step, ih)

operations_from-last :
    (m p : String) (before : List Route) (r : Route) (later : List Route) (os : List Operation)
    → serves m p r ≡ true
    → any (serves m p) later ≡ false
    → lookup m p (operations_from (before ++ r ∷ later) os) ≡ some (declared_levels r.tree)
unfolding operations_from
operations_from-last m p [] r later os h k =
    let after = assign_all r.methods r.path (declared_levels r.tree) os in
    let step = lookup-assign_all m p r.methods r.path (declared_levels r.tree) os in
    lookup-operations_from m p later after k ∙ (step ∙ rw h refl)
operations_from-last m p (b ∷ bs) r later os h k = operations_from-last m p bs r later _ h k

found :
    (m p : String) (o : Operation) (os : List Operation) (ls : List AccessLevel)
    → (o.method == m && o.path == p) ≡ true
    → lookup m p (o ∷ os) ≡ some ls
    → (o.method ≡ m) × (o.levels ≡ ls)
found m p o os ls hit e =
    let same = eq_iff o.method m in (same.0 (ground (arith, hit)), ground (arith, hit, e))

here :
    (m : String) (ls : List AccessLevel) (o : Operation)
    → IsFitting o.method o.levels
    → (o.method ≡ m) × (o.levels ≡ ls)
    → IsFitting m ls
unfolding IsFitting
here m ls o (l, e, f) (sm, sl) = (l, sym sl ∙ e, ap (λ n. fits n l) (sym sm) ∙ f)

lookup-AllFit :
    (m p : String) (os : List Operation) (ls : List AccessLevel)
    → AllFit os
    → lookup m p os ≡ some ls
    → IsFitting m ls
lookup-AllFit m p [] ls h e = ground (arith, e)
lookup-AllFit m p (o ∷ os) ls (h, hs) e = elim (Bool-cases (o.method == m && o.path == p)) [
  | inl hit ↦ here m ls o h (found m p o os ls hit e)
  | inr miss ↦ lookup-AllFit m p os ls hs (ground (arith, e, miss))
]

-- In an application that the guard lets start, a view has exactly one access level for each of
-- its methods, and the level fits the method, provided that no later route has the same method
-- and path.
pub verified_view :
    (m p : String) (before : List Route) (r : Route) (later : List Route)
    → verify (before ++ r ∷ later) ≡ true
    → serves m p r ≡ true
    → any (serves m p) later ≡ false
    → IsFitting m (declared_levels r.tree)
unfolding operations
verified_view m p before r later v h k =
    let routes = before ++ r ∷ later in
    lookup-AllFit m p (operations routes) (declared_levels r.tree) ((verify_iff routes).0 v)
      (operations_from-last m p before r later [] h k)

assign_twice :
    (m p : String) (ls ks : List AccessLevel) (os : List Operation)
    → assign m p ls (assign m p ks os) ≡ assign m p ls os
unfolding assign
assign_twice m p ls ks [] = ground (arith, eq_refl m, eq_refl p)
assign_twice m p ls ks (o ∷ os) =
    let ih = assign_twice m p ls ks os in ground (arith, ih, eq_refl m, eq_refl p)

-- A view of one method.
abbrev pub view : String → String → Dependant → Route
view m p d = record { methods = m ∷ []; path = p; tree = d }

operations_from-shadowed :
    (m p : String) (d e : Dependant) (before later : List Route) (os : List Operation)
    → operations_from (before ++ view m p d ∷ view m p e ∷ later) os
      ≡ operations_from (before ++ view m p e ∷ later) os
unfolding operations_from assign_all
operations_from-shadowed m p d e [] later os =
    ap (operations_from later) (assign_twice m p (declared_levels e) (declared_levels d) os)
operations_from-shadowed m p d e (b ∷ bs) later os =
    operations_from-shadowed m p d e bs later
      (assign_all b.methods b.path (declared_levels b.tree) os)

-- Of two views of the same single method and path, one directly after the other, the verdict
-- does not depend on the first.
pub verify_shadowed :
    (m p : String) (d e : Dependant) (before later : List Route)
    → verify (before ++ view m p d ∷ view m p e ∷ later) ≡ verify (before ++ view m p e ∷ later)
unfolding verify violations operations
verify_shadowed m p d e before later =
    ap (λ os. is_empty (violations_of os)) (operations_from-shadowed m p d e before later [])
