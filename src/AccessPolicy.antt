-- ===== src/AccessPolicy.antt =====
-- app/core/security/access.py: the access level that every view declares, and the guard that stops
-- the start of an application in which a view declares none or a wrong one. The framework's routes
-- are what `iter_route_contexts` yields for APIRoute objects, their methods in sorted order.
pub mod Verdict
use fastapi_project_structur.Common.{
  ℕ, String, Bool, true, false, not, ◌&&◌, ◌||◌, List, [], ◌∷◌, ◌++◌, ◌==◌, contains, is_empty,
  if◌then◌else◌,
}

-- What a dependency calls: the two markers, the two principals, or anything else.
pub data Call : Type 0 where
  public_marker public_write_marker get_current_principal require_superuser : Call
  other : ℕ → Call

mutual
  pub data Dependant : Type 0 where
    dependant : Call → Dependants → Dependant

  pub data Dependants : Type 0 where
    none : Dependants
    and : Dependant → Dependants → Dependants

pub data AccessLevel : Type 0 where
  public public_write login superuser : AccessLevel

abbrev pub same_call : Call → Call → Bool
same_call public_marker public_marker = true
same_call public_write_marker public_write_marker = true
same_call get_current_principal get_current_principal = true
same_call require_superuser require_superuser = true
same_call _ _ = false

unfoldable mutual
  pub has_call : Call → Dependant → Bool
  has_call c (dependant d subs) = same_call c d || have_call c subs

  pub have_call : Call → Dependants → Bool
  have_call c none = false
  have_call c (and d ds) = has_call c d || have_call c ds

abbrev pub when : Bool → AccessLevel → List AccessLevel
when b l = if b then l ∷ [] else []

-- the set of levels, each at most once
unfoldable pub declared_levels : Dependant → List AccessLevel
declared_levels d =
    when (has_call public_marker d) public
    ++ (when (has_call public_write_marker d) public_write
        ++ (if has_call require_superuser d
            then superuser ∷ []
            else when (has_call get_current_principal d) login))

pub record Route : Type 0 where
  pub methods : List String
  pub path : String
  pub tree : Dependant

pub record Operation : Type 0 where
  pub method : String
  pub path : String
  pub levels : List AccessLevel

-- result[(method, path)] = levels
unfoldable pub assign : String → String → List AccessLevel → List Operation → List Operation
assign method path levels [] = record { method = method; path = path; levels = levels } ∷ []
assign method path levels (o ∷ os) =
    let rest = assign method path levels os in
    if o.method == method && o.path == path
    then record { method = method; path = path; levels = levels } ∷ os
    else o ∷ rest

unfoldable pub assign_all :
    List String → String → List AccessLevel → List Operation → List Operation
assign_all [] path levels os = os
assign_all (method ∷ methods) path levels os =
    assign_all methods path levels (assign method path levels os)

unfoldable pub operations_from : List Route → List Operation → List Operation
operations_from [] os = os
operations_from (r ∷ rs) os =
    operations_from rs (assign_all r.methods r.path (declared_levels r.tree) os)

unfoldable pub operations : List Route → List Operation
operations routes = operations_from routes []

abbrev pub safe_methods : List String
safe_methods = "GET" ∷ "HEAD" ∷ "OPTIONS" ∷ []

pub data Problem : Type 0 where
  undeclared ambiguous unsafe_public safe_public_write : Operation → Problem

unfoldable pub problem : Operation → List Problem
problem o = elim o.levels [
  | [] ↦ undeclared o ∷ []
  | a ∷ b ∷ rest ↦ ambiguous o ∷ []
  | public ∷ [] ↦ if contains o.method safe_methods then [] else unsafe_public o ∷ []
  | public_write ∷ [] ↦ if contains o.method safe_methods then safe_public_write o ∷ [] else []
  | _ ↦ []
]

unfoldable pub violations_of : List Operation → List Problem
violations_of [] = []
violations_of (o ∷ os) = problem o ++ violations_of os

unfoldable pub violations : List Route → List Problem
violations routes = violations_of (operations routes)

-- whether the application starts
unfoldable pub verify : List Route → Bool
verify routes = is_empty (violations routes)
