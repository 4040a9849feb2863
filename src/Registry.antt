-- ===== src/Registry.antt =====
-- app/core/registry.py: the feature apps under a package and what is installed from them. What an
-- import ends with is a parameter; an object is known by its identity.
pub mod Wiring
pub mod Discovery
use text.Mathlib.Text.{starts_with}
use fastapi_project_structur.Common.{
  ℕ, suc, String, Bool, true, false, not, ◌&&◌, ◌||◌, Option, none, some, List, [], ◌∷◌, ◌++◌, map,
  is_some, eqb, ◌==◌, ◌+++◌, if◌then◌else◌,
}
use fastapi_project_structur.Common.Sorting.{sorted}

-- An entry of a list of views: a subclass of ModelView, or something else.
pub data View : Type 0 where
  model_view : ℕ → View
  other_view : View

-- What a module's attribute may be, as far as the registry tells; None is as if it were missing.
pub data Object : Type 0 where
  router : ℕ → Object
  view_list : List View → Object
  other_object : Object

pub record Module : Type 0 where
  pub attribute : String → Option Object

-- import_module: the module, or ModuleNotFoundError with the name that it gives, or another exception
pub data Import : Type 0 where
  imported : Module → Import
  not_found : Option String → Import
  broken : Import

pub data Failure : Type 0 where
  -- an exception that an import raised
  import_error : String → Failure
  -- AppContractError
  no_router not_a_router : (app : String) → Failure
  shared_router : (app owner : String) → Failure
  no_views views_not_a_list not_a_view : (app : String) → Failure
  duplicate_view : (owner app : String) → Failure

pub data Result (A : Type 0) : Type 0 where
  failed : Failure → Result A
  loaded : A → Result A

abbrev pub and_then : {A B : Type 0} → (A → Result B) → Result A → Result B
and_then rest (failed e) = failed e
and_then rest (loaded a) = rest a

pub record AppModule : Type 0 where
  pub name : String
  pub package_path : String
  pub prefix : String

unfoldable pub router_attr : AppModule → String
router_attr app = app.name +++ "_router"

unfoldable pub tasks_module : AppModule → String
tasks_module app = app.package_path +++ ".tasks"

-- whether the module that is missing is the one asked for, or a package above it
unfoldable pub is_absence : String → Option String → Bool
is_absence dotted none = false
is_absence dotted (some missing) =
    not (missing == "") && (dotted == missing || starts_with dotted (missing +++ "."))

-- What is mounted when the loop ends, and whether it ended with an exception.
pub record Wired (A : Type 0) : Type 0 where
  pub installed : List A
  pub failure : Option Failure

abbrev pub wired : {A : Type 0} → A → Wired A → Wired A
wired a w = record { installed = a ∷ w.installed; failure = w.failure }

abbrev pub stopped : {A : Type 0} → Failure → Wired A
stopped e = record { installed = []; failure = some e }

abbrev pub finished : {A : Type 0} → Wired A
finished = record { installed = []; failure = none }

-- `seen.get`, on a dictionary from objects to the apps that own them
unfoldable pub owner_of : ℕ → List (ℕ × String) → Option String
owner_of id [] = none
owner_of id ((seen, owner) ∷ rest) =
    let later = owner_of id rest in if eqb seen id then some owner else later

module _ (import_module : String → Import) where
  unfoldable pub optional : String → Import → Result (Option Module)
  optional dotted (imported m) = loaded (some m)
  optional dotted (not_found missing) =
      if is_absence dotted missing then loaded none else failed (import_error dotted)
  optional dotted broken = failed (import_error dotted)

  unfoldable pub import_optional : String → Result (Option Module)
  import_optional dotted = optional dotted (import_module dotted)

  unfoldable pub routers_module : AppModule → String
  routers_module app = app.package_path +++ ".api.routers.router"

  unfoldable pub admin_module : AppModule → String
  admin_module app = app.package_path +++ ".admin"

  -- whether `ready` was called
  unfoldable pub ready_of : Option Module → Bool
  ready_of none = false
  ready_of (some m) = is_some (m.attribute "ready")

  unfoldable pub install_hook : AppModule → Result Bool
  install_hook app =
      and_then (λ m. loaded (ready_of m)) (import_optional (app.package_path +++ ".apps"))

  unfoldable pub router_of : AppModule → Option Object → Result (Option ℕ)
  router_of app none = failed (no_router app.name)
  router_of app (some (router id)) = loaded (some id)
  router_of app (some _) = failed (not_a_router app.name)

  unfoldable pub exported : AppModule → Option Module → Result (Option ℕ)
  exported app none = loaded none
  exported app (some m) = router_of app (m.attribute (router_attr app))

  unfoldable pub load_router : AppModule → Result (Option ℕ)
  load_router app = and_then (exported app) (import_optional (routers_module app))

  -- the views, unless one of them is no ModelView
  unfoldable pub checked_views : AppModule → List View → Result (List ℕ)
  checked_views app [] = loaded []
  checked_views app (model_view v ∷ views) =
      and_then (λ vs. loaded (v ∷ vs)) (checked_views app views)
  checked_views app (other_view ∷ views) = failed (not_a_view app.name)

  unfoldable pub views_of : AppModule → Option Object → Result (List ℕ)
  views_of app none = failed (no_views app.name)
  views_of app (some (view_list views)) = checked_views app views
  views_of app (some _) = failed (views_not_a_list app.name)

  unfoldable pub listed : AppModule → Option Module → Result (List ℕ)
  listed app none = loaded []
  listed app (some m) = views_of app (m.attribute "admin_views")

  unfoldable pub load_admin_views : AppModule → Result (List ℕ)
  load_admin_views app = and_then (listed app) (import_optional (admin_module app))

  unfoldable pub import_models_of : AppModule → Result (Unit {0})
  import_models_of app =
      and_then
        (λ _. and_then (λ _. loaded tt) (import_optional (app.package_path +++ ".models.models")))
        (import_optional (app.package_path +++ ".models"))

  unfoldable pub claim :
      AppModule
      → ℕ
      → List (ℕ × String)
      → (List (ℕ × String) → Wired (ℕ × String))
      → Option String
      → Wired (ℕ × String)
  claim app id seen rest (some owner) = stopped (shared_router app.name owner)
  claim app id seen rest none = wired (id, app.prefix) (rest ((id, app.name) ∷ seen))

  -- one round of the loop of install_routers, and the rest of it
  unfoldable pub mount :
      AppModule
      → List (ℕ × String)
      → (List (ℕ × String) → Wired (ℕ × String))
      → Result (Option ℕ)
      → Wired (ℕ × String)
  mount app seen rest (failed e) = stopped e
  mount app seen rest (loaded none) = rest seen
  mount app seen rest (loaded (some id)) = claim app id seen rest (owner_of id seen)

  unfoldable pub mount_all : List AppModule → List (ℕ × String) → Wired (ℕ × String)
  mount_all [] seen = finished
  mount_all (app ∷ apps) seen = mount app seen (mount_all apps) (load_router app)

  unfoldable pub install_routers : List AppModule → Wired (ℕ × String)
  install_routers apps = mount_all apps []

  unfoldable pub add_view : AppModule → ℕ → Wired ℕ → Option String → Wired ℕ
  add_view app view later (some owner) = stopped (duplicate_view owner app.name)
  add_view app view later none = wired view later

  -- the views of one app, and what follows them
  unfoldable pub add_views :
      AppModule → List ℕ → List (ℕ × String) → (List (ℕ × String) → Wired ℕ) → Wired ℕ
  add_views app [] seen rest = rest seen
  add_views app (view ∷ views) seen rest =
      add_view app view (add_views app views ((view, app.name) ∷ seen) rest) (owner_of view seen)

  unfoldable pub add_loaded :
      AppModule → List (ℕ × String) → (List (ℕ × String) → Wired ℕ) → Result (List ℕ) → Wired ℕ
  add_loaded app seen rest (failed e) = stopped e
  add_loaded app seen rest (loaded views) = add_views app views seen rest

  unfoldable pub add_all : List AppModule → List (ℕ × String) → Wired ℕ
  add_all [] seen = finished
  add_all (app ∷ apps) seen = add_loaded app seen (add_all apps) (load_admin_views app)

  unfoldable pub install_admin : List AppModule → Wired ℕ
  install_admin apps = add_all apps []

  -- how many hooks were called
  unfoldable pub install_hooks : List AppModule → Result ℕ
  install_hooks [] = loaded 0
  install_hooks (app ∷ apps) =
      and_then (λ called. and_then (λ n. loaded (if called then suc n else n)) (install_hooks apps))
        (install_hook app)

  unfoldable pub import_models : List AppModule → Result (Unit {0})
  import_models [] = loaded tt
  import_models (app ∷ apps) = and_then (λ _. import_models apps) (import_models_of app)

-- What pkgutil.iter_modules yields.
pub record ModuleInfo : Type 0 where
  pub name : String
  pub ispkg : Bool

unfoldable pub is_app : ModuleInfo → Bool
is_app info = info.ispkg && not (starts_with info.name "_")

unfoldable pub app_names : List ModuleInfo → List String
app_names [] = []
app_names (info ∷ infos) =
    let rest = app_names infos in if is_app info then info.name ∷ rest else rest

unfoldable pub app_of : String → String → AppModule
app_of path name = record { name = name; package_path = path +++ ("." +++ name); prefix = "/api" }

unfoldable pub discover : String → List ModuleInfo → List AppModule
discover path infos = map (app_of path) (sorted (app_names infos))

-- `exists` is whether find_spec finds a module.
unfoldable pub task_modules : (exists : String → Bool) → List AppModule → List String
task_modules exists [] = []
task_modules exists (app ∷ apps) =
    let rest = task_modules exists apps in
    if exists (tasks_module app) then tasks_module app ∷ rest else rest
