-- ===== src/Examples/Apps.antt =====
-- Examples of feature apps that are found and installed.
use mathlib.Core.List.Permᴰ
use fastapi_project_structur.Common.{
  String, ◌≡◌, refl, true, false, Option, none, some, List, [], ◌∷◌, ◌==◌, if◌then◌else◌,
}
use fastapi_project_structur.Registry.{
  Import, Object, imported, not_found, router, AppModule, ModuleInfo, discover, app_of,
  install_routers, mount_all, mount, claim, load_router, import_optional, optional, routers_module,
  is_absence, exported, router_of, router_attr, owner_of,
}
use fastapi_project_structur.Registry.Wiring.{Mounted, Distinct, install_routers-Mounted}
use fastapi_project_structur.Registry.Discovery.{discover-Perm}

abbrev infos : List ModuleInfo
infos =
    record { name = "user"; ispkg = true }
    ∷ record { name = "blog"; ispkg = true }
    ∷ record { name = "admin"; ispkg = false }
    ∷ []

abbrev listed_otherwise : List ModuleInfo
listed_otherwise =
    record { name = "blog"; ispkg = true }
    ∷ record { name = "user"; ispkg = true }
    ∷ record { name = "admin"; ispkg = false }
    ∷ []

discover-Perm_example : discover "app.features" infos ≡ discover "app.features" listed_otherwise
discover-Perm_example = discover-Perm "app.features" (Permᴰ.swap refl refl)

-- The blog has a router, the user app has no module for one.
abbrev exports : String → Option Object
exports name = if name == "blog_router" then some (router 7) else none

abbrev import_module : String → Import
import_module dotted =
    if dotted == "app.features.blog.api.routers.router"
    then imported (record { attribute = exports })
    else not_found (some "app.features.user.api")

abbrev apps : List AppModule
apps = app_of "app.features" "blog" ∷ app_of "app.features" "user" ∷ []

installs : (install_routers import_module apps).failure ≡ none
unfolding install_routers mount_all mount claim load_router import_optional optional routers_module
    is_absence exported router_of router_attr owner_of app_of
installs = refl

install_routers-Mounted_example :
    Mounted import_module apps (install_routers import_module apps).installed
    × Distinct import_module (install_routers import_module apps).installed
install_routers-Mounted_example = install_routers-Mounted import_module apps installs
