-- ===== src/Registry/Wiring.antt =====
-- What is installed from the apps (app/core/registry.py install_routers).
use fastapi_project_structur.Common.{
  ℕ, String, ◌≡◌, refl, Bool, true, false, Option, none, some, List, [], ◌∷◌, eqb, arith, any, All,
  if◌then◌else◌,
}
use fastapi_project_structur.Registry
use fastapi_project_structur.Registry.{
  AppModule, Module, Object, router, Import, imported, not_found, broken, Result, failed, loaded,
  Failure, Wired, router_attr, is_absence, import_optional, optional, routers_module, exported,
  router_of, load_router, owner_of, claim, mount, mount_all, install_routers,
}

module _ (import_module : String → Import) where
  -- the app has no module for its router
  pub IsAbsent : AppModule → Type 0
  IsAbsent app =
      (missing : Option String) × (import_module (routers_module import_module app)
        ≡ not_found missing)
      × (is_absence (routers_module import_module app) missing ≡ true)

  -- the app's module has this router under the name of the convention
  pub Exports : AppModule → ℕ → Type 0
  Exports app id =
      (m : Module) × (import_module (routers_module import_module app) ≡ imported m)
      × (m.attribute (router_attr app) ≡ some (router id))

  -- Every app in its order: without a module, or mounted under its prefix.
  pub data Mounted : List AppModule → List (ℕ × String) → Type 0 where
    nil : Mounted [] []
    absent :
        {app : AppModule} {apps : List AppModule} {ms : List (ℕ × String)}
        → IsAbsent app
        → Mounted apps ms
        → Mounted (app ∷ apps) ms
    mounted :
        {app : AppModule} {apps : List AppModule} {id : ℕ} {ms : List (ℕ × String)}
        → Exports app id
        → Mounted apps ms
        → Mounted (app ∷ apps) ((id, app.prefix) ∷ ms)

  -- no object stands twice
  pub Distinct : List (ℕ × String) → Type 0
  Distinct [] = Unit
  Distinct (m ∷ ms) = (any (λ n. eqb (m.0) (n.0)) ms ≡ false) × Distinct ms

  -- what loading a router has found
  data Found (app : AppModule) : Result (Option ℕ) → Type 0 where
    nothing : IsAbsent app → Found app (loaded none)
    exports : {id : ℕ} → Exports app id → Found app (loaded (some id))
    raised : {e : Failure} → Found app (failed e)

  router_of-Found :
      (app : AppModule) (m : Module) (o : Option Object)
      → import_module (routers_module import_module app) ≡ imported m
      → m.attribute (router_attr app) ≡ o
      → Found app (router_of import_module app o)
  unfolding router_of Exports
  router_of-Found app m none e h = raised
  router_of-Found app m (some (router id)) e h = exports (m, e, h)
  router_of-Found app m (some (Registry.view_list vs)) e h = raised
  router_of-Found app m (some Registry.other_object) e h = raised

  absence-Found :
      (app : AppModule) (missing : Option String) (b : Bool)
      → import_module (routers_module import_module app) ≡ not_found missing
      → is_absence (routers_module import_module app) missing ≡ b
      → Found app (
          Registry.and_then (exported import_module app) (
            if b
            then loaded none
            else failed (Registry.import_error (routers_module import_module app))))
  unfolding exported IsAbsent
  absence-Found app missing true e h = nothing (missing, e, h)
  absence-Found app missing false e h = raised

  optional-Found :
      (app : AppModule) (i : Import)
      → import_module (routers_module import_module app) ≡ i
      → Found app (
          Registry.and_then
            (exported import_module app)
            (optional import_module (routers_module import_module app) i))
  unfolding optional exported
  optional-Found app (imported m) e = router_of-Found app m _ e refl
  optional-Found app (not_found missing) e = absence-Found app missing _ e refl
  optional-Found app broken e = raised

  load_router-Found : (app : AppModule) → Found app (load_router import_module app)
  unfolding load_router import_optional
  load_router-Found app = optional-Found app _ refl

  -- nothing that is installed was seen before
  abbrev Unseen : List (ℕ × String) → List (ℕ × String) → Type 0
  Unseen seen ms = All (λ m. owner_of (m.0) seen ≡ none) ms

  newer :
      (id : ℕ) (name : String) (seen ms : List (ℕ × String))
      → Unseen ((id, name) ∷ seen) ms
      → Unseen seen ms × (any (λ n. eqb id (n.0)) ms ≡ false)
  unfolding owner_of
  newer id name seen [] h = (tt, refl)
  newer id name seen (m ∷ ms) (h, hs) =
      let (unseen, differs) = newer id name seen ms hs in ((ground arith, unseen), ground arith)

  abbrev Wiring : List AppModule → List (ℕ × String) → Wired (ℕ × String) → Type 0
  Wiring apps seen w = Mounted apps w.installed × Distinct w.installed × Unseen seen w.installed

  claim-Wiring :
      (app : AppModule) (apps : List AppModule) (id : ℕ) (seen : List (ℕ × String))
      (o : Option String)
      → owner_of id seen ≡ o
      → Exports app id
      → ((later : List (ℕ × String))
          → (mount_all import_module apps later).failure ≡ none
          → Wiring apps later (mount_all import_module apps later))
      → (claim import_module app id seen (mount_all import_module apps) o).failure ≡ none
      → Wiring (app ∷ apps) seen (claim import_module app id seen (mount_all import_module apps) o)
  unfolding claim Distinct
  claim-Wiring app apps id seen (some owner) e found rest h = absurd (cc h)
  claim-Wiring app apps id seen none e found rest h =
      let (ms, distinct, unseen) = rest ((id, app.name) ∷ seen) h in
      let (before, differ) = newer id app.name seen _ unseen in
      (mounted found ms, (differ, distinct), (e, before))

  mount-Wiring :
      (app : AppModule) (apps : List AppModule) (seen : List (ℕ × String)) (r : Result (Option ℕ))
      → Found app r
      → ((later : List (ℕ × String))
          → (mount_all import_module apps later).failure ≡ none
          → Wiring apps later (mount_all import_module apps later))
      → (mount import_module app seen (mount_all import_module apps) r).failure ≡ none
      → Wiring (app ∷ apps) seen (mount import_module app seen (mount_all import_module apps) r)
  unfolding mount
  mount-Wiring app apps seen _ (nothing gone) rest h =
      let (ms, distinct, unseen) = rest seen h in (absent gone ms, distinct, unseen)
  mount-Wiring app apps seen _ (exports found) rest h =
      claim-Wiring app apps _ seen _ refl found rest h
  mount-Wiring app apps seen _ raised rest h = absurd (cc h)

  mount_all-Wiring :
      (apps : List AppModule) (seen : List (ℕ × String))
      → (mount_all import_module apps seen).failure ≡ none
      → Wiring apps seen (mount_all import_module apps seen)
  unfolding mount_all Distinct
  mount_all-Wiring [] seen h = (nil, tt, tt)
  mount_all-Wiring (app ∷ apps) seen h =
      mount-Wiring app apps seen (load_router import_module app) (load_router-Found app)
        (λ later k. mount_all-Wiring apps later k) h

  -- If the routers of the apps are installed without an exception, every app has been treated
  -- in its order: either its router module, or a package above it, does not exist, or the
  -- router that the module exports under the conventional name is mounted under the app's
  -- prefix; and no router is mounted twice.
  pub install_routers-Mounted :
      (apps : List AppModule)
      → (install_routers import_module apps).failure ≡ none
      → Mounted apps (install_routers import_module apps).installed
        × Distinct (install_routers import_module apps).installed
  unfolding install_routers
  install_routers-Mounted apps h =
      let (ms, distinct, unseen) = mount_all-Wiring apps [] h in (ms, distinct)
