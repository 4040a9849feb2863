-- ===== src/Registry/Discovery.antt =====
-- The order of the apps (app/core/registry.py discover).
use mathlib.Core.List.Permᴰ
use mathlib.Core.List.{Permᴰ}
use fastapi_project_structur.Common.{
  String, ◌≡◌, refl, ap, true, false, List, ◌∷◌, map, if◌then◌else◌, Bool,
}
use fastapi_project_structur.Common.Order.{sorted-Perm}
use fastapi_project_structur.Registry.{ModuleInfo, is_app, app_names, app_of, discover}

kept :
    {x y : String} {xs ys : List String} (b : Bool)
    → x ≡ y
    → Permᴰ xs ys
    → Permᴰ (if b then x ∷ xs else xs) (if b then y ∷ ys else ys)
kept true e p = Permᴰ.cons e p
kept false e p = p

swapped :
    (x y : String) (l : List String) (b c : Bool)
    → Permᴰ
        (if b then x ∷ (if c then y ∷ l else l) else (if c then y ∷ l else l))
        (if c then y ∷ (if b then x ∷ l else l) else (if b then x ∷ l else l))
swapped x y l true true = Permᴰ.swap refl refl
swapped x y l true false = Permᴰ.refl _
swapped x y l false true = Permᴰ.refl _
swapped x y l false false = Permᴰ.refl _

app_names-Perm : {xs ys : List ModuleInfo} → Permᴰ xs ys → Permᴰ (app_names xs) (app_names ys)
unfolding app_names
app_names-Perm Permᴰ.nil = Permᴰ.nil
app_names-Perm (Permᴰ.cons {a} {b} e p) = rw e (kept (is_app b) refl (app_names-Perm p))
app_names-Perm (Permᴰ.swap {a} {b} {a'} {b'} {l} e f) =
    rw (e, f) (swapped b'.name a'.name (app_names l) (is_app b') (is_app a'))
app_names-Perm (Permᴰ.trans p q) = Permᴰ.trans (app_names-Perm p) (app_names-Perm q)

-- The apps that are found, and their order, do not depend on the order in which the file
-- system lists the packages.
pub discover-Perm :
    (path : String) {xs ys : List ModuleInfo} → Permᴰ xs ys → discover path xs ≡ discover path ys
unfolding discover
discover-Perm path p = ap (map (app_of path)) (sorted-Perm (app_names-Perm p))
