-- ===== src/Common/Sorting.antt =====
-- Python's `sorted` on texts, which compares them by code points.
use Prim.Native.Nat.{ℕ}
use Prim.Native.String.{String}
use mathlib.Core.Bool.{Bool, true, false}
use mathlib.Core.List.{List, [], ◌∷◌}
use fastapi_project_structur.Common.Tests.{ltb, eqb, if◌then◌else◌}
use fastapi_project_structur.Common.Texts.{codes}

unfoldable pub codes_leb : List ℕ → List ℕ → Bool
codes_leb [] t = true
codes_leb (c ∷ s) [] = false
codes_leb (c ∷ s) (d ∷ t) =
    let rest = codes_leb s t in if ltb c d then true else if eqb c d then rest else false

unfoldable pub text_leb : String → String → Bool
unfolding codes_leb
text_leb s t = codes_leb (codes s) (codes t)

unfoldable pub insert : String → List String → List String
unfolding text_leb
insert x [] = x ∷ []
insert x (y ∷ ys) = let rest = insert x ys in if text_leb x y then x ∷ y ∷ ys else y ∷ rest

unfoldable pub sorted : List String → List String
unfolding insert
sorted [] = []
sorted (x ∷ xs) = insert x (sorted xs)
