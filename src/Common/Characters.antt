-- ===== src/Common/Characters.antt =====
-- Text as a list of code points, for code that walks its text: white space, strip, split, case.
use Prim.Native.Nat.{ℕ}
use mathlib.Core.Path.{◌≡◌, refl}
use mathlib.Core.Bool.{Bool, true, ◌&&◌, ◌||◌}
use mathlib.Core.List.{List, [], ◌∷◌, ◌++◌, reverse}
use native.Mathlib.Omega.{arith}
use fastapi_project_structur.Common.Tests.{leb, eqb, if◌then◌else◌}

-- str.isspace
unfoldable pub is_space : ℕ → Bool
is_space c =
    leb 9 c && leb c 13
    || leb 28 c && leb c 32
    || eqb c 0x85
    || eqb c 0xA0
    || eqb c 0x1680
    || leb 0x2000 c && leb c 0x200A
    || leb 0x2028 c && leb c 0x2029
    || eqb c 0x202F
    || eqb c 0x205F
    || eqb c 0x3000

unfoldable pub lstrip : List ℕ → List ℕ
lstrip [] = []
lstrip (c ∷ s) = let rest = lstrip s in if is_space c then rest else c ∷ s

-- str.strip()
unfoldable pub strip : List ℕ → List ℕ
unfolding lstrip is_space
strip s = reverse (lstrip (reverse (lstrip s)))

-- str.split(sep) for one character
unfoldable pub split_from : ℕ → List ℕ → List ℕ → List (List ℕ)
split_from sep cur [] = reverse cur ∷ []
split_from sep cur (c ∷ s) =
    let closed = split_from sep [] s in
    let longer = split_from sep (c ∷ cur) s in if eqb c sep then reverse cur ∷ closed else longer

unfoldable pub split : ℕ → List ℕ → List (List ℕ)
unfolding split_from
split sep s = split_from sep [] s

eqb_self : (n : ℕ) → eqb n n ≡ true
eqb_self n = ground arith

-- Splitting at a separator that stands in the text.
split_from-append :
    (sep : ℕ) (cur s t : List ℕ)
    → split_from sep cur (s ++ sep ∷ t) ≡ split_from sep cur s ++ split_from sep [] t
unfolding split_from
split_from-append sep cur [] t = simp (eqb_self sep) refl
split_from-append sep cur (c ∷ s) t =
    ground (arith, split_from-append sep [] s t, split_from-append sep (c ∷ cur) s t)

pub split-append : (sep : ℕ) (s t : List ℕ) → split sep (s ++ sep ∷ t) ≡ split sep s ++ split sep t
unfolding split
split-append sep s t = split_from-append sep [] s t
