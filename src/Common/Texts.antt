-- ===== src/Common/Texts.antt =====
-- Texts: equality tests, concatenation, and code points.
use Prim.Native.Nat.{ℕ}
use Prim.Native.Char.{code}
use Prim.Native.String.{String}
use Prim.Native.String
use mathlib.Core.Path.{◌≡◌, sym, ap, ◌∙◌}
use mathlib.Core.Logic.{◌≢◌}
use mathlib.Core.Bool.{Bool, true, false}
use mathlib.Core.List.{List, [], ◌∷◌}
use native.Mathlib.Omega.{arith}
use text.Mathlib.Text.{◌==◌}
pub use text.Mathlib.Text.{◌==◌}
pub use text.Mathlib.TextEquality.{eq_iff}
pub use text.Mathlib.TextPositions.{eq_refl}
use text.Mathlib.TextLemmas.{cons-append, head-eq_of_cons-eq, tail-eq_of_cons-eq}
use fastapi_project_structur.Common.Tests.{eqb, if◌then◌else◌}

-- The code points of a text.
abbrev pub codes : String → List ℕ
codes String.[] = []
codes (String.◌∷◌ c s) = code c ∷ codes s

infixr 65 ◌+++◌
abbrev pub ◌+++◌ : String → String → String
s +++ t = String.◌++◌ s t

-- Two texts differ at a place that both have.
abbrev pub differ : String → String → Bool
differ String.[] t = false
differ (String.◌∷◌ c s) String.[] = false
differ (String.◌∷◌ c s) (String.◌∷◌ d t) = if eqb (code c) (code d) then differ s t else true

-- So whatever follows them, the whole texts differ too.
pub append-ne_of_differ : (s t a b : String) → differ s t ≡ true → s +++ a ≢ t +++ b
append-ne_of_differ String.[] t a b d h = cc
append-ne_of_differ (String.◌∷◌ c s) String.[] a b d h = cc
append-ne_of_differ (String.◌∷◌ c s) (String.◌∷◌ e t) a b d h =
    let h' = sym (cons-append c s a) ∙ h ∙ cons-append e t b in
    let same = ap code (head-eq_of_cons-eq h') in
    append-ne_of_differ s t a b (ground arith) (tail-eq_of_cons-eq h')

pub eq_false : (a b : String) → a ≢ b → (a == b) ≡ false
eq_false a b h = ground (arith, eq_iff a b)

-- Membership in a list of texts, and removal of every copy.
abbrev pub contains : String → List String → Bool
contains x [] = false
contains x (y ∷ ys) = if y == x then true else contains x ys

abbrev pub without : String → List String → List String
without x [] = []
without x (y ∷ ys) = let rest = without x ys in if y == x then rest else y ∷ rest
