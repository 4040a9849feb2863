-- ===== src/Common/Order.antt =====
-- `sorted` does not depend on the order of its input.
use Prim.Native.Nat.{ℕ}
use Prim.Native.String.{String}
use mathlib.Core.Path.{◌≡◌, refl, ap, ap₂, ◌∙◌}
use mathlib.Core.Bool.{true, false}
use mathlib.Core.List.{List, [], ◌∷◌}
use native.Mathlib.Omega.{arith}
use text.Mathlib.TextEquality.{Char-path}
use mathlib.Core.List.{Permᴰ}
use fastapi_project_structur.Common.Texts.{codes}
use fastapi_project_structur.Common.Sorting.{codes_leb, text_leb, insert, sorted}

codes_leb_total : (s t : List ℕ) → codes_leb s t ≡ false → codes_leb t s ≡ true
unfolding codes_leb
codes_leb_total [] t h = absurd (cc h)
codes_leb_total (c ∷ s) [] h = refl
codes_leb_total (c ∷ s) (d ∷ t) h = ground (arith, codes_leb_total s t)

codes_leb_antisym : (s t : List ℕ) → codes_leb s t ≡ true → codes_leb t s ≡ true → s ≡ t
unfolding codes_leb
codes_leb_antisym [] [] h k = refl
codes_leb_antisym [] (d ∷ t) h k = absurd (cc k)
codes_leb_antisym (c ∷ s) [] h k = absurd (cc h)
codes_leb_antisym (c ∷ s) (d ∷ t) h k =
    ap₂ ◌∷◌ (ground arith) (codes_leb_antisym s t (ground arith) (ground arith))

codes_leb_trans :
    (s t u : List ℕ) → codes_leb s t ≡ true → codes_leb t u ≡ true → codes_leb s u ≡ true
unfolding codes_leb
codes_leb_trans [] t u h k = refl
codes_leb_trans (c ∷ s) [] u h k = absurd (cc h)
codes_leb_trans (c ∷ s) (d ∷ t) [] h k = absurd (cc k)
codes_leb_trans (c ∷ s) (d ∷ t) (e ∷ u) h k = ground (arith, codes_leb_trans s t u)

codes_injective : (s t : String) → codes s ≡ codes t → s ≡ t
codes_injective String.[] String.[] h = refl
codes_injective String.[] (String.◌∷◌ d t) h = absurd (cc h)
codes_injective (String.◌∷◌ c s) String.[] h = absurd (cc h)
codes_injective (String.◌∷◌ c s) (String.◌∷◌ d t) h =
    let heads = ap (λ l. elim l [ [] ↦ 0 | x ∷ xs ↦ x ]) h in
    let tails = ap (λ l. elim l [ [] ↦ [] | x ∷ xs ↦ xs ]) h in
    ap₂ String.◌∷◌ (Char-path c d heads) (codes_injective s t tails)

text_leb_total : (s t : String) → text_leb s t ≡ false → text_leb t s ≡ true
unfolding text_leb
text_leb_total s t h = codes_leb_total (codes s) (codes t) h

text_leb_antisym : (s t : String) → text_leb s t ≡ true → text_leb t s ≡ true → s ≡ t
unfolding text_leb
text_leb_antisym s t h k = codes_injective s t (codes_leb_antisym (codes s) (codes t) h k)

text_leb_trans : (s t u : String) → text_leb s t ≡ true → text_leb t u ≡ true → text_leb s u ≡ true
unfolding text_leb
text_leb_trans s t u h k = codes_leb_trans (codes s) (codes t) (codes u) h k

-- Two insertions, in either order.
insert_comm : (x y : String) (zs : List String) → insert x (insert y zs) ≡ insert y (insert x zs)
unfolding insert
insert_comm x y [] = ground (arith, text_leb_total x y, text_leb_total y x, text_leb_antisym x y)
insert_comm x y (z ∷ zs) = ground (
  arith,
  insert_comm x y zs,
  text_leb_total x y,
  text_leb_total y x,
  text_leb_antisym x y,
  text_leb_total x z,
  text_leb_total z x,
  text_leb_total y z,
  text_leb_total z y,
  text_leb_trans x y z,
  text_leb_trans y x z,
  text_leb_trans x z y,
  text_leb_trans y z x,
)

-- Lists of the same texts, in any orders, are sorted into one.
pub sorted-Perm : {xs ys : List String} → Permᴰ xs ys → sorted xs ≡ sorted ys
unfolding sorted
sorted-Perm Permᴰ.nil = refl
sorted-Perm (Permᴰ.cons e p) = ap₂ insert e (sorted-Perm p)
sorted-Perm (Permᴰ.swap {a} {b} {a'} {b'} {l} e f) = rw (e, f) (insert_comm b' a' (sorted l))
sorted-Perm (Permᴰ.trans p q) = sorted-Perm p ∙ sorted-Perm q
