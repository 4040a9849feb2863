-- ===== src/DbRouter/Readable.antt =====
-- What the classifier of app/core/db/router.py does not look at.
use fastapi_project_structur.Common.{
  ℕ, zero, suc, ◌+◌, ◌-◌, ◌≡◌, refl, ap, ◌∙◌, Bool, false, some, List, [], ◌∷◌, ◌++◌, arith, All,
  length, codes, eqb,
}
use fastapi_project_structur.Common.Characters.{strip}
use fastapi_project_structur.DbRouter.Statement.{
  block_end, comment_length, strip_from, sub_comments, stripped_is_readable, text_is_readable,
}

-- The text "*/" and what follows it.
abbrev closed_by : List ℕ → List ℕ
closed_by s = b'*' ∷ b'/' ∷ s

block_end-cons :
    (c : ℕ) (s : List ℕ) (n : ℕ)
    → eqb c b'*' ≡ false
    → block_end s ≡ some n
    → block_end (c ∷ s) ≡ some (suc n)
unfolding block_end
block_end-cons c [] n h k = ground (arith, k)
block_end-cons c (d ∷ s) n h k = rw (k, h) refl

block_end-here : (s : List ℕ) → block_end (closed_by s) ≡ some 2
unfolding block_end
block_end-here s = ground arith

suc_plus : (n : ℕ) → suc (n + 2) ≡ suc n + 2
suc_plus n = omega arith

block_end-append :
    (m s : List ℕ)
    → All (λ c. eqb c b'*' ≡ false) m
    → block_end (m ++ closed_by s) ≡ some (length m + 2)
block_end-append [] s h = block_end-here s
block_end-append (c ∷ m) s (h, hs) =
    block_end-cons c (m ++ closed_by s) _ h (block_end-append m s hs)
    ∙ ap some (suc_plus (length m))

zero_plus : (n k : ℕ) → n ≡ 0 + k → n ≡ k
zero_plus n k h = omega (arith, h)

strip_from-skip :
    (m s : List ℕ) (k : ℕ) (n : ℕ) → n ≡ length m + k → strip_from n (m ++ s) ≡ strip_from k s
unfolding strip_from
strip_from-skip [] s k n h = ap (λ i. strip_from i s) (zero_plus n k h)
strip_from-skip (c ∷ m) s k zero h = ground (arith, h)
strip_from-skip (c ∷ m) s k (suc n) h = strip_from-skip m s k n (omega (arith, h))

skip_length : (n : ℕ) → 2 + (n + 2) - 1 ≡ suc n + 2
skip_length n = omega arith

-- The text `select '/*`, any text in place of m, and `*/'`.
abbrev pub quoted_comment : List ℕ → List ℕ
quoted_comment m = codes "select '/*" ++ m ++ codes "*/'"

sub_comments-quoted :
    (m : List ℕ)
    → All (λ c. eqb c b'*' ≡ false) m
    → sub_comments (quoted_comment m) ≡ codes "select ' '"
unfolding sub_comments strip_from comment_length
sub_comments-quoted m h =
    let n = length m in
    rw (block_end-append m (b'\'' ∷ []) h)
      (rw (strip_from-skip (b'*' ∷ m) (codes "*/'") 2 _ (skip_length n)) (ground arith))

-- The verdict on the text `select '/*` m `*/'` is the verdict on `select ' '`, whatever m is,
-- as long as it has no asterisk: comments are removed inside quotations too, so that m is not
-- looked at.
pub quoted_comment-readable :
    (alnum : ℕ → Bool) (lower : List ℕ → List ℕ) (m : List ℕ)
    → All (λ c. eqb c b'*' ≡ false) m
    → text_is_readable alnum lower (quoted_comment m)
      ≡ text_is_readable alnum lower (codes "select ' '")
unfolding text_is_readable sub_comments strip_from comment_length
quoted_comment-readable alnum lower m h =
    ap (λ s. stripped_is_readable alnum lower (strip s)) (sub_comments-quoted m h)
