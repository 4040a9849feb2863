-- ===== src/DbRouter/Statement.antt =====
-- app/core/db/router.py, the statement classifier of a read-only session: comments, one statement,
-- no locking read, and the words at parenthesis depth 0. A text is a list of code points. Python's
-- tables for `str.isalnum` and `str.lower` are the parameters `alnum` and `lower`.
use fastapi_project_structur.Common.{
  ℕ, zero, suc, ◌+◌, ◌-◌, Bool, true, false, not, ◌&&◌, ◌||◌, Option, none, some, List, [], ◌∷◌,
  ◌++◌, eqb, leb, any, is_empty, codes, map, if◌then◌else◌,
}
use fastapi_project_structur.Common.Characters.{is_space, strip}

pub data Clause : Type 0 where
  update_base : Clause
  -- with its `_for_update_arg is not None`
  select : Bool → Clause
  text : List ℕ → Clause
  other : Clause

-- _SQL_COMMENT.sub(" ", sql). The number of characters up to the end of "*/", if there is one.
unfoldable pub block_end : List ℕ → Option ℕ
block_end [] = none
block_end (c ∷ []) = none
block_end (c ∷ d ∷ s) = elim (block_end (d ∷ s)) [
  | none ↦ if eqb c b'*' && eqb d b'/' then some 2 else none
  | some n ↦ if eqb c b'*' && eqb d b'/' then some 2 else some (suc n)
]

pub line_end : List ℕ → ℕ
line_end [] = 0
line_end (c ∷ s) = let n = line_end s in if eqb c b'\n' then 0 else suc n

-- The length of the comment that the text begins with; 0 if it begins with none.
unfoldable pub comment_length : List ℕ → ℕ
comment_length (c ∷ d ∷ s) =
    if eqb c b'/' && eqb d b'*'
    then elim (block_end s) [ none ↦ 0 | some n ↦ 2 + n ]
    else (if eqb c b'-' && eqb d b'-' then 2 + line_end s else 0)
comment_length _ = 0

unfoldable pub strip_from : ℕ → List ℕ → List ℕ
strip_from skip [] = []
strip_from (suc skip) (c ∷ s) = strip_from skip s
strip_from zero (c ∷ s) =
    let n = comment_length (c ∷ s) in (if eqb n 0 then c else b' ') ∷ strip_from (n - 1) s

unfoldable pub sub_comments : List ℕ → List ℕ
sub_comments sql = strip_from 0 sql

-- str.partition(";"): before it, whether it is there, after it
pub partition : List ℕ → List ℕ × Bool × List ℕ
partition [] = ([], false, [])
partition (c ∷ s) =
    let (head, found, tail) = partition s in
    if eqb c b';' then ([], true, s) else (c ∷ head, found, tail)

-- re.IGNORECASE on the letters of the locking phrases: the long s and the kelvin sign fold too
pub fold : ℕ → ℕ
fold c =
    if leb b'A' c && leb c b'Z'
    then c + 32
    else if eqb c 0x17F
    then b's'
    else if eqb c 0x212A
    then b'k'
    else c

-- The text after a word that it begins with.
pub after_word : List ℕ → List ℕ → Option (List ℕ)
after_word [] s = some s
after_word (w ∷ ws) [] = none
after_word (w ∷ ws) (c ∷ s) = let rest = after_word ws s in if eqb (fold c) w then rest else none

-- \s*
pub skip_spaces : List ℕ → List ℕ
skip_spaces [] = []
skip_spaces (c ∷ s) = let rest = skip_spaces s in if is_space c then rest else c ∷ s

-- word\s+
pub after_word_spaces : List ℕ → List ℕ → Option (List ℕ)
after_word_spaces w s = elim (after_word w s) [
  | some (c ∷ t) ↦ if is_space c then some (skip_spaces t) else none
  | _ ↦ none
]

-- A position at which a word may start or end: no word character stands there.
pub is_end : (ℕ → Bool) → List ℕ → Bool
is_end alnum [] = true
is_end alnum (c ∷ s) = not (alnum c || eqb c b'_')

-- one of these words, then a word boundary
pub ends_in : (ℕ → Bool) → List (List ℕ) → Option (List ℕ) → Bool
ends_in alnum [] s = false
ends_in alnum (w ∷ ws) none = false
ends_in alnum (w ∷ ws) (some s) =
    elim (after_word w s) [ none ↦ false | some t ↦ is_end alnum t ] || ends_in alnum ws (some s)

abbrev pub then_spaces : List ℕ → Option (List ℕ) → Option (List ℕ)
then_spaces w none = none
then_spaces w (some s) = after_word_spaces w s

-- _LOCKING_READ.match at a word boundary
pub locks_here : (ℕ → Bool) → List ℕ → Bool
locks_here alnum s =
    ends_in alnum (codes "update" ∷ codes "share" ∷ []) (after_word_spaces (codes "for") s)
    || ends_in alnum (codes "mode" ∷ []) (
        then_spaces (codes "share") (then_spaces (codes "in") (after_word_spaces (codes "lock") s)))

-- _LOCKING_READ.search; the flag tells whether a word character stands before
pub locks_from : (ℕ → Bool) → Bool → List ℕ → Bool
locks_from alnum inside [] = false
locks_from alnum inside (c ∷ s) =
    not inside && locks_here alnum (c ∷ s) || locks_from alnum (alnum c || eqb c b'_') s

-- _depth0_words, character by character: where the scan stands
pub data Mode : Type 0 where
  outside : Mode
  -- in a quotation, after its backslash, after a quote that ends it or is doubled
  quoted escaped closing : ℕ → Mode

pub record Scan : Type 0 where
  pub words : List (List ℕ)
  pub buf : List ℕ
  pub depth : ℕ
  pub mode : Mode

abbrev pub start : Scan
start = record { words = []; buf = []; depth = 0; mode = outside }

pub is_quote : ℕ → Bool
is_quote c = eqb c b'"' || eqb c b'\'' || eqb c b'`'

module _ (alnum : ℕ → Bool) (lower : List ℕ → List ℕ) where
  pub close_word : Bool → Scan → Scan
  close_word keep s =
      if not (is_empty s.buf) && keep
      then record s { words = s.words ++ lower s.buf ∷ []; buf = [] }
      else record s { buf = [] }

  pub at_word : ℕ → Scan → Scan
  at_word c s =
      if alnum c || eqb c b'_'
      then record s { buf = s.buf ++ c ∷ [] }
      else close_word (eqb s.depth 0) s

  -- a character outside every quotation; `none` when a parenthesis does not match
  pub step_outside : ℕ → Scan → Option Scan
  step_outside c s =
      if is_quote c
      then some (record (close_word true s) { mode = quoted c })
      else if eqb c b'('
      then some (at_word c (record s { depth = s.depth + 1; mode = outside }))
      else if eqb c b')'
      then (if eqb s.depth 0
          then none
          else some (at_word c (record s { depth = s.depth - 1; mode = outside })))
      else some (at_word c (record s { mode = outside }))

  pub step : ℕ → Scan → Option Scan
  step c s = elim s.mode [
    | outside ↦ step_outside c s
    | quoted q ↦ some (record s {
      mode =
          if eqb c b'\\' && not (eqb q b'`')
          then escaped q
          else if eqb c q
          then closing q
          else quoted q;
    })
    | escaped q ↦ some (record s { mode = quoted q })
    | closing q ↦ if eqb c q then some (record s { mode = quoted q }) else step_outside c s
  ]

  pub scan : List ℕ → Option Scan → Option Scan
  scan [] s = s
  scan (c ∷ sql) none = none
  scan (c ∷ sql) (some s) = scan sql (step c s)

  pub is_closed : Mode → Bool
  is_closed outside = true
  is_closed (closing q) = true
  is_closed _ = false

  pub finish : Option Scan → Option (List (List ℕ))
  finish none = none
  finish (some s) =
      if is_closed s.mode && eqb s.depth 0 then some (close_word true s).words else none

  pub depth0_words : List ℕ → Option (List (List ℕ))
  depth0_words sql = finish (scan sql (some start))

  abbrev pub same_word : List ℕ → List ℕ → Bool
  same_word [] [] = true
  same_word (a ∷ v) (b ∷ w) = eqb a b && same_word v w
  same_word _ _ = false

  abbrev pub top_level_write : List (List ℕ)
  top_level_write =
      map codes ("insert" ∷ "update" ∷ "delete" ∷ "replace" ∷ "merge" ∷ "into" ∷ "set" ∷ [])

  abbrev pub readable_lead : List (List ℕ)
  readable_lead = codes "select" ∷ codes "with" ∷ []

  pub words_are_readable : Option (List (List ℕ)) → Bool
  words_are_readable (some (word ∷ words)) =
      any (same_word word) readable_lead
      && not (any (λ w. any (same_word w) top_level_write) (word ∷ words))
  words_are_readable _ = false

  pub head_is_readable : List ℕ → Bool
  head_is_readable head =
      not (is_empty head)
      && not (locks_from alnum false head)
      && words_are_readable (depth0_words head)

  pub stripped_is_readable : List ℕ → Bool
  stripped_is_readable stripped =
      let (head, separator, tail) = partition stripped in
      not (separator && not (is_empty (strip tail))) && head_is_readable (strip head)

  unfoldable pub text_is_readable : List ℕ → Bool
  text_is_readable sql = stripped_is_readable (strip (sub_comments sql))

  unfoldable pub statement_is_readable : Clause → Bool
  statement_is_readable update_base = false
  statement_is_readable (select locking) = not locking
  statement_is_readable (text sql) = text_is_readable sql
  statement_is_readable other = false
