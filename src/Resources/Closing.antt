-- ===== src/Resources/Closing.antt =====
-- The order, the time and the repetition of closing (app/core/resources.py).
use fastapi_project_structur.Common.{
  ℕ, suc, String, ◌+◌, ◌-◌, ◌*◌, ◌≤◌, ◌≡◌, refl, sym, ap, ◌∙◌, Bool, true, false, List, [], ◌∷◌,
  ◌++◌, map, min, length, arith, length-append, inl, inr, Bool-cases, All, All-append, leb,
  if◌then◌else◌,
}
use mathlib.Core.List.{reverse, reverse-append}
use fastapi_project_structur.Resources.{
  ManagedResource, ResourceManager, cleanup_reserve, allotted, attempts, close, tried, Tried,
  acquire, register, End, completed, timed_out, failed, interrupted,
}

unfoldable pub is_interrupted : End → Bool
is_interrupted interrupted = true
is_interrupted _ = false

-- The cleanup raises no BaseException but Exceptions, whatever time it is given.
abbrev pub Uninterrupted : ManagedResource → Type 0
Uninterrupted r = (given : ℕ) → is_interrupted (r.cleanup given).ended ≡ false

-- A cleanup that is cancelled in time, but for the time until its next await.
abbrev pub Overruns : ℕ → ManagedResource → Type 0
Overruns slack r = (given : ℕ) → (r.cleanup given).spent ≤ given + slack

tried-names :
    (name : String) (t : ℕ) (e : End) (rest : Tried)
    → is_interrupted e ≡ false
    → map (λ a. a.name) (tried name t e rest).attempts ≡ name ∷ map (λ a. a.name) rest.attempts
unfolding tried is_interrupted
tried-names name t completed rest h = refl
tried-names name t timed_out rest h = refl
tried-names name t failed rest h = refl
tried-names name t interrupted rest h = absurd (cc h)

attempts-names :
    (d : ℕ) (rs : List ManagedResource) (t : ℕ)
    → All Uninterrupted rs
    → map (λ a. a.name) (attempts d t rs).attempts ≡ map (λ r. r.name) rs
unfolding attempts
attempts-names d [] t h = refl
attempts-names d (r ∷ rs) t (k, h) =
    tried-names r.name _ _ _ (k (allotted d t r)) ∙ ap (r.name ∷◌) (attempts-names d rs _ h)

tried-elapsed :
    (name : String) (t b : ℕ) (e : End) (rest : Tried)
    → t ≤ b
    → rest.elapsed ≤ b
    → (tried name t e rest).elapsed ≤ b
unfolding tried
tried-elapsed name t b completed rest h k = k
tried-elapsed name t b timed_out rest h k = k
tried-elapsed name t b failed rest h k = k
tried-elapsed name t b interrupted rest h k = h

-- one resource more: the time after it, and the bound
one_step :
    (d t b slack spent budget : ℕ)
    → t ≤ b
    → d ≤ b
    → spent ≤ min budget (if leb d t then cleanup_reserve else d - t) + slack
    → t + spent ≤ b + (cleanup_reserve + slack)
one_step d t b slack spent budget h k l = ground (arith, h, k, l)

widen : (n x b e : ℕ) → e ≤ (b + x) + n * x → e ≤ b + suc n * x
widen n x b e h = ground (arith, h)

attempts-elapsed :
    (d slack : ℕ) (rs : List ManagedResource) (t b : ℕ)
    → t ≤ b
    → d ≤ b
    → All (Overruns slack) rs
    → (attempts d t rs).elapsed ≤ b + length rs * (cleanup_reserve + slack)
unfolding attempts allotted
attempts-elapsed d slack [] t b h k l = omega (arith, h)
attempts-elapsed d slack (r ∷ rs) t b h k (within, l) =
    let ran = r.cleanup (allotted d t r) in
    let x = cleanup_reserve + slack in
    let after = one_step d t b slack ran.spent r.budget h k (within (allotted d t r)) in
    widen (length rs) x b _ (
      tried-elapsed r.name (t + ran.spent) ((b + x) + length rs * x) ran.ended _
        (omega (arith, after))
        (attempts-elapsed d slack rs (t + ran.spent) (b + x) after (omega (arith, k)) l))

All-reverse :
    (P : ManagedResource → Type 0) (rs : List ManagedResource) → All P rs → All P (reverse rs)
All-reverse P [] h = h
All-reverse P (r ∷ rs) (p, h) =
    rw (reverse-append (r ∷ []) rs)
      (All-append P (reverse rs) (r ∷ []) (All-reverse P rs h) (p, tt))

-- Closing an open manager tries every registered resource once, in the reverse of the order of
-- registration, if no cleanup raises a BaseException that is no Exception.
pub close-names :
    (m : ResourceManager)
    → m.closed ≡ false
    → All Uninterrupted m.resources
    → map (λ a. a.name) (close m).result.attempts ≡ map (λ r. r.name) (reverse m.resources)
unfolding close
close-names m h k =
    rw h (attempts-names m.deadline (reverse m.resources) 0 (All-reverse Uninterrupted _ k))

length-reverse : (rs : List ManagedResource) → length (reverse rs) ≡ length rs
length-reverse [] = refl
length-reverse (r ∷ rs) =
    ap length (reverse-append (r ∷ []) rs)
    ∙ length-append (reverse rs) (r ∷ [])
    ∙ omega (arith, length-reverse rs)

-- Closing takes at most the deadline and, for each registered resource, one second and a bound
-- of the time by which any of the cleanups overruns the time that it is given, until an await
-- lets it be cancelled.
pub close-elapsed :
    (slack : ℕ) (m : ResourceManager)
    → All (Overruns slack) m.resources
    → (close m).result.elapsed ≤ m.deadline + length m.resources * (cleanup_reserve + slack)
unfolding close
close-elapsed slack m h = elim (Bool-cases m.closed) [
  | inl e ↦ rw e (omega arith)
  | inr e ↦
      rw (e, ← length-reverse m.resources)
        (attempts-elapsed m.deadline slack (reverse m.resources) 0 m.deadline (omega arith)
          (omega arith) (All-reverse (Overruns slack) _ h))
]

pub close_twice : (m : ResourceManager) → (close (close m).manager).result.attempts ≡ []
unfolding close
close_twice m = ground arith

acquire-open :
    (r : ManagedResource) (starts : Bool) (m : ResourceManager)
    → m.closed ≡ false
    → (acquire r starts m).1 ≡ record m { resources = m.resources ++ r ∷ [] }
unfolding acquire register
acquire-open r starts m h = ground (arith, h)

-- A resource that an open manager acquired is the first to be cleaned up when it closes, even
-- if the start of the resource failed, and the others follow as without it, if no cleanup raises a
-- BaseException that is no Exception.
close-acquire :
    (r : ManagedResource) (starts : Bool) (m : ResourceManager)
    → m.closed ≡ false
    → Uninterrupted r
    → All Uninterrupted m.resources
    → map (λ a. a.name) (close (acquire r starts m).1).result.attempts
      ≡ r.name ∷ map (λ a. a.name) (close m).result.attempts
close-acquire r starts m h k l =
    let after = record m { resources = m.resources ++ r ∷ [] } in
    ap (λ a. map (λ x. x.name) (close a).result.attempts) (acquire-open r starts m h)
    ∙ close-names after h (All-append Uninterrupted m.resources (r ∷ []) l (k, tt))
    ∙ ap (map (λ x. x.name)) (reverse-append m.resources (r ∷ []))
    ∙ ap (λ ns. r.name ∷ ns) (sym (close-names m h l))
