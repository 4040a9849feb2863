-- ===== src/Resources.antt =====
-- app/core/resources.py: the resources of the process, closed in the reverse of their registration,
-- each within a part of one deadline. Time is in milliseconds. What a resource's cleanup does is
-- part of the resource.
pub mod Closing
pub mod Startup
use fastapi_project_structur.Common.{
  ℕ, ◌+◌, ◌-◌, String, Bool, true, false, not, ◌&&◌, List, [], ◌∷◌, ◌++◌, leb, map, min, is_empty,
  if◌then◌else◌,
}
use mathlib.Core.List.{reverse}

-- How a cleanup within asyncio.timeout ends: it returns, is cancelled with TimeoutError, raises another
-- Exception, or raises a BaseException that is none, as an outer cancellation does.
pub data End : Type 0 where
  completed timed_out failed interrupted : End

-- What a cleanup does: the time that it took, also beyond the time that it was given, since it is
-- cancelled at an await only.
pub record Ran : Type 0 where
  pub spent : ℕ
  pub ended : End

pub record ManagedResource : Type 0 where
  pub name : String
  pub budget : ℕ
  -- by the time that it is given
  pub cleanup : ℕ → Ran

pub record ResourceManager : Type 0 where
  pub deadline : ℕ
  pub resources : List ManagedResource
  pub closed : Bool

abbrev pub cleanup_reserve : ℕ
cleanup_reserve = 1000

abbrev pub new_manager : ResourceManager
new_manager = record { deadline = 20000; resources = []; closed = false }

-- whether it registered, or raised RuntimeError
pub register : ManagedResource → ResourceManager → Bool × ResourceManager
register r m =
    if m.closed then (false, m) else (true, record m { resources = m.resources ++ r ∷ [] })

-- `starts` tells whether start succeeds; the result is false if anything was raised
pub acquire : ManagedResource → Bool → ResourceManager → Bool × ResourceManager
acquire r starts m = let (registered, after) = register r m in (registered && starts, after)

pub allotted : ℕ → ℕ → ManagedResource → ℕ
allotted deadline elapsed r =
    min r.budget (if leb deadline elapsed then cleanup_reserve else deadline - elapsed)

-- A cleanup that was tried, and how it ended.
pub record Attempt : Type 0 where
  pub name : String
  pub ended : End

-- The attempts, the time at their end, and whether an exception ended them.
pub record Tried : Type 0 where
  pub attempts : List Attempt
  pub elapsed : ℕ
  pub stopped : Bool

-- A TimeoutError and any other Exception is logged, and the rest follows.
pub tried : (name : String) (elapsed : ℕ) → End → Tried → Tried
tried name elapsed interrupted rest = record {
  attempts = record { name = name; ended = interrupted } ∷ [];
  elapsed = elapsed;
  stopped = true;
}
tried name elapsed ended rest = record rest {
  attempts = record { name = name; ended = ended } ∷ rest.attempts;
}

-- The loop over the resources in closing order, from a time on.
pub attempts : (deadline elapsed : ℕ) → List ManagedResource → Tried
attempts deadline elapsed [] = record { attempts = []; elapsed = elapsed; stopped = false }
attempts deadline elapsed (r ∷ rs) =
    let ran = r.cleanup (allotted deadline elapsed r) in
    tried r.name (elapsed + ran.spent) ran.ended (attempts deadline (elapsed + ran.spent) rs)

pub record Closed : Type 0 where
  pub result : Tried
  pub manager : ResourceManager

abbrev nothing_tried : Tried
nothing_tried = record { attempts = []; elapsed = 0; stopped = false }

pub close : ResourceManager → Closed
close m = if m.closed then record { result = nothing_tried; manager = m } else record {
  result = attempts m.deadline 0 (reverse m.resources);
  manager = record m { closed = true };
}
