-- ===== src/DbRouter/Paths.antt =====
-- The engines that one session's statements go to, in order (app/core/db/router.py).
use fastapi_project_structur.Common.{
  ℕ, ◌≡◌, refl, ap, ◌∙◌, ◌⊎◌, inl, inr, Bool, true, false, not, ◌&&◌, none, some, List, [], ◌∷◌,
  ◌++◌, arith, Bool-cases, All, All-append,
}
use mathlib.Core.Path.{subst}
use fastapi_project_structur.DbRouter.Statement.{Clause, statement_is_readable}
use fastapi_project_structur.DbRouter.{
  Engine, writer, State, Run, Answer, answered, read_only_error, reader_of, get_bind, attempt,
  again, retried, execute_internal, flush, is_write, send, bind_and_send, on_replica, using_writer,
  next_reader,
}

module _ (alnum : ℕ → Bool) (lower : List ℕ → List ℕ) (driver : Engine → Clause → Answer) where
  OnlyWriter : List Engine → Type 0
  OnlyWriter es = All (λ e. e ≡ writer) es

  -- What one execution may do in a session that is sticky.
  Good : Engine → Run → Type 0
  Good r run =
      (OnlyWriter run.tried × (run.state.info.writer_pinned ≡ true))
      ⊎ (((ws : List Engine) × (run.tried ≡ r ∷ ws)
            × OnlyWriter ws
            × (run.state.info.writer_pinned ≡ true))
          ⊎ (((run.tried ≡ []) ⊎ (run.tried ≡ r ∷ [])) × ((reader_of run.state).0 ≡ r)))

  refused : State → Run
  refused s = record { outcome = read_only_error; tried = []; state = s }

  sent : Clause → Engine → State → Run
  sent c e s = record { outcome = answered (driver e c); tried = e ∷ []; state = s }

  bind_and_send-eq :
      (c : Clause) (e : Engine) (s t : State)
      → get_bind c false s ≡ (some e, t)
      → bind_and_send alnum lower driver c s ≡ sent c e t
  unfolding bind_and_send send sent
  bind_and_send-eq c e s t h = ap (send alnum lower driver c) h

  bind_and_send-refused :
      (c : Clause) (s t : State)
      → get_bind c false s ≡ (none, t)
      → bind_and_send alnum lower driver c s ≡ refused t
  unfolding bind_and_send send refused
  bind_and_send-refused c s t h = ap (send alnum lower driver c) h

  reader_of-again : (s : State) → (reader_of (reader_of s).1).0 ≡ (reader_of s).0
  unfolding reader_of
  reader_of-again s = ground arith

  reader_of-pin : (s : State) → (reader_of s).1.info.writer_pinned ≡ s.info.writer_pinned
  unfolding reader_of
  reader_of-pin s = ground arith

  attempt-pinned :
      (c : Clause) (s : State)
      → s.info.writer_pinned ≡ true
      → OnlyWriter (attempt alnum lower driver c s).tried
        × ((attempt alnum lower driver c s).state ≡ s)
  unfolding attempt bind_and_send send get_bind OnlyWriter
  attempt-pinned c s h = ground (arith, h)

  pin_writer : State → State
  pin_writer s = record s { info = using_writer s.info }

  -- The four ways of an execution in a session that is sticky and not yet at the writer.
  attempt-ways :
      (c : Clause) (s : State)
      → s.info.writer_pinned ≡ false
      → s.router.sticky_after_write ≡ true
      → (attempt alnum lower driver c s ≡ refused s)
        ⊎ ((attempt alnum lower driver c s ≡ sent c (reader_of s).0 (reader_of s).1)
            ⊎ (attempt alnum lower driver c s ≡ sent c writer (pin_writer s)))
  unfolding attempt get_bind refused pin_writer
  attempt-ways c s h k =
      elim (Bool-cases (s.info.read_only && not (statement_is_readable alnum lower c))) [
        | inl stop ↦ inl (rw stop refl)
        | inr passed ↦ elim (Bool-cases (is_write c false)) [
          | inr reading ↦ inr (inl (rw passed (bind_and_send-eq c _ s _ (rw reading (rw h refl)))))
          | inl writing ↦ elim (Bool-cases s.info.read_only) [
            | inl only ↦ inl (rw passed (bind_and_send-refused c s s (rw writing (rw only refl))))
            | inr free ↦ inr (
                inr (
                  rw passed
                    (bind_and_send-eq c writer s _ (rw writing (rw free (rw h (rw k refl)))))))
          ]
        ]
      ]

  Good-refused : (s : State) → Good (reader_of s).0 (refused s)
  unfolding Good refused
  Good-refused s = inr (inr (inl refl, refl))

  Good-reader :
      (c : Clause) (s : State) → Good (reader_of s).0 (sent c (reader_of s).0 (reader_of s).1)
  unfolding Good sent
  Good-reader c s = inr (inr (inr refl, reader_of-again s))

  Good-writer : (c : Clause) (s : State) → Good (reader_of s).0 (sent c writer (pin_writer s))
  unfolding Good sent pin_writer using_writer OnlyWriter
  Good-writer c s = inl ((refl, tt), refl)

  attempt-sticky :
      (c : Clause) (s : State)
      → (attempt alnum lower driver c s).state.router.sticky_after_write
        ≡ s.router.sticky_after_write
  unfolding attempt bind_and_send send get_bind reader_of next_reader
  attempt-sticky c s = ground arith

  execute-sticky :
      (c : Clause) (s : State)
      → (execute_internal alnum lower driver c s).state.router.sticky_after_write
        ≡ s.router.sticky_after_write
  unfolding execute_internal retried again using_writer
  execute-sticky c s =
      let first = (attempt alnum lower driver c s).state in
      let pinned = record first { info = using_writer first.info } in
      ground (arith, attempt-sticky c s, attempt-sticky c pinned)

  pin_writer-pinned : (s : State) → (pin_writer s).info.writer_pinned ≡ true
  unfolding pin_writer using_writer
  pin_writer-pinned s = refl

  -- a retry leaves the session at the writer
  again-pinned :
      (c : Clause) (first : Run)
      → OnlyWriter (attempt alnum lower driver c (pin_writer first.state)).tried
        × ((again alnum lower driver c first).state ≡ pin_writer first.state)
  unfolding again pin_writer
  again-pinned c first = attempt-pinned c (pin_writer first.state) (pin_writer-pinned first.state)

  retried-at_writer :
      (c : Clause) (first : Run)
      → first.state.info.writer_pinned ≡ true
      → retried alnum lower driver c first ≡ first
  unfolding retried on_replica
  retried-at_writer c first h = ground (arith, h)

  Good-at_writer :
      (r : Engine) (run : Run)
      → OnlyWriter run.tried
      → run.state.info.writer_pinned ≡ true
      → Good r run
  unfolding Good
  Good-at_writer r run h k = inl (h, k)

  execute-pinned :
      (c : Clause) (s : State)
      → s.info.writer_pinned ≡ true
      → OnlyWriter (execute_internal alnum lower driver c s).tried
        × ((execute_internal alnum lower driver c s).state ≡ s)
  unfolding execute_internal
  execute-pinned c s h =
      let (only, same) = attempt-pinned c s h in
      let kept = ap (λ t. t.info.writer_pinned) same ∙ h in
      rw (retried-at_writer c (attempt alnum lower driver c s) kept) (only, same)

  Good-again :
      (c : Clause) (e : Engine) (first : Run)
      → first.tried ≡ e ∷ []
      → Good e (again alnum lower driver c first)
  unfolding Good again pin_writer
  Good-again c e first h =
      let (only, same) = again-pinned c first in
      let second = (attempt alnum lower driver c (pin_writer first.state)).tried in
      inr (
        inl (
          second,
          ap (λ es. es ++ second) h,
          only,
          ap (λ t. t.info.writer_pinned) same ∙ pin_writer-pinned first.state,
        ))

  retried-ways :
      (c : Clause) (first : Run)
      → (retried alnum lower driver c first ≡ first)
        ⊎ (retried alnum lower driver c first ≡ again alnum lower driver c first)
  unfolding retried
  retried-ways c first = ground arith

  retried-sent :
      (c : Clause) (e : Engine) (first : Run)
      → first.tried ≡ e ∷ []
      → Good e first
      → Good e (retried alnum lower driver c first)
  retried-sent c e first h g = elim (retried-ways c first) [
    | inl same ↦ rw same g
    | inr retry ↦ rw retry (Good-again c e first h)
  ]

  execute-unpinned :
      (c : Clause) (s : State)
      → s.info.writer_pinned ≡ false
      → s.router.sticky_after_write ≡ true
      → Good (reader_of s).0 (execute_internal alnum lower driver c s)
  unfolding execute_internal sent retried refused
  execute-unpinned c s h k = elim (attempt-ways c s h k) [
    | inl e ↦ rw e (Good-refused s)
    | inr (inl e) ↦ rw e (retried-sent c (reader_of s).0 _ refl (Good-reader c s))
    | inr (inr e) ↦
        let at = pin_writer-pinned s in
        rw (e, retried-at_writer c (sent c writer (pin_writer s)) at) (Good-writer c s)
  ]

  -- The engines that a session's executions are tried on, one after the other.
  abbrev pub trace : List Clause → State → List Engine
  trace [] s = []
  trace (c ∷ cs) s =
      let run = execute_internal alnum lower driver c s in run.tried ++ trace cs run.state

  -- One engine for some time, and then the writer for good.
  abbrev pub IsPath : Engine → List Engine → Type 0
  IsPath r [] = Unit
  IsPath r (e ∷ es) = ((e ≡ r) × IsPath r es) ⊎ All (λ x. x ≡ writer) (e ∷ es)

  trace-pinned :
      (cs : List Clause) (s : State) → s.info.writer_pinned ≡ true → OnlyWriter (trace cs s)
  unfolding OnlyWriter
  trace-pinned [] s h = tt
  trace-pinned (c ∷ cs) s h =
      let (only, same) = execute-pinned c s h in
      let rest = trace-pinned cs _ (ap (λ t. t.info.writer_pinned) same ∙ h) in
      All-append (λ x. x ≡ writer) (execute_internal alnum lower driver c s).tried _ only rest

  only-IsPath : (r : Engine) (es : List Engine) → OnlyWriter es → IsPath r es
  unfolding OnlyWriter
  only-IsPath r [] h = tt
  only-IsPath r (e ∷ es) h = inr h

  cons-IsPath : (r : Engine) (es : List Engine) → IsPath r es → IsPath r (r ∷ es)
  cons-IsPath r es h = inl (refl, h)

  Good-IsPath :
      (r : Engine) (run : Run) (cs : List Clause)
      → Good r run
      → ((reader_of run.state).0 ≡ r → IsPath r (trace cs run.state))
      → IsPath r (run.tried ++ trace cs run.state)
  unfolding Good OnlyWriter
  Good-IsPath r run cs g h =
      let later = trace-pinned cs run.state in
      elim g [
        | inl (only, k) ↦ only-IsPath r _ (All-append (λ x. x ≡ writer) run.tried _ only (later k))
        | inr (inl (ws, e, only, k)) ↦
            rw e
              (cons-IsPath r _ (only-IsPath r _ (All-append (λ x. x ≡ writer) ws _ only (later k))))
        | inr (inr (inl e, k)) ↦ rw e (h k)
        | inr (inr (inr e, k)) ↦ rw e (cons-IsPath r _ (h k))
      ]

  -- With sticky routing, the engines that a session's executed statements are tried on,
  -- retries after a lost replica included, are one engine for some time, the one that the
  -- session would read from at its start, and from some point on the writer only: a session
  -- never reads from two replicas, and never from a replica after the writer.
  pub trace-IsPath :
      (cs : List Clause) (s : State)
      → s.router.sticky_after_write ≡ true
      → IsPath (reader_of s).0 (trace cs s)
  trace-IsPath [] s h = tt
  trace-IsPath (c ∷ cs) s h = elim (Bool-cases s.info.writer_pinned) [
    | inl at ↦ only-IsPath _ _ (trace-pinned (c ∷ cs) s at)
    | inr away ↦
        let run = execute_internal alnum lower driver c s in
        let sticky = execute-sticky c s ∙ h in
        Good-IsPath (reader_of s).0 run cs (execute-unpinned c s away h)
          (λ k. subst (λ r. IsPath r (trace cs run.state)) k (trace-IsPath cs run.state sticky))
  ]

  -- A read-only session refuses a statement that is not certainly a read: no engine is tried
  -- and the session does not change.
  read_only_refuses :
      (c : Clause) (s : State)
      → s.info.read_only ≡ true
      → statement_is_readable alnum lower c ≡ false
      → execute_internal alnum lower driver c s
        ≡ record { outcome = read_only_error; tried = []; state = s }
  unfolding execute_internal attempt retried
  read_only_refuses c s h k = rw (h, k) refl

  pub flush_refused :
      (s : State)
      → s.info.read_only ≡ true
      → flush alnum lower driver s ≡ record { outcome = read_only_error; tried = []; state = s }
  unfolding flush
  flush_refused s h = rw h refl
