-- ===== src/Repository/Steps.antt =====
-- The methods of a repository are steps of a finite map (app/core/repositories).
use fastapi_project_structur.Common.{
  ℕ, ◌≤◌, All, length, is_some, String, ◌≡◌, refl, sym, ap, inl, inr, Bool, true, false, not,
  Option, none, some, List, [], ◌∷◌, is_empty,
}
use fastapi_project_structur.Repository
use fastapi_project_structur.Repository.{
  Model, Session, Sql, routing_error, sql_error, done, Outcome, routing_failed, raised, returned,
  reread, or_raise, db_error, unknown_fields, has_pk, assigned, write, update_found, delete_found,
  remove,
}
use fastapi_project_structur.Repository.Requests.{
  Op, create, get, get_by_id_or_raise, exists, get_all, count, update, delete, Reply, entity, found,
  deleted, present, listing, number, perform, run,
}
use fastapi_project_structur.Repository.Contract.{put, Documented}
use fastapi_project_structur.Repository.Endings.{
  taken, flush_done, unnegated, returned_eq, reread_done, db_error_returned, replying_returned,
  before_returned, continue_returned,
}

module _ {model : Model} {session : Session model} (promised : Documented session) where
  open model use {Key, Value, Row}
  open session use {State}
  open promised use {view, committed, pk, same, Stored}

  -- What one method may do to a finite map of rows, and what it replies.
  pub data Step : (Key → Option Row) → Op model → Reply model → (Key → Option Row) → Type 0 where
    created :
        {rows : Key → Option Row} {payload : List (String × Value)} {row : Row}
        → Stored (model.new payload) row
        → Step rows (create payload) (entity row) (put same (pk row) (some row) rows)
    read : {rows : Key → Option Row} {id : Key} → Step rows (get id) (found (rows id)) rows
    read_or_raised :
        {rows : Key → Option Row} {id : Key} {row : Row}
        → rows id ≡ some row
        → Step rows (get_by_id_or_raise id) (entity row) rows
    tested :
        {rows : Key → Option Row} {id : Key}
        → Step rows (exists id) (present (is_some (rows id))) rows
    counted : {rows : Key → Option Row} → Step rows count (number (promised.size rows)) rows
    listed :
        {rows : Key → Option Row} {skip limit : ℕ} {listed_rows : List Row}
        → All (λ r. rows (pk r) ≡ some r) listed_rows
        → length listed_rows ≤ limit
        → Step rows (get_all skip limit) (listing listed_rows) rows
    update_missing :
        {rows : Key → Option Row} {id : Key} {payload : List (String × Value)}
        → rows id ≡ none
        → Step rows (update id payload) (found none) rows
    update_nothing :
        {rows : Key → Option Row} {id : Key} {row : Row}
        → rows id ≡ some row
        → Step rows (update id []) (found (some row)) rows
    updated :
        {rows : Key → Option Row} {id : Key} {payload : List (String × Value)} {old row : Row}
        → rows id ≡ some old
        → unknown_fields model payload ≡ []
        → has_pk model payload ≡ false
        → Stored (assigned model payload old) row
        → Step rows (update id payload) (found (some row)) (put same id (some row) rows)
    delete_missing :
        {rows : Key → Option Row} {id : Key}
        → rows id ≡ none
        → Step rows (delete id) (deleted false) rows
    removed :
        {rows : Key → Option Row} {id : Key} {row : Row}
        → rows id ≡ some row
        → Step rows (delete id) (deleted true) (put same id none rows)

  pub data Steps
      : (Key → Option Row)
        → List (Op model)
        → List (Reply model)
        → (Key → Option Row)
        → Type 0 where
    nil : {rows : Key → Option Row} → Steps rows [] [] rows
    cons :
        {rows rows' rows'' : Key → Option Row} {op : Op model} {reply : Reply model}
        {ops : List (Op model)} {replies : List (Reply model)}
        → Step rows op reply rows'
        → Steps rows' ops replies rows''
        → Steps rows (op ∷ ops) (reply ∷ replies) rows''

  create_step :
      (payload : List (String × Value)) (s : State) (row : Row) (t : State)
      → Repository.create session payload s ≡ (returned row, t)
      → Step (view s) (create payload) (entity row) (view t)
  unfolding Repository.create Repository.add
  create_step payload s row t h =
      let (a, e, added) = db_error_returned session (λ r. r) "CREATE" _ row t h in
      let (flushed, read_back) = reread_done session (model.new payload) a _ t added in
      let flushed = flush_done session _ t flushed in
      let (stored, put_row) = promised.view-add (model.new payload) a s t flushed read_back in
      rw (e, put_row) (created stored)

  -- an update of a row that stands there
  data Update (id : Key) (payload : List (String × Value)) (old : Row) (s : State) (r : Option Row)
      (t : State) : Type 0 where
    nothing : payload ≡ [] → r ≡ some old → t ≡ s → Update id payload old s r t
    written :
        unknown_fields model payload ≡ []
        → has_pk model payload ≡ false
        → db_error session some "UPDATE" (write session id payload old s) ≡ (returned r, t)
        → Update id payload old s r t

  is_empty_nil : {A : Type 0} (xs : List A) → is_empty xs ≡ true → xs ≡ []
  is_empty_nil [] h = refl
  is_empty_nil (x ∷ xs) h = absurd (cc h)

  update_found_Update :
      (id : Key) (payload : List (String × Value)) (old : Row) (s : State) (r : Option Row)
      (t : State)
      → update_found session (some old) id payload s ≡ (returned r, t)
      → Update id payload old s r t
  unfolding update_found
  update_found_Update id payload old s r t h = elim (taken (is_empty payload) h) [
    | inl (e, e') ↦
        nothing (is_empty_nil payload e) (sym (cc (ap (λ p. p.0) e'))) (sym (ap (λ p. p.1) e'))
    | inr (_, e1) ↦ elim (taken (not (is_empty (unknown_fields model payload))) e1) [
      | inl (_, e') ↦ absurd (cc (ap (λ p. p.0) e'))
      | inr (known, e2) ↦ elim (taken (has_pk model payload) e2) [
        | inl (_, e') ↦ absurd (cc (ap (λ p. p.0) e'))
        | inr (free, e') ↦ written (is_empty_nil _ (unnegated _ known)) free e'
      ]
    ]
  ]

  Update-Step :
      (id : Key) (payload : List (String × Value)) (old : Row) (s : State) (r : Option Row)
      (t : State)
      → view s id ≡ some old
      → Update id payload old s r t
      → Step (view s) (update id payload) (found r) (view t)
  unfolding write
  Update-Step id payload old s r t there (nothing e e' e'') = rw (e, e', e'') (update_nothing there)
  Update-Step id payload old s r t there (written known free h) =
      let (a, e, stepped) = db_error_returned session some "UPDATE" _ r t h in
      let (flushed, read_back) = reread_done session (assigned model payload old) a _ t stepped in
      let flushed = flush_done session _ t flushed in
      let (stored, put_row) =
        promised.view-assign id (assigned model payload old) a s t flushed read_back in
      rw (e, put_row) (updated there known free stored)

  update_step :
      (id : Key) (payload : List (String × Value)) (s : State) (old r : Option Row) (t : State)
      → view s id ≡ old
      → update_found session old id payload s ≡ (returned r, t)
      → Step (view s) (update id payload) (found r) (view t)
  unfolding update_found
  update_step id payload s none r t there h =
      rw (← ap (λ p. p.1) h, ← returned_eq (ap (λ p. p.0) h)) (update_missing there)
  update_step id payload s (some old) r t there h =
      Update-Step id payload old s r t there (update_found_Update id payload old s r t h)

  delete_step :
      (id : Key) (s : State) (old : Option Row) (r : Bool) (t : State)
      → view s id ≡ old
      → delete_found session old id s ≡ (returned r, t)
      → Step (view s) (delete id) (deleted r) (view t)
  unfolding delete_found remove
  delete_step id s none r t there h =
      rw (← ap (λ p. p.1) h, ← returned_eq (ap (λ p. p.0) h)) (delete_missing there)
  delete_step id s (some old) r t there h =
      let (a, e, flushed) = db_error_returned session (λ _. true) "DELETE" _ r t h in
      rw (e, promised.view-delete id s t (flush_done session _ t flushed)) (removed there)

  or_raise_returned :
      (o : Option Row) (row : Row) → or_raise session o ≡ returned row → o ≡ some row
  unfolding or_raise
  or_raise_returned none row h = absurd (cc h)
  or_raise_returned (some r) row h = cc h

  perform-Step :
      (op : Op model) (s : State) (r : Reply model) (t : State)
      → perform session op s ≡ (returned r, t)
      → Step (view s) op r (view t)
  unfolding perform Repository.get_by_id Repository.update Repository.delete
      Repository.get_by_id_or_raise Repository.exists Repository.count Repository.get_all
  perform-Step (create payload) s r t h =
      let (row, e, h') = replying_returned session entity _ r t h in
      rw e (create_step payload s row t h')
  perform-Step (get id) s r t h =
      rw (← ap (λ p. p.1) h, ← returned_eq (ap (λ p. p.0) h), promised.get-view id s) read
  perform-Step (get_by_id_or_raise id) s r t h =
      let (row, e, h') = replying_returned session entity _ r t h in
      let there =
        or_raise_returned (view s id) row (rw (promised.get-view id s) at (ap (λ p. p.0) h')) in
      rw (e, ← ap (λ p. p.1) h') (read_or_raised there)
  perform-Step (exists id) s r t h =
      rw (← ap (λ p. p.1) h, ← returned_eq (ap (λ p. p.0) h), promised.exists-view id s) tested
  perform-Step (get_all skip limit) s r t h =
      let (all_there, short) = promised.select-view _ skip limit s in
      rw (← ap (λ p. p.1) h, ← returned_eq (ap (λ p. p.0) h)) (listed all_there short)
  perform-Step count s r t h =
      rw (← ap (λ p. p.1) h, ← returned_eq (ap (λ p. p.0) h), promised.count-view s) counted
  perform-Step (update id payload) s r t h =
      let (row, e, h') = replying_returned session found _ r t h in
      rw e (update_step id payload s _ row t (sym (promised.get-view id s)) h')
  perform-Step (delete id) s r t h =
      let (went, e, h') = replying_returned session deleted _ r t h in
      rw e (delete_step id s _ went t (sym (promised.get-view id s)) h')

  -- The methods that a handler calls, as far as it is not stopped by an exception, are the steps of
  -- a finite map.
  pub run-Steps :
      (ops : List (Op model)) (s : State) (rs : List (Reply model)) (t : State)
      → run session ops s ≡ (returned rs, t)
      → Steps (view s) ops rs (view t)
  unfolding run
  run-Steps [] s rs t h = rw (← ap (λ p. p.1) h, ← returned_eq (ap (λ p. p.0) h)) nil
  run-Steps (op ∷ ops) s rs t h =
      let (r, u, first, h') =
        continue_returned session (run session ops) (perform session op s) rs t h in
      let (rs', e, rest) = before_returned session r (run session ops u) rs t h' in
      rw e (cons (perform-Step op s r u first) (run-Steps ops u rs' t rest))
