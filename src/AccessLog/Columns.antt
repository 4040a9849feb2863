-- ===== src/AccessLog/Columns.antt =====
-- An entry of the access log and the columns of its table
-- (app/features/home/services/user_access_log_service.py, access_log_sink.py).
use fastapi_project_structur.Common.{
  ℕ, suc, ◌≤◌, ◌≡◌, refl, ap, ◌⊎◌, inl, inr, String, Bool, true, false, Option, none, some, List,
  [], ◌∷◌, arith, length, take, zero,
}
use mathlib.Core.Path.{ap₂}
use fastapi_project_structur.AccessLog.{
  encoded, save, save_access_log, Value, null, text, number, flag, Entry, Text, truncated,
  truncate_to_columns,
}
use fastapi_project_structur.Repository.{Model, Session}
use fastapi_project_structur.Repository.Dependencies.{background_context}
use fastapi_project_structur.Repository.Requests.{Op, create, Reply, Ending}
use fastapi_project_structur.Repository.Contract.{Documented, put}
use fastapi_project_structur.Repository.Refinement.{Transacted, request-Transacted}
use fastapi_project_structur.Repository.Steps.{Steps, Step}
use fastapi_project_structur.Repository.Steps
use fastapi_project_structur.Repository.Refinement

length-take : (n : ℕ) (s : Text) → length (take n s) ≤ n
length-take zero s = omega arith
length-take (suc n) [] = omega arith
length-take (suc n) (c ∷ s) = omega (arith, length-take n s)

take-take : (n : ℕ) (s : Text) → take n (take n s) ≡ take n s
take-take zero s = refl
take-take (suc n) [] = refl
take-take (suc n) (c ∷ s) = ap (c ∷◌) (take-take n s)

module _ (column_limits : String → Option ℕ) where
  -- the value fits into a column of this length
  pub Fits : Option ℕ → Value → Type 0
  Fits (some n) (text s) = length s ≤ n
  Fits _ value = Unit

  pub AllFit : Entry → Type 0
  AllFit [] = Unit
  AllFit ((key, value) ∷ entry) = Fits (column_limits key) value × AllFit entry

  names : Entry → List String
  names [] = []
  names ((key, value) ∷ entry) = key ∷ names entry

  truncated-Fits :
      (limit : Option ℕ) (value : Value) → Fits limit (truncated column_limits limit value)
  unfolding Fits truncated
  truncated-Fits none value = tt
  truncated-Fits (some n) null = tt
  truncated-Fits (some n) (text s) = length-take n s
  truncated-Fits (some n) (number k) = tt
  truncated-Fits (some n) (flag b) = tt

  truncated_again :
      (limit : Option ℕ) (value : Value)
      → truncated column_limits limit (truncated column_limits limit value)
        ≡ truncated column_limits limit value
  unfolding truncated
  truncated_again none value = refl
  truncated_again (some n) null = refl
  truncated_again (some n) (text s) = ap text (take-take n s)
  truncated_again (some n) (number k) = refl
  truncated_again (some n) (flag b) = refl

  fit :
      (entry : Entry)
      → AllFit (truncate_to_columns column_limits entry)
        × (names (truncate_to_columns column_limits entry) ≡ names entry)
        × (truncate_to_columns column_limits (truncate_to_columns column_limits entry)
            ≡ truncate_to_columns column_limits entry)
  unfolding AllFit names truncate_to_columns
  fit [] = (tt, refl, refl)
  fit ((key, value) ∷ entry) =
      let (fits, same, again) = fit entry in
      (
        (truncated-Fits (column_limits key) value, fits),
        ap (key ∷◌) same,
        ap₂ (λ v e. (key, v) ∷ e) (truncated_again (column_limits key) value) again,
      )

  module _ {model : Model} {session : Session model} (promised : Documented session)
      (encode : Value → model.Value) where
    open promised use {committed, pk, same, Stored}

    -- What a save leaves: the rows as they were, or one row more, of the entry cut to its columns.
    abbrev pub Saved :
        Entry → (model.Key → Option model.Row) → (model.Key → Option model.Row) → Type 0
    Saved entry rows rows' =
        (rows' ≡ rows)
        ⊎ ((row : model.Row) × Stored
              (model.new
                (encoded column_limits session encode (truncate_to_columns column_limits entry)))
              row
            × (rows' ≡ put same (pk row) (some row) rows))

    one_step :
        (entry : Entry) (rows rows' : model.Key → Option model.Row) (op : Op model)
        (reply : Reply model)
        → op
          ≡ create (encoded column_limits session encode (truncate_to_columns column_limits entry))
        → Step promised rows op reply rows'
        → Saved entry rows rows'
    one_step entry rows _ _ _ e (Steps.created {row = row} stored) =
        inr (row, rw (payload_of e) stored, refl)
      where
        payload_of :
            {xs ys : List (String × model.Value)}
            → ◌≡◌ {A = Op model} (create xs) (create ys)
            → ys ≡ xs
        payload_of h = cc h
    one_step entry rows _ _ _ e Steps.read = absurd (cc e)
    one_step entry rows _ _ _ e (Steps.read_or_raised _) = absurd (cc e)
    one_step entry rows _ _ _ e Steps.tested = absurd (cc e)
    one_step entry rows _ _ _ e Steps.counted = absurd (cc e)
    one_step entry rows _ _ _ e (Steps.listed _ _) = absurd (cc e)
    one_step entry rows _ _ _ e (Steps.update_missing _) = absurd (cc e)
    one_step entry rows _ _ _ e (Steps.update_nothing _) = absurd (cc e)
    one_step entry rows _ _ _ e (Steps.updated _ _ _ _) = absurd (cc e)
    one_step entry rows _ _ _ e (Steps.delete_missing _) = absurd (cc e)
    one_step entry rows _ _ _ e (Steps.removed _) = absurd (cc e)

    ended :
        (entry : Entry) (rows rows' : model.Key → Option model.Row) (x : Ending model)
        → Transacted promised rows
            (create (encoded column_limits session encode (truncate_to_columns column_limits entry))
              ∷ [])
            x
            rows'
        → Saved entry rows rows'
    ended entry rows _ _ Refinement.misrouted_whole = inl refl
    ended entry rows _ _ Refinement.refused_whole = inl refl
    ended entry rows _ _ Refinement.failed_whole = inl refl
    ended entry rows rows' _ (Refinement.replied_whole (Steps.cons first Steps.nil)) =
        one_step entry rows rows' _ _ refl first

    -- Saving an entry of the access log leaves the committed rows as they were or adds one
    -- row, of the entry whose texts are cut to the lengths of their columns, so that each
    -- fits. The session does what its documentation promises, and it begins with what is
    -- committed.
    pub save_access_log-Saved :
        (has_sink : Bool) (entry : Entry) (s : session.State)
        → promised.view s ≡ committed s
        → Saved entry
            (committed s)
            (committed (save_access_log column_limits session encode has_sink entry s))
          × AllFit (truncate_to_columns column_limits entry)
    unfolding save_access_log save
    save_access_log-Saved false entry s fresh = (inl refl, (fit entry).0)
    save_access_log-Saved true entry s fresh = (
      ended entry _ _ _ (request-Transacted promised background_context _ s fresh).0,
      (fit entry).0,
    )
