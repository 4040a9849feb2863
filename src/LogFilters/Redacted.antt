-- ===== src/LogFilters/Redacted.antt =====
-- What a handler prints of a record that RedactingFilter has passed (app/utils/logs/filters.py).
use mathlib.Core.Path.{subst}
use fastapi_project_structur.Common.{
  ℕ, ◌≡◌, refl, sym, ap, ◌∙◌, ◌⊎◌, inl, inr, Bool, true, false, Option, none, some, [], ◌∷◌,
  if◌then◌else◌,
}
use fastapi_project_structur.Config.Safety.{same_text}
use fastapi_project_structur.Config.Safety.Gate.{same_text_eq}
use fastapi_project_structur.LogFilters.{
  Text, LogRecord, Arguments, tuple, get_message, collapsed, with_args, hidden_message, rendered,
  redact_if, hidden_traces, filtered, redacting_filter,
}

module _ (redact : Text → Text) (format : Text → Arguments → Option Text)
    (format_exception : ℕ → Text) where
  abbrev rendering : LogRecord → Option Text
  rendering = get_message redact format format_exception

  -- The message is one that redaction leaves as it is, or the redaction of the whole message.
  pub Hidden : (message printed : Text) → Type 0
  Hidden message printed = (redact printed ≡ printed) ⊎ (printed ≡ redact message)

  -- What of a record may be printed: the message, and the traces of exceptions and stacks.
  abbrev pub Shown : Text → LogRecord → Type 0
  Shown message r = (printed : Text) × (rendering r ≡ some printed) × Hidden message printed

  some_eq : {a b : LogRecord} → some a ≡ some b → a ≡ b
  some_eq h = cc h

  chosen :
      (message partial : Text) (r r' : LogRecord) (b : Bool)
      → same_text (redact partial) partial ≡ b
      → rendering r ≡ some partial
      → (if b then some r else some (record r { msg = redact message; args = tuple [] })) ≡ some r'
      → Shown message r'
  unfolding Hidden get_message
  chosen message partial r r' true e f h =
      (partial, ap rendering (sym (some_eq h)) ∙ f, inl (same_text_eq (redact partial) partial e))
  chosen message partial r r' false e f h =
      (redact message, ap rendering (sym (some_eq h)), inr refl)

  collapsed-Shown :
      (message : Text) (r r' : LogRecord) (partial : Option Text)
      → rendering r ≡ partial
      → collapsed redact format format_exception message r partial ≡ some r'
      → Shown message r'
  unfolding collapsed
  collapsed-Shown message r r' none e h = absurd (cc h)
  collapsed-Shown message r r' (some partial) e h = chosen message partial r r' _ refl e h

  hidden-Shown :
      (message : Text) (r r' : LogRecord) (b : Bool)
      → same_text (redact message) message ≡ b
      → rendering r ≡ some message
      → (if b
          then some r
          else collapsed redact format format_exception message
              (with_args redact format format_exception r)
              (rendering (with_args redact format format_exception r)))
        ≡ some r'
      → Shown message r'
  unfolding Hidden
  hidden-Shown message r r' true e f h =
      (message, ap rendering (sym (some_eq h)) ∙ f, inl (same_text_eq (redact message) message e))
  hidden-Shown message r r' false e f h = collapsed-Shown message _ r' _ refl h

  -- a trace is empty, or what redaction makes of one
  pub IsTrace : Text → Type 0
  IsTrace s = (s ≡ []) ⊎ ((raw : Text) × (s ≡ redact raw))

  redact_if-IsTrace : (s : Text) → IsTrace (redact_if redact format format_exception s)
  unfolding IsTrace
  redact_if-IsTrace [] = inl refl
  redact_if-IsTrace (c ∷ s) = inr (c ∷ s, refl)

  traces-Shown :
      (message : Text) (o : Option LogRecord) (r' : LogRecord)
      → ((r : LogRecord) → o ≡ some r → Shown message r)
      → hidden_traces redact format format_exception o ≡ some r'
      → Shown message r' × IsTrace r'.exc_text × IsTrace r'.stack_info
  unfolding hidden_traces get_message
  traces-Shown message none r' shown h = absurd (cc h)
  traces-Shown message (some r) r' shown h =
      let e = some_eq h in
      let (printed, f, hidden) = shown r refl in
      (
        (printed, ap rendering (sym e) ∙ f, hidden),
        subst (λ x. IsTrace x.exc_text) e
            (redact_if-IsTrace (rendered redact format format_exception r.exc_info r.exc_text)),
        subst (λ x. IsTrace x.stack_info) e (redact_if-IsTrace r.stack_info),
      )

  filtered-Shown :
      (r r' : LogRecord) (message : Text) (o : Option Text)
      → o ≡ some message
      → rendering r ≡ o
      → filtered redact format format_exception r o ≡ some r'
      → Shown message r' × IsTrace r'.exc_text × IsTrace r'.stack_info
  unfolding filtered hidden_message
  filtered-Shown r r' message none e f h = absurd (cc e)
  filtered-Shown r r' message (some m) e f h =
      traces-Shown message _ r'
        (λ x k. hidden-Shown message r x _ refl (f ∙ e) (rw (same m message e) at k)) h
    where
      same : (m message : Text) → some m ≡ some message → m ≡ message
      same m message e = cc e

  -- If a record's message can be rendered and the filter passes the record, then what is
  -- printed of it is a message that redaction leaves as it is, or the redaction of the whole
  -- original message; and the texts of its exception and of its stack are empty or results of
  -- redaction.
  pub redacting_filter-Shown :
      (r r' : LogRecord) (message : Text)
      → rendering r ≡ some message
      → redacting_filter redact format format_exception r ≡ some r'
      → Shown message r' × IsTrace r'.exc_text × IsTrace r'.stack_info
  unfolding redacting_filter
  redacting_filter-Shown r r' message f h = filtered-Shown r r' message _ f refl h
