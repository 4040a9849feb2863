-- ===== src/Repository/ReadOnly.antt =====
-- A read-only session writes nothing (app/core/db/session.py, router.py).
use fastapi_project_structur.Common.{
  String, ◌≡◌, sym, ap, ◌∙◌, inl, inr, Bool, true, not, Option, none, some, List, [], ◌∷◌, is_empty,
}
use fastapi_project_structur.Repository
use fastapi_project_structur.Repository.{
  Model, Session, Sql, routing_error, sql_error, done, Outcome, returned, flush, reread, db_error,
  unknown_fields, has_pk, assigned, write, update_found, delete_found, remove,
}
use fastapi_project_structur.Repository.Requests.{
  Op, create, get, get_by_id_or_raise, exists, get_all, count, update, delete, Reply, entity, found,
  deleted, perform, run,
}
use fastapi_project_structur.Repository.Contract.{Documented}
use fastapi_project_structur.Repository.Endings.{
  taken, reread_done, db_error_returned, replying_returned, before_returned, continue_returned,
  flush_refused,
}

module _ {model : Model} {session : Session model} (promised : Documented session) where
  open model use {Key, Value, Row}
  open session use {State}

  abbrev IsReadOnly : State → Type 0
  IsReadOnly s = (session.routing s).read_only ≡ true

  no_flush : (s t : State) → IsReadOnly s → flush session s ≡ (done tt, t) → ⊥
  no_flush s t h e = cc (ap (λ p. p.0) (sym (flush_refused session s h) ∙ e))

  no_reread :
      {A : Type 0} (reply : Row → A) (operation : String) (e : Row) (s t : State) (a : A)
      → IsReadOnly s
      → db_error session reply operation (reread session e (flush session s)) ≡ (returned a, t)
      → ⊥
  no_reread reply operation e s t a h k =
      let (row, _, ended) = db_error_returned session reply operation _ a t k in
      no_flush s t h ((reread_done session e row _ t ended).0)

  update_found-same :
      (old : Option Row) (id : Key) (payload : List (String × Value)) (s t : State) (r : Option Row)
      → IsReadOnly s
      → update_found session old id payload s ≡ (returned r, t)
      → t ≡ s
  unfolding update_found write
  update_found-same none id payload s t r h e = sym (ap (λ p. p.1) e)
  update_found-same (some old) id payload s t r h e = elim (taken (is_empty payload) e) [
    | inl (_, e') ↦ sym (ap (λ p. p.1) e')
    | inr (_, e1) ↦ elim (taken (not (is_empty (unknown_fields model payload))) e1) [
      | inl (_, e') ↦ sym (ap (λ p. p.1) e')
      | inr (_, e2) ↦ elim (taken (has_pk model payload) e2) [
        | inl (_, e') ↦ sym (ap (λ p. p.1) e')
        | inr (_, e') ↦ absurd (
            no_reread some "UPDATE" _ _ t r
              (ap (λ i. i.read_only) (promised.routing-assign id _ s) ∙ h) e')
      ]
    ]
  ]

  delete_found-same :
      (old : Option Row) (id : Key) (s t : State) (r : Bool)
      → IsReadOnly s
      → delete_found session old id s ≡ (returned r, t)
      → t ≡ s
  unfolding delete_found remove
  delete_found-same none id s t r h e = sym (ap (λ p. p.1) e)
  delete_found-same (some old) id s t r h e =
      let (_, _, ended) = db_error_returned session (λ _. true) "DELETE" _ r t e in
      absurd (no_flush _ t (ap (λ i. i.read_only) (promised.routing-delete id s) ∙ h) ended)

  perform-same :
      (op : Op model) (s t : State) (r : Reply model)
      → IsReadOnly s
      → perform session op s ≡ (returned r, t)
      → t ≡ s
  unfolding perform Repository.create Repository.add Repository.update Repository.delete
  perform-same (create payload) s t r h e =
      let (row, _, e') = replying_returned session entity _ r t e in
      absurd (
        no_reread (λ x. x) "CREATE" _ _ t row
          (ap (λ i. i.read_only) (promised.routing-add (model.new payload) s) ∙ h) e')
  perform-same (get id) s t r h e = sym (ap (λ p. p.1) e)
  perform-same (get_by_id_or_raise id) s t r h e =
      let (_, _, e') = replying_returned session entity _ r t e in sym (ap (λ p. p.1) e')
  perform-same (exists id) s t r h e = sym (ap (λ p. p.1) e)
  perform-same (get_all skip limit) s t r h e = sym (ap (λ p. p.1) e)
  perform-same count s t r h e = sym (ap (λ p. p.1) e)
  perform-same (update id payload) s t r h e =
      let (row, _, e') = replying_returned session found _ r t e in
      update_found-same _ id payload s t row h e'
  perform-same (delete id) s t r h e =
      let (went, _, e') = replying_returned session deleted _ r t e in
      delete_found-same _ id s t went h e'

  pub run-same :
      (ops : List (Op model)) (s t : State) (rs : List (Reply model))
      → IsReadOnly s
      → run session ops s ≡ (returned rs, t)
      → t ≡ s
  unfolding run
  run-same [] s t rs h e = sym (ap (λ p. p.1) e)
  run-same (op ∷ ops) s t rs h e =
      let (r, u, first, e') =
        continue_returned session (run session ops) (perform session op s) rs t e in
      let (rs', _, rest) = before_returned session r (run session ops u) rs t e' in
      let same = perform-same op s u r h first in
      run-same ops u t rs' (ap (λ x. (session.routing x).read_only) same ∙ h) rest ∙ same
