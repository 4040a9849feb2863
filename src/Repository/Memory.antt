-- ===== src/Repository/Memory.antt =====
-- A session over one table in memory, which keeps what `Documented` promises: a row is a key with a
-- number, and the number 0 violates a constraint.
use fastapi_project_structur.Common.{
  ℕ, String, ◌≡◌, refl, sym, ap, ◌∙◌, Bool, true, false, Option, none, some, List, [], ◌∷◌, eqb,
  ◌==◌, is_some, map, length, arith,
}
use fastapi_project_structur.DbRouter.{Info}
use fastapi_project_structur.DbErrors.{DbError, number}
use fastapi_project_structur.Repository.{Model, Session, Sql, sql_error, done}
use fastapi_project_structur.Repository.Contract.{put, Documented}

abbrev row_of : List (String × ℕ) → String × ℕ
row_of [] = ("", 0)
row_of ((field, value) ∷ rest) = (field, value)

abbrev pub Numbers : Model
Numbers = record {
  Key = String;
  Value = ℕ;
  Row = String × ℕ;
  name = "Number";
  pk_attr = "id";
  has_created_at = false;
  columns = "id" ∷ "number" ∷ [];
  new = row_of;
  setattr = λ field value row. (row.0, value);
}

pub data Pending : Type 0 where
  nothing : Pending
  writing : String → String × ℕ → Pending
  deleting : String → Pending

pub record Table : Type 0 where
  pub stored : String → Option (String × ℕ)
  pub visible : String → Option (String × ℕ)
  pub pending : Pending
  pub info : Info

abbrev same : String → String → Bool
same a b = b == a

abbrev null_error : DbError
null_error = record { is_integrity = true; args = number 1048 ∷ []; orig = "" }

abbrev written : String → String × ℕ → Bool → Table → Sql (Unit {0}) × Table
written key row true t = (sql_error null_error, t)
written key row false t =
    (done tt, record t { visible = put same key (some row) t.visible; pending = nothing })

abbrev flush_pending : Pending → Table → Sql (Unit {0}) × Table
flush_pending nothing t = (done tt, t)
flush_pending (writing key row) t = written key row (eqb (row.1) 0) t
flush_pending (deleting key) t =
    (done tt, record t { visible = put same key none t.visible; pending = nothing })

abbrev filter_some : List (Option (String × ℕ)) → List (String × ℕ)
filter_some [] = []
filter_some (none ∷ rest) = filter_some rest
filter_some (some row ∷ rest) = row ∷ filter_some rest

-- how many of the keys a, b and c have a row
abbrev pub size : (String → Option (String × ℕ)) → ℕ
size rows = length (filter_some (map rows ("a" ∷ "b" ∷ "c" ∷ [])))

abbrev pub numbers : Session Numbers
numbers = record {
  State = Table;
  routing = λ t. t.info;
  set_routing = λ info t. record t { info = info };
  get = λ id t. t.visible id;
  add = λ row t. record t { pending = writing (row.0) row };
  assign = λ id row t. record t { pending = writing id row };
  delete = λ id t. record t { pending = deleting id };
  flush = λ t. flush_pending t.pending t;
  refresh = λ row t. done row;
  select = λ order skip limit t. [];
  exists = λ id t. is_some (t.visible id);
  count = λ t. size t.visible;
  commit = λ t. (done tt, record t { stored = t.visible });
  rollback = λ t. record t { visible = t.stored; pending = nothing };
  close = λ t. record t { visible = t.stored; pending = nothing };
}

pub done_eq : {a b : String × ℕ} → done a ≡ done b → a ≡ b
done_eq h = cc h

pub written_done :
    (key : String) (e r : String × ℕ) (b : Bool) (s t : Table)
    → written key e b s ≡ (done tt, t)
    → e ≡ r
    → (e ≡ r) × (t.visible ≡ put same key (some r) s.visible)
written_done key e r true s t h k = absurd (cc (ap (λ p. p.0) h))
written_done key e r false s t h k = (k, rw (← k) (sym (ap (λ p. p.1.visible) h)))

pub added_done :
    (e r : String × ℕ) (s t : Table)
    → flush_pending (writing (e.0) e) (record s { pending = writing (e.0) e }) ≡ (done tt, t)
    → e ≡ r
    → (e ≡ r) × (t.visible ≡ put same (r.0) (some r) s.visible)
added_done e r s t h k =
    let (_, visible) =
      written_done (e.0) e r (eqb (e.1) 0) (record s { pending = writing (e.0) e }) t h k in
    (k, visible ∙ ap (λ x. put same (x.0) (some r) s.visible) k)

written_pending :
    (key : String) (row : String × ℕ) (b : Bool) (t : Table)
    → (written key row b t).1.stored ≡ t.stored
written_pending key row true t = refl
written_pending key row false t = refl

pub stored_flush : (p : Pending) (t : Table) → (flush_pending p t).1.stored ≡ t.stored
stored_flush nothing t = refl
stored_flush (writing key row) t = written_pending key row (eqb (row.1) 0) t
stored_flush (deleting key) t = refl

unfoldable pub numbers-Documented : Documented numbers
numbers-Documented = record {
  view = λ t. t.visible;
  committed = λ t. t.stored;
  pk = λ row. row.0;
  same = same;
  Stored = λ e r. e ≡ r;
  size = size;
  get-view = λ id s. refl;
  exists-view = λ id s. refl;
  count-view = λ s. refl;
  select-view = λ order skip limit s. (tt, omega arith);
  set_routing-view = λ info s. refl;
  set_routing_committed = λ info s. refl;
  routing-set_routing = λ info s. refl;
  routing-add = λ e s. refl;
  routing-assign = λ id e s. refl;
  routing-delete = λ id s. refl;
  view-add = λ e r s t h k. added_done e r s t h (done_eq k);
  view-assign = λ key e r s t h k. written_done key e r (eqb (e.1) 0) _ t h (done_eq k);
  view-delete = λ key s t h. sym (ap (λ p. p.1.visible) h);
  add_pending = λ e s. refl;
  assign_pending = λ id e s. refl;
  delete_pending = λ id s. refl;
  flush_pending = λ s. stored_flush s.pending s;
  commit_done = λ s t h. sym (ap (λ p. p.1.stored) h);
  commit_failed = λ e s t h. absurd (cc (ap (λ p. p.0) h));
  commit_misrouted = λ s t h. absurd (cc (ap (λ p. p.0) h));
  close_committed = λ s. refl;
  rollback_committed = λ s. refl;
}
