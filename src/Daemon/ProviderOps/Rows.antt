-- ===== src/Daemon/ProviderOps/Rows.antt =====
-- What the statements on the tables do to the rows of the operations.
use mathlib.Core.Path.{subst}
use ratchet_cli.Base.{
  ℕ, ◌≡◌, refl, sym, ap, ◌∙◌, inl, inr, String, Bool, true, false, Option, none, some, arith,
  if◌then◌else◌, ◌==◌, eq_iff, Option-cases,
}
use ratchet_cli.Base.Dict.{lookup, lookup-insert}
use ratchet_cli.Daemon.ProviderOps.Tables.{
  OperationState, pending, applied, committed, failed, ProviderRow, OperationRow, Database,
  is_active, queue_row, queue_provider_secret_cleanup, update_operation,
}

-- the transitions of an operation
abbrev pub may_follow : OperationState → OperationState → Bool
may_follow pending committed = false
may_follow pending _ = true
may_follow applied applied = true
may_follow applied committed = true
may_follow committed committed = true
may_follow failed failed = true
may_follow _ _ = false

pub may_follow_refl : (s : OperationState) → may_follow s s ≡ true
may_follow_refl pending = refl
may_follow_refl applied = refl
may_follow_refl committed = refl
may_follow_refl failed = refl

pub may_follow-active :
    (s t : OperationState) → may_follow s t ≡ true → is_active t ≡ true → is_active s ≡ true
may_follow-active s t h a = ground (arith, h, a)

-- One row keeps its alias and its secret, and moves by a transition; an untouched pending row stays so.
pub record Moves (touched : Bool) (row row' : OperationRow) : Type 0 where
  pub alias : row'.alias ≡ row.alias
  pub secret : row'.secret_name ≡ row.secret_name
  pub state : may_follow row.state row'.state ≡ true
  pub waits : touched ≡ false → row.state ≡ pending → row'.state ≡ pending

pub Moves-refl : (t : Bool) (row : OperationRow) → Moves t row row
Moves-refl t row = record {
  alias = refl;
  secret = refl;
  state = may_follow_refl row.state;
  waits = λ h p. p;
}

abbrev pub RowMoves : Bool → Option OperationRow → Option OperationRow → Type 0
RowMoves t none none = Unit
RowMoves t none (some row') = ⊥
RowMoves t (some row) none = ⊥
RowMoves t (some row) (some row') = Moves t row row'

pub RowMoves-refl : (t : Bool) (x : Option OperationRow) → RowMoves t x x
RowMoves-refl t none = tt
RowMoves-refl t (some row) = Moves-refl t row

-- the row after, of a row before
pub row_after :
    (t : Bool) (x y : Option OperationRow) (row : OperationRow)
    → RowMoves t x y
    → x ≡ some row
    → (row' : OperationRow) × (y ≡ some row') × Moves t row row'
row_after t none y row h e = absurd (cc e)
row_after t (some old) none row h e = absurd h
row_after t (some old) (some row') row h e =
    let same : old ≡ row = cc e in rw (sym same) (row', refl, h)

-- the row before, of a row after
pub row_before :
    (t : Bool) (x y : Option OperationRow) (row' : OperationRow)
    → RowMoves t x y
    → y ≡ some row'
    → (row : OperationRow) × (x ≡ some row) × Moves t row row'
row_before t none none row' h e = absurd (cc e)
row_before t none (some new) row' h e = absurd h
row_before t (some row) none row' h e = absurd h
row_before t (some row) (some new) row' h e =
    let same : new ≡ row' = cc e in rw (sym same) (row, refl, h)

-- A change of the database that adds no reference to a secret: a provider row keeps its secret, and the
-- rows of the journal stay and move. `touched` are the operations whose pending rows it may end.
pub record Changes (touched : String → Bool) (db db' : Database) : Type 0 where
  pub providers :
      (alias : String) (row' : ProviderRow)
      → lookup alias db'.providers ≡ some row'
      → (row : ProviderRow) × (lookup alias db.providers ≡ some row)
        × (row'.secret_name ≡ row.secret_name)
  pub operations :
      (id : String) → RowMoves (touched id) (lookup id db.operations) (lookup id db'.operations)

pub same-Changes :
    (t : String → Bool) (db db' : Database)
    → db'.providers ≡ db.providers
    → db'.operations ≡ db.operations
    → Changes t db db'
same-Changes t db db' p o = record {
  providers = λ alias row' e. (row', rw p at e, refl);
  operations = λ id. rw o (RowMoves-refl (t id) (lookup id db.operations));
}

pub Changes-refl : (t : String → Bool) (db : Database) → Changes t db db
Changes-refl t db = same-Changes t db db refl refl

moved_row :
    (t b : Bool) (x : Option OperationRow) (row new : OperationRow)
    → (b ≡ true → Moves t row new)
    → (b ≡ true → x ≡ some row)
    → RowMoves t x (if b then some new else x)
moved_row t true x row new h e = rw (e refl) (h refl)
moved_row t false x row new h e = RowMoves-refl t x

pub update-Changes :
    (t : String → Bool) (id : String) (f : OperationRow → OperationRow) (db : Database)
    → ((row : OperationRow) → lookup id db.operations ≡ some row → Moves (t id) row (f row))
    → Changes t db (update_operation id f db)
unfolding update_operation
update-Changes t id f db h = elim (Option-cases (lookup id db.operations)) [
  | inl e ↦ rw (e, update_operation) (Changes-refl t db)
  | inr (row, e) ↦
      rw (e, update_operation)
        (record {
          providers = λ alias row' q. (row', q, refl);
          operations = λ k. rw (lookup-insert id k (f row) db.operations) (
              moved_row (t k) (id == k) (lookup k db.operations) row (f row)
                (λ b. subst (λ x. Moves (t x) row (f row)) ((eq_iff id k).0 b) (h row e))
                (λ b. ap (λ x. lookup x db.operations) (sym ((eq_iff id k).0 b)) ∙ e));
        })
]

pub queued_tables :
    (now : ℕ) (name : String) (db : Database)
    → let db' = queue_provider_secret_cleanup now name db in
      (db'.providers ≡ db.providers) × (db'.operations ≡ db.operations)
unfolding queue_provider_secret_cleanup queue_row
queued_tables now name db = (ground arith, ground arith)

-- a change after a statement on the cleanup table alone
pub Changes-after :
    (t : String → Bool) (a b c : Database)
    → b.providers ≡ a.providers
    → b.operations ≡ a.operations
    → Changes t b c
    → Changes t a c
Changes-after t a b c p o h = record {
  providers = λ alias row' e.
      let (row, q, s) = h.providers alias row' e in (row, sym (ap (lookup alias) p) ∙ q, s);
  operations =
      λ id. subst (λ x. RowMoves (t id) (lookup id x) (lookup id c.operations)) o (h.operations id);
}
