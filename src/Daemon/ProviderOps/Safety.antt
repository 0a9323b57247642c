-- ===== src/Daemon/ProviderOps/Safety.antt =====
-- The invariant of the provider operations: no cleanup deletes a secret that something references.
use ratchet_cli.Base.{
  ◌≡◌, ap, ◌∙◌, ◌⊎◌, inl, inr, String, Bool, true, false, some, arith, ◌==◌, eq_iff, Bool-cases,
}
use ratchet_cli.Base.Dict.{Dict, lookup, insert, remove, lookup-insert, lookup-remove}
use ratchet_cli.Daemon.ProviderOps.Tables.{
  pending, ProviderRow, OperationRow, Database, is_active, has,
}
use ratchet_cli.Daemon.ProviderOps.Journal.{
  Phase, journaled, stored, landing, Flight, CleanPhase, deleting, Manager,
}
use ratchet_cli.Daemon.ProviderOps.Rows.{may_follow-active, row_after, row_before, Changes}

-- before the provider row is written
abbrev pub is_early : Phase → Bool
is_early journaled = true
is_early stored = true
is_early _ = false

abbrev pub is_stored : Phase → Bool
is_stored stored = true
is_stored _ = false

abbrev pub is_landing : Phase → Bool
is_landing landing = true
is_landing _ = false

pub record Unreferenced (name : String) (db : Database) : Type 0 where
  pub providers :
      (alias : String) (row : ProviderRow)
      → lookup alias db.providers ≡ some row
      → row.secret_name == name ≡ false
  pub operations :
      (id : String) (row : OperationRow)
      → lookup id db.operations ≡ some row
      → is_active row.state ≡ true
      → row.secret_name == name ≡ false

-- A flight that has not landed has its row in the journal.
pub record Journaled (alias : String) (f : Flight) (db : Database) : Type 0 where
  pub row : OperationRow
  pub found : lookup f.operation_id db.operations ≡ some row
  pub named : row.alias ≡ alias
  pub secret : row.secret_name ≡ f.secret_name
  pub waits : is_early f.phase ≡ true → row.state ≡ pending

pub record Flies (alias : String) (f : Flight) (db : Database) (secrets : Dict String)
    : Type 0 where
  pub requested : f.request.operation_id ≡ f.operation_id
  pub aliased : f.request.alias ≡ alias
  pub journal : is_landing f.phase ≡ false → Journaled alias f db
  pub held :
      is_stored f.phase ≡ true → f.secret_name == "" ≡ false → has f.secret_name secrets ≡ true

pub record Safe (db : Database) (secrets : Dict String) (flights : Dict Flight)
    (cleaning : Dict CleanPhase) : Type 0 where
  pub kept :
      (alias : String) (row : ProviderRow)
      → lookup alias db.providers ≡ some row
      → row.secret_name == "" ≡ false
      → has row.secret_name secrets ≡ true
  pub unused :
      (name : String)
      → lookup name cleaning ≡ some deleting
      → name == "" ≡ false
      → Unreferenced name db
  pub flying :
      (alias : String) (f : Flight) → lookup alias flights ≡ some f → Flies alias f db secrets

abbrev pub IsSafe : Manager → Type 0
IsSafe m = Safe m.db m.secrets m.flights m.cleaning

pub Changes-Unreferenced :
    (t : String → Bool) (db db' : Database) (name : String)
    → Changes t db db'
    → Unreferenced name db
    → Unreferenced name db'
Changes-Unreferenced t db db' name c u = record {
  providers = λ alias row' e.
      let (row, p, q) = c.providers alias row' e in ap (λ s. s == name) q ∙ u.providers alias row p;
  operations = λ id row' e a.
      let (row, p, v) = row_before (t id) _ _ row' (c.operations id) e in
      ap (λ s. s == name) v.secret
      ∙ u.operations id row p (may_follow-active row.state row'.state v.state a);
}

pub Changes-Journaled :
    (t : String → Bool) (db db' : Database) (alias : String) (f : Flight)
    → Changes t db db'
    → t f.operation_id ≡ false
    → Journaled alias f db
    → Journaled alias f db'
Changes-Journaled t db db' alias f c u j =
    let (row', e, v) =
      row_after (t f.operation_id) _ _ j.row (c.operations f.operation_id) j.found in
    record {
      row = row';
      found = e;
      named = v.alias ∙ j.named;
      secret = v.secret ∙ j.secret;
      waits = λ p. v.waits u (j.waits p);
    }

module _ {ℓ} {V : Type ℓ} where
  -- what a looked up entry is after an insertion, and after a removal
  pub inserted :
      (key asked : String) (new v : V) (m : Dict V)
      → lookup asked (insert key new m) ≡ some v
      → ((key ≡ asked) × (new ≡ v)) ⊎ ((key == asked ≡ false) × (lookup asked m ≡ some v))
  inserted key asked new v m e = elim (Bool-cases (key == asked)) [
    | inl b ↦ inl ((eq_iff key asked).0 b, cc (rw (lookup-insert key asked new m, b) at e))
    | inr b ↦ inr (b, rw (lookup-insert key asked new m, b) at e)
  ]

  pub remains :
      (key asked : String) (v : V) (m : Dict V)
      → lookup asked (remove key m) ≡ some v
      → (key == asked ≡ false) × (lookup asked m ≡ some v)
  remains key asked v m e = elim (Bool-cases (key == asked)) [
    | inl b ↦ absurd (cc (rw (lookup-remove key asked m, b) at e))
    | inr b ↦ (b, rw (lookup-remove key asked m, b) at e)
  ]

  pub has-insert :
      (key asked : String) (new : V) (m : Dict V)
      → has asked m ≡ true
      → has asked (insert key new m) ≡ true
  has-insert key asked new m h = ground (arith, h, lookup-insert key asked new m)

  pub has_inserted : (key : String) (new : V) (m : Dict V) → has key (insert key new m) ≡ true
  has_inserted key new m = ground (arith, lookup-insert key key new m, eq_iff key key)

  pub has-remove :
      (key asked : String) (m : Dict V)
      → has asked m ≡ true
      → key == asked ≡ false
      → has asked (remove key m) ≡ true
  has-remove key asked m h b = ground (arith, h, b, lookup-remove key asked m)
