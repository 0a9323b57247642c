-- ===== src/Daemon/ProviderOps/ProviderSteps.antt =====
-- The changes of provider rows keep the invariant of Safety.
use ratchet_cli.Base.{
  ℕ, ◌≡◌, refl, sym, ap, ◌∙◌, inl, inr, String, Bool, true, false, not, ◌&&◌, ◌||◌, some,
  Bool-cases, Option-cases,
}
use ratchet_cli.Base.Dict.{Dict, lookup, remove, map_entries, lookup-map_entries}
use ratchet_cli.Daemon.ProviderOps.Tables.{
  ProviderRow, Database, has, secret_of, queue_provider_secret_cleanup,
}
use ratchet_cli.Daemon.ProviderOps.Journal.{Manager}
use ratchet_cli.Daemon.ProviderOps.Cleanup.{
  remove_provider, default_row, update_provider, set_default_provider, model_row,
  update_provider_model,
}
use ratchet_cli.Daemon.ProviderOps.Rows.{Changes, same-Changes, queued_tables, RowMoves-refl}
use ratchet_cli.Daemon.ProviderOps.Safety.{IsSafe, inserted, remains}
use ratchet_cli.Daemon.ProviderOps.Keeping.{untouched-Safe}

-- a change of the provider rows that adds no secret
rows-Changes :
    (db : Database) (rows : Dict ProviderRow)
    → ((alias : String) (row' : ProviderRow)
        → lookup alias rows ≡ some row'
        → (row : ProviderRow) × (lookup alias db.providers ≡ some row)
          × (row'.secret_name ≡ row.secret_name))
    → Changes (λ k. false) db (record db { providers = rows })
rows-Changes db rows h = record {
  providers = h;
  operations = λ id. RowMoves-refl false (lookup id db.operations);
}

pub remove_provider-Safe :
    (ok : Bool) (now : ℕ) (alias : String) (m : Manager)
    → IsSafe m
    → IsSafe (remove_provider ok now alias m)
unfolding remove_provider
remove_provider-Safe ok now alias m s =
    let rows = remove alias m.db.providers in
    let name = secret_of (lookup alias m.db.providers) in
    let c =
      rows-Changes m.db rows (λ k row e. (row, (remains alias k row m.db.providers e).1, refl)) in
    let (p, o) = queued_tables now name (record m.db { providers = rows }) in
    let queued = same-Changes (λ k. false) (record m.db { providers = rows }) _ p o in
    elim (Bool-cases (has alias m.flights || not ok)) [
      | inl b ↦ rw (b, remove_provider) s
      | inr b ↦
          rw (b, remove_provider)
            (untouched-Safe
              (queue_provider_secret_cleanup now name (record m.db { providers = rows })) queued
              (untouched-Safe (record m.db { providers = rows }) c s))
    ]

updated_row :
    (alias : String) (f : ProviderRow → ProviderRow) (rows : Dict ProviderRow)
    → ((row : ProviderRow) → (f row).secret_name ≡ row.secret_name)
    → (k : String) (row' : ProviderRow) → lookup k (update_provider alias f rows) ≡ some row'
    → (row : ProviderRow) × (lookup k rows ≡ some row) × (row'.secret_name ≡ row.secret_name)
updated_row alias f rows h k row' e = elim (Option-cases (lookup alias rows)) [
  | inl p ↦ (row', rw (p, update_provider) at e, refl)
  | inr (old, p) ↦ elim (inserted alias k (f old) row' rows (rw (p, update_provider) at e)) [
    | inr (n, q) ↦ (row', q, refl)
    | inl (q, r) ↦ (
      old,
      ap (λ x. lookup x rows) (sym q) ∙ p,
      ap (λ (x : ProviderRow). x.secret_name) (sym r) ∙ h old,
    )
  ]
]

undefaulted_row :
    (rows : Dict ProviderRow) (k : String) (row' : ProviderRow)
    → lookup k (map_entries (λ a row. default_row false row) rows) ≡ some row'
    → (row : ProviderRow) × (lookup k rows ≡ some row) × (row'.secret_name ≡ row.secret_name)
undefaulted_row rows k row' e = elim (Option-cases (lookup k rows)) [
  | inl p ↦ absurd (cc (rw (lookup-map_entries (λ a row. default_row false row) k rows, p) at e))
  | inr (row, p) ↦
      let q : default_row false row ≡ row' =
        cc (rw (lookup-map_entries (λ a row. default_row false row) k rows, p) at e) in
      (row, p, ap (λ (r : ProviderRow). r.secret_name) (sym q))
]

pub set_default_provider-Safe :
    (ok : Bool) (alias : String) (m : Manager) → IsSafe m → IsSafe (set_default_provider ok alias m)
unfolding set_default_provider
set_default_provider-Safe false alias m s = s
set_default_provider-Safe true alias m s =
    untouched-Safe _
      (rows-Changes m.db _ (λ k row' e.
        let (row, p, q) = updated_row alias (default_row true) _ (λ r. refl) k row' e in
        let (row0, u, v) = undefaulted_row m.db.providers k row p in (row0, u, q ∙ v)))
      s

pub update_provider_model-Safe :
    (ok : Bool) (alias model : String) (m : Manager)
    → IsSafe m
    → IsSafe (update_provider_model ok alias model m).0
unfolding update_provider_model
update_provider_model-Safe ok alias model m s = elim (Bool-cases (ok && has alias m.db.providers)) [
  | inl b ↦
      rw (b, update_provider_model)
        (untouched-Safe
          (record m.db { providers = update_provider alias (model_row model) m.db.providers })
          (rows-Changes m.db _ (updated_row alias (model_row model) m.db.providers (λ r. refl))) s)
  | inr b ↦ rw (b, update_provider_model) s
]
