-- ===== src/Daemon/ProviderOps/FlightRuns.antt =====
-- A whole flight keeps the invariant of Safety, and so does its recovery from a panic.
use mathlib.Core.Path.{subst}
use ratchet_cli.Base.{
  ◌≡◌, refl, ap, ◌∙◌, ◌⊎◌, inl, inr, String, Bool, true, false, Option, none, some, arith,
  if◌then◌else◌, Option-cases,
}
use ratchet_cli.Base.Dict.{lookup}
use ratchet_cli.Daemon.ProviderOps.Tables.{pending, OperationRow}
use ratchet_cli.Daemon.ProviderOps.Journal.{
  Phase, journaled, stored, saved, landing, Flight, Manager, finalize_operation_locked,
}
use ratchet_cli.Daemon.ProviderOps.Flights.{
  FlightEnv, enter, step_flight, recover_row, recover_flight,
}
use ratchet_cli.Daemon.ProviderOps.Safety.{is_landing, IsSafe}
use ratchet_cli.Daemon.ProviderOps.Keeping.{flight-Safe, unflown-Safe}
use ratchet_cli.Daemon.ProviderOps.Finalizing.{Quiet-Safe, finalize_locked-Quiet, State-cases}
use ratchet_cli.Daemon.ProviderOps.FlightSteps.{failed_enter-Safe, landing-Flies, store_secret-Safe}
use ratchet_cli.Daemon.ProviderOps.Applying.{apply_flight-Safe}

pub Phase-cases : (x : Phase) → (x ≡ journaled) ⊎ (x ≡ stored) ⊎ (x ≡ saved) ⊎ (x ≡ landing)
Phase-cases journaled = inl refl
Phase-cases stored = inr (inl refl)
Phase-cases saved = inr (inr (inl refl))
Phase-cases landing = inr (inr (inr refl))

lands-Safe :
    (alias : String) (f : Flight) (m : Manager)
    → lookup alias m.flights ≡ some f
    → IsSafe m
    → IsSafe (enter alias f landing m)
lands-Safe alias f m e s = flight-Safe alias _ (landing-Flies alias f (s.flying alias f e)) s

pub step_flight-Safe :
    (env : FlightEnv) (alias : String) (m : Manager) → IsSafe m → IsSafe (step_flight env alias m)
unfolding step_flight
step_flight-Safe env alias m s = elim (Option-cases (lookup alias m.flights)) [
  | inl e ↦ rw (e, step_flight) s
  | inr (f, e) ↦ elim (Phase-cases f.phase) [
    | inl p ↦ rw (e, p, step_flight) (store_secret-Safe env alias f m e p s)
    | inr (inl p) ↦ rw (e, p, step_flight) (apply_flight-Safe env alias f m e p s)
    | inr (inr (inl p)) ↦
        let m' = (finalize_operation_locked env.finalizer f.operation_id f.request.api_key m).0 in
        let q = finalize_locked-Quiet env.finalizer f.operation_id f.request.api_key m in
        rw (e, p, step_flight)
          (lands-Safe alias f m' (ap (lookup alias) q.flights ∙ e) (Quiet-Safe m m' q s))
    | inr (inr (inr p)) ↦ rw (e, p, step_flight) (unflown-Safe alias s)
  ]
]

pub recovered_row :
    (b : Bool) (x : Option OperationRow)
    → ((if b then x else none) ≡ none)
      ⊎ ((row : OperationRow) × ((if b then x else none) ≡ some row) × (x ≡ some row))
recovered_row true x = elim (Option-cases x) [ inl e ↦ inl e | inr (row, e) ↦ inr (row, e, e) ]
recovered_row false x = inl refl

recover_row-Safe :
    (env : FlightEnv) (alias : String) (f : Flight) (m : Manager)
    → lookup alias m.flights ≡ some f
    → is_landing f.phase ≡ false
    → IsSafe m
    → IsSafe (recover_row env alias f m)
unfolding recover_row
recover_row-Safe env alias f m e early s =
    elim (recovered_row env.apply_ok (lookup f.operation_id m.db.operations)) [
      | inl q ↦ rw (q, recover_row) (lands-Safe alias f m e s)
      | inr (row, q, p) ↦ elim (State-cases row.state) [
        | inr (inl h) ↦
            rw (q, h, recover_row)
              (failed_enter-Safe env.fail_ok env.now _ alias f m e early
                (λ r u.
                  let same : row ≡ r = cc (p, u) in
                  subst (λ (x : OperationRow). x.state ≡ pending) same h)
                s)
        | inl h ↦ rw (q, h, recover_row) (lands-Safe alias f m e s)
        | inr (inr (inl h)) ↦ rw (q, h, recover_row) (lands-Safe alias f m e s)
        | inr (inr (inr h)) ↦ rw (q, h, recover_row) (lands-Safe alias f m e s)
      ]
    ]

pub recover_flight-Safe :
    (env : FlightEnv) (alias : String) (m : Manager)
    → IsSafe m
    → IsSafe (recover_flight env alias m)
unfolding recover_flight
recover_flight-Safe env alias m s = elim (Option-cases (lookup alias m.flights)) [
  | inl e ↦ rw (e, recover_flight) s
  | inr (f, e) ↦ elim (Phase-cases f.phase) [
    | inl p ↦ rw (e, p, recover_flight) (recover_row-Safe env alias f m e (ground (arith, p)) s)
    | inr (inl p) ↦
        rw (e, p, recover_flight) (recover_row-Safe env alias f m e (ground (arith, p)) s)
    | inr (inr (inl p)) ↦
        rw (e, p, recover_flight) (recover_row-Safe env alias f m e (ground (arith, p)) s)
    | inr (inr (inr p)) ↦ rw (e, p, recover_flight) s
  ]
]
