-- ===== src/AcpClient/Background/LeaseSteps.antt =====
-- A call on the lease of a session in internal/acpclient/background.go keeps the counts of who holds
-- the lease and who owns the transition.
use ratchet_cli.Base.{
  ℕ, ◌+◌, ◌-◌, ◌≤◌, ◌≡◌, refl, ap, Bool, true, false, Option, none, some, [], ◌∷◌, ◌++◌, length,
  arith, inl, inr, Bool-cases, Option-cases,
}
use ratchet_cli.AcpClient.Background.Leases.{
  watching, BackgroundWorker, View, try_lease, reserve_transition, release_transition,
  launch_locked, LaunchAdmission, not_admitted, canceled_session, admitted, launch_persisted_policy,
  reserve_stop, reserve_stop_transition, is_number, release_stop_transition,
}
use ratchet_cli.AcpClient.Background.LeaseCounts.{
  by, one, is_set, owns, has_lease, unleased, hands, IsOrdered, Keeps, count_if-append, same-Keeps,
}

free_lease : (usable locked : Bool) → try_lease usable locked ≡ none → locked ≡ false
unfolding try_lease
free_lease true true h = absurd (cc h)
free_lease true false h = refl
free_lease false locked h = absurd (cc h)

pub reserve_transition-Keeps :
    (usable : Bool) (v : View)
    → IsOrdered v.entries
    → hands v.entries ≤ one v.locked
    → Keeps v (reserve_transition usable v).0
unfolding reserve_transition
reserve_transition-Keeps usable v h le =
    let m = v.entries in
    let same = same-Keeps v h in
    elim (Bool-cases m.closed) [
      | inl a ↦ by {v' = v} (rw (a, reserve_transition) refl) same
      | inr a ↦ elim (Bool-cases m.reserved) [
        | inl b ↦ by {v' = v} (rw (a, b, reserve_transition) refl) same
        | inr b ↦ elim (Option-cases (try_lease usable v.locked)) [
          | inr (e, c) ↦ by {v' = v} (simp (a, b, c, reserve_transition) refl) same
          | inl c ↦
              let free = free_lease usable v.locked c in
              let none_owns = rw b at h.owners in
              let unheld = rw free at le in
              let next : View = record {
                locked = true;
                entries = record m {
                  reserved = true;
                  transition_lease = true;
                  holders = m.holders + 1;
                };
              } in
              by {v' = next} (simp (a, b, c, reserve_transition) refl) (record {
                ordered = record {
                  owners = omega (arith, none_owns);
                  held = omega (arith, none_owns);
                  live = h.live;
                };
                balance = omega (arith, unheld, ap one free);
              })
        ]
      ]
    ]

pub release_transition-Keeps :
    (v : View)
    → IsOrdered v.entries
    → hands v.entries ≤ one v.locked
    → 1 ≤ v.entries.holders
    → Keeps v (release_transition v)
unfolding release_transition
release_transition-Keeps v h le n =
    let m = v.entries in
    let q : m.transition_lease ≡ true = ground (arith, h.held, n) in
    let p : m.reserved ≡ true = ground (arith, h.owners, n) in
    let k : v.locked ≡ true = ground (arith, le, q) in
    let next : View = record {
      locked = false;
      entries = record m { reserved = false; transition_lease = false; holders = m.holders - 1 };
    } in
    by {v' = next} (rw (q, release_transition) refl) (record {
      ordered = record {
        owners = omega (arith, h.owners, ap one p, n);
        held = omega (arith, h.owners, ap one p, n);
        live = h.live;
      };
      balance = omega (arith, ap one q, ap one k);
    })

launch_locked-Keeps :
    (v : View) → IsOrdered v.entries → 1 ≤ v.entries.holders → Keeps v (launch_locked v)
unfolding launch_locked
launch_locked-Keeps v h n =
    let m = v.entries in
    let q : m.transition_lease ≡ true = ground (arith, h.held, n) in
    let p : m.reserved ≡ true = ground (arith, h.owners, n) in
    let w : BackgroundWorker = record { lease = true; phase = watching } in
    let next : View = record v {
      entries = record m {
        active = some (length m.workers);
        reserved = false;
        transition_lease = false;
        workers = m.workers ++ w ∷ [];
        holders = m.holders - 1;
      };
    } in
    by {v' = next} (rw (q, launch_locked) refl) (record {
      ordered = record {
        owners = omega (arith, h.owners, ap one p, n, count_if-append owns w m.workers);
        held = omega (arith, h.owners, ap one p, n);
        live = omega (arith, h.live, count_if-append unleased w m.workers);
      };
      balance = omega (arith, ap one q, count_if-append has_lease w m.workers);
    })

pub launch_persisted_policy-Keeps :
    (a : LaunchAdmission) (v : View)
    → IsOrdered v.entries
    → 1 ≤ v.entries.holders
    → Keeps v (launch_persisted_policy a v).0
unfolding launch_persisted_policy
launch_persisted_policy-Keeps not_admitted v h n = same-Keeps v h
launch_persisted_policy-Keeps canceled_session v h n = same-Keeps v h
launch_persisted_policy-Keeps admitted v h n = elim (Bool-cases v.entries.closed) [
  | inl a ↦ by {v' = v} (simp (a, launch_persisted_policy) refl) (same-Keeps v h)
  | inr a ↦
      by {v' = launch_locked v} (simp (a, launch_persisted_policy) refl) (launch_locked-Keeps v h n)
]

reserve_stop-Keeps :
    (v : View) → IsOrdered v.entries → v.entries.reserved ≡ false → Keeps v (reserve_stop v)
unfolding reserve_stop
reserve_stop-Keeps v h b =
    let none_owns = rw b at h.owners in
    record {
      ordered = record { owners = omega (arith, none_owns); held = h.held; live = h.live };
      balance = refl;
    }

pub reserve_stop_transition-Keeps :
    (usable : Bool) (v : View)
    → IsOrdered v.entries
    → hands v.entries ≤ one v.locked
    → Keeps v (reserve_stop_transition usable v).0
unfolding reserve_stop_transition reserve_stop
reserve_stop_transition-Keeps usable v h le =
    let m = v.entries in
    let same = same-Keeps v h in
    elim (Bool-cases m.closed) [
      | inl a ↦ by {v' = v} (rw (a, reserve_stop_transition) refl) same
      | inr a ↦ elim (Bool-cases m.reserved) [
        | inl b ↦ by {v' = v} (rw (a, b, reserve_stop_transition) refl) same
        | inr b ↦ elim (Option-cases m.active) [
          | inr (w, d) ↦
              by {v' = reserve_stop v} (simp (a, b, d, reserve_stop_transition) refl)
                (reserve_stop-Keeps v h b)
          | inl d ↦ elim (Option-cases (try_lease usable v.locked)) [
            | inr (e, c) ↦ by {v' = v} (simp (a, b, d, c, reserve_stop_transition) refl) same
            | inl c ↦
                let free = free_lease usable v.locked c in
                let none_owns = rw b at h.owners in
                let unheld = rw free at le in
                let taken : View = record {
                  locked = true;
                  entries = record m { transition_lease = true };
                } in
                by {v' = reserve_stop taken} (simp (a, b, d, c, reserve_stop_transition) refl)
                  (record {
                    ordered = record {
                      owners = omega (arith, none_owns);
                      held = omega (arith, none_owns);
                      live = h.live;
                    };
                    balance = omega (arith, unheld, ap one free);
                  })
          ]
        ]
      ]
    ]

set_number : (owner : ℕ) (o : Option ℕ) → is_number owner o ≡ true → is_set o ≡ true
set_number owner none h = absurd (cc h)
set_number owner (some k) h = refl

pub release_stop_transition-Keeps :
    (owner : ℕ) (v : View)
    → IsOrdered v.entries
    → hands v.entries ≤ one v.locked
    → Keeps v (release_stop_transition owner v)
unfolding release_stop_transition
release_stop_transition-Keeps owner v h le =
    let m = v.entries in
    elim (Bool-cases (is_number owner m.stopping)) [
      | inr a ↦ by {v' = v} (rw (a, release_stop_transition) refl) (same-Keeps v h)
      | inl a ↦
          let stops = set_number owner m.stopping a in
          let owned = h.owners in
          let p : m.reserved ≡ true = ground (arith, owned, stops) in
          let ordered : IsOrdered
              (record m { reserved = false; transition_lease = false; stopping = none }) =
            record {
              owners = omega (arith, owned, ap one stops, ap one p);
              held = omega (arith, owned, ap one stops, ap one p);
              live = h.live;
            } in
          elim (Bool-cases m.transition_lease) [
            | inl q ↦
                let k : v.locked ≡ true = ground (arith, le, q) in
                let next : View = record {
                  locked = false;
                  entries = record m {
                    reserved = false;
                    transition_lease = false;
                    stopping = none;
                  };
                } in
                by {v' = next} (rw (a, q, release_stop_transition) refl)
                  (record { ordered = ordered; balance = omega (arith, ap one q, ap one k) })
            | inr q ↦
                let next : View = record v {
                  entries = record m {
                    reserved = false;
                    transition_lease = false;
                    stopping = none;
                  };
                } in
                by {v' = next} (rw (a, q, release_stop_transition) refl)
                  (record { ordered = ordered; balance = omega (arith, ap one q) })
          ]
    ]
