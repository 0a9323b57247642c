-- ===== src/AcpClient/Background/WorkerSteps.antt =====
-- A step of a worker of internal/acpclient/background.go keeps the counts of the lease and of the
-- transition.
use ratchet_cli.Base.{
  ℕ, zero, suc, ◌+◌, ◌≤◌, ◌≡◌, refl, ap, sym, ◌∙◌, [], ◌∷◌, Bool, true, false, not, some, List,
  count_if, get_elem?, arith, inl, inr, Bool-cases, Option-cases,
}
use ratchet_cli.AcpClient.Background.Leases.{
  WorkerPhase, watching, awaiting, persisting, releasing, closing, returning, finished,
  BackgroundWorker, Entries, View, set_index, with_worker, received, step_worker,
}
use ratchet_cli.AcpClient.Background.LeaseCounts.{
  one, owns, has_lease, unleased, hands, IsOrdered, Keeps, same-Keeps, by, count_if-set_index,
}

-- How the three counts change where a worker is replaced.
record Changed (m : Entries) (w new : BackgroundWorker) (ws : List BackgroundWorker) : Type 0 where
  owned : count_if owns ws + one (owns w) ≡ count_if owns m.workers + one (owns new)
  leases : count_if has_lease ws + one w.lease ≡ count_if has_lease m.workers + one new.lease
  lost : count_if unleased ws + one (unleased w) ≡ count_if unleased m.workers + one (unleased new)

changed :
    (i : ℕ) (w new : BackgroundWorker) (m : Entries)
    → get_elem? m.workers i ≡ some w
    → Changed m w new (set_index i new m.workers)
changed i w new m h = record {
  owned = count_if-set_index owns i w new m.workers h;
  leases = count_if-set_index has_lease i w new m.workers h;
  lost = count_if-set_index unleased i w new m.workers h;
}

none_of :
    (p : BackgroundWorker → Bool) (i : ℕ) (w : BackgroundWorker) (ws : List BackgroundWorker)
    → count_if p ws ≡ 0
    → get_elem? ws i ≡ some w
    → p w ≡ false
none_of p i w [] c h = absurd (cc h)
none_of p zero w (x ∷ ws) c h =
    let same : x ≡ w = ground (arith, h) in
    let none_here : p x ≡ false = ground (arith, c) in sym (ap p same) ∙ none_here
none_of p (suc i) w (x ∷ ws) c h =
    let rest : count_if p ws ≡ 0 = omega (arith, c) in none_of p i w ws rest h

-- A worker that only moves on, with its lease and what it owns.
moved-Keeps :
    (i : ℕ) (l : Bool) (p q : WorkerPhase) (v : View)
    → IsOrdered v.entries
    → get_elem? v.entries.workers i ≡ some (record { lease = l; phase = p })
    → owns (record { lease = l; phase = q }) ≡ owns (record { lease = l; phase = p })
    → (unleased (record { lease = l; phase = p }) ≡ false
        → unleased (record { lease = l; phase = q }) ≡ false)
    → Keeps v (record v { entries = with_worker i (record { lease = l; phase = q }) v.entries })
moved-Keeps i l p q v h at same_owns stays =
    let c = changed i _ (record { lease = l; phase = q }) v.entries at in
    let gone : unleased (record { lease = l; phase = p }) ≡ false =
      none_of unleased i _ v.entries.workers h.live at in
    record {
      ordered = record {
        owners = omega (arith, h.owners, c.owned, ap one same_owns);
        held = h.held;
        live = omega (arith, h.live, c.lost, ap one (stays gone), ap one gone);
      };
      balance = omega (arith, c.leases);
    }

pub step_worker-Keeps :
    (i : ℕ) (l : Bool) (p : WorkerPhase) (v : View)
    → IsOrdered v.entries
    → hands v.entries ≤ one v.locked
    → get_elem? v.entries.workers i ≡ some (record { lease = l; phase = p })
    → Keeps v (step_worker i (record { lease = l; phase = p }) p v)
unfolding step_worker
step_worker-Keeps i l watching v h le at =
    let m = v.entries in
    elim (Option-cases m.stopping) [
      | inr (owner, q) ↦
          by
            {v' = record v {
              entries = with_worker i (record { lease = l; phase = awaiting owner }) m;
            }}
            (simp (q, step_worker) refl)
            (moved-Keeps i l watching (awaiting owner) v h at refl (λ e. e))
      | inl q ↦
          let new : BackgroundWorker = record {
            lease = l;
            phase = persisting (not (m.reserved));
          } in
          let c = changed i _ new m at in
          let gone = none_of unleased i _ m.workers h.live at in
          by {v' = record v { entries = record (with_worker i new m) { reserved = true } }}
            (simp (q, step_worker) refl)
            (record {
              ordered = record {
                owners = elim (Bool-cases m.reserved) [
                  | inl b ↦
                      omega (arith, h.owners, c.owned, ap one b, ap (λ (x : Bool). one (not x)) b)
                  | inr b ↦
                      omega (arith, h.owners, c.owned, ap one b, ap (λ (x : Bool). one (not x)) b)
                ];
                held = h.held;
                live = omega (arith, h.live, c.lost, ap one gone);
              };
              balance = omega (arith, c.leases);
            })
    ]
step_worker-Keeps i l (awaiting owner) v h le at =
    elim (Option-cases (received owner v.entries.sent)) [
      | inl q ↦ by {v' = v} (simp (q, step_worker) refl) (same-Keeps v h)
      | inr (true, q) ↦
          by
            {v' = record v {
              entries = with_worker i (record { lease = l; phase = persisting false }) v.entries;
            }}
            (simp (q, step_worker) refl)
            (moved-Keeps i l (awaiting owner) (persisting false) v h at refl (λ e. e))
      | inr (false, q) ↦
          by
            {v' = record v {
              entries = with_worker i (record { lease = l; phase = returning }) v.entries;
            }}
            (simp (q, step_worker) refl)
            (moved-Keeps i l (awaiting owner) returning v h at refl (λ e. e))
    ]
step_worker-Keeps i l (persisting o) v h le at =
    moved-Keeps i l (persisting o) (releasing o) v h at refl (λ e. refl)
step_worker-Keeps i l returning v h le at =
    let m = v.entries in
    let new : BackgroundWorker = record { lease = false; phase = closing false } in
    let c = changed i _ new m at in
    let gone = none_of unleased i _ m.workers h.live at in
    let p : l ≡ true = ground (arith, gone) in
    let free : m.transition_lease ≡ false = ground (arith, le, c.leases, p) in
    by {v' = record v { entries = record (with_worker i new m) { transition_lease = true } }}
      (simp (p, step_worker) refl)
      (record {
        ordered = record {
          owners = omega (arith, h.owners, c.owned);
          held = omega (arith, h.held, ap one free);
          live = omega (arith, h.live, c.lost, ap one gone);
        };
        balance = omega (arith, c.leases, ap one p, ap one free);
      })
step_worker-Keeps i false (releasing o) v h le at =
    let new : BackgroundWorker = record { lease = false; phase = closing o } in
    let c = changed i _ new v.entries at in
    record {
      ordered = record {
        owners = omega (arith, h.owners, c.owned);
        held = h.held;
        live = omega (arith, h.live, c.lost);
      };
      balance = omega (arith, c.leases);
    }
step_worker-Keeps i true (releasing o) v h le at =
    let new : BackgroundWorker = record { lease = false; phase = closing o } in
    let c = changed i _ new v.entries at in
    let k : v.locked ≡ true = ground (arith, le, c.leases) in
    record {
      ordered = record {
        owners = omega (arith, h.owners, c.owned);
        held = h.held;
        live = omega (arith, h.live, c.lost);
      };
      balance = omega (arith, c.leases, ap one k);
    }
step_worker-Keeps i l (closing false) v h le at =
    let c = changed i _ (record { lease = l; phase = finished }) v.entries at in
    record {
      ordered = record {
        owners = omega (arith, h.owners, c.owned);
        held = h.held;
        live = omega (arith, h.live, c.lost);
      };
      balance = omega (arith, c.leases);
    }
step_worker-Keeps i l (closing true) v h le at =
    let c = changed i _ (record { lease = l; phase = finished }) v.entries at in
    let k : v.entries.reserved ≡ true = ground (arith, h.owners, c.owned) in
    record {
      ordered = record {
        owners = omega (arith, h.owners, c.owned, ap one k);
        held = h.held;
        live = omega (arith, h.live, c.lost);
      };
      balance = omega (arith, c.leases);
    }
step_worker-Keeps i l finished v h le at = same-Keeps v h
