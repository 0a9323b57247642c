-- ===== src/AcpClient/LeaseTests.antt =====
-- Runs of two managers of internal/acpclient/background.go on one store.
use ratchet_cli.Base.{◌≤◌, ◌≡◌, refl, true, false, some, [], ◌∷◌, arith, All}
use ratchet_cli.AcpClient.Background.Leases.{
  Entries, new_entries, View, reserve_transition, admitted, launch_persisted_policy, set_index,
  watching, transition_busy,
}
use ratchet_cli.AcpClient.Background.Exclusive.{
  System, Reachable, begin, join, move, reserves, launches, live_workers, owners, total,
  one_live_worker,
}

-- Two managers; the second one has a worker.
abbrev two_managers : System
two_managers = record { locked = false; managers = new_entries ∷ new_entries ∷ [] }

abbrev reserved_entries : View
reserved_entries = record {
  locked = true;
  entries = record new_entries { reserved = true; transition_lease = true; holders = 1 };
}

abbrev launched_entries : View
launched_entries = record {
  locked = true;
  entries = record new_entries {
    active = some 0;
    workers = (record { lease = true; phase = watching }) ∷ [];
  };
}

abbrev launched_system : System
launched_system = record { locked = true; managers = new_entries ∷ launched_entries.entries ∷ [] }

launched_system-Reachable : Reachable launched_system
unfolding reserve_transition launch_persisted_policy set_index
launched_system-Reachable =
    move 1 reserved_entries.entries launched_entries
      (move 1 new_entries reserved_entries (join (join begin)) refl (reserves true)) refl
      (launches admitted (omega arith))

-- The other manager finds the lease taken.
reserve_busy_test :
    (reserve_transition true (record { locked = true; entries = new_entries })).1
    ≡ some transition_busy
unfolding reserve_transition
reserve_busy_test = refl

one_live_worker_example :
    (total live_workers launched_system.managers ≤ 1)
    × All (λ (m : Entries). owners m ≤ 1) launched_system.managers
one_live_worker_example = one_live_worker launched_system launched_system-Reachable
