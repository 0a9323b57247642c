-- ===== src/AcpClient/Background/Exclusive.antt =====
-- All managers of internal/acpclient/background.go on one store, for one session: in every run, with
-- crashes of their processes, one worker at most is live.
use mathlib.Core.Path.{subst}
use ratchet_cli.Base.{
  ℕ, zero, suc, ◌+◌, ◌≤◌, ◌≡◌, refl, ap, Bool, true, false, some, List, [], ◌∷◌, eqb, eqb_iff,
  count_if, get_elem?, All, arith, inl, inr, if◌then◌else◌, Bool-cases,
}
use ratchet_cli.AcpClient.Background.Leases.{
  WorkerPhase, BackgroundWorker, Entries, new_entries, View, reserve_transition, release_transition,
  LaunchAdmission, launch_persisted_policy, reserve_stop_transition, release_stop_transition,
  send_handoff, shutdown, set_index, step_worker,
}
use ratchet_cli.AcpClient.Background.LeaseCounts.{
  one, is_set, is_live, owns, has_lease, unleased, hands, IsOrdered, Keeps, by,
}
use ratchet_cli.AcpClient.Background.LeaseSteps.{
  reserve_transition-Keeps, release_transition-Keeps, launch_persisted_policy-Keeps,
  reserve_stop_transition-Keeps, release_stop_transition-Keeps,
}
use ratchet_cli.AcpClient.Background.WorkerSteps.{step_worker-Keeps}

-- The process of the manager dies, and another one starts on the store: the system releases its lock.
unfoldable pub crash : View → View
crash v = record {
  locked = if eqb (hands v.entries) 0 then v.locked else false;
  entries = new_entries;
}

-- What a manager can do. A transition ends, or its worker starts, in the call that has reserved it.
pub data ViewStep : View → View → Type 0 where
  reserves : {v : View} (usable : Bool) → ViewStep v (reserve_transition usable v).0
  releases : {v : View} → 1 ≤ v.entries.holders → ViewStep v (release_transition v)
  launches :
      {v : View} (a : LaunchAdmission)
      → 1 ≤ v.entries.holders
      → ViewStep v (launch_persisted_policy a v).0
  stops : {v : View} (usable : Bool) → ViewStep v (reserve_stop_transition usable v).0
  ends_stop : {v : View} (owner : ℕ) → ViewStep v (release_stop_transition owner v)
  sends : {v : View} (owner : ℕ) (b : Bool) → ViewStep v (send_handoff owner b v)
  shuts : {v : View} → ViewStep v (shutdown v)
  works :
      {v : View} (i : ℕ) (l : Bool) (p : WorkerPhase)
      → get_elem? v.entries.workers i ≡ some (record { lease = l; phase = p })
      → ViewStep v (step_worker i (record { lease = l; phase = p }) p v)
  crashes : {v : View} → ViewStep v (crash v)

pub record System : Type 0 where
  pub locked : Bool
  pub managers : List Entries

abbrev pub view : System → Entries → View
view s m = record { locked = s.locked; entries = m }

abbrev pub put_view : ℕ → View → System → System
put_view i v s = record { locked = v.locked; managers = set_index i v.entries s.managers }

pub data Reachable : System → Type 0 where
  begin : Reachable (record { locked = false; managers = [] })
  join : {s : System} → Reachable s → Reachable (record s { managers = new_entries ∷ s.managers })
  move :
      {s : System} (i : ℕ) (m : Entries) (v : View)
      → Reachable s
      → get_elem? s.managers i ≡ some m
      → ViewStep (view s m) v
      → Reachable (put_view i v s)

send_handoff-Keeps :
    (owner : ℕ) (b : Bool) (v : View) → IsOrdered v.entries → Keeps v (send_handoff owner b v)
unfolding send_handoff
send_handoff-Keeps owner b v h = record {
  ordered = record { owners = h.owners; held = h.held; live = h.live };
  balance = refl;
}

shutdown-Keeps : (v : View) → IsOrdered v.entries → Keeps v (shutdown v)
unfolding shutdown
shutdown-Keeps v h = record {
  ordered = record { owners = h.owners; held = h.held; live = h.live };
  balance = refl;
}

new_IsOrdered : IsOrdered new_entries
new_IsOrdered = record { owners = omega arith; held = omega arith; live = refl }

crash-Keeps : (v : View) → hands v.entries ≤ one v.locked → Keeps v (crash v)
unfolding crash
crash-Keeps v le = elim (Bool-cases (eqb (hands v.entries) 0)) [
  | inl q ↦
      by {v' = record { locked = v.locked; entries = new_entries }} (simp (q, crash) refl) (record {
        ordered = new_IsOrdered;
        balance = omega (arith, (eqb_iff (hands v.entries) 0).0 q);
      })
  | inr q ↦
      let held : 1 ≤ hands v.entries = ground (arith, q) in
      let k : v.locked ≡ true = ground (arith, held, le) in
      by {v' = record { locked = false; entries = new_entries }} (simp (q, crash) refl)
        (record { ordered = new_IsOrdered; balance = omega (arith, held, le, ap one k) })
]

step-Keeps :
    (v v' : View)
    → IsOrdered v.entries
    → hands v.entries ≤ one v.locked
    → ViewStep v v'
    → Keeps v v'
step-Keeps v _ h le (reserves usable) = reserve_transition-Keeps usable v h le
step-Keeps v _ h le (releases n) = release_transition-Keeps v h le n
step-Keeps v _ h le (launches a n) = launch_persisted_policy-Keeps a v h n
step-Keeps v _ h le (stops usable) = reserve_stop_transition-Keeps usable v h le
step-Keeps v _ h le (ends_stop owner) = release_stop_transition-Keeps owner v h le
step-Keeps v _ h le (sends owner b) = send_handoff-Keeps owner b v h
step-Keeps v _ h le shuts = shutdown-Keeps v h
step-Keeps v _ h le (works i l p at) = step_worker-Keeps i l p v h le at
step-Keeps v _ h le crashes = crash-Keeps v le

abbrev pub total : (Entries → ℕ) → List Entries → ℕ
total f [] = 0
total f (m ∷ ms) = f m + total f ms

total-set_index :
    (f : Entries → ℕ) (i : ℕ) (m new : Entries) (ms : List Entries)
    → get_elem? ms i ≡ some m
    → total f (set_index i new ms) + f m ≡ total f ms + f new
unfolding set_index
total-set_index f i m new [] h = absurd (cc h)
total-set_index f zero m new (x ∷ ms) h =
    let same : x ≡ m = ground (arith, h) in omega (arith, ap f same)
total-set_index f (suc i) m new (x ∷ ms) h = omega (arith, total-set_index f i m new ms h)

part_of_total :
    (f : Entries → ℕ) (i : ℕ) (m : Entries) (ms : List Entries)
    → get_elem? ms i ≡ some m
    → f m ≤ total f ms
part_of_total f i m [] h = absurd (cc h)
part_of_total f zero m (x ∷ ms) h = let same : x ≡ m = ground (arith, h) in omega (arith, ap f same)
part_of_total f (suc i) m (x ∷ ms) h = omega (arith, part_of_total f i m ms h)

All-set_index :
    (P : Entries → Type 0) (i : ℕ) (new : Entries) (ms : List Entries)
    → All P ms
    → P new
    → All P (set_index i new ms)
unfolding set_index
All-set_index P i new [] h n = h
All-set_index P zero new (x ∷ ms) (hx, hs) n = (n, hs)
All-set_index P (suc i) new (x ∷ ms) (hx, hs) n = (hx, All-set_index P i new ms hs n)

All-get_elem? :
    (P : Entries → Type 0) (i : ℕ) (m : Entries) (ms : List Entries)
    → All P ms
    → get_elem? ms i ≡ some m
    → P m
All-get_elem? P i m [] h e = absurd (cc e)
All-get_elem? P zero m (x ∷ ms) (hx, hs) e = let same : x ≡ m = ground (arith, e) in subst P same hx
All-get_elem? P (suc i) m (x ∷ ms) (hx, hs) e = All-get_elem? P i m ms hs e

pub record IsExclusive (s : System) : Type 0 where
  pub ordered : All IsOrdered s.managers
  pub lease : total hands s.managers ≡ one s.locked

pub Reachable-IsExclusive : (s : System) → Reachable s → IsExclusive s
Reachable-IsExclusive _ begin = record { ordered = tt; lease = refl }
Reachable-IsExclusive _ (join {s = s} r) =
    let h = Reachable-IsExclusive s r in
    record { ordered = (new_IsOrdered, h.ordered); lease = omega (arith, h.lease) }
Reachable-IsExclusive _ (move {s = s} i m v r at step) =
    let h = Reachable-IsExclusive s r in
    let set = total-set_index hands i m v.entries s.managers at in
    let le : hands m ≤ one s.locked =
      omega (arith, h.lease, part_of_total hands i m s.managers at) in
    let k = step-Keeps (view s m) v (All-get_elem? IsOrdered i m s.managers h.ordered at) le step in
    record {
      ordered = All-set_index IsOrdered i v.entries s.managers h.ordered k.ordered;
      lease = omega (arith, set, h.lease, k.balance);
    }

live_leased :
    (ws : List BackgroundWorker)
    → count_if is_live ws ≤ count_if has_lease ws + count_if unleased ws
live_leased [] = omega arith
live_leased (w ∷ ws) = ground (arith, live_leased ws)

abbrev pub live_workers : Entries → ℕ
live_workers m = count_if is_live m.workers

-- the calls, the stop owner and the ending workers that own the transition of the session
abbrev pub owners : Entries → ℕ
owners m = m.holders + one (is_set m.stopping) + count_if owns m.workers

live_total : (ms : List Entries) → All IsOrdered ms → total live_workers ms ≤ total hands ms
live_total [] h = omega arith
live_total (m ∷ ms) (hm, hs) = omega (arith, live_total ms hs, live_leased m.workers, hm.live)

one-bound : (b : Bool) → one b ≤ 1
one-bound true = omega arith
one-bound false = omega arith

one_owner : (ms : List Entries) → All IsOrdered ms → All (λ (m : Entries). owners m ≤ 1) ms
one_owner [] h = tt
one_owner (m ∷ ms) (hm, hs) = (omega (arith, hm.owners, one-bound m.reserved), one_owner ms hs)

-- In every run of any number of managers on one store, with crashes: one worker of the session at most
-- is live in all of them, and in each manager one call, stop or ending worker at most owns the
-- transition of the session.
pub one_live_worker :
    (s : System)
    → Reachable s
    → (total live_workers s.managers ≤ 1) × All (λ (m : Entries). owners m ≤ 1) s.managers
one_live_worker s r =
    let h = Reachable-IsExclusive s r in
    (
      omega (arith, live_total s.managers h.ordered, h.lease, one-bound s.locked),
      one_owner s.managers h.ordered,
    )
