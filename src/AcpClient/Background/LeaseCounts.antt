-- ===== src/AcpClient/Background/LeaseCounts.antt =====
-- Who holds the lease of a session and who owns its transition, counted over one manager of
-- internal/acpclient/background.go.
use mathlib.Core.Path.{subst}
use ratchet_cli.Base.{
  ℕ, zero, suc, ◌+◌, ◌≤◌, ◌≡◌, refl, sym, ap, Bool, true, false, not, ◌&&◌, Option, none, some,
  List, [], ◌∷◌, ◌++◌, get_elem?, count_if, arith, if◌then◌else◌,
}
use ratchet_cli.AcpClient.Background.Leases.{
  watching, awaiting, persisting, releasing, closing, returning, finished, BackgroundWorker,
  Entries, View, set_index,
}

abbrev pub one : Bool → ℕ
one b = if b then 1 else 0

abbrev pub is_set {ℓ} : {A : Type ℓ} → Option A → Bool
is_set none = false
is_set (some x) = true

-- The watcher runs, or what it left is not recorded yet.
abbrev pub is_live : BackgroundWorker → Bool
is_live w = elim w.phase [
  | watching ↦ true
  | awaiting o ↦ true
  | persisting b ↦ true
  | returning ↦ true
  | releasing b ↦ false
  | closing b ↦ false
  | finished ↦ false
]

abbrev pub owns : BackgroundWorker → Bool
owns w = elim w.phase [
  | persisting b ↦ b
  | releasing b ↦ b
  | closing b ↦ b
  | watching ↦ false
  | awaiting o ↦ false
  | returning ↦ false
  | finished ↦ false
]

abbrev pub has_lease : BackgroundWorker → Bool
has_lease w = w.lease

abbrev pub unleased : BackgroundWorker → Bool
unleased w = is_live w && not (w.lease)

-- The places of one manager that hold the lease.
abbrev pub hands : Entries → ℕ
hands m = one m.transition_lease + count_if has_lease m.workers

pub record IsOrdered (m : Entries) : Type 0 where
  pub owners : m.holders + one (is_set m.stopping) + count_if owns m.workers ≡ one m.reserved
  pub held : m.holders ≤ one m.transition_lease
  pub live : count_if unleased m.workers ≡ 0

-- What a step keeps: the order, and that the lock goes with the places that hold the lease.
pub record Keeps (v v' : View) : Type 0 where
  pub ordered : IsOrdered v'.entries
  pub balance : hands v'.entries + one v.locked ≡ hands v.entries + one v'.locked

pub count_if-append :
    (p : BackgroundWorker → Bool) (w : BackgroundWorker) (ws : List BackgroundWorker)
    → count_if p (ws ++ w ∷ []) ≡ count_if p ws + one (p w)
count_if-append p w [] = ground arith
count_if-append p w (x ∷ ws) = omega (arith, count_if-append p w ws)

pub count_if-set_index :
    (p : BackgroundWorker → Bool) (i : ℕ) (w new : BackgroundWorker) (ws : List BackgroundWorker)
    → get_elem? ws i ≡ some w
    → count_if p (set_index i new ws) + one (p w) ≡ count_if p ws + one (p new)
unfolding set_index
count_if-set_index p i w new [] h = absurd (cc h)
count_if-set_index p zero w new (x ∷ ws) h =
    let same : x ≡ w = ground (arith, h) in
    omega (arith, ap (λ (y : BackgroundWorker). one (p y)) same)
count_if-set_index p (suc i) w new (x ∷ ws) h = omega (arith, count_if-set_index p i w new ws h)

pub same-Keeps : (v : View) → IsOrdered v.entries → Keeps v v
same-Keeps v h = record { ordered = h; balance = refl }

-- Keeps of what a term computes to.
pub by : {v v' v'' : View} → v'' ≡ v' → Keeps v v' → Keeps v v''
by {v = v} e k = subst (Keeps v) (sym e) k
