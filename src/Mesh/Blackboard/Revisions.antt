-- ===== src/Mesh/Blackboard/Revisions.antt =====
-- Revisions grow with every write, until the counter is at the largest int64.
use ratchet_cli.Base.{ℕ, ◌+◌, ◌≤◌, ◌<◌, ◌≡◌, refl, String, some, arith}
use ratchet_cli.Mesh.Blackboard.{
  Blackboard, Entry, int64_max, int64_suc, remote_revision, read, store, write, write_from_remote,
  new_blackboard,
}
use ratchet_cli.Mesh.Blackboard.Reads.{read-store}

-- No entry has a revision beyond the counter, and the counter is an int64.
pub record IsBounded {ℓ} {V : Type ℓ} (b : Blackboard V) : Type ℓ where
  pub entries : (s k : String) (e : Entry V) → read b s k ≡ some e → e.revision ≤ b.revision
  pub int64 : b.revision ≤ int64_max

int64_suc-lt : (n : ℕ) → n < int64_max → int64_suc n ≡ n + 1
unfolding int64_suc
int64_suc-lt n h = omega arith

remote-lt :
    (own remote : ℕ)
    → own < int64_max
    → remote ≤ int64_max
    → (own < remote_revision own remote) × (remote_revision own remote ≤ int64_max)
remote-lt own remote room max = ground (arith, int64_suc-lt own room)

module _ {ℓ} {V : Type ℓ} where
  store-IsBounded :
      (b : Blackboard V) (section : String) (e : Entry V)
      → ((s k : String) (old : Entry V) → read b s k ≡ some old → old.revision ≤ e.revision)
      → b.revision ≡ e.revision
      → e.revision ≤ int64_max
      → IsBounded (store section e b)
  unfolding store
  store-IsBounded b section e older same max = record {
    entries = λ s k found h. ground (arith, read-store b section s k e, older s k found, h);
    int64 = omega arith;
  }

  pub new-IsBounded : IsBounded (new_blackboard {V = V})
  unfolding read
  new-IsBounded = record { entries = λ s k e h. ground arith; int64 = omega arith }

  -- the entry is newer than all that can be read
  abbrev pub IsNewest : Blackboard V → Entry V → Type ℓ
  IsNewest b e = (s k : String) (old : Entry V) → read b s k ≡ some old → old.revision < e.revision

  -- A write to a board whose entries have revisions up to its counter, where the counter is below the
  -- largest int64, leaves such a board, and its entry has a greater revision than every entry that
  -- could be read before.
  pub write-IsBounded :
      (b : Blackboard V) (section key : String) (value : V) (author : String) (now : ℕ)
      → IsBounded b
      → b.revision < int64_max
      → let (b', e, calls) = write b section key value author now in IsBounded b' × IsNewest b e
  unfolding write read
  write-IsBounded b section key value author now h room =
      let grown = int64_suc-lt b.revision room in
      (
        store-IsBounded (record b { revision = int64_suc b.revision }) section _
            (λ s k old found. omega (arith, grown, h.entries s k old found)) refl
            (omega (arith, grown)),
        λ s k old found. omega (arith, grown, h.entries s k old found),
      )

  -- The same holds of a write from a remote board, whatever int64 the remote revision is.
  pub write_from_remote-IsBounded :
      (b : Blackboard V) (section key : String) (value : V) (author : String) (revision now : ℕ)
      → IsBounded b
      → b.revision < int64_max
      → revision ≤ int64_max
      → let (b', e) = write_from_remote b section key value author revision now in
        IsBounded b' × IsNewest b e
  unfolding write_from_remote read
  write_from_remote-IsBounded b section key value author revision now h room max =
      let (grown, small) = remote-lt b.revision revision room max in
      (
        store-IsBounded (record b { revision = remote_revision b.revision revision }) section _
            (λ s k old found. omega (arith, grown, h.entries s k old found)) refl small,
        λ s k old found. omega (arith, grown, h.entries s k old found),
      )
