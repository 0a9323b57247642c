-- ===== src/Mesh/Blackboard/Reads.antt =====
-- What a reader sees after a write.
use ratchet_cli.Base.{
  ℕ, ◌≡◌, String, some, [], arith, ◌==◌, eq_iff, ◌&&◌, if◌then◌else◌, Option-cases, inl, inr,
}
use ratchet_cli.Base.Dict.{lookup, insert, lookup-insert}
use ratchet_cli.Mesh.Blackboard.{
  Blackboard, Entry, read, store, write, write_from_remote, int64_suc, remote_revision,
}

module _ {ℓ} {V : Type ℓ} where
  pub read-store :
      (b : Blackboard V) (section s k : String) (e : Entry V)
      → read (store section e b) s k
        ≡ (if (section == s) && (e.key == k) then some e else read b s k)
  unfolding read store
  read-store b section s k e = elim (Option-cases (lookup section b.sections)) [
    | inl e0 ↦
        ground (arith, e0, eq_iff section s, lookup-insert section s (insert e.key e []) b.sections)
    | inr (old, e0) ↦ ground (
      arith,
      e0,
      eq_iff section s,
      lookup-insert section s (insert e.key e old) b.sections,
      lookup-insert e.key k e old,
    )
  ]

  -- A read after a write finds the written entry at its section and key and, at every other place,
  -- what was there before; so does a read after a write from a remote board.
  pub read-write :
      (b : Blackboard V) (section key : String) (value : V) (author : String) (now revision : ℕ)
      (s k : String)
      → let (b1, e1, calls) = write b section key value author now in
        let (b2, e2) = write_from_remote b section key value author revision now in
        (read b1 s k ≡ (if (section == s) && (key == k) then some e1 else read b s k))
        × (read b2 s k ≡ (if (section == s) && (key == k) then some e2 else read b s k))
  unfolding write write_from_remote read
  read-write b section key value author now revision s k = (
    read-store (record b { revision = int64_suc b.revision }) section s k _,
    read-store (record b { revision = remote_revision b.revision revision }) section s k _,
  )
