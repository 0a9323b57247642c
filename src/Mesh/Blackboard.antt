-- ===== src/Mesh/Blackboard.antt =====
-- internal/mesh/blackboard.go. Each method runs under the board's lock. A value of Go's type `any` is
-- one of the parameter `V`; a time is a number.
pub mod Revisions
pub mod Reads
pub mod Watchers
use ratchet_cli.Base.{
  ℕ, zero, suc, ◌+◌, ◌^◌, ◌-◌, ◌%◌, String, Bool, true, false, Option, none, some, List, [], ◌∷◌,
  ◌++◌, map, ltb, length, if◌then◌else◌,
}
use Prim.Native.String.{◌++◌ as join}
use ratchet_cli.Base.Dict.{Dict, lookup, insert}

-- An int64, as its distance from the least one, so that the order of numbers is Go's order.
abbrev pub int64_zero : ℕ
int64_zero = 2 ^ 63

abbrev pub int64_max : ℕ
int64_max = 2 ^ 64 - 1

-- `n++`, which wraps
unfoldable pub int64_suc : ℕ → ℕ
int64_suc n = (n + 1) % 2 ^ 64

pub record Entry {ℓ} (V : Type ℓ) : Type ℓ where
  pub key : String
  pub value : V
  pub author : String
  pub revision : ℕ  -- int64
  pub timestamp : ℕ

-- A watcher is known by its index; `false` is one that was set to nil.
pub record Blackboard {ℓ} (V : Type ℓ) : Type ℓ where
  pub sections : Dict (Dict (Entry V))
  pub watchers : List Bool
  pub revision : ℕ  -- int64

-- A call of a watcher: its index, the composite key and the entry.
pub record Call {ℓ} (V : Type ℓ) : Type ℓ where
  pub watcher : ℕ
  pub key : String
  pub entry : Entry V

-- the indices of the watchers that are not nil
unfoldable pub live_from : ℕ → List Bool → List ℕ
live_from n [] = []
live_from n (true ∷ ws) = n ∷ live_from (n + 1) ws
live_from n (false ∷ ws) = live_from (n + 1) ws

-- the revision that WriteFromRemote gives to the board and the entry
abbrev pub remote_revision : ℕ → ℕ → ℕ
remote_revision own remote = if ltb own remote then remote else int64_suc own

abbrev pub clear : List Bool → ℕ → List Bool
clear [] i = []
clear (w ∷ ws) zero = false ∷ ws
clear (w ∷ ws) (suc i) = w ∷ clear ws i

module _ {ℓ} {V : Type ℓ} where
  -- the section's entries, or a new map
  abbrev or_new : Option (Dict (Entry V)) → Dict (Entry V)
  or_new none = []
  or_new (some entries) = entries

  -- Read
  unfoldable pub read : Blackboard V → String → String → Option (Entry V)
  unfolding lookup
  read b section key = elim (lookup section b.sections) [
    | none ↦ none
    | some entries ↦ lookup key entries
  ]

  -- the assignment of an entry, in a new section if need be
  unfoldable pub store : String → Entry V → Blackboard V → Blackboard V
  unfolding lookup insert
  store section e b = record b {
    sections = insert section (insert e.key e (or_new (lookup section b.sections))) b.sections;
  }

  -- Write; the watchers are called after the lock is released
  unfoldable pub write :
      Blackboard V → String → String → V → String → ℕ → Blackboard V × Entry V × List (Call V)
  unfolding store int64_suc live_from
  write b section key value author now =
      let revision = int64_suc b.revision in
      let e : Entry V = record {
        key = key;
        value = value;
        author = author;
        revision = revision;
        timestamp = now;
      } in
      (
        store section e (record b { revision = revision }),
        e,
        map (λ w. record { watcher = w; key = join section (join "/" key); entry = e })
            (live_from 0 b.watchers),
      )

  -- WriteFromRemote
  unfoldable pub write_from_remote :
      Blackboard V → String → String → V → String → ℕ → ℕ → Blackboard V × Entry V
  unfolding store int64_suc
  write_from_remote b section key value author revision now =
      let own = remote_revision b.revision revision in
      let e : Entry V = record {
        key = key;
        value = value;
        author = author;
        revision = own;
        timestamp = now;
      } in
      (store section e (record b { revision = own }), e)

  -- List; `none` is nil
  unfoldable pub list : Blackboard V → String → Option (Dict (Entry V))
  unfolding lookup
  list b section = lookup section b.sections

  -- ListSections
  unfoldable pub list_sections : Blackboard V → List String
  list_sections b = map (λ s. s.0) b.sections

  -- Watch
  unfoldable pub watch : Blackboard V → Blackboard V × ℕ
  watch b = (record b { watchers = b.watchers ++ true ∷ [] }, length b.watchers)

  -- Unwatch
  unfoldable pub unwatch : Blackboard V → ℕ → Blackboard V
  unwatch b i = record b { watchers = clear b.watchers i }

abbrev pub new_blackboard {ℓ} : {V : Type ℓ} → Blackboard V
new_blackboard = record { sections = []; watchers = []; revision = int64_zero }
