-- ===== src/Daemon/Approvals/Resolution.antt =====
-- A resolution is delivered once and never blocks.
use mathlib.Core.Path.{subst}
use ratchet_cli.Base.{
  ℕ, ◌≤◌, ◌<◌, ◌≡◌, ◌≢◌, refl, sym, ap, ◌∙◌, inl, inr, String, Bool, true, false, none, some, List,
  [], ◌∷◌, arith, eqb, if◌then◌else◌, eq_iff, Option-cases,
}
use ratchet_cli.Base.Dict.{lookup, remove, lookup-insert, lookup-remove}
use ratchet_cli.Daemon.Approvals.{
  ApprovalGate, ApprovalResponse, new_approval_gate, request, resolve, abandon, receive_resolution,
  approved, rejected,
}

-- A pending id has an empty channel of its own.
pub record IsSound (g : ApprovalGate) : Type 0 where
  pub empty : (id : String) (ch : ℕ) → lookup id g.pending ≡ some ch → g.channels ch ≡ []
  pub is_made : (id : String) (ch : ℕ) → lookup id g.pending ≡ some ch → ch < g.made
  pub own :
      (id id' : String) (ch : ℕ)
      → lookup id g.pending ≡ some ch
      → lookup id' g.pending ≡ some ch
      → id ≡ id'
  pub unmade : (ch : ℕ) → g.made ≤ ch → g.channels ch ≡ []

new-IsSound : IsSound new_approval_gate
unfolding lookup
new-IsSound = record {
  empty = λ id ch h. refl;
  is_made = λ id ch h. absurd (ground (arith, h));
  own = λ id id' ch h. absurd (ground (arith, h));
  unmade = λ ch h. refl;
}

request-IsSound : (id : String) (g : ApprovalGate) → IsSound g → IsSound ((request id g).0)
unfolding request
request-IsSound id g h = record {
  empty =
      λ k ch f. ground (arith, f, lookup-insert id k g.made g.pending, h.empty k ch, h.unmade ch);
  is_made = λ k ch f. ground (arith, f, lookup-insert id k g.made g.pending, h.is_made k ch);
  own = λ k j ch f f'. ground (
    arith,
    f,
    f',
    lookup-insert id k g.made g.pending,
    lookup-insert id j g.made g.pending,
    h.own k j ch,
    h.is_made k ch,
    h.is_made j ch,
    eq_iff id k,
    eq_iff id j,
  );
  unmade = λ ch f. h.unmade ch (omega (arith, f));
}

abandon-IsSound : (id : String) (g : ApprovalGate) → IsSound g → IsSound (abandon id g)
unfolding abandon
abandon-IsSound id g h = record {
  empty = λ k ch f. ground (arith, f, lookup-remove id k g.pending, h.empty k ch);
  is_made = λ k ch f. ground (arith, f, lookup-remove id k g.pending, h.is_made k ch);
  own = λ k j ch f f'.
      ground
        (arith, f, f', lookup-remove id k g.pending, lookup-remove id j g.pending, h.own k j ch);
  unmade = h.unmade;
}

-- the gate after a receive
unfoldable pub taken : ℕ → List ApprovalResponse → ApprovalGate → ApprovalGate
taken ch rest g = record g { channels = λ c. if eqb ch c then rest else g.channels c }

-- the gate after a resolution that was delivered
sent : String → ℕ → ApprovalResponse → ApprovalGate → ApprovalGate
sent id ch r g = record g {
  pending = remove id g.pending;
  channels = λ c. if eqb ch c then r ∷ [] else g.channels c;
}

sent-IsSound :
    (id : String) (ch : ℕ) (r : ApprovalResponse) (g : ApprovalGate)
    → IsSound g
    → lookup id g.pending ≡ some ch
    → IsSound (sent id ch r g)
unfolding sent
sent-IsSound id ch r g h found = record {
  empty = λ k c f.
      ground
        (arith, f, lookup-remove id k g.pending, h.empty k c, found, h.own id k ch, eq_iff id k);
  is_made = λ k c f. ground (arith, f, lookup-remove id k g.pending, h.is_made k c);
  own = λ k j c f f'.
      ground
        (arith, f, f', lookup-remove id k g.pending, lookup-remove id j g.pending, h.own k j c);
  unmade = λ c f. ground (arith, f, h.unmade c, h.is_made id ch, found);
}

-- the answer that a resolution owes
abbrev pub is_pending : String → ApprovalGate → Bool
is_pending id g = elim (lookup id g.pending) [ none ↦ false | some _ ↦ true ]

pub record Resolved (id : String) (r : ApprovalResponse) (g g' : ApprovalGate) : Type 0 where
  pub once : is_pending id g' ≡ false
  pub others : (k : String) → id ≢ k → lookup k g'.pending ≡ lookup k g.pending
  pub sound : IsSound g'
  pub delivered : (ch : ℕ) → lookup id g.pending ≡ some ch → g'.channels ch ≡ r ∷ []

pub resolve_lem :
    (id : String) (r : ApprovalResponse) (g : ApprovalGate)
    → IsSound g
    → (g' : ApprovalGate) × (resolve id r g ≡ some (g', is_pending id g)) × Resolved id r g g'
unfolding resolve sent
resolve_lem id r g h = elim (Option-cases (lookup id g.pending)) [
  | inl e ↦ (
    g,
    rw (e, resolve, is_pending) refl,
    record {
      once = rw (e, is_pending) refl;
      others = λ k other. refl;
      sound = h;
      delivered = λ ch f. absurd (ground (arith, e, f));
    },
  )
  | inr (ch, e) ↦ (
    sent id ch r g,
    rw (e, h.empty id ch e, resolve, is_pending) refl,
    record {
      once = ground (arith, lookup-remove id id g.pending, eq_iff id id);
      others = λ k other. ground (arith, lookup-remove id k g.pending, eq_iff id k, other);
      sound = sent-IsSound id ch r g h e;
      delivered = λ c f. ground (arith, e, f);
    },
  )
]

pub data Step : ApprovalGate → ApprovalGate → Type 0 where
  requests : (id : String) (g : ApprovalGate) → Step g ((request id g).0)
  abandons : (id : String) (g : ApprovalGate) → Step g (abandon id g)
  resolves :
      (id : String) (r : ApprovalResponse) (g g' : ApprovalGate) (known : Bool)
      → resolve id r g ≡ some (g', known)
      → Step g g'
  receives :
      (ch : ℕ) (g : ApprovalGate) (r : ApprovalResponse) (rest : List ApprovalResponse)
      → g.channels ch ≡ r ∷ rest
      → Step g (taken ch rest g)

pub data Reachable : ApprovalGate → Type 0 where
  starts : Reachable new_approval_gate
  follows : {g g' : ApprovalGate} → Reachable g → Step g g' → Reachable g'

taken-IsSound :
    (ch : ℕ) (g : ApprovalGate) (r : ApprovalResponse) (rest : List ApprovalResponse)
    → g.channels ch ≡ r ∷ rest
    → IsSound g
    → IsSound (taken ch rest g)
unfolding taken
taken-IsSound ch g r rest e h = record {
  empty = λ k c f. ground (arith, e, h.empty k c f);
  is_made = h.is_made;
  own = h.own;
  unmade = λ c f. ground (arith, e, h.unmade c f);
}

resolved-IsSound :
    (id : String) (r : ApprovalResponse) (g g' : ApprovalGate) (known : Bool)
    → IsSound g
    → resolve id r g ≡ some (g', known)
    → IsSound g'
resolved-IsSound id r g g' known h e =
    let (g'', found, now) = resolve_lem id r g h in
    let same : some (g'', is_pending id g) ≡ some (g', known) = sym found ∙ e in
    let eq : g'' ≡ g' = ground (arith, same) in subst IsSound eq now.sound

Reachable-IsSound : {g : ApprovalGate} → Reachable g → IsSound g
Reachable-IsSound starts = new-IsSound
Reachable-IsSound (follows p (requests id g)) = request-IsSound id g (Reachable-IsSound p)
Reachable-IsSound (follows p (abandons id g)) = abandon-IsSound id g (Reachable-IsSound p)
Reachable-IsSound (follows p (resolves id r g g' known e)) =
    resolved-IsSound id r g g' known (Reachable-IsSound p) e
Reachable-IsSound (follows p (receives ch g r rest e)) =
    taken-IsSound ch g r rest e (Reachable-IsSound p)

unknown :
    (id : String) (r : ApprovalResponse) (g : ApprovalGate)
    → is_pending id g ≡ false
    → resolve id r g ≡ some (g, false)
unfolding resolve
unknown id r g n = elim (Option-cases (lookup id g.pending)) [
  | inl e ↦ rw (e, resolve) refl
  | inr (ch, e) ↦ absurd (ground (arith, e, n))
]

-- In every reachable gate, a resolution of a pending id does not block. The waiter, which has the
-- channel of the id, then receives it, and a second resolution is refused and changes nothing.
pub resolve_once :
    (g : ApprovalGate) (id : String) (ch : ℕ) (r again : ApprovalResponse)
    → Reachable g
    → lookup id g.pending ≡ some ch
    → (g' : ApprovalGate) × (resolve id r g ≡ some (g', true))
      × (resolve id again g' ≡ some (g', false))
      × (receive_resolution ch g'
          ≡ some (taken ch [] g', if r.approved then approved else rejected, r.reason))
unfolding receive_resolution taken
resolve_once g id ch r again p pending =
    let (g', found, now) = resolve_lem id r g (Reachable-IsSound p) in
    let known : is_pending id g ≡ true = rw (pending, is_pending) refl in
    (
      g',
      found ∙ ap (λ b. some (g', b)) known,
      unknown id again g' now.once,
      rw (now.delivered ch pending, receive_resolution) refl,
    )
