-- ===== src/Daemon/ProviderOps/Keeping.antt =====
-- How the steps of the provider operations keep the invariant of Safety, by what they change.
use mathlib.Core.Path.{subst}
use ratchet_cli.Base.{
  ◌≡◌, refl, sym, ap, ◌∙◌, ◌⊎◌, inl, inr, String, Bool, true, false, ◌&&◌, some, [], ◌∷◌, arith,
  ◌==◌, eq_iff, Bool-cases,
}
use ratchet_cli.Base.Dict.{Dict, lookup, insert, remove}
use ratchet_cli.Daemon.ProviderOps.Tables.{
  pending, ProviderRow, OperationRow, Database, is_active, has, count_rows, references,
}
use ratchet_cli.Daemon.ProviderOps.Journal.{Flight, CleanPhase, deleting}
use ratchet_cli.Daemon.ProviderOps.Rows.{Changes}
use ratchet_cli.Daemon.ProviderOps.Safety.{
  is_landing, Unreferenced, Journaled, Flies, Safe, Changes-Unreferenced, Changes-Journaled,
  inserted, remains, has-insert, has-remove,
}

other_operation :
    {db : Database} (a b : String) (f g : Flight)
    → Journaled a f db
    → Journaled b g db
    → a == b ≡ false
    → g.operation_id == f.operation_id ≡ false
other_operation {db} a b f g h k d = elim (Bool-cases (g.operation_id == f.operation_id)) [
  | inr e ↦ e
  | inl e ↦
      let same : h.row ≡ k.row = cc (
        h.found,
        k.found,
        ap (λ i. lookup i db.operations) ((eq_iff g.operation_id f.operation_id).0 e),
      ) in
      let named : a ≡ b = sym h.named ∙ ap (λ (r : OperationRow). r.alias) same ∙ k.named in
      absurd (ground (arith, d, (eq_iff a b).1 named))
]

changed-Flies :
    {db : Database} {secrets : Dict String} (t : String → Bool) (db' : Database) (alias : String)
    (f : Flight)
    → Changes t db db'
    → (is_landing f.phase ≡ false → t f.operation_id ≡ false)
    → Flies alias f db secrets
    → Flies alias f db' secrets
changed-Flies {db} t db' alias f c u h = record {
  requested = h.requested;
  aliased = h.aliased;
  journal = λ p. Changes-Journaled t db db' alias f c (u p) (h.journal p);
  held = h.held;
}

different : (a b : String) → a == b ≡ false → b == a ≡ false
different a b h = elim (Bool-cases (b == a)) [
  | inr e ↦ e
  | inl e ↦ absurd (ground (arith, h, (eq_iff a b).1 (sym ((eq_iff b a).0 e))))
]

away :
    (name s : String)
    → (name == "" ≡ false → s == name ≡ false)
    → s == "" ≡ false
    → name == s ≡ false
away name s u n = elim (Bool-cases (name == "")) [
  | inr b ↦ different s name (u b)
  | inl b ↦ different s name (subst (λ x. s == x ≡ false) (sym ((eq_iff name "").0 b)) n)
]

module _ {db : Database} {secrets : Dict String} {flights : Dict Flight}
    {cleaning : Dict CleanPhase} where
  -- a change of the database, with the flight that makes it in a new phase
  pub changed-Safe :
      (t : String → Bool) (db' : Database)
      → Changes t db db'
      → ((alias : String) (f : Flight)
          → lookup alias flights ≡ some f
          → is_landing f.phase ≡ false
          → t f.operation_id ≡ false)
      → Safe db secrets flights cleaning
      → Safe db' secrets flights cleaning
  changed-Safe t db' c u s = record {
    kept = λ alias row' e n.
        let (row, p, q) = c.providers alias row' e in
        subst (λ x. has x secrets ≡ true) (sym q)
          (s.kept alias row p (ap (λ x. x == "") (sym q) ∙ n));
    unused = λ name e n. Changes-Unreferenced t db db' name c (s.unused name e n);
    flying = λ alias f e. changed-Flies t db' alias f c (u alias f e) (s.flying alias f e);
  }

  pub untouched-Safe :
      (db' : Database)
      → Changes (λ k. false) db db'
      → Safe db secrets flights cleaning
      → Safe db' secrets flights cleaning
  untouched-Safe db' c s = changed-Safe (λ k. false) db' c (λ alias f e p. refl) s

  pub flight-Safe :
      (alias : String) (f : Flight)
      → Flies alias f db secrets
      → Safe db secrets flights cleaning
      → Safe db secrets (insert alias f flights) cleaning
  flight-Safe alias f h s = record {
    kept = s.kept;
    unused = s.unused;
    flying = λ b g e. elim (inserted alias b f g flights e) [
      | inl (p, q) ↦ subst (λ x. Flies x g db secrets) p (subst (λ x. Flies alias x db secrets) q h)
      | inr (n, p) ↦ s.flying b g p
    ];
  }

  -- the flight at `alias` lands with a change of its own row
  pub landed-Safe :
      (alias : String) (f f' : Flight) (db' : Database)
      → lookup alias flights ≡ some f
      → is_landing f.phase ≡ false
      → Changes (λ k. k == f.operation_id) db db'
      → Flies alias f' db' secrets
      → Safe db secrets flights cleaning
      → Safe db' secrets (insert alias f' flights) cleaning
  landed-Safe alias f f' db' e early c h s = record {
    kept = λ b row' p n.
        let (row, q, r) = c.providers b row' p in
        subst (λ x. has x secrets ≡ true) (sym r) (s.kept b row q (ap (λ x. x == "") (sym r) ∙ n));
    unused = λ name p n.
        Changes-Unreferenced (λ k. k == f.operation_id) db db' name c (s.unused name p n);
    flying = λ b g p. elim (inserted alias b f' g flights p) [
      | inl (q, r) ↦
          subst (λ x. Flies x g db' secrets) q (subst (λ x. Flies alias x db' secrets) r h)
      | inr (n, q) ↦
          changed-Flies (λ k. k == f.operation_id) db' b g c
            (λ l.
              other_operation alias b f g ((s.flying alias f e).journal early)
                ((s.flying b g q).journal l) n)
            (s.flying b g q)
    ];
  }

  pub unflown-Safe :
      (alias : String)
      → Safe db secrets flights cleaning
      → Safe db secrets (remove alias flights) cleaning
  unflown-Safe alias s = record {
    kept = s.kept;
    unused = s.unused;
    flying = λ b g e. s.flying b g ((remains alias b g flights e).1);
  }

  pub written-Safe :
      (name value : String)
      → Safe db secrets flights cleaning
      → Safe db (insert name value secrets) flights cleaning
  written-Safe name value s = record {
    kept = λ alias row e n. has-insert name row.secret_name value secrets (s.kept alias row e n);
    unused = s.unused;
    flying = λ alias f e.
        let h = s.flying alias f e in
        record {
          requested = h.requested;
          aliased = h.aliased;
          journal = h.journal;
          held = λ p n. has-insert name f.secret_name value secrets (h.held p n);
        };
  }

  -- The heart of it: a secret that nothing references can go.
  pub deleted-Safe :
      (name : String)
      → (name == "" ≡ false → Unreferenced name db)
      → Safe db secrets flights cleaning
      → Safe db (remove name secrets) flights cleaning
  deleted-Safe name u s = record {
    kept = λ alias row e n.
        has-remove name row.secret_name secrets (s.kept alias row e n)
          (away name row.secret_name (λ b. (u b).providers alias row e) n);
    unused = s.unused;
    flying = λ alias f e.
        let h = s.flying alias f e in
        record {
          requested = h.requested;
          aliased = h.aliased;
          journal = h.journal;
          held = λ p n.
              let j = h.journal (ground (arith, p)) in
              let w : j.row.state ≡ pending = j.waits (ground (arith, p)) in
              has-remove name f.secret_name secrets (h.held p n) (
                away name f.secret_name
                  (λ b.
                    ap (λ x. x == name) (sym j.secret)
                    ∙ (u b).operations f.operation_id j.row j.found (ground (arith, w)))
                  n);
        };
  }

  pub cleaning-Safe :
      (cleaning' : Dict CleanPhase)
      → ((name : String)
          → lookup name cleaning' ≡ some deleting
          → (lookup name cleaning ≡ some deleting) ⊎ Unreferenced name db)
      → Safe db secrets flights cleaning
      → Safe db secrets flights cleaning'
  cleaning-Safe cleaning' h s = record {
    kept = s.kept;
    unused = λ name e n. elim (h name e) [ inl p ↦ s.unused name p n | inr u ↦ u ];
    flying = s.flying;
  }

pub count_none {ℓ} :
    {V : Type ℓ} (test : V → Bool) (m : Dict V)
    → count_rows test m ≡ 0
    → (k : String) (v : V) → lookup k m ≡ some v
    → test v ≡ false
unfolding count_rows lookup
count_none test [] h k v e = absurd (cc e)
count_none test ((k0, w) ∷ rest) h k v e = elim (Bool-cases (test w)) [
  | inl b ↦ absurd (ground (arith, b, h))
  | inr b ↦ elim (Bool-cases (k0 == k)) [
    | inl q ↦ let same : w ≡ v = ground (arith, q, e) in ap test (sym same) ∙ b
    | inr q ↦ count_none test rest (ground (arith, b, h)) k v (ground (arith, q, e))
  ]
]

pub references-Unreferenced :
    (name : String) (db : Database) → references name db ≡ 0 → Unreferenced name db
unfolding references
references-Unreferenced name db h = record {
  providers =
      count_none (λ (p : ProviderRow). p.secret_name == name) db.providers (omega (arith, h));
  operations = λ id row e a.
      let none : (row.secret_name == name) && is_active row.state ≡ false =
        count_none (λ (o : OperationRow). (o.secret_name == name) && is_active o.state)
          db.operations (omega (arith, h)) id row e in
      ground (arith, none, a);
}
