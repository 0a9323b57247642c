-- ===== src/AcpClient/Store/Reconcile.antt =====
-- ReconcileCancellationRequests of internal/acpclient/store.go. The cancel request files are known by the
-- key of their session; `entries` is what the directory lists.
use ratchet_cli.Base.{
  ℕ, ◌≡◌, refl, ap, ◌∙◌, ◌⊎◌, inl, inr, String, Bool, true, false, not, ◌&&◌, Option, none, some,
  List, [], ◌∷◌, arith, any, if◌then◌else◌, ◌==◌, eq_iff, Option-cases, Bool-cases,
}
use ratchet_cli.Base.Dict.{Dict, lookup, insert, lookup-insert}
use ratchet_cli.AcpClient.Types.{cancellation_latched}
use ratchet_cli.AcpClient.Records.{Sessions}
use ratchet_cli.AcpClient.Normalize.{normalize_records}
use ratchet_cli.AcpClient.Mutate.{StoreError}
use ratchet_cli.AcpClient.Store.{Runtime, World, Env, Write, Outcome, released, done, fault, set_at}

-- What the environment answers: the write and the removal of each file, and the listing.
pub record Projection : Type 0 where
  pub wrote : String → Write
  pub removed : String → Write
  pub listed : Bool
  pub entries : List String

-- the loop that fills `wanted`, by the names of the files
unfoldable pub wanted_requests : (String → String) → Sessions → Dict ℕ → Dict ℕ
unfolding insert
wanted_requests store_key [] wanted = wanted
wanted_requests store_key (rec ∷ rest) wanted =
    let more = insert (store_key rec.id) rec.updated_at wanted in
    wanted_requests store_key rest (if cancellation_latched rec.status then more else wanted)

-- the loop of the writes, and whether each one was confirmed
unfoldable pub write_requests :
    Projection → Dict ℕ → (String → Option ℕ) → (String → Option ℕ) × Bool
write_requests p [] files = (files, true)
write_requests p ((name, at) ∷ rest) files =
    let (files', ok) = write_requests p rest files in
    elim (p.wrote name) [
      | Write.committed ↦ (set_at name (some at) files', ok)
      | Write.unconfirmed ↦ (set_at name (some at) files', false)
      | Write.failed ↦ (files', false)
    ]

-- the loop over the directory
unfoldable pub remove_requests :
    Projection → Dict ℕ → List String → (String → Option ℕ) → (String → Option ℕ) × Bool
unfolding lookup
remove_requests p wanted [] files = (files, true)
remove_requests p wanted (name ∷ rest) files =
    let (files', ok) = remove_requests p wanted rest files in
    elim (lookup name wanted) [
      | some at ↦ (files', ok)
      | none ↦ elim (p.removed name) [
        | Write.committed ↦ (set_at name none files', ok)
        | Write.unconfirmed ↦ (set_at name none files', false)
        | Write.failed ↦ (files', false)
      ]
    ]

module _ (rt : Runtime) where
  open rt use {store_key}

  -- ReconcileCancellationRequests
  unfoldable pub reconcile_cancellation_requests : Env → Projection → World → Outcome × World
  unfolding wanted_requests write_requests remove_requests normalize_records released
  reconcile_cancellation_requests env p w =
      let wanted =
        wanted_requests store_key (normalize_records store_key env.loaded_at w.sessions) [] in
      let (files, wrote) = write_requests p wanted w.cancels in
      let (files', cleared) = remove_requests p wanted p.entries files in
      if not env.lock
      then (fault StoreError.lock_failed, w)
      else released env.unlock (
          if not env.load then (fault StoreError.load_failed, w) else (
            if wrote && p.listed && cleared then done else fault StoreError.commit_unconfirmed,
            record w { cancels = if p.listed then files' else files },
          ))

Write-cases : (x : Write) → (x ≡ Write.committed) ⊎ (x ≡ Write.failed) ⊎ (x ≡ Write.unconfirmed)
Write-cases Write.committed = inl refl
Write-cases Write.failed = inr (inl refl)
Write-cases Write.unconfirmed = inr (inr refl)

written_files :
    (p : Projection) (wanted : Dict ℕ) (files : String → Option ℕ) (name : String)
    → (write_requests p wanted files).1 ≡ true
    → (write_requests p wanted files).0 name
      ≡ elim (lookup name wanted) [ some at ↦ some at | none ↦ files name ]
unfolding write_requests lookup
written_files p [] files name h = refl
written_files p ((k, at) ∷ rest) files name h = elim (Write-cases (p.wrote k)) [
  | inl c ↦ ground (arith, c, h, written_files p rest files name)
  | inr (inl c) ↦ absurd (ground (arith, c, h))
  | inr (inr c) ↦ absurd (ground (arith, c, h))
]

distinct :
    (k name : String) (at : ℕ) (wanted : Dict ℕ)
    → lookup k wanted ≡ some at
    → lookup name wanted ≡ none
    → k == name ≡ false
distinct k name at wanted f e = elim (Bool-cases (k == name)) [
  | inl s ↦ absurd (ground (arith, f, e, ap (λ n. lookup n wanted) ((eq_iff k name).0 s)))
  | inr s ↦ s
]

sym_distinct :
    (k name : String) (at : ℕ) (wanted : Dict ℕ)
    → lookup k wanted ≡ none
    → lookup name wanted ≡ some at
    → k == name ≡ false
sym_distinct k name at wanted f e = elim (Bool-cases (k == name)) [
  | inl s ↦ absurd (ground (arith, f, e, ap (λ n. lookup n wanted) ((eq_iff k name).0 s)))
  | inr s ↦ s
]

kept_file :
    (p : Projection) (wanted : Dict ℕ) (entries : List String) (files : String → Option ℕ)
    (name : String) (at : ℕ)
    → lookup name wanted ≡ some at
    → (remove_requests p wanted entries files).0 name ≡ files name
unfolding remove_requests
kept_file p wanted [] files name at e = refl
kept_file p wanted (k ∷ rest) files name at e = elim (Option-cases (lookup k wanted)) [
  | inr (x, f) ↦ ground (arith, f, kept_file p wanted rest files name at e)
  | inl f ↦
      let other : k == name ≡ false = sym_distinct k name at wanted f e in
      elim (Write-cases (p.removed k)) [
        | inl c ↦ ground (arith, f, c, other, kept_file p wanted rest files name at e)
        | inr (inl c) ↦ ground (arith, f, c, kept_file p wanted rest files name at e)
        | inr (inr c) ↦ ground (arith, f, c, other, kept_file p wanted rest files name at e)
      ]
]

gone_file :
    (p : Projection) (wanted : Dict ℕ) (entries : List String) (files : String → Option ℕ)
    (name : String)
    → lookup name wanted ≡ none
    → (remove_requests p wanted entries files).1 ≡ true
    → (remove_requests p wanted entries files).0 name
      ≡ (if any (λ e. e == name) entries then none else files name)
unfolding remove_requests
gone_file p wanted [] files name e h = refl
gone_file p wanted (k ∷ rest) files name e h = elim (Option-cases (lookup k wanted)) [
  | inr (x, f) ↦
      let other : k == name ≡ false = distinct k name x wanted f e in
      ground (arith, f, h, other, gone_file p wanted rest files name e)
  | inl f ↦ elim (Write-cases (p.removed k)) [
    | inl c ↦ ground (arith, f, c, h, gone_file p wanted rest files name e)
    | inr (inl c) ↦ absurd (ground (arith, f, c, h))
    | inr (inr c) ↦ absurd (ground (arith, f, c, h))
  ]
]

cleared_files :
    (p : Projection) (wanted : Dict ℕ) (entries : List String) (files : String → Option ℕ)
    (name : String)
    → (remove_requests p wanted entries files).1 ≡ true
    → (remove_requests p wanted entries files).0 name ≡ (elim (lookup name wanted) [
      | some at ↦ files name
      | none ↦ if any (λ e. e == name) entries then none else files name
    ])
unfolding remove_requests
cleared_files p wanted [] files name h = elim (Option-cases (lookup name wanted)) [
  | inl e ↦ rw e refl
  | inr (at, e) ↦ rw e refl
]
cleared_files p wanted (k ∷ rest) files name h = elim (Option-cases (lookup name wanted)) [
  | inr (at, e) ↦ rw e (kept_file p wanted (k ∷ rest) files name at e)
  | inl e ↦ rw e (gone_file p wanted (k ∷ rest) files name e h)
]

settled_file :
    (wanted : Dict ℕ) (old files new : String → Option ℕ) (entries : List String) (name : String)
    → files name ≡ elim (lookup name wanted) [ some at ↦ some at | none ↦ old name ]
    → new name ≡ (elim (lookup name wanted) [
      | some at ↦ files name
      | none ↦ if any (λ e. e == name) entries then none else files name
    ])
    → (any (λ e. e == name) entries ≡ false → old name ≡ none)
    → new name ≡ lookup name wanted
settled_file wanted old files new entries name a b all = elim (Option-cases (lookup name wanted)) [
  | inr (at, e) ↦ rw e (rw e at b ∙ rw e at a)
  | inl e ↦ elim (Bool-cases (any (λ x. x == name) entries)) [
    | inl s ↦ rw e (rw (e, s) at b)
    | inr s ↦ rw e (rw (e, s) at b ∙ rw e at a ∙ all s)
  ]
]

-- The time of the last latched session whose cancel request file has the name.
unfoldable pub latched_time : (String → String) → String → Sessions → Option ℕ
latched_time store_key name [] = none
latched_time store_key name (rec ∷ rest) = elim (latched_time store_key name rest) [
  | some at ↦ some at
  | none ↦
      if cancellation_latched rec.status && (store_key rec.id == name)
      then some rec.updated_at
      else none
]

lookup-wanted :
    (store_key : String → String) (name : String) (ss : Sessions) (wanted : Dict ℕ)
    → lookup name (wanted_requests store_key ss wanted)
      ≡ elim (latched_time store_key name ss) [ some at ↦ some at | none ↦ lookup name wanted ]
unfolding wanted_requests latched_time
lookup-wanted store_key name [] wanted = refl
lookup-wanted store_key name (rec ∷ rest) wanted =
    let key = store_key rec.id in
    elim (Bool-cases (cancellation_latched rec.status)) [
      | inr q ↦ ground (arith, q, lookup-wanted store_key name rest wanted)
      | inl q ↦
          let more = insert key rec.updated_at wanted in
          ground (
            arith,
            q,
            lookup-wanted store_key name rest more,
            lookup-insert key name rec.updated_at wanted,
          )
    ]

found_first : (x : Option ℕ) → elim x as (λ _. Option ℕ) [ some at ↦ some at | none ↦ none ] ≡ x
found_first none = refl
found_first (some at) = refl

-- A reconciliation that returns nil, over a listing of every cancel request file, leaves the file of a
-- name exactly if a session whose cancellation is latched has that name's key, with the time of the last
-- such session; and it changes no session and no event log.
pub reconciled :
    (rt : Runtime) (env : Env) (p : Projection) (w : World)
    → (reconcile_cancellation_requests rt env p w).0 ≡ done
    → ((name : String) → any (λ e. e == name) p.entries ≡ false → w.cancels name ≡ none)
    → let w' = (reconcile_cancellation_requests rt env p w).1 in
      ((name : String)
        → w'.cancels name
          ≡ latched_time rt.store_key name
              (normalize_records rt.store_key env.loaded_at w.sessions))
      × (w'.sessions ≡ w.sessions)
      × (w'.logs ≡ w.logs)
unfolding reconcile_cancellation_requests released latched_time
reconciled rt env p w h all =
    let wanted =
      wanted_requests rt.store_key (normalize_records rt.store_key env.loaded_at w.sessions) [] in
    let files = (write_requests p wanted w.cancels).0 in
    let lock : env.lock ≡ true = ground (arith, h) in
    let unlock : env.unlock ≡ true = ground (arith, h) in
    let load : env.load ≡ true = ground (arith, h) in
    let listed : p.listed ≡ true = ground (arith, h, lock, load) in
    let wrote : (write_requests p wanted w.cancels).1 ≡ true = ground (arith, h, lock, load) in
    let cleared : (remove_requests p wanted p.entries files).1 ≡ true =
      ground (arith, h, lock, load) in
    let settled = λ (name : String).
      settled_file wanted w.cancels files (remove_requests p wanted p.entries files).0 p.entries
        name (written_files p wanted w.cancels name wrote)
        (cleared_files p wanted p.entries files name cleared) (all name) in
    let named = λ (name : String).
      lookup-wanted rt.store_key name (normalize_records rt.store_key env.loaded_at w.sessions) []
      ∙ found_first (
          latched_time rt.store_key name
            (normalize_records rt.store_key env.loaded_at w.sessions)) in
    (
      λ name. ground (arith, lock, load, listed, settled name, named name),
      ground (arith, lock, load),
      ground (arith, lock, load),
    )
