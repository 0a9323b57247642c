-- ===== src/AcpClient/Store/Latch.antt =====
-- Over whole runs of the store: no session is lost, ids stay unique, and a requested cancellation is
-- never released, whatever the file system answers.
use ratchet_cli.Base.{
  ℕ, ◌≤◌, ◌≡◌, String, ◌⊎◌, Bool, true, false, none, some, List, [], ◌∷◌, arith, ◌==◌, Option-cases,
  inl, inr, not, is_blank, if◌then◌else◌,
}
use ratchet_cli.AcpClient.Types.{SessionRecord}
use ratchet_cli.AcpClient.Records.{Sessions, find_session, IsUnique}
use ratchet_cli.AcpClient.Records.Laws.{find-Perm, IsUnique-Perm}
use ratchet_cli.AcpClient.Normalize.{or_time, normalize_record, normalize_records}
use ratchet_cli.AcpClient.Normalize.Laws.{find-normalize_records, IsUnique-normalize_records}
use ratchet_cli.AcpClient.Mutate.{Mutation}
use ratchet_cli.AcpClient.Mutate.Keeping.{
  status_rank, latch_rank, Keeps, KeepsM, changed_keeps, unchanged_keeps, refused_keeps,
}
use ratchet_cli.AcpClient.Mutate.Latch.{
  KeepsId, insert-Keeps, upsert-Keeps, lifecycle-Keeps, append_prompt-Keeps, request_cancel-Keeps,
  set_acp-Keeps, mark_running-Keeps, cancel_pending-Keeps, recover-Keeps,
  mark_pending_canceled-Keeps, complete-KeepsId, fail-KeepsId, update_queued_prompt-Keeps,
}
use ratchet_cli.AcpClient.EventLog.{EventLine, encode_event_log}
use ratchet_cli.AcpClient.Mutate.Queue.{Update}
use ratchet_cli.AcpClient.Store.{
  Runtime, World, Env, Outcome, AfterCommit, nothing, cancel_file, commit, commit_plain,
  commit_events, finish, transition_session, create_logged, finish_create, create_session,
  create_session_with_events,
}
use ratchet_cli.AcpClient.Store.Ops
use ratchet_cli.AcpClient.Store.Ops.{prepared_prompt, update_with_events}
use ratchet_cli.AcpClient.Store.Runs.{Op, perform, run_ops}

Keeps-refl : (ss : Sessions) → IsUnique ss → Keeps ss ss
Keeps-refl ss u = record { unique = u; rank = λ id. omega arith }

Keeps-trans : {a b c : Sessions} → Keeps a b → Keeps b c → Keeps a c
Keeps-trans h k = record { unique = k.unique; rank = λ id. omega (arith, h.rank id, k.rank id) }

normalize-rank :
    (store_key : String → String) (now : ℕ) (rec : SessionRecord)
    → status_rank (normalize_record store_key now rec).status ≡ status_rank rec.status
unfolding normalize_record
normalize-rank store_key now rec = ground arith

normalize-Keeps :
    (store_key : String → String) (now : ℕ) (ss : Sessions)
    → IsUnique ss
    → Keeps ss (normalize_records store_key now ss)
normalize-Keeps store_key now ss u = record {
  unique = IsUnique-normalize_records store_key now ss u;
  rank = λ id. elim (Option-cases (find_session ss id)) [
    | inl e ↦ rw e (omega arith)
    | inr (rec, e) ↦
        rw (find-normalize_records store_key now ss id, e)
          (omega (arith, normalize-rank store_key now rec))
  ];
}

module _ (rt : Runtime) where
  open rt use {store_key, sort_records, sort_perm}

  sort-Keeps : (ss : Sessions) → IsUnique ss → Keeps ss (sort_records ss)
  sort-Keeps ss u = record {
    unique = IsUnique-Perm (sort_perm ss) u;
    rank = λ id. rw (find-Perm (sort_perm ss) u id) (omega arith);
  }

  abbrev stored : Env → Sessions → Sessions
  stored env ss = sort_records (normalize_records store_key env.saved_at ss)

  stored-Keeps : (env : Env) (ss : Sessions) → IsUnique ss → Keeps ss (stored env ss)
  stored-Keeps env ss u =
      let normal = normalize-Keeps store_key env.saved_at ss u in
      Keeps-trans normal (sort-Keeps (normalize_records store_key env.saved_at ss) normal.unique)

  -- The session file after a commit is the old one or the new one.
  pub commit-sessions :
      (env : Env) (after : AfterCommit) (id : String) (events : List EventLine) (ss : Sessions)
      (w : World)
      → ((commit rt env after id events ss w).1.sessions ≡ w.sessions)
        ⊎ ((commit rt env after id events ss w).1.sessions ≡ stored env ss)
  unfolding commit_plain commit_events
  commit-sessions env after id [] ss w = ground arith
  commit-sessions env after id (e ∷ es) ss w = ground arith

  pub create_logged-sessions :
      (env : Env) (id : String) (lines : List EventLine) (ss : Sessions) (w : World)
      → ((create_logged rt env id lines ss w).1.sessions ≡ w.sessions)
        ⊎ ((create_logged rt env id lines ss w).1.sessions ≡ stored env ss)
  unfolding create_logged
  create_logged-sessions env id lines ss w = ground arith

  finish-Keeps :
      (env : Env) (after : AfterCommit) (id : String) (events : List EventLine) (w : World)
      {ss : Sessions} {m : Mutation}
      → IsUnique w.sessions
      → Keeps w.sessions ss
      → KeepsM ss m
      → Keeps w.sessions (finish rt env after id events m w).1.sessions
  unfolding finish
  finish-Keeps env after id events w u k (changed_keeps {new = ss'} h) =
      elim (commit-sessions env after id events ss' w) [
        | inl e ↦ rw e (Keeps-refl w.sessions u)
        | inr e ↦ rw e (Keeps-trans k (Keeps-trans h (stored-Keeps env ss' h.unique)))
      ]
  finish-Keeps env after id events w u k unchanged_keeps = Keeps-refl w.sessions u
  finish-Keeps env after id events w u k refused_keeps = Keeps-refl w.sessions u

  finish_create-Keeps :
      (env : Env) (id : String) (lines : List EventLine) (w : World) {ss : Sessions} {m : Mutation}
      → IsUnique w.sessions
      → Keeps w.sessions ss
      → KeepsM ss m
      → Keeps w.sessions (finish_create rt env id lines m w).1.sessions
  unfolding finish_create
  finish_create-Keeps env id lines w u k (changed_keeps {new = ss'} h) =
      elim (create_logged-sessions env id lines ss' w) [
        | inl e ↦ rw e (Keeps-refl w.sessions u)
        | inr e ↦ rw e (Keeps-trans k (Keeps-trans h (stored-Keeps env ss' h.unique)))
      ]
  finish_create-Keeps env id lines w u k unchanged_keeps = Keeps-refl w.sessions u
  finish_create-Keeps env id lines w u k refused_keeps = Keeps-refl w.sessions u

  Keeps-if :
      (old : Sessions) (b : Bool) (x y : Outcome × World)
      → Keeps old x.1.sessions
      → Keeps old y.1.sessions
      → Keeps old (if b then x else y).1.sessions
  Keeps-if old true x y hx hy = hx
  Keeps-if old false x y hx hy = hy

  transition-Keeps :
      (env : Env) (after : AfterCommit) (id : String) (events : List EventLine)
      (mutate : Sessions → Mutation) (w : World)
      → ((ss : Sessions) → IsUnique ss → KeepsM ss (mutate ss))
      → IsUnique w.sessions
      → Keeps w.sessions (transition_session rt env after id events mutate w).1.sessions
  unfolding transition_session
  transition-Keeps env after id events mutate w keep u =
      let same = Keeps-refl w.sessions u in
      let normal = normalize-Keeps store_key env.loaded_at w.sessions u in
      Keeps-if w.sessions (not env.lock) _ _ same (
        Keeps-if w.sessions (not env.load) _ _ same
          (finish-Keeps env after id events w u normal (keep _ normal.unique)))

  create_session-Keeps :
      (env : Env) (rec : SessionRecord) (lines : List EventLine) (w : World)
      → IsUnique w.sessions
      → Keeps w.sessions (create_session rt env rec lines w).1.sessions
  unfolding create_session
  create_session-Keeps env rec lines w u =
      let same = Keeps-refl w.sessions u in
      let normal = normalize-Keeps store_key env.loaded_at w.sessions u in
      Keeps-if w.sessions (not env.lock) _ _ same (
        Keeps-if w.sessions (not env.load) _ _ same (
          finish_create-Keeps env rec.id lines w u normal
            (insert-Keeps _ normal.unique env.now rec)))

  create-Keeps :
      (env : Env) (rec : SessionRecord) (events : List EventLine) (w : World)
      → IsUnique w.sessions
      → Keeps w.sessions (create_session_with_events rt env rec events w).1.sessions
  unfolding create_session_with_events
  create-Keeps env rec events w u =
      Keeps-if w.sessions (is_blank rec.id) _ _ (Keeps-refl w.sessions u)
        (elim (Option-cases (encode_event_log rt.valid_message env.now events 1)) [
          | inl e ↦ rw e (Keeps-refl w.sessions u)
          | inr (lines, e) ↦ rw e (create_session-Keeps env rec lines w u)
        ])

  update-Keeps :
      (env : Env) (id queue_id : String) (when : ℕ) (events : List EventLine) (update : Update)
      (w : World)
      → KeepsId update
      → IsUnique w.sessions
      → Keeps w.sessions (update_with_events rt env id queue_id when events update w).1.sessions
  unfolding update_with_events
  update-Keeps env id queue_id when events update w keep u =
      Keeps-if w.sessions (is_blank queue_id) _ _ (Keeps-refl w.sessions u) (
        transition-Keeps env nothing id events _ w
          (λ ss v.
            update_queued_prompt-Keeps ss id queue_id (or_time when env.now) true update v keep)
          u)

  -- One operation, whatever the environment answers.
  pub perform-Keeps :
      (env : Env) (op : Op) (w : World)
      → IsUnique w.sessions
      → Keeps w.sessions (perform rt env op w).1.sessions
  unfolding perform Ops.upsert Ops.insert_session Ops.mark_session_started
      Ops.mark_session_completed Ops.append_queued_prompt Ops.mark_queue_running
      Ops.mark_queue_completed Ops.mark_queue_failed Ops.cancel_pending_queue
      Ops.recover_running_queue_items Ops.mark_pending_canceled Ops.request_cancel
      Ops.set_acp_session_id
  perform-Keeps env (Op.upsert rec) w u =
      Keeps-if w.sessions (is_blank rec.id) _ _ (Keeps-refl w.sessions u)
        (transition-Keeps env nothing rec.id [] _ w (λ ss v. upsert-Keeps ss v env.now rec) u)
  perform-Keeps env (Op.insert_session rec) w u = create-Keeps env rec [] w u
  perform-Keeps env (Op.import_session rec events) w u = create-Keeps env rec events w u
  perform-Keeps env (Op.mark_session_started rec) w u =
      Keeps-if w.sessions (is_blank rec.id) _ _ (Keeps-refl w.sessions u) (
        transition-Keeps env nothing rec.id [] _ w
          (λ ss v. lifecycle-Keeps ss v env.now rec none false) u)
  perform-Keeps env (Op.mark_session_completed rec turn events) w u =
      Keeps-if w.sessions (is_blank rec.id) _ _ (Keeps-refl w.sessions u) (
        transition-Keeps env nothing rec.id events _ w
          (λ ss v. lifecycle-Keeps ss v env.now rec (some turn) true) u)
  perform-Keeps env (Op.append_queued_prompt rec prompt) w u =
      Keeps-if w.sessions (is_blank rec.id) _ _ (Keeps-refl w.sessions u) (
        transition-Keeps env nothing rec.id [] _ w
          (λ ss v. append_prompt-Keeps ss v rec (prepared_prompt rt env.now prompt)) u)
  perform-Keeps env (Op.mark_queue_running id queue_id when) w u =
      Keeps-if w.sessions (is_blank queue_id) _ _ (Keeps-refl w.sessions u) (
        transition-Keeps env nothing id [] _ w
          (λ ss v. mark_running-Keeps ss v id queue_id (or_time when env.now)) u)
  perform-Keeps env (Op.mark_queue_completed id queue_id response stop events when) w u =
      update-Keeps env id queue_id when events _ w (complete-KeepsId response stop) u
  perform-Keeps env (Op.mark_queue_failed id queue_id message when) w u =
      update-Keeps env id queue_id when [] _ w (fail-KeepsId message) u
  perform-Keeps env (Op.cancel_pending_queue id when) w u =
      transition-Keeps env nothing id [] _ w
        (λ ss v. cancel_pending-Keeps ss v id (or_time when env.now)) u
  perform-Keeps env (Op.recover_running_queue_items id when) w u =
      transition-Keeps env nothing id [] _ w (λ ss v. recover-Keeps ss v id (or_time when env.now))
        u
  perform-Keeps env (Op.mark_pending_canceled id when) w u =
      transition-Keeps env nothing id [] _ w
        (λ ss v. mark_pending_canceled-Keeps ss v store_key id when) u
  perform-Keeps env (Op.request_cancel id when) w u =
      Keeps-if w.sessions (is_blank id) _ _ (Keeps-refl w.sessions u) (
        transition-Keeps env (cancel_file id (or_time when env.now)) id [] _ w
          (λ ss v. request_cancel-Keeps ss v id (or_time when env.now)) u)
  perform-Keeps env (Op.set_acp_session_id id acp) w u =
      Keeps-if w.sessions (acp == "") _ _ (Keeps-refl w.sessions u)
        (transition-Keeps env nothing id [] _ w (λ ss v. set_acp-Keeps ss v id acp) u)

  run-Keeps :
      (steps : List (Env × Op)) (w : World)
      → IsUnique w.sessions
      → Keeps w.sessions (run_ops rt steps w).sessions
  run-Keeps [] w u = Keeps-refl w.sessions u
  run-Keeps ((env, op) ∷ rest) w u =
      let one = perform-Keeps env op w u in
      Keeps-trans one (run-Keeps rest (perform rt env op w).1 one.unique)

-- After any run of operations from records with unique ids, whatever the locks, reads and writes
-- return: ids are still unique, every session that was there is there, one whose cancellation was
-- requested is still requested or canceled, and a canceled one is canceled.
pub cancellation_latch :
    (rt : Runtime) (steps : List (Env × Op)) (w : World)
    → IsUnique w.sessions
    → IsUnique (run_ops rt steps w).sessions
      × ((id : String)
          → latch_rank (find_session w.sessions id)
            ≤ latch_rank (find_session (run_ops rt steps w).sessions id))
cancellation_latch rt steps w u = let k = run-Keeps rt steps w u in (k.unique, k.rank)
