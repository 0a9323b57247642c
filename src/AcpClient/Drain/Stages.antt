-- ===== src/AcpClient/Drain/Stages.antt =====
-- Every stage of the drain moves the files by store operations alone, and counts its prompt.
use ratchet_cli.Base.{
  ◌+◌, ◌≤◌, ◌≡◌, refl, ◌∙◌, inl, inr, String, Bool, true, false, not, ◌&&◌, List, arith,
  Option-cases, Bool-cases, if◌then◌else◌, ◌==◌,
}
use ratchet_cli.AcpClient.Types.{QueuedPrompt, cancellation_latched}
use ratchet_cli.AcpClient.Store.{Runtime, World}
use ratchet_cli.AcpClient.Store.Ops.{first_pending}
use ratchet_cli.AcpClient.Store.Runs.{Op}
use ratchet_cli.AcpClient.Drain.Calls.{
  Turn, DrainError, start_error, admission_error, Admission, admitted, refused, unreleased,
  StartReply, started, start_canceled, start_failed, Round, Loop, Next, goes_on, breaks, returns,
  before, act, get_session, drain_cancel_requested, checked, recovered,
}
use ratchet_cli.AcpClient.Drain.{
  cancel_stage, prompt_stage, abort_start, cancel_start, name_stage, launch_stage, enter_stage,
  admit_stage, start_stage, run_stage, iteration,
}
use ratchet_cli.AcpClient.Drain.Turns.{
  Read-cases, Outcome-cases, Reply-cases, RunsTo, RunsTo-refl, RunsTo-trans, before-RunsTo,
  act-RunsTo, checked-RunsTo,
}

module _ (rt : Runtime) where
  -- the same counts, after store operations
  pub record Follows (l l' : Loop) : Type 0 where
    pub runs : RunsTo rt l.world l'.world
    pub processed : l'.result.processed ≡ l.result.processed
    pub completed : l'.result.completed ≡ l.result.completed
    pub failed : l'.result.failed ≡ l.result.failed

  -- What a stage does: it completes one prompt and goes on, it breaks with the same counts, or it
  -- returns having processed one prompt at most.
  pub data Counts (l : Loop) : Next → Type 0 where
    counts_on :
        (l' : Loop)
        → RunsTo rt l.world l'.world
        → l'.result.processed ≡ l.result.processed + 1
        → l'.result.completed ≡ l.result.completed + 1
        → l'.result.failed ≡ l.result.failed
        → Counts l (goes_on l')
    counts_break : (l' : Loop) → Follows l l' → Counts l (breaks l')
    counts_return :
        (l' : Loop) (es : List DrainError)
        → RunsTo rt l.world l'.world
        → l'.result.completed ≡ l.result.completed
        → l'.result.processed ≤ l.result.processed + 1
        → l.result.processed + l'.result.failed ≤ l'.result.processed + l.result.failed
        → l.result.processed ≤ l'.result.processed
        → Counts l (returns l' es)

  pub later : (l m : Loop) (n : Next) → Follows l m → Counts m n → Counts l n
  later l m _ f (counts_on l' r p c d) =
      counts_on l' (RunsTo-trans rt _ _ _ f.runs r) (omega (arith, p, f.processed))
        (omega (arith, c, f.completed)) (omega (arith, d, f.failed))
  later l m _ f (counts_break l' g) = counts_break l' (record {
    runs = RunsTo-trans rt _ _ _ f.runs g.runs;
    processed = g.processed ∙ f.processed;
    completed = g.completed ∙ f.completed;
    failed = g.failed ∙ f.failed;
  })
  later l m _ f (counts_return l' es r c p d q) =
      counts_return l' es (RunsTo-trans rt _ _ _ f.runs r) (c ∙ f.completed)
        (omega (arith, p, f.processed)) (omega (arith, d, f.processed, f.failed))
        (omega (arith, q, f.processed))

  pub moved : (l : Loop) (w : World) → RunsTo rt l.world w → Follows l (record l { world = w })
  moved l w r = record { runs = r; processed = refl; completed = refl; failed = refl }

  quits :
      (l : Loop) (w : World) (es : List DrainError)
      → RunsTo rt l.world w
      → Counts l (returns (record l { world = w }) es)
  quits l w es r = counts_return _ es r refl (omega arith) (omega arith) (omega arith)

  cancel_stage-Counts : (id : String) (t : Turn) (l : Loop) → Counts l (cancel_stage rt id t l)
  unfolding cancel_stage
  cancel_stage-Counts id t l =
      let r = act-RunsTo rt t (Op.cancel_pending_queue id t.at) l.world in
      elim (Outcome-cases ((act rt t (Op.cancel_pending_queue id t.at) l.world).1)) [
        | inl (e, p) ↦ rw (p, cancel_stage) (quits l _ _ r)
        | inr p ↦
            rw (p, cancel_stage)
              (counts_break _
                (record { runs = r; processed = refl; completed = refl; failed = refl }))
      ]

  prompt_stage-Counts :
      (id : String) (r : Round) (next : QueuedPrompt) (l : Loop)
      → Counts l (prompt_stage rt id r next l)
  unfolding prompt_stage
  prompt_stage-Counts id r next l = elim (Reply-cases r.reply) [
    | inl (m, e) ↦
        let a = act-RunsTo rt r.mark (Op.mark_queue_failed id next.id m r.mark.at) l.world in
        elim (Outcome-cases
          ((act rt r.mark (Op.mark_queue_failed id next.id m r.mark.at) l.world).1)) [
            | inl (x, p) ↦
                rw (e, p, prompt_stage)
                  (counts_return _ _ a refl (omega arith) (omega arith) (omega arith))
            | inr p ↦
                rw (e, p, prompt_stage)
                  (counts_return _ _ (RunsTo-trans rt _ _ _ a (before-RunsTo rt r.count _)) refl
                    (omega arith) (omega arith) (omega arith))
          ]
    | inr (s, x, y, z, e) ↦
        let a = act-RunsTo rt r.mark (Op.mark_queue_completed id next.id x y z r.mark.at) l.world in
        elim (Outcome-cases
          ((act rt r.mark (Op.mark_queue_completed id next.id x y z r.mark.at) l.world).1)) [
            | inl (f, p) ↦
                rw (e, p, prompt_stage)
                  (counts_return _ _ a refl (omega arith) (omega arith) (omega arith))
            | inr p ↦ rw (e, p, prompt_stage) (counts_on _ a refl refl refl)
          ]
  ]

  abort_start-Counts :
      (id : String) (t : Turn) (e : DrainError) (l : Loop) → Counts l (abort_start rt id t e l)
  unfolding abort_start recovered
  abort_start-Counts id t e l =
      quits l _ _ (act-RunsTo rt t (Op.recover_running_queue_items id t.at) l.world)

  cancel_start-Counts : (id : String) (t : Turn) (l : Loop) → Counts l (cancel_start rt id t l)
  unfolding cancel_start recovered
  cancel_start-Counts id t l =
      let op = Op.recover_running_queue_items id t.at in
      let a = act-RunsTo rt t op l.world in
      elim (Outcome-cases ((act rt t op l.world).1)) [
        | inl (f, p) ↦
            rw (p, cancel_start)
              (counts_return _ _ a refl (omega arith) (omega arith) (omega arith))
        | inr p ↦
            rw (p, cancel_start)
              (counts_break _
                (record { runs = a; processed = refl; completed = refl; failed = refl }))
      ]

  Counts-if :
      (l : Loop) (c : Bool) (x y : Next) → Counts l x → Counts l y → Counts l (if c then x else y)
  Counts-if l true x y h k = h
  Counts-if l false x y h k = k

  renamed :
      (l : Loop) (w : World) (session : String)
      → RunsTo rt l.world w
      → Follows l (record l { world = w; result = record l.result { acp_session_id = session } })
  renamed l w session r = record { runs = r; processed = refl; completed = refl; failed = refl }

  name_stage-Counts :
      (id : String) (r : Round) (next : QueuedPrompt) (old session : String) (l : Loop)
      → Counts l (name_stage rt id r next old session l)
  unfolding name_stage
  name_stage-Counts id r next old session l =
      let op = Op.set_acp_session_id id session in
      let a = act-RunsTo rt r.set_acp op l.world in
      Counts-if l ((old == "") && not (session == "")) _ _
        (elim (Outcome-cases ((act rt r.set_acp op l.world).1)) [
          | inl (f, p) ↦ rw p (counts_return _ _ a refl (omega arith) (omega arith) (omega arith))
          | inr p ↦ rw p (later l _ _ (renamed l _ session a) (prompt_stage-Counts id r next _))
        ])
        (later l _ _ (renamed l _ session (RunsTo-refl rt l.world))
          (prompt_stage-Counts id r next _))

  live : (l : Loop) → Follows l (record l { runner = true })
  live l = record {
    runs = RunsTo-refl rt l.world;
    processed = refl;
    completed = refl;
    failed = refl;
  }

  launch_stage-Counts :
      (id : String) (r : Round) (next : QueuedPrompt) (old : String) (s : StartReply)
      (a : Admission) (l : Loop)
      → Counts l (launch_stage rt id r next old s a l)
  unfolding launch_stage
  launch_stage-Counts id r next old start_failed a l = abort_start-Counts id r.recover start_error l
  launch_stage-Counts id r next old start_canceled a l = cancel_start-Counts id r.recover l
  launch_stage-Counts id r next old (started session) unreleased l =
      later l _ _ (live l)
        (abort_start-Counts id r.recover admission_error (record l { runner = true }))
  launch_stage-Counts id r next old (started session) admitted l =
      later l _ _ (live l) (name_stage-Counts id r next old session (record l { runner = true }))
  launch_stage-Counts id r next old (started session) refused l =
      later l _ _ (live l) (name_stage-Counts id r next old session (record l { runner = true }))

  entered :
      (id : String) (r : Round) (next : QueuedPrompt) (a : Admission) (l : Loop)
      → Counts l (enter_stage rt id r next a l)
  unfolding enter_stage
  entered id r next a l =
      let f = moved l (before rt r.launch l.world) (before-RunsTo rt r.launch l.world) in
      elim (Read-cases (get_session rt r.launch id l.world)) [
        | inl (e, p) ↦ rw (p, enter_stage) (later l _ _ f (abort_start-Counts id r.recover e _))
        | inr (rec, p) ↦ elim (Bool-cases (cancellation_latched rec.status)) [
          | inl c ↦ rw (p, c, enter_stage) (later l _ _ f (cancel_start-Counts id r.recover _))
          | inr c ↦
              rw (p, c, enter_stage)
                (later l _ _ f (launch_stage-Counts id r next rec.acp_session_id r.start a _))
        ]
      ]

  admit_stage-Counts :
      (id : String) (r : Round) (next : QueuedPrompt) (a : Admission) (l : Loop)
      → Counts l (admit_stage rt id r next a l)
  unfolding admit_stage
  admit_stage-Counts id r next refused l = abort_start-Counts id r.recover admission_error l
  admit_stage-Counts id r next admitted l = entered id r next admitted l
  admit_stage-Counts id r next unreleased l = entered id r next unreleased l

  chosen-Counts :
      (l : Loop) (b : Bool) (x y : Next)
      → Counts l x
      → Counts l y
      → Counts l (elim b [ true ↦ x | false ↦ y ])
  chosen-Counts l true x y h k = h
  chosen-Counts l false x y h k = k

  start_stage-Counts :
      (id : String) (r : Round) (next : QueuedPrompt) (l : Loop)
      → Counts l (start_stage rt id r next l)
  unfolding start_stage
  start_stage-Counts id r next l =
      chosen-Counts l l.runner _ _ (prompt_stage-Counts id r next l)
        (admit_stage-Counts id r next r.admission l)

  run_stage-Counts :
      (id : String) (r : Round) (next : QueuedPrompt) (l : Loop)
      → Counts l (run_stage rt id r next l)
  unfolding run_stage
  run_stage-Counts id r next l =
      let w = checked rt r.second l.world in
      let c = checked-RunsTo rt r.second l.world in
      let op = Op.mark_queue_running id next.id r.running.at in
      elim (Read-cases (drain_cancel_requested rt r.second id l.world)) [
        | inl (e, p) ↦ rw (p, run_stage) (quits l _ _ c)
        | inr (true, p) ↦
            rw (p, run_stage) (later l _ _ (moved l w c) (cancel_stage-Counts id r.cancel _))
        | inr (false, p) ↦
            let a = RunsTo-trans rt _ _ _ c (act-RunsTo rt r.running op w) in
            elim (Outcome-cases ((act rt r.running op w).1)) [
              | inl (e, q) ↦ rw (p, q, run_stage) (quits l _ _ a)
              | inr q ↦
                  rw (p, q, run_stage) (later l _ _ (moved l _ a) (start_stage-Counts id r next _))
            ]
      ]

  pub iteration-Counts : (id : String) (r : Round) (l : Loop) → Counts l (iteration rt id r l)
  unfolding iteration
  iteration-Counts id r l =
      let w = checked rt r.first l.world in
      let c = checked-RunsTo rt r.first l.world in
      let a = RunsTo-trans rt _ _ _ c (before-RunsTo rt r.next w) in
      elim (Read-cases (drain_cancel_requested rt r.first id l.world)) [
        | inl (e, p) ↦ rw (p, iteration) (quits l _ _ c)
        | inr (true, p) ↦
            rw (p, iteration) (later l _ _ (moved l w c) (cancel_stage-Counts id r.cancel _))
        | inr (false, p) ↦ elim (Read-cases (get_session rt r.next id w)) [
          | inl (e, q) ↦ rw (p, q, iteration) (quits l _ _ a)
          | inr (rec, q) ↦ elim (Option-cases (first_pending rt rec.prompt_queue)) [
            | inl n ↦ rw (p, q, n, iteration) (counts_break _ (moved l _ a))
            | inr (next, n) ↦
                rw (p, q, n, iteration) (later l _ _ (moved l _ a) (run_stage-Counts id r next _))
          ]
        ]
      ]
