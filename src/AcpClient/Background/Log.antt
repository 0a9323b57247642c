-- ===== src/AcpClient/Background/Log.antt =====
-- The log of internal/acpclient/background_audit.go stays readable and has no record twice, whatever
-- fails.
use mathlib.Core.Path.{subst}
use ratchet_cli.Base.{
  ℕ, ◌+◌, ◌≤◌, ◌≡◌, refl, sym, String, Bool, true, false, not, ◌||◌, Option, none, some, List, [],
  ◌∷◌, ◌++◌, ◌==◌, eq_iff, eq_refl, arith, ◌⊎◌, inl, inr, if◌then◌else◌, Bool-cases, Option-cases,
}
use ratchet_cli.AcpClient.Background.Audit.{
  AuditRecord, AuditError, file_error, corrupt, validate_record, Line, junk, entry, AuditFile,
  ReadEnv, decode, repaired, read_repair, WriteReply, whole, whole_failed, part, nothing, AppendEnv,
  deferred, line_added, written_line, write_line, has_record, append,
}

-- How many records of the log have the id.
abbrev pub count_id : String → List Line → ℕ
count_id id [] = 0
count_id id (junk s ∷ ls) = count_id id ls
count_id id (entry r ∷ ls) = (if r.record_id == id then 1 else 0) + count_id id ls

pub record IsLog (f : AuditFile) : Type 0 where
  pub records : List AuditRecord
  pub decodes : decode f.lines ≡ some records
  pub unique : (id : String) → count_id id f.lines ≤ 1

count_id-append :
    (id : String) (r : AuditRecord) (ls : List Line)
    → count_id id (ls ++ entry r ∷ []) ≡ count_id id ls + (if r.record_id == id then 1 else 0)
count_id-append id r [] = omega arith
count_id-append id r (junk s ∷ ls) = count_id-append id r ls
count_id-append id r (entry x ∷ ls) = omega (arith, count_id-append id r ls)

-- one line of the loop
decoded_head :
    (r : AuditRecord) (ls : List Line) (rs : List AuditRecord)
    → decode (entry r ∷ ls) ≡ some rs
    → (validate_record r ≡ none)
      × (rest : List AuditRecord) × (decode ls ≡ some rest)
      × (rs ≡ r ∷ rest)
unfolding decode
decoded_head r ls rs e = elim (Option-cases (validate_record r)) [
  | inr (x, v) ↦ absurd (cc (rw (v, decode) at e))
  | inl v ↦ elim (Option-cases (decode ls)) [
    | inl n ↦ absurd (cc (rw (v, n, decode) at e))
    | inr (rest, n) ↦
        let same : Option.some (r ∷ rest) ≡ some rs = rw (v, n, decode) at e in
        (v, rest, n, ground (arith, same))
  ]
]

decode-append :
    (r : AuditRecord) (ls : List Line) (rs : List AuditRecord)
    → validate_record r ≡ none
    → decode ls ≡ some rs
    → decode (ls ++ entry r ∷ []) ≡ some (rs ++ r ∷ [])
unfolding decode
decode-append r [] rs v e =
    let same : List.[] ≡ rs = ground (arith, e) in rw (v, sym same, decode) refl
decode-append r (junk s ∷ ls) rs v e = absurd (cc e)
decode-append r (entry x ∷ ls) rs v e =
    let (w, rest, n, same) = decoded_head x ls rs e in
    rw (w, decode-append r ls rest v n, same, decode) refl

-- what has_record says of the records, it says of the lines
counted :
    (id : String) (ls : List Line) (rs : List AuditRecord)
    → decode ls ≡ some rs
    → (has_record id rs ≡ true → 1 ≤ count_id id ls)
      × (has_record id rs ≡ false → count_id id ls ≡ 0)
unfolding decode
counted id [] rs e =
    let same : List.[] ≡ rs = ground (arith, e) in
    (λ h. absurd (cc (rw (sym same) at h)), λ h. refl)
counted id (junk s ∷ ls) rs e = absurd (cc e)
counted id (entry x ∷ ls) rs e =
    let (w, rest, n, same) = decoded_head x ls rs e in
    let (has, lacks) = counted id ls rest n in
    elim (Bool-cases (x.record_id == id)) [
      | inl q ↦ (λ h. rw q (omega arith), λ h. absurd (cc (rw (same, q) at h)))
      | inr q ↦ (
        λ h. rw q (omega (arith, has (rw (same, q) at h))),
        λ h. rw q (omega (arith, lacks (rw (same, q) at h))),
      )
    ]

repaired-torn :
    (env : ReadEnv) (f : AuditFile) → (repaired env f).1 ≡ none → (repaired env f).0.torn ≡ false
unfolding repaired
repaired-torn env f h = ground arith

repaired_lines : (env : ReadEnv) (f : AuditFile) → (repaired env f).0.lines ≡ f.lines
unfolding repaired
repaired_lines env f = ground arith

-- What an append does to the lines.
pub record Appended (r : AuditRecord) (f' : AuditFile) (es : List AuditError) : Type 0 where
  pub log : IsLog f'
  pub done : es ≡ [] → count_id r.record_id f'.lines ≡ 1

same-IsLog : (f f' : AuditFile) → f'.lines ≡ f.lines → IsLog f → IsLog f'
same-IsLog f f' e h = record {
  records = h.records;
  decodes = rw e h.decodes;
  unique = λ id. rw e (h.unique id);
}

same-Appended :
    (r : AuditRecord) (f f' : AuditFile) (es : List AuditError)
    → IsLog f
    → f'.lines ≡ f.lines
    → (es ≡ [] → count_id r.record_id f.lines ≡ 1)
    → Appended r f' es
same-Appended r f f' es h e c = record { log = same-IsLog f f' e h; done = λ n. rw e (c n) }

counted_new :
    (id : String) (r : AuditRecord) (ls : List Line)
    → count_id r.record_id ls ≡ 0
    → count_id id ls ≤ 1
    → count_id id (ls ++ entry r ∷ []) ≤ 1
counted_new id r ls c h = elim (Bool-cases (r.record_id == id)) [
  | inr q ↦ omega (arith, rw q at (count_id-append id r ls), h)
  | inl q ↦
      let same : r.record_id ≡ id = ground (arith, eq_iff r.record_id id, q) in
      omega
        (arith, rw q at (count_id-append id r ls), subst (λ (k : String). count_id k ls ≡ 0) same c)
]

more-Appended :
    (r : AuditRecord) (f f' : AuditFile) (es : List AuditError)
    → IsLog f
    → validate_record r ≡ none
    → count_id r.record_id f.lines ≡ 0
    → f'.lines ≡ f.lines ++ entry r ∷ []
    → Appended r f' es
more-Appended r f f' es h v c e =
    let n = rw (eq_refl r.record_id) at (count_id-append r.record_id r f.lines) in
    record {
      log = record {
        records = h.records ++ r ∷ [];
        decodes = rw e (decode-append r f.lines h.records v h.decodes);
        unique = λ id. rw e (counted_new id r f.lines c (h.unique id));
      };
      done = λ none_failed. rw e (omega (arith, n, c));
    }

written_line-Appended :
    (env : AppendEnv) (r : AuditRecord) (f : AuditFile) (w : WriteReply)
    → IsLog f
    → validate_record r ≡ none
    → count_id r.record_id f.lines ≡ 0
    → f.torn ≡ false
    → Appended r (written_line env r f w).0 (written_line env r f w).1
unfolding written_line deferred line_added
written_line-Appended env r f nothing h v c whole_lines =
    same-Appended r f _ _ h refl (λ e. absurd (cc e))
written_line-Appended env r f part h v c whole_lines =
    same-Appended r f _ _ h refl (λ e. absurd (cc e))
written_line-Appended env r f whole_failed h v c whole_lines =
    more-Appended r f _ _ h v c (rw whole_lines refl)
written_line-Appended env r f whole h v c whole_lines =
    more-Appended r f _ _ h v c (rw whole_lines refl)

write_line-Appended :
    (env : AppendEnv) (r : AuditRecord) (f : AuditFile)
    → IsLog f
    → validate_record r ≡ none
    → count_id r.record_id f.lines ≡ 0
    → f.torn ≡ false
    → Appended r (write_line env r f).0 (write_line env r f).1
unfolding write_line deferred
write_line-Appended env r f h v c whole_lines =
    elim (Bool-cases (not (env.sought) || not (env.valid))) [
      | inl q ↦ rw (q, write_line) (same-Appended r f _ _ h refl (λ e. absurd (cc e)))
      | inr q ↦ rw (q, write_line) (written_line-Appended env r f env.written h v c whole_lines)
    ]

read_repair_lines : (env : ReadEnv) (f : AuditFile) → (read_repair env f).0.lines ≡ f.lines
unfolding read_repair
read_repair_lines env f = elim (Bool-cases (not (env.readable))) [
  | inl q ↦ rw (q, read_repair) refl
  | inr q ↦ elim (Option-cases (repaired env f).1) [
    | inr (e, p) ↦ rw (q, p, read_repair) (repaired_lines env f)
    | inl p ↦ elim (Option-cases (decode (repaired env f).0.lines)) [
      | inl n ↦ rw (q, p, n, read_repair) (repaired_lines env f)
      | inr (rs, n) ↦ rw (q, p, n, read_repair) (repaired_lines env f)
    ]
  ]
]

read_repair-cases :
    (env : ReadEnv) (f : AuditFile)
    → ((e : AuditError) × ((read_repair env f).1 ≡ inr e))
      ⊎ ((rs : List AuditRecord) × ((read_repair env f).1 ≡ inl rs)
          × (decode f.lines ≡ some rs)
          × ((read_repair env f).0.torn ≡ false))
unfolding read_repair
read_repair-cases env f = elim (Bool-cases (not (env.readable))) [
  | inl q ↦ inl (file_error, rw (q, read_repair) refl)
  | inr q ↦ elim (Option-cases (repaired env f).1) [
    | inr (e, p) ↦ inl (e, rw (q, p, read_repair) refl)
    | inl p ↦ elim (Option-cases (decode (repaired env f).0.lines)) [
      | inl n ↦ inl (corrupt, rw (q, p, n, read_repair) refl)
      | inr (rs, n) ↦ inr (
        rs,
        rw (q, p, n, read_repair) refl,
        rw (repaired_lines env f) at n,
        rw (q, p, n, read_repair) (repaired-torn env f p),
      )
    ]
  ]
]

-- Append leaves a log that can be read, with every record in it once.
pub append-Appended :
    (env : AppendEnv) (r : AuditRecord) (f : AuditFile)
    → IsLog f
    → Appended r (append env r f).0 (append env r f).1
unfolding append deferred
append-Appended env r f h = elim (Option-cases (validate_record r)) [
  | inr (x, v) ↦ rw (v, append) (same-Appended r f _ _ h refl (λ e. absurd (cc e)))
  | inl v ↦ elim (Bool-cases (not (env.opened))) [
    | inl q ↦ rw (v, q, append) (same-Appended r f _ _ h refl (λ e. absurd (cc e)))
    | inr q ↦
        let cut = (read_repair env.reading f).0 in
        let same = read_repair_lines env.reading f in
        let h' = same-IsLog f cut same h in
        elim (read_repair-cases env.reading f) [
          | inl (e, p) ↦ rw (v, q, p, append) (same-Appended r f cut _ h same (λ x. absurd (cc x)))
          | inr (rs, p, n, whole_lines) ↦
              let (has, lacks) = counted r.record_id f.lines rs n in
              elim (Bool-cases (has_record r.record_id rs)) [
                | inl b ↦
                    rw (v, q, p, b, append)
                      (same-Appended r f cut _ h same
                        (λ x. omega (arith, has b, h.unique r.record_id)))
                | inr b ↦
                    let new = rw (sym same) at (lacks b) in
                    rw (v, q, p, b, append) (write_line-Appended env r cut h' v new whole_lines)
              ]
        ]
  ]
]

abbrev pub smooth_append : AppendEnv
smooth_append = record {
  opened = true;
  reading = record { readable = true; valid = true; truncated = true; synced = true };
  sought = true;
  valid = true;
  written = whole;
  synced = true;
  closed = true;
  parent_synced = true;
  ended = true;
}

read_repair-smooth :
    (ls : List Line) (torn : Bool) (rs : List AuditRecord)
    → decode ls ≡ some rs
    → (read_repair smooth_append.reading (record { lines = ls; torn = torn })).1 ≡ inl rs
unfolding read_repair repaired
read_repair-smooth ls true rs e = rw (e, read_repair, repaired) refl
read_repair-smooth ls false rs e = rw (e, read_repair, repaired) refl

-- An append that nothing hinders has no error.
pub append-smooth :
    (r : AuditRecord) (f : AuditFile)
    → IsLog f
    → validate_record r ≡ none
    → (append smooth_append r f).1 ≡ []
unfolding append write_line written_line deferred
append-smooth r f h v =
    let p = read_repair-smooth f.lines f.torn h.records h.decodes in
    elim (Bool-cases (has_record r.record_id h.records)) [
      | inl b ↦ rw (v, p, b, append) refl
      | inr b ↦ rw (v, p, b, append) refl
    ]
