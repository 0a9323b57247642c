-- ===== src/AcpClient/EventLog/Numbering.antt =====
-- The lines of a log are numbered from 1 without a gap.
use mathlib.Core.Path.{subst}
use ratchet_cli.Base.{
  ℕ, ◌+◌, ◌≡◌, refl, String, Bool, some, List, [], ◌∷◌, ◌++◌, arith, length, length-append,
}
use ratchet_cli.AcpClient.EventLog.{EventLine, next_seq, encode_event_log}

abbrev pub Numbered : ℕ → List EventLine → Type 0
Numbered n [] = Unit
Numbered n (e ∷ es) = (e.seq ≡ n) × Numbered (n + 1) es

next_seq-Numbered :
    (n : ℕ) (e : EventLine) (es : List EventLine)
    → Numbered n (e ∷ es)
    → next_seq (e ∷ es) ≡ n + length (e ∷ es)
unfolding next_seq
next_seq-Numbered n e [] h = omega arith
next_seq-Numbered n e (e' ∷ es) h = omega (arith, next_seq-Numbered (n + 1) e' es h.1)

pub next_seq-length : (log : List EventLine) → Numbered 1 log → next_seq log ≡ 1 + length log
next_seq-length [] h = unfold next_seq in refl
next_seq-length (e ∷ es) h = next_seq-Numbered 1 e es h

Numbered-append :
    (n : ℕ) (xs ys : List EventLine)
    → Numbered n xs
    → Numbered (n + length xs) ys
    → Numbered n (xs ++ ys)
Numbered-append n [] ys h k = subst (λ m. Numbered m ys) (omega arith) k
Numbered-append n (x ∷ xs) ys h k =
    (h.0, Numbered-append (n + 1) xs ys h.1 (subst (λ m. Numbered m ys) (omega arith) k))

encode-Numbered :
    (valid_message : String → Bool) (now : ℕ) (events : List EventLine) (seq : ℕ)
    (lines : List EventLine)
    → encode_event_log valid_message now events seq ≡ some lines
    → Numbered seq lines × (length lines ≡ length events)
unfolding encode_event_log
encode-Numbered valid_message now [] seq [] h = (tt, refl)
encode-Numbered valid_message now [] seq (l ∷ lines) h = absurd (ground arith)
encode-Numbered valid_message now (e ∷ es) seq [] h = absurd (ground arith)
encode-Numbered valid_message now (e ∷ es) seq (l ∷ lines) h =
    let rest = encode-Numbered valid_message now es (seq + 1) lines (ground arith) in
    ((ground arith, rest.0), omega (arith, rest.1))

-- Encoded lines that are appended to a numbered log, from the number that the log gives, leave a
-- numbered log, with one line more for each event.
pub append-Numbered :
    (valid_message : String → Bool) (now : ℕ) (log events lines : List EventLine)
    → Numbered 1 log
    → encode_event_log valid_message now events (next_seq log) ≡ some lines
    → Numbered 1 (log ++ lines) × (length (log ++ lines) ≡ length log + length events)
append-Numbered valid_message now log events lines h e =
    let (numbered, size) = encode-Numbered valid_message now events (next_seq log) lines e in
    (
      Numbered-append 1 log lines h
          (subst (λ n. Numbered n lines) (next_seq-length log h) numbered),
      omega (arith, size, length-append log lines),
    )
