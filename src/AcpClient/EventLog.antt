-- ===== src/AcpClient/EventLog.antt =====
-- internal/acpclient/eventlog.go: the numbering of event lines. A log is the list of its lines; the
-- JSON text of a line is not modelled, and whether a message is valid JSON-RPC is a parameter.
pub mod Numbering
use ratchet_cli.Base.{
  ℕ, suc, ◌+◌, ◌≡◌, refl, String, Bool, Option, none, some, List, [], ◌∷◌, ◌++◌, arith, eqb, length,
  if◌then◌else◌, Bool-cases, inl, inr,
}
use ratchet_cli.AcpClient.Normalize.{or_time}

pub data EventDirection : Type 0 where
  unset inbound outbound : EventDirection
  other : String → EventDirection

pub record EventLine : Type 0 where
  pub seq : ℕ
  pub direction : EventDirection
  pub at : ℕ
  pub message : String

abbrev pub or_inbound : EventDirection → EventDirection
or_inbound EventDirection.unset = EventDirection.inbound
or_inbound d = d

-- `nextSeq` of eventLogSnapshot and AppendEventLog: one more than the last line's number
unfoldable pub next_seq : List EventLine → ℕ
next_seq [] = 1
next_seq (e ∷ []) = e.seq + 1
next_seq (e ∷ e' ∷ rest) = next_seq (e' ∷ rest)

module _ (valid_message : String → Bool) where
  abbrev cons_line : EventLine → Option (List EventLine) → Option (List EventLine)
  cons_line e none = none
  cons_line e (some lines) = some (e ∷ lines)

  -- encodeEventLog; `none` is the error for an invalid message, `now` the time for lines with none
  unfoldable pub encode_event_log : ℕ → List EventLine → ℕ → Option (List EventLine)
  encode_event_log now [] seq = some []
  encode_event_log now (e ∷ rest) seq =
      let line = record e {
        seq = seq;
        at = or_time e.at now;
        direction = or_inbound e.direction;
      } in
      let lines = encode_event_log now rest (seq + 1) in
      if valid_message e.message then cons_line line lines else none
