-- ===== src/EventLog/Read.antt =====
-- The readers of internal/eventlog: `load` (eventlog.go), and `List`, `CheckedEvents` and
-- `RustAcknowledgedEvents` (list.go).
pub mod Recovery
pub mod RustHistory
use Prim.Native.Char.{Char, code}
use Prim.Native.String.{[], ◌∷◌, len}
use cann_o_call.Prelude.{
  ℕ, suc, ◌+◌, ◌*◌, String, Bool, true, false, not, ◌&&◌, ◌||◌, List, Option, none, some, ◌==◌, leb,
  nat_eq, if◌then◌else◌, length,
}
use mathlib.Core.List
use cann_o_call.Prelude.Trim.{trim_space}
use cann_o_call.Prelude.Int64.{ℤ, pos, ltb_ℤ, ◌==ℤ◌}
use cann_o_call.Prelude.Result.{Result, ok, err, ◌>>=◌, ◌>>◌, guard, or_fail, wrap_err}
use cann_o_call.EventLog.{
  RustAcknowledgement, Event, Codec, AckError, genesis, is_sha256, requires_rust_acknowledgement,
  validate_rust_acknowledgement,
}
use cann_o_call.EventLog.History.{HistoryError, validate_history, head_hash}
use cann_o_call.EventLog.Service.{Service, lines}

pub data ReadError : Type 0 where
  unreadable line_too_long accepted_without_ledger : ReadError
  malformed_line : ReadError
  invalid_history : HistoryError → ReadError
  unreachable bad_status decode_response : ReadError
  broken_rust_chain decode_evidence seq_differs : ReadError
  bad_ack : AckError → ReadError

-- A `bufio.Scanner` stops with `ErrTooLong` at a line that its buffer cannot hold.
pub scan : ℕ → List String → List String × Bool
scan max List.[] = (List.[], true)
scan max (List.◌∷◌ l ls) =
    let (before, fits) = scan max ls in
    if leb max (len l) then (List.[], false) else (List.◌∷◌ l before, fits)

abbrev pub load_limit : ℕ
load_limit = 10 * 1024 * 1024

abbrev pub read_limit : ℕ
read_limit = 64 * 1024 * 1024

module _ (codec : Codec) where
  -- `json.Unmarshal` of a line that is not blank; `none` for a blank one.
  decode_line : String → Option (Option Event)
  decode_line l =
      let line = trim_space l in if line == "" then none else some (codec.unmarshal line)

  -- Blank and malformed lines are passed over.
  lenient : List String → List Event
  unfolding decode_line
  lenient List.[] = List.[]
  lenient (List.◌∷◌ l ls) = elim (decode_line l) [
    | some (some ev) ↦ List.◌∷◌ ev (lenient ls)
    | _ ↦ lenient ls
  ]

  -- The first malformed line is an error; blank ones are passed over.
  strict : List String → Result ReadError (List Event)
  unfolding decode_line
  strict List.[] = ok List.[]
  strict (List.◌∷◌ l ls) =
      let rest = strict ls in
      elim (decode_line l) [
        | none ↦ rest
        | some none ↦ err malformed_line
        | some (some ev) ↦ (do events ← rest; ok (List.◌∷◌ ev events))
      ]

  -- `none` is a missing file. `readable` is the answer of `os.OpenFile` at a file that is there.
  unfoldable pub list : Bool → Service → Result ReadError (List Event)
  unfolding scan lenient
  list readable s = elim s.file [
    | none ↦ ok List.[]
    | some ls ↦ (do
      guard readable unreadable
      guard (scan read_limit ls).1 line_too_long
      ok (lenient (scan read_limit ls).0))
  ]

  -- What is before a line that is too long is decoded first, and its errors come first.
  checked_lines : List String × Bool → Result ReadError (List Event)
  unfolding strict
  checked_lines (before, fits) = do
    events ← strict before
    guard fits line_too_long
    wrap_err invalid_history (validate_history codec events)
    ok events

  unfoldable pub checked_events : Bool → Service → Result ReadError (List Event)
  unfolding scan checked_lines
  checked_events readable s = elim s.file [
    | none ↦ ok List.[]
    | some ls ↦ (do guard readable unreadable; checked_lines (scan read_limit ls))
  ]

  -- One round of the loop of `load`.
  load_event : Service → Event → Result ReadError Service
  load_event s ev = do
    guard (not (s.sidecar_url == "" && requires_rust_acknowledgement ev)) accepted_without_ledger
    ok (record s {
      seq = if ltb_ℤ s.seq ev.seq then ev.seq else s.seq;
      last_hash = if ev.hash == "" then s.last_hash else ev.hash;
    })

  load_events : Service → List Event → Result ReadError Service
  unfolding load_event
  load_events s List.[] = ok s
  load_events s (List.◌∷◌ ev events) = do s' ← load_event s ev; load_events s' events

  load : Bool → Service → Result ReadError Service
  unfolding scan lenient load_events
  load readable s = elim s.file [
    | none ↦ ok s
    | some ls ↦ (do
      guard readable unreadable
      loaded ← load_events s (lenient (scan load_limit ls).0)
      guard (scan load_limit ls).1 line_too_long
      ok loaded)
  ]

  -- `New`, over the file that is there.
  unfoldable pub new : Bool → String → Option (List String) → Result ReadError Service
  unfolding load
  new readable url file =
      load readable (record { last_hash = genesis; seq = pos 0; sidecar_url = url; file = file })

-- A record of the Rust ledger; `evidence` is the posted event.
pub record RustRecord : Type 0 where
  pub seq : ℤ
  pub prev_hash : String
  pub hash : String
  pub evidence : String

pub data HistoryReply : Type 0 where
  unreachable : HistoryReply
  response : ℕ → Option (List RustRecord) → HistoryReply

abbrev http_ok : ℕ
http_ok = 200

module _ (codec : Codec) where
  -- One round: the record's place in the Rust chain, its evidence, and what binds the two.
  rust_event : ℕ → String → RustRecord → Result ReadError Event
  rust_event n prev r = do
    guard (r.seq ==ℤ pos (n + 1) && r.prev_hash == prev && is_sha256 r.hash) broken_rust_chain
    decoded ← or_fail (codec.unmarshal r.evidence) decode_evidence
    let ack : RustAcknowledgement = record { id = decoded.id; sequence = r.seq; hash = r.hash }
    let ev : Event = record decoded { rust_ack = some ack }
    guard (ev.seq ==ℤ r.seq) seq_differs
    wrap_err bad_ack (validate_rust_acknowledgement ev)
    ok ev

  rust_events : ℕ → String → List RustRecord → Result ReadError (List Event)
  unfolding rust_event
  rust_events n prev List.[] = ok List.[]
  rust_events n prev (List.◌∷◌ r rs) =
      let rest = rust_events (suc n) r.hash rs in
      do ev ← rust_event n prev r; events ← rest; ok (List.◌∷◌ ev events)

  rust_history : HistoryReply → Result ReadError (List Event)
  unfolding rust_events
  rust_history unreachable = err ReadError.unreachable
  rust_history (response status body) = do
    guard (nat_eq status http_ok) bad_status
    records ← or_fail body decode_response
    events ← rust_events 0 genesis records
    wrap_err invalid_history (validate_history codec events)
    ok events

  -- The service goes on from the Rust head, and from nothing else.
  rebase : Service → Result ReadError (List Event) → Service × Result ReadError (List Event)
  rebase s (err e) = (s, err e)
  rebase s (ok events) =
      (record s { seq = pos (length events); last_hash = head_hash genesis events }, ok events)

  unfoldable pub rust_acknowledged_events :
      HistoryReply → Service → Service × Result ReadError (List Event)
  unfolding rust_history rebase
  rust_acknowledged_events reply s =
      if s.sidecar_url == "" then (s, ok List.[]) else rebase s (rust_history reply)
