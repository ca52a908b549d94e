-- ===== src/EventLog/Service.antt =====
-- internal/eventlog/eventlog.go: `Service`, `Append` and `forward`. The world answers through `World`.
pub mod Append
use cann_o_call.Prelude.{
  ℕ, String, Bool, not, ◌&&◌, List, [], ◌∷◌, ◌++◌, Option, none, some, ◌==◌, nat_eq, if◌then◌else◌,
}
use cann_o_call.Prelude.Int64.{ℤ, pos, ◌==ℤ◌, ltb_ℤ, inc, dec}
use cann_o_call.Prelude.Result.{Result, ok, err, ◌>>=◌, ◌>>◌, guard, or_fail, wrap_err}
use cann_o_call.EventLog.{
  RustAcknowledgement, Event, Codec, AckError, is_sha256, requires_rust_acknowledgement,
  validate_rust_acknowledgement, hash_event,
}

-- `path` and `client` are not state: the ledger file is, as the lines that it holds; `none` is no file.
pub record Service : Type 0 where
  pub last_hash : String
  pub seq : ℤ
  pub sidecar_url : String
  pub file : Option (List String)

-- The body that the sidecar answers a posted event with.
pub record AckBody : Type 0 where
  pub status : String
  pub id : String
  pub seq : ℤ
  pub hash : String

-- `none` is a body that does not decode.
pub data Reply : Type 0 where
  unreachable : Reply
  response : ℕ → Option AckBody → Reply

-- A failed write leaves the file with whatever lines it left there.
pub data Write : Type 0 where
  cannot_open written : Write
  failed : List String → Write

-- What the clock, the sidecar and the disk answer during one call.
pub record World : Type 0 where
  pub now : ℕ
  pub post : Event → Reply
  pub write : Write

pub data ForwardError : Type 0 where
  encode_request transport bad_status decode_body not_recorded id_mismatch seq_mismatch
        invalid_hash :
      ForwardError

pub data AppendError : Type 0 where
  id_required no_ledger_url hash_failed encode_failed open_failed write_failed : AppendError
  sidecar_rejected : ForwardError → AppendError
  unacknowledged : AckError → AppendError

abbrev pub created : ℕ
created = 201

accept_body : Event → AckBody → Result ForwardError RustAcknowledgement
accept_body ev ack = do
  guard (ack.status == "recorded") not_recorded
  guard (not (ack.id == "") && ack.id == ev.id) id_mismatch
  guard (ltb_ℤ (pos 0) ack.seq && ack.seq ==ℤ ev.seq) seq_mismatch
  guard (is_sha256 ack.hash) invalid_hash
  ok (record { id = ack.id; sequence = ack.seq; hash = ack.hash })

accept_reply : Event → Reply → Result ForwardError RustAcknowledgement
unfolding accept_body
accept_reply ev unreachable = err transport
accept_reply ev (response code body) = do
  guard (nat_eq code created) bad_status
  ack ← or_fail body decode_body
  accept_body ev ack

pub with_defaults : ℕ → Event → Event
with_defaults now ev = record ev {
  created_at = if nat_eq ev.created_at 0 then now else ev.created_at;
  type = if ev.type == "" then "transition" else ev.type;
  status = if ev.status == "" then "accepted" else ev.status;
}

admit : Service → Event → Result AppendError (Unit {0})
admit s ev = do
  guard (not (ev.id == "")) id_required
  guard (not (requires_rust_acknowledgement ev && s.sidecar_url == "")) no_ledger_url

rollback : Service → Service
rollback s = record s { seq = dec s.seq }

-- The lines of a file that is created where it is missing.
abbrev pub lines : Option (List String) → List String
lines none = []
lines (some ls) = ls

module _ (codec : Codec) where
  forward : World → Event → Result ForwardError RustAcknowledgement
  unfolding accept_reply
  forward w ev = do body ← or_fail (codec.marshal ev) encode_request; accept_reply ev (w.post ev)

  -- The event with the acknowledgement that it needs, or gets.
  acknowledge : World → Service → Event → Result AppendError Event
  unfolding forward
  acknowledge w s ev = if s.sidecar_url == "" then ok ev else (do
    ack ← wrap_err sidecar_rejected (forward w ev)
    ok (record ev { rust_ack = some ack }))

  confirm : Event → Result AppendError (Unit {0})
  confirm ev =
      if requires_rust_acknowledgement ev
      then wrap_err unacknowledged (validate_rust_acknowledgement ev)
      else ok tt

  -- From the hash to the line: what is computed before the file is opened.
  seal : World → Service → Event → Result AppendError (Event × String)
  unfolding acknowledge confirm
  seal w s ev = do
    hash ← or_fail (hash_event codec ev) hash_failed
    sealed ← acknowledge w s (record ev { hash = hash })
    confirm sealed
    line ← or_fail (codec.marshal sealed) encode_failed
    ok (sealed, line)

  store : Write → Service → Event → String → Service × Result AppendError Event
  unfolding rollback
  store cannot_open s ev line = (rollback s, err open_failed)
  store (failed left) s ev line = (record (rollback s) { file = some left }, err write_failed)
  store written s ev line =
      (record s { last_hash = ev.hash; file = some (lines s.file ++ line ∷ []) }, ok ev)

  -- `s.seq` was raised before the hash, and is lowered again on every error after that.
  finish :
      Write → Service → Result AppendError (Event × String) → Service × Result AppendError Event
  unfolding store rollback
  finish answer s (err e) = (rollback s, err e)
  finish answer s (ok (sealed, line)) = store answer s sealed line

  commit : World → Service → Event → Service × Result AppendError Event
  unfolding seal finish
  commit w s ev = finish w.write s (seal w s ev)

  -- What is refused before the number is raised leaves the service alone.
  proceed :
      World → Service → Event → Result AppendError (Unit {0}) → Service × Result AppendError Event
  unfolding commit
  proceed w s ev (err e) = (s, err e)
  proceed w s ev (ok _) =
      let raised = record s { seq = inc s.seq } in
      commit w raised (record ev { seq = raised.seq; prev_hash = s.last_hash })

  unfoldable pub append : World → Service → Event → Service × Result AppendError Event
  unfolding proceed admit with_defaults
  append w s ev = let e = with_defaults w.now ev in proceed w s e (admit s e)
