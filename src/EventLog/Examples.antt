-- ===== src/EventLog/Examples.antt =====
-- A history of two events under a small codec, and the theorems at it.
use Prim.Native.String
use cann_o_call.Prelude.{
  ℕ, ◌≡◌, refl, String, true, List, [], ◌∷◌, none, some, ◌⊎◌, ◌==◌, map, All, arith, if◌then◌else◌,
}
use cann_o_call.Prelude.Int64.{pos, inc, dec}
use cann_o_call.Prelude.Trim.{trim_space}
use cann_o_call.Prelude.Result.{ok}
use cann_o_call.EventLog.{
  Event, Codec, hashed_bytes, is_sha256, hash_event, genesis, requires_rust_acknowledgement,
  validate_rust_acknowledgement,
}
use cann_o_call.EventLog.Service.{
  Service, World, unreachable, written, cannot_open, open_failed, append,
}
use cann_o_call.EventLog.Service.Append.{IsHead, append-IsHead, append-Unmoved}
use cann_o_call.EventLog.History.{validate_history, verify, head_hash, next_seq}
use cann_o_call.EventLog.History.Chain.{
  Agrees, ShowsPrev, Collision, history_binding, verify-Agrees,
}
use cann_o_call.EventLog.Read.{
  checked_events, new, rust_acknowledged_events, HistoryReply, response,
}
use cann_o_call.EventLog.Read.Recovery.{NonEmptyHash, new-IsHead}
use cann_o_call.EventLog.Read.RustHistory.{Acknowledged, rust_acknowledged_events-IsHead}

abbrev event_at : ℕ → String → Event
event_at n prev = record {
  id = "e";
  seq = pos n;
  created_at = 7;
  type = "transition";
  workspace_id = "w";
  actor = "a";
  action = "move";
  status = "accepted";
  details = [];
  receipt_id = "";
  hash = String.◌++◌ "h" prev;
  prev_hash = prev;
  rust_ack = none;
}

-- An event is written as its previous hash, which tells the two events apart.
abbrev small_codec : Codec
small_codec = record {
  marshal = λ ev. some ev.prev_hash;
  unmarshal = λ line. some (event_at (if line == genesis then 1 else 2) line);
  sha256_hex = λ s. String.◌∷◌ "h" s;
}

abbrev first : Event
first = event_at 1 genesis

abbrev second : Event
second = event_at 2 "hgenesis"

abbrev two_events : List Event
two_events = first ∷ second ∷ []

abbrev after_one : Service
after_one = record {
  last_hash = "hgenesis";
  seq = pos 1;
  sidecar_url = "";
  file = some (genesis ∷ []);
}

abbrev quiet_world : World
quiet_world = record { now = 9; post = λ ev. unreachable; write = written }

two_events-valid : validate_history small_codec two_events ≡ ok tt
unfolding validate_history hash_event hashed_bytes requires_rust_acknowledgement inc
two_events-valid = refl

shows_prev : ShowsPrev small_codec
shows_prev e b h = (event_at (if b == genesis then 1 else 2) b, refl, ground (arith))

history_binding_example :
    (map (hashed_bytes small_codec) two_events ≡ map (hashed_bytes small_codec) two_events)
    ⊎ Collision small_codec
history_binding_example =
    history_binding small_codec shows_prev two_events two_events refl two_events-valid
      two_events-valid refl

verify-Agrees_example :
    Agrees small_codec 0 genesis two_events
      (validate_history small_codec two_events)
      (verify small_codec two_events)
verify-Agrees_example = verify-Agrees small_codec two_events

after_one-IsHead : IsHead small_codec (first ∷ []) after_one
unfolding validate_history hash_event hashed_bytes requires_rust_acknowledgement inc head_hash
    next_seq
after_one-IsHead = record { valid = refl; at_seq = refl; at_hash = refl }

append-IsHead_example :
    IsHead small_codec
      (first ∷ second ∷ [])
      (append small_codec quiet_world after_one (record second { seq = pos 0; prev_hash = "" })).0
unfolding append requires_rust_acknowledgement hash_event inc
append-IsHead_example =
    append-IsHead small_codec quiet_world after_one (record second { seq = pos 0; prev_hash = "" })
      second (first ∷ []) after_one-IsHead refl

abbrev stuck_world : World
stuck_world = record { now = 9; post = λ ev. unreachable; write = cannot_open }

append-Unmoved_example :
    ((append small_codec stuck_world after_one second).0.seq ≡ pos 1)
    × ((append small_codec stuck_world after_one second).0.last_hash ≡ "hgenesis")
    × ((append small_codec stuck_world after_one second).0.sidecar_url ≡ "")
unfolding append requires_rust_acknowledgement hash_event inc dec
append-Unmoved_example =
    append-Unmoved small_codec stuck_world after_one second open_failed (omega arith) refl

-- The file that holds both events, and what a restart reads from it.
abbrev file_lines : List String
file_lines = genesis ∷ "hgenesis" ∷ []

abbrev with_file : Service
with_file = record after_one { file = some file_lines }

non_empty : NonEmptyHash small_codec
non_empty b h = absurd (cc)

new-IsHead_example :
    (t : Service) × (new small_codec true "" (some file_lines) ≡ ok t)
    × IsHead small_codec two_events t
unfolding checked_events requires_rust_acknowledgement validate_history hash_event hashed_bytes inc
    trim_space
new-IsHead_example =
    new-IsHead small_codec "" with_file file_lines two_events non_empty refl refl refl
      (refl, (refl, tt)) (omega arith)

abbrev good_hash : String
good_hash = "0123456789abcdef0123456789abcdef0123456789abcdef0123456789abcdef"

-- The answer of a sidecar that holds both events.
abbrev both_records : HistoryReply
both_records = response 200 (
    some (
      (record { seq = pos 1; prev_hash = genesis; hash = good_hash; evidence = genesis })
      ∷ (record { seq = pos 2; prev_hash = good_hash; hash = good_hash; evidence = "hgenesis" })
      ∷ []))

abbrev with_sidecar : Service
with_sidecar = record {
  last_hash = genesis;
  seq = pos 0;
  sidecar_url = "http://ledger";
  file = none;
}

abbrev acked : Event → ℕ → Event
acked ev n = record ev { rust_ack = some (record { id = "e"; sequence = pos n; hash = good_hash }) }

rust_acknowledged_events-IsHead_example :
    IsHead small_codec
      (acked first 1 ∷ acked second 2 ∷ [])
      (rust_acknowledged_events small_codec both_records with_sidecar).0
    × All Acknowledged (acked first 1 ∷ acked second 2 ∷ [])
unfolding rust_acknowledged_events validate_rust_acknowledgement is_sha256
    requires_rust_acknowledgement validate_history hash_event hashed_bytes inc
rust_acknowledged_events-IsHead_example =
    rust_acknowledged_events-IsHead small_codec both_records with_sidecar
      (acked first 1 ∷ acked second 2 ∷ []) (λ e. absurd (cc)) (omega arith) refl
