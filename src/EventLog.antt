-- ===== src/EventLog.antt =====
-- internal/eventlog/eventlog.go: the event, the Rust acknowledgement and their checks. The children
-- hold the service's operations and the proofs.
pub mod Service
pub mod History
pub mod Read
mod Examples
use cann_o_call.Prelude.{
  ℕ, zero, suc, ◌≡◌, String, Bool, true, false, not, ◌&&◌, ◌||◌, List, Option, none, some, ◌==◌,
  leb, nat_eq, if◌then◌else◌,
}
use cann_o_call.Prelude.Int64.{ℤ, pos, negsuc, ◌==ℤ◌, ltb_ℤ}
use cann_o_call.Prelude.Result.{Result, ok, err, ◌>>=◌, ◌>>◌, guard, or_fail}
use cann_o_call.Json.{Json}
use Prim.Native.String.{[], ◌∷◌, len}
use Prim.Native.Char.{Char, code}

pub record RustAcknowledgement : Type 0 where
  pub id : String
  pub sequence : ℤ
  pub hash : String

-- Times are counted from the zero `time.Time`.
pub record Event : Type 0 where
  pub id : String
  pub seq : ℤ
  pub created_at : ℕ
  pub type : String
  pub workspace_id : String
  pub actor : String
  pub action : String
  pub status : String
  pub details : List (String × Json)
  pub receipt_id : String
  pub hash : String
  pub prev_hash : String
  pub rust_ack : Option RustAcknowledgement

abbrev pub accepted_transition_event_type : String
accepted_transition_event_type = "transition.authority.accepted"

abbrev pub genesis : String
genesis = "genesis"

-- The standard library's functions that the log calls: `json.Marshal` and `json.Unmarshal` at
-- `Event`, and the hexadecimal SHA-256. The theorems hold for every choice of them.
pub record Codec : Type 0 where
  pub marshal : Event → Option String
  pub unmarshal : String → Option Event
  pub sha256_hex : String → String

pub data AckError : Type 0 where
  missing_ack ack_id_mismatch ack_seq_mismatch ack_invalid_hash : AckError

-- `'0' <= c <= '9'`, `'a' <= c <= 'f'` or `'A' <= c <= 'F'`
is_hex : Char → Bool
is_hex c =
    let n = code c in
    leb b'0' n && leb n b'9' || leb b'a' n && leb n b'f' || leb b'A' n && leb n b'F'

-- Every byte is a hexadecimal digit; the length is checked by the caller.
all_hex : String → Bool
unfolding is_hex
all_hex [] = true
all_hex (c ∷ s) = is_hex c && all_hex s

-- `hex.DecodeString` accepts exactly the digits, in pairs; 64 is even.
unfoldable pub is_sha256 : String → Bool
unfolding all_hex
is_sha256 value = nat_eq (len value) 64 && all_hex value

unfoldable pub requires_rust_acknowledgement : Event → Bool
requires_rust_acknowledgement ev = ev.type == accepted_transition_event_type

check_ack : Event → RustAcknowledgement → Result AckError (Unit {0})
check_ack ev ack = do
  guard (not (ev.id == "") && ack.id == ev.id) ack_id_mismatch
  guard (ltb_ℤ (pos 0) ev.seq && ack.sequence ==ℤ ev.seq) ack_seq_mismatch
  guard (is_sha256 ack.hash) ack_invalid_hash

unfoldable pub validate_rust_acknowledgement : Event → Result AckError (Unit {0})
unfolding check_ack
validate_rust_acknowledgement ev = do ack ← or_fail ev.rust_ack missing_ack; check_ack ev ack

module _ (codec : Codec) where
  -- The bytes that the hash covers: all but the hash and the acknowledgement.
  unfoldable pub hashed_bytes : Event → Option String
  hashed_bytes ev = codec.marshal (record ev { hash = ""; rust_ack = none })

  unfoldable pub hash_event : Event → Option String
  unfolding hashed_bytes
  hash_event ev = elim (hashed_bytes ev) [
    | none ↦ none
    | some bytes ↦ some (codec.sha256_hex bytes)
  ]
