-- ===== src/Transition/Examples.antt =====
-- One proposal under a small codec, and the theorems at it.
use cann_o_call.Prelude.{
  subst, ℕ, ◌≡◌, refl, String, true, false, [], ◌∷◌, Option, none, some, ◌==◌, inl, inr, Bool-cases,
  arith, if◌then◌else◌,
}
use cann_o_call.Prelude.Int64.{pos, inc}
use cann_o_call.Prelude.Trim.{trim_space}
use cann_o_call.Prelude.Result.{ok}
use cann_o_call.Json.{Json, object, end}
use cann_o_call.Json.Canonical.{write_canonical}
use cann_o_call.EventLog
use cann_o_call.EventLog.Service.{Service, World, response, written, append}
use cann_o_call.EventLog.History.{validate_history, head_hash, next_seq}
use cann_o_call.EventLog.{
  Event, genesis, hash_event, hashed_bytes, is_sha256, requires_rust_acknowledgement,
  validate_rust_acknowledgement,
}
use cann_o_call.Transition.{
  ProposedTransition, Projection, Authority, AcceptedTransition, Codec, ref,
}
use cann_o_call.Transition.Encode.{
  accepted_bytes, proposal_bytes, clone_projection, blank_binding, canonical_json, initial,
  hash_projection, projection_bytes,
}
use cann_o_call.Transition.Apply.{apply}
use cann_o_call.Transition.Apply.Nodes.{Applied, apply-Applied}
use cann_o_call.Transition.Propose.{
  accepted_event, advance, lookup, propose, canonical_proposal, check_names, canonical_admission,
  normalize, decide, admitted, Admission,
}
use cann_o_call.Transition.Propose.Outcome.{Accepts, propose_again}
use cann_o_call.Transition.Propose.Answers.{Answers}
use cann_o_call.Transition.Rebuild.{new, rebuild}
use cann_o_call.Transition.Rebuild.Refine.{
  durable_writer, read_back, Consistent, propose-Consistent,
}
use cann_o_call.Transition.Propose.Stable.{JsonLaws}

abbrev pub small_log : EventLog.Codec
small_log = record {
  marshal = λ ev. some ev.prev_hash;
  unmarshal = λ line. none;
  sha256_hex = λ s. "h";
}

abbrev pub first_state : Projection
first_state = record {
  id = "semantic-state";
  version = 0;
  nodes = [];
  nil_nodes = false;
  hash = "h";
}

abbrev pub upsert : ProposedTransition
upsert = record {
  transition_id = "t";
  proposal_id = "p";
  request_id = "r";
  prior = ref first_state;
  operation = "upsert";
  entity = "e";
  node = "n";
  result_data = "{}";
  admission_data = "{}";
}

abbrev pub next_state : Projection
next_state = record first_state {
  version = 1;
  nodes = record { entity = "e"; node = "n"; content = "{}" } ∷ [];
}

abbrev pub accepted_upsert : AcceptedTransition
accepted_upsert = record {
  proposal = upsert;
  result = ref next_state;
  admission = "{}";
  durable = blank_binding;
  duplicate = false;
}

-- It reads the empty object and nothing else.
abbrev pub small_codec : Codec
small_codec = record {
  log = small_log;
  decode = λ s. if s == "{}" then some (object end) else none;
  read_accepted = λ v. some accepted_upsert;
}

abbrev pub start : Authority
start = record { state = first_state; accepted = [] }

-- A writer that numbers what it records.
abbrev counting : ℕ → Event → ℕ × Option Event
counting n ev = (n, some ev)

apply-Applied_example : Applied small_codec first_state next_state upsert
unfolding apply hash_projection projection_bytes write_canonical
apply-Applied_example = apply-Applied small_codec first_state next_state upsert tt refl

abbrev pub admission : Admission small_codec
admission = record {
  request =
      "{\"admission_data\":{},\"entity\":\"e\",\"node\":\"n\",\"operation\":\"upsert\",\"prior\":{\"hash\":\"h\",\"id\":\"semantic-state\",\"version\":0},\"proposal_id\":\"p\",\"request_id\":\"r\",\"result_data\":{},\"transition_id\":\"t\"}";
  normalized = upsert;
  next = next_state;
  payload =
      "{\"admission_data\":{},\"durable\":{\"event_hash\":\"\",\"event_id\":\"\",\"sequence\":0},\"proposal\":{\"admission_data\":{},\"entity\":\"e\",\"node\":\"n\",\"operation\":\"upsert\",\"prior\":{\"hash\":\"h\",\"id\":\"semantic-state\",\"version\":0},\"proposal_id\":\"p\",\"request_id\":\"r\",\"result_data\":{},\"transition_id\":\"t\"},\"result\":{\"hash\":\"h\",\"id\":\"semantic-state\",\"version\":1}}";
}

abbrev pub good_hash : String
good_hash = "0123456789abcdef0123456789abcdef0123456789abcdef0123456789abcdef"

abbrev pub saved_event : Event
saved_event = record (accepted_event small_codec admission) {
  seq = pos 1;
  created_at = 9;
  hash = "h";
  prev_hash = genesis;
  rust_ack = some (record { id = "t"; sequence = pos 1; hash = good_hash });
}

-- A sidecar that records what it is sent, and a disk that takes every line.
abbrev recording : World
recording = record {
  now = 9;
  post = λ ev.
      response 201
        (some (record { status = "recorded"; id = ev.id; seq = ev.seq; hash = good_hash }));
  write = written;
}

abbrev empty_log : Service
empty_log = record { last_hash = genesis; seq = pos 0; sidecar_url = "http://ledger"; file = none }

abbrev recorder : Service → Event → Service × Option Event
recorder = durable_writer small_log recording

the_text :
    (given s : String)
    → (given == "{}") ≡ true
    → canonical_json small_codec given ≡ some s
    → "{}" ≡ s
unfolding canonical_json write_canonical
the_text given s e h = ground (arith, e, h)

small_laws : JsonLaws small_codec
unfolding canonical_json write_canonical
small_laws = record {
  idempotent = λ given s h. elim (Bool-cases (given == "{}")) [
    | inl e ↦ subst (λ t. canonical_json small_codec t ≡ some t) (the_text given s e h) refl
    | inr e ↦ absurd (ground (arith, e, h))
  ];
  empty_object = refl;
  empty_input = refl;
}

empty-Consistent : Consistent small_codec [] empty_log start
unfolding rebuild new initial hash_projection projection_bytes write_canonical validate_history inc
    head_hash next_seq
empty-Consistent = record {
  head = record { valid = refl; at_seq = refl; at_hash = refl };
  rebuilt = refl;
}

upsert-decided : decide small_codec none start upsert ≡ ok (admitted admission)
unfolding propose decide canonical_proposal check_names canonical_admission normalize durable_writer
    append apply accepted_bytes hash_projection projection_bytes proposal_bytes write_canonical
    hash_event inc requires_rust_acknowledgement validate_rust_acknowledgement is_sha256 lookup
    trim_space clone_projection canonical_json
upsert-decided = refl

upsert-appended :
    recorder empty_log (accepted_event small_codec admission)
    ≡ ((propose small_codec recorder none empty_log start upsert).0, some saved_event)
unfolding propose decide canonical_proposal check_names canonical_admission normalize durable_writer
    append apply accepted_bytes hash_projection projection_bytes proposal_bytes write_canonical
    hash_event inc requires_rust_acknowledgement validate_rust_acknowledgement is_sha256 lookup
    trim_space clone_projection canonical_json
upsert-appended = refl

upsert-acked : validate_rust_acknowledgement saved_event ≡ ok tt
unfolding validate_rust_acknowledgement is_sha256
upsert-acked = refl

upsert-moved :
    (propose small_codec recorder none empty_log start upsert).1
    ≡ (advance small_codec start admission saved_event).0
unfolding propose decide canonical_proposal check_names canonical_admission normalize durable_writer
    append apply accepted_bytes hash_projection projection_bytes proposal_bytes write_canonical
    hash_event inc requires_rust_acknowledgement validate_rust_acknowledgement is_sha256 lookup
    trim_space clone_projection canonical_json
upsert-moved = refl

upsert-returned :
    (propose small_codec recorder none empty_log start upsert).2
    ≡ ok (advance small_codec start admission saved_event).1
unfolding propose decide canonical_proposal check_names canonical_admission normalize durable_writer
    append apply accepted_bytes hash_projection projection_bytes proposal_bytes write_canonical
    hash_event inc requires_rust_acknowledgement validate_rust_acknowledgement is_sha256 lookup
    trim_space clone_projection canonical_json
upsert-returned = refl

abbrev upsert_accepts :
    Accepts small_codec recorder none empty_log start upsert
      (propose small_codec recorder none empty_log start upsert)
upsert_accepts = record {
  x = admission;
  saved = saved_event;
  decided = upsert-decided;
  appended = upsert-appended;
  same_id = refl;
  acked = upsert-acked;
  moved = upsert-moved;
  returned = upsert-returned;
}

-- What the payload is read back as: another value than the one that was sent.
abbrev read_payload : Json
read_payload = object end

propose-Consistent_example :
    Consistent small_codec
      (read_back saved_event read_payload ∷ [])
      (propose small_codec recorder none empty_log start upsert).0
      (propose small_codec recorder none empty_log start upsert).1
unfolding hashed_bytes
propose-Consistent_example =
    propose-Consistent small_codec small_laws recording none [] empty_log start upsert read_payload
      empty-Consistent upsert_accepts refl refl

-- The same request after it was accepted, at another log and under a policy that denies it.
propose_again_example :
    propose small_codec recorder
      (some (λ p state. true))
      (record empty_log { seq = pos 5 })
      (propose small_codec recorder none empty_log start upsert).1
      upsert
    ≡ (
      record empty_log { seq = pos 5 },
      (propose small_codec recorder none empty_log start upsert).1,
      ok (record (advance small_codec start admission saved_event).1 { duplicate = true }),
    )
unfolding canonical_proposal check_names canonical_admission normalize canonical_json proposal_bytes
    write_canonical trim_space
propose_again_example =
    propose_again small_codec recorder recorder none (some (λ p state. true)) empty_log
      (record empty_log { seq = pos 5 }) start upsert upsert upsert admission.request upsert_accepts
      refl refl
