-- ===== src/Transition/Propose.antt =====
-- `canonicalProposal`, `Propose`, `Restore` and `Import` of internal/transition/authority.go. The writer
-- is a function on a log of any type; `none` is its error.
pub mod Answers
pub mod Outcome
pub mod Recorded
pub mod Stable
use cann_o_call.Prelude.{
  ℕ, String, Bool, true, false, not, ◌&&◌, ◌||◌, List, [], ◌∷◌, Option, none, some, ◌==◌, nat_eq,
  if◌then◌else◌,
}
use cann_o_call.Prelude.Trim.{trim_space}
use cann_o_call.Prelude.Int64.{ℤ, pos}
use cann_o_call.Prelude.Result.{Result, ok, err, ◌>>=◌, ◌>>◌, guard, or_fail, wrap_err}
use cann_o_call.Json.{Json, raw}
use cann_o_call.EventLog.{Event, accepted_transition_event_type, validate_rust_acknowledgement}
use cann_o_call.Transition.{
  RejectClass, malformed, invalid, stale, policy, durable, conflict, Stop, rejected, panicked,
  StateRef, ProposedTransition, DurableBinding, AcceptedTransition, Projection, AcceptedRecord,
  Authority, Codec, ref,
}
use cann_o_call.Transition.Encode.{
  blank_binding, canonical_json, proposal_bytes, accepted_bytes, clone_projection,
}
use cann_o_call.Transition.Apply.{apply}

-- `true` is a denial; no policy denies nothing.
abbrev pub Policy : Type 0
Policy = Option (ProposedTransition → Projection → Bool)

pub denies : Policy → ProposedTransition → Projection → Bool
denies none p s = false
denies (some f) p s = f p s

is_blank : String → Bool
is_blank s = trim_space s == ""

names_missing : ProposedTransition → Bool
unfolding is_blank
names_missing p =
    is_blank p.transition_id
    || is_blank p.proposal_id
    || is_blank p.request_id
    || is_blank p.entity
    || is_blank p.node
    || is_blank p.prior.id
    || is_blank p.prior.hash

is_supported : String → Bool
is_supported operation = operation == "upsert" || operation == "restore" || operation == "import"

abbrev pub ref_eq : StateRef → StateRef → Bool
ref_eq r s = r.id == s.id && nat_eq r.version s.version && r.hash == s.hash

unfoldable pub lookup : String → List (String × AcceptedRecord) → Option AcceptedRecord
lookup k [] = none
lookup k ((j, r) ∷ m) = if j == k then some r else lookup k m

-- A write to the map; the key is new wherever the code writes.
abbrev pub insert :
    String → AcceptedRecord → List (String × AcceptedRecord) → List (String × AcceptedRecord)
insert k r m = (k, r) ∷ m

module _ (codec : Codec) where
  unfoldable pub canonical_admission : String → Option String
  canonical_admission given = if given == "" then some "{}" else canonical_json codec given

  unfoldable pub check_names : ProposedTransition → Result Stop (Unit {0})
  unfolding names_missing is_supported
  check_names p = do
    guard (not (names_missing p)) (rejected malformed)
    guard (is_supported p.operation) (rejected invalid)

  unfoldable pub normalize : ProposedTransition → Result Stop (String × ProposedTransition)
  normalize p = do
    result ← or_fail (canonical_json codec p.result_data) (rejected malformed)
    admission ← or_fail (canonical_admission p.admission_data) (rejected malformed)
    let n : ProposedTransition = record p { result_data = result; admission_data = admission }
    request ← or_fail (proposal_bytes codec n) panicked
    ok (request, n)

  -- The request's canonical bytes, and the proposal with its two payloads in canonical form.
  unfoldable pub canonical_proposal : ProposedTransition → Result Stop (String × ProposedTransition)
  canonical_proposal p = do check_names p; normalize p

  -- What a new proposal goes to the writer with.
  pub record Admission : Type 0 where
    pub request : String
    pub normalized : ProposedTransition
    pub next : Projection
    pub payload : String

  pub data Decision : Type 0 where
    repeated : AcceptedTransition → Decision
    admitted : Admission → Decision

  -- The transition before it is durable.
  abbrev pub pending : ProposedTransition → Projection → AcceptedTransition
  pending p next = record {
    proposal = p;
    result = ref next;
    admission = p.admission_data;
    durable = blank_binding;
    duplicate = false;
  }

  decide_new : Policy → Projection → String → ProposedTransition → Result Stop Decision
  unfolding denies
  decide_new pol s request p = do
    guard (ref_eq p.prior (ref s)) (rejected stale)
    guard (not (denies pol p (clone_projection s))) (rejected policy)
    next ← or_fail (apply codec s p) panicked
    payload ← or_fail (accepted_bytes codec (pending p next)) panicked
    ok (admitted (record { request = request; normalized = p; next = next; payload = payload }))

  decide_seen :
      Policy
      → Projection
      → String
      → ProposedTransition
      → Option AcceptedRecord
      → Result Stop Decision
  unfolding decide_new
  decide_seen pol s request p none = decide_new pol s request p
  decide_seen pol s request p (some prior) =
      if prior.request == request
      then ok (repeated (record prior.accepted { duplicate = true }))
      else err (rejected conflict)

  -- Everything up to the append: no state is changed.
  unfoldable pub decide : Policy → Authority → ProposedTransition → Result Stop Decision
  unfolding decide_seen lookup
  decide pol a p = do
    (request, n) ← canonical_proposal p
    decide_seen pol a.state request n (lookup n.transition_id a.accepted)

  abbrev pub accepted_event : Admission → Event
  accepted_event x = record {
    id = x.normalized.transition_id;
    seq = pos 0;
    created_at = 0;
    type = accepted_transition_event_type;
    workspace_id = x.normalized.entity;
    actor = "";
    action = "transition.accepted";
    status = "accepted";
    details = ("accepted_transition", raw x.payload) ∷ [];
    receipt_id = "";
    hash = "";
    prev_hash = "";
    rust_ack = none;
  }

  abbrev pub durable_binding : Event → DurableBinding
  durable_binding ev = record {
    event_id = ev.id;
    sequence = ev.seq;
    event_hash = ev.hash;
    rust_ack = ev.rust_ack;
  }

  -- What the acknowledged event makes of the authority.
  abbrev pub advance : Authority → Admission → Event → Authority × AcceptedTransition
  advance a x saved =
      let accepted = record (pending x.normalized x.next) { durable = durable_binding saved } in
      (
        record {
          state = x.next;
          accepted =
              insert x.normalized.transition_id
                (record { request = x.request; accepted = accepted }) a.accepted;
        },
        accepted,
      )

  -- The checks on what the writer returned.
  pub acknowledged : Admission → Option Event → Result Stop Event
  acknowledged x answer = do
    saved ← or_fail answer (rejected durable)
    guard (saved.id == x.normalized.transition_id) (rejected durable)
    wrap_err (λ _. rejected durable) (validate_rust_acknowledgement saved)
    ok saved

  settle : Authority → Admission → Result Stop Event → Authority × Result Stop AcceptedTransition
  settle a x (err e) = (a, err e)
  settle a x (ok saved) = let (a', accepted) = advance a x saved in (a', ok accepted)

  module _ {L : Type 0} (append : L → Event → L × Option Event) where
    enact : L → Authority → Result Stop Decision → L × Authority × Result Stop AcceptedTransition
    unfolding acknowledged settle
    enact log a (err e) = (log, a, err e)
    enact log a (ok (repeated accepted)) = (log, a, ok accepted)
    enact log a (ok (admitted x)) =
        let (log', answer) = append log (accepted_event x) in
        let (a', r) = settle a x (acknowledged x answer) in (log', a', r)

    unfoldable pub propose :
        Policy → L → Authority → ProposedTransition → L × Authority × Result Stop AcceptedTransition
    unfolding decide enact
    propose pol log a p = enact log a (decide pol a p)

    pub restore :
        Policy → L → Authority → ProposedTransition → L × Authority × Result Stop AcceptedTransition
    restore pol log a p = propose pol log a (record p { operation = "restore" })

    pub import :
        Policy → L → Authority → ProposedTransition → L × Authority × Result Stop AcceptedTransition
    import pol log a p = propose pol log a (record p { operation = "import" })
