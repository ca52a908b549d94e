-- ===== src/Transition/Rebuild/Refine.antt =====
-- internal/transition/rebuild.go `Rebuild` after internal/transition/authority.go `Propose`.
use cann_o_call.Prelude.{
  ◌≡◌, ◌≢◌, ne→false, inl, inr, refl, sym, ap, ◌∙◌, subst, String, true, List, [], ◌∷◌, ◌++◌,
  Option, none, some, arith, ◌==◌, eq_iff, eq_refl,
}
use cann_o_call.Prelude.Result.{Result, ok, err, guard, or_fail, ◌>>=◌, ◌>>◌, Result-cases}
use cann_o_call.Json.{Json}
use cann_o_call.EventLog
use cann_o_call.EventLog.Service.{Service, World, AppendError, append}
use cann_o_call.EventLog.Service.Append.{
  SameBody, IsHead, SameBody-with_defaults, append-Stored, append-IsHead,
}
use cann_o_call.Prelude.Int64.{ℤ, pos, inc, ◌==ℤ◌}
use cann_o_call.EventLog.History.{
  wrong_seq, prev_hash_mismatch, no_hash, hash_mismatch, check_ack_of, validate_history,
  validate_from, check_event, head_hash, next_seq,
}
use cann_o_call.EventLog.{
  Event, genesis, hashed_bytes, hash_event, requires_rust_acknowledgement,
  validate_rust_acknowledgement, accepted_transition_event_type,
}
use cann_o_call.Transition.{Stop, StateRef, ProposedTransition, Projection, Authority, Codec, ref}
use cann_o_call.Transition.Encode.{canonical_json}
use cann_o_call.Transition.Apply.{apply}
use cann_o_call.Transition.Propose.{
  Policy, Admission, canonical_proposal, lookup, ref_eq, pending, accepted_event, advance, propose,
}
use cann_o_call.Transition.Propose.Stable.{
  JsonLaws, canonical_proposal-again, canonical_proposal-admission,
}
use cann_o_call.Transition.Propose.Outcome.{Admits, Accepts, decide-Admits}
use cann_o_call.Transition.Rebuild.{
  valid_envelope, replay, replay_accepted, replay_all, rebuild, new,
}

ref_eq_refl : (r : StateRef) → ref_eq r r ≡ true
ref_eq_refl r = ground (arith, eq_refl r.id, eq_refl r.hash)

-- A saved event as `json.Unmarshal` reads it from a line: a detail is decoded, which for a payload that
-- was written as it stood gives another value.
abbrev pub read_back : Event → Json → Event
read_back saved detail = record saved { details = ("accepted_transition", detail) ∷ [] }

envelope-ok :
    (codec : EventLog.Codec) (sent saved : Event) (detail : Json)
    → sent.status ≡ "accepted"
    → sent.action ≡ "transition.accepted"
    → SameBody codec sent saved
    → saved.id ≢ ""
    → valid_envelope (read_back saved detail) ≡ true
unfolding valid_envelope
envelope-ok codec sent saved detail status action body known =
    rw (body.status, body.action, status, action, ne→false saved.id "" known)

-- One step of replay, from what its tests find.
replay_accepted-ok :
    (codec : Codec) (a : Authority) (ev : Event) (request : String) (n : ProposedTransition)
    (next : Projection) (detail : Json)
    → valid_envelope ev ≡ true
    → ev.details ≡ ("accepted_transition", detail) ∷ []
    → codec.read_accepted detail ≡ some (pending codec n next)
    → canonical_proposal codec n ≡ ok (request, n)
    → (ev.id == n.transition_id) ≡ true
    → lookup n.transition_id a.accepted ≡ none
    → ref_eq n.prior (ref a.state) ≡ true
    → apply codec a.state n ≡ some next
    → canonical_json codec n.admission_data ≡ some n.admission_data
    → replay_accepted codec a ev
      ≡ ok
          (advance codec a
            (record { request = request; normalized = n; next = next; payload = "" })
            ev).0
unfolding replay_accepted
replay_accepted-ok codec a ev request n next detail envelope details reads again same fresh current
      applied json =
    rw (
      envelope,
      details,
      reads,
      again,
      same,
      fresh,
      current,
      applied,
      ref_eq_refl (ref next),
      json,
      eq_refl n.admission_data,
    )

module _ (codec : Codec) (laws : JsonLaws codec) where
  replay-advance :
      (pol : Policy) (a : Authority) (p : ProposedTransition) (x : Admission codec) (saved : Event)
      (detail : Json)
      → Admits codec pol a p x
      → saved.id ≢ ""
      → SameBody codec.log (accepted_event codec x) saved
      → saved.id ≡ x.normalized.transition_id
      → codec.read_accepted detail ≡ some (pending codec x.normalized x.next)
      → replay codec a (read_back saved detail) ≡ ok (advance codec a x saved).0
  unfolding replay
  replay-advance pol a p x saved detail admits known body same_id reads =
      rw ((eq_iff saved.type accepted_transition_event_type).1 body.type) (
        replay_accepted-ok codec a (read_back saved detail) x.request x.normalized x.next detail
          (envelope-ok codec.log (accepted_event codec x) saved detail refl refl body known) refl
          reads (canonical_proposal-again codec laws p x.normalized x.request admits.canonical)
          ((eq_iff saved.id x.normalized.transition_id).1 same_id) admits.fresh admits.current
          admits.applied
          (canonical_proposal-admission codec laws p x.normalized x.request admits.canonical))

-- The event log as the authority's writer.
answer {ℓ} : {S : Type ℓ} → S × Result AppendError Event → S × Option Event
answer (s, ok saved) = (s, some saved)
answer (s, err e) = (s, none)

unfoldable pub durable_writer : EventLog.Codec → World → Service → Event → Service × Option Event
unfolding answer
durable_writer codec w s ev = answer (append codec w s ev)

read : Event → Option Event → Result AppendError Event
read d none = ok d
read d (some ev) = ok ev

none_is_not_some {ℓ} : {A : Type 0} {B : Type ℓ} {a : A} → none ≡ some a → B
none_is_not_some h = absurd (cc)

answered {ℓ} :
    {S : Type ℓ} (r : S × Result AppendError Event) (s : S) (saved : Event)
    → answer r ≡ (s, some saved)
    → (r.0 ≡ s) × (r.1 ≡ ok saved)
unfolding answer read
answered (t, ok ev) s saved h =
    let q : some ev ≡ some saved = λ i. (h i).1 in (λ i. (h i).0, ap (read ev) q)
answered (t, err e) s saved h = none_is_not_some (λ i. (h i).1)

-- The log is at the head of the history, and the history rebuilds the authority.
pub record Consistent (codec : Codec) (es : List Event) (s : Service) (a : Authority) : Type 0 where
  pub head : IsHead codec.log es s
  pub rebuilt : rebuild codec es ≡ ok a

known_id : (ev : Event) → validate_rust_acknowledgement ev ≡ ok tt → ev.id ≢ ""
unfolding validate_rust_acknowledgement
known_id ev h e = ground (arith, (eq_iff ev.id "").1 e)

bind-ok : (r : Result Stop Authority) → (r >>= λ b. ok b) ≡ r
bind-ok (ok b) = refl
bind-ok (err e) = refl

replay_all-snoc :
    (codec : Codec) (start a : Authority) (es : List Event) (ev : Event)
    → replay_all codec start es ≡ ok a
    → replay_all codec start (es ++ ev ∷ []) ≡ replay codec a ev
unfolding replay_all
replay_all-snoc codec start a [] ev h =
    let same : start ≡ a = ground (arith) in
    bind-ok (replay codec start ev) ∙ ap (λ b. replay codec b ev) same
replay_all-snoc codec start a (e ∷ es) ev h = elim (Result-cases (replay codec start e)) [
  | inl (x, f) ↦ absurd (ground (arith, f))
  | inr (next, f) ↦ rw f (replay_all-snoc codec next a es ev (ground (arith, f)))
]

rebuild-snoc :
    (codec : Codec) (es : List Event) (ev : Event) (a b : Authority)
    → rebuild codec es ≡ ok a
    → validate_history codec.log (es ++ ev ∷ []) ≡ ok tt
    → replay codec a ev ≡ ok b
    → rebuild codec (es ++ ev ∷ []) ≡ ok b
unfolding rebuild
rebuild-snoc codec es ev a b h v r = elim (Result-cases (validate_history codec.log es)) [
  | inl (e, f) ↦ absurd (ground (arith, f))
  | inr (u, f) ↦ elim (Result-cases (new codec)) [
    | inl (e, g) ↦ absurd (ground (arith, f, g))
    | inr (start, g) ↦ rw (v, g) (replay_all-snoc codec start a es ev (ground (arith, f, g)) ∙ r)
  ]
]

-- An event with the same hashed bytes is as good an end of a history.
hash_event-read_back :
    (codec : EventLog.Codec) (saved : Event) (detail : Json)
    → hashed_bytes codec (read_back saved detail) ≡ hashed_bytes codec saved
    → hash_event codec (read_back saved detail) ≡ hash_event codec saved
unfolding hash_event
hash_event-read_back codec saved detail same =
    ap (λ (o : Option String). elim o [ none ↦ none | some b ↦ some (codec.sha256_hex b) ]) same

check_event-read_back :
    (codec : EventLog.Codec) (prev : String) (expected : ℤ) (saved : Event) (detail : Json)
    → hashed_bytes codec (read_back saved detail) ≡ hashed_bytes codec saved
    → check_event codec prev expected (read_back saved detail)
      ≡ check_event codec prev expected saved
unfolding check_event check_ack_of requires_rust_acknowledgement validate_rust_acknowledgement
check_event-read_back codec prev expected saved detail same =
    let again : hash_event codec (read_back saved detail) ≡ hash_event codec saved =
      hash_event-read_back codec saved detail same in
    ap
      (λ (h : Option String). do
        guard (saved.seq ==ℤ expected) wrong_seq
        guard (saved.prev_hash == prev) prev_hash_mismatch
        computed ← or_fail h no_hash
        guard (computed == saved.hash) hash_mismatch
        check_ack_of saved)
      again

validate-read_back :
    (codec : EventLog.Codec) (prev : String) (expected : ℤ) (es : List Event) (saved : Event)
    (detail : Json)
    → hashed_bytes codec (read_back saved detail) ≡ hashed_bytes codec saved
    → validate_from codec prev expected (es ++ read_back saved detail ∷ [])
      ≡ validate_from codec prev expected (es ++ saved ∷ [])
unfolding validate_from
validate-read_back codec prev expected [] saved detail same =
    ap (λ r. r >> ok tt) (check_event-read_back codec prev expected saved detail same)
validate-read_back codec prev expected (e ∷ es) saved detail same =
    ap (λ r. check_event codec prev expected e >> r)
      (validate-read_back codec e.hash (inc expected) es saved detail same)

head_hash-read_back :
    (prev : String) (es : List Event) (saved : Event) (detail : Json)
    → head_hash prev (es ++ read_back saved detail ∷ []) ≡ head_hash prev (es ++ saved ∷ [])
unfolding head_hash
head_hash-read_back prev [] saved detail = refl
head_hash-read_back prev (e ∷ es) saved detail = head_hash-read_back e.hash es saved detail

next_seq-read_back :
    (n : ℤ) (es : List Event) (saved : Event) (detail : Json)
    → next_seq n (es ++ read_back saved detail ∷ []) ≡ next_seq n (es ++ saved ∷ [])
unfolding next_seq
next_seq-read_back n [] saved detail = refl
next_seq-read_back n (e ∷ es) saved detail = next_seq-read_back (inc n) es saved detail

IsHead-read_back :
    (codec : EventLog.Codec) (es : List Event) (s : Service) (saved : Event) (detail : Json)
    → hashed_bytes codec (read_back saved detail) ≡ hashed_bytes codec saved
    → IsHead codec (es ++ saved ∷ []) s
    → IsHead codec (es ++ read_back saved detail ∷ []) s
unfolding validate_history
IsHead-read_back codec es s saved detail same h = record {
  valid = validate-read_back codec genesis (pos 1) es saved detail same ∙ h.valid;
  at_seq = next_seq-read_back (pos 1) es saved detail ∙ h.at_seq;
  at_hash = head_hash-read_back genesis es saved detail ∙ h.at_hash;
}

-- Let the log stand at the head of the history `es`, and let replay of `es` give the authority
-- `a`. If a proposal is accepted through that log, the saved event as it is read back has the
-- bytes that were hashed, and its payload reads as the accepted transition that was encoded, then
-- the log stands at the head of `es` with the event that is read back, and replay of that longer
-- history gives the authority that the proposal left. The JSON laws of `JsonLaws` are assumed.
pub propose-Consistent :
    (codec : Codec) (laws : JsonLaws codec) (w : World) (pol : Policy) (es : List Event)
    (s : Service) (a : Authority) (p : ProposedTransition) (detail : Json)
    → Consistent codec es s a
    → (out : Accepts codec
        (durable_writer codec.log w)
        pol
        s
        a
        p
        (propose codec (durable_writer codec.log w) pol s a p))
    → hashed_bytes codec.log (read_back out.saved detail) ≡ hashed_bytes codec.log out.saved
    → codec.read_accepted detail ≡ some (pending codec out.x.normalized out.x.next)
    → Consistent codec
        (es ++ read_back out.saved detail ∷ [])
        (propose codec (durable_writer codec.log w) pol s a p).0
        (propose codec (durable_writer codec.log w) pol s a p).1
unfolding durable_writer
propose-Consistent codec laws w pol es s a p detail c out bytes reads =
    let (moved, stored) =
      answered (append codec.log w s (accepted_event codec out.x)) _ out.saved out.appended in
    let saved_head =
      append-IsHead codec.log w s (accepted_event codec out.x) out.saved es c.head stored in
    let head = IsHead-read_back codec.log es _ out.saved detail bytes saved_head in
    let kept = append-Stored codec.log w s (accepted_event codec out.x) out.saved stored in
    let body =
      SameBody-with_defaults codec.log w.now (accepted_event codec out.x) out.saved refl refl
        kept.same_body in
    let admits = decide-Admits codec pol a p out.x out.decided in
    let replayed =
      replay-advance codec laws pol a p out.x out.saved detail admits (known_id out.saved out.acked)
        body out.same_id reads in
    let back = read_back out.saved detail in
    record {
      head = subst (λ t. IsHead codec.log (es ++ back ∷ []) t) moved head;
      rebuilt =
          rebuild-snoc codec es back a _ c.rebuilt head.valid replayed ∙ ap ok (sym out.moved);
    }
