-- ===== src/Transition/Propose/Outcome.antt =====
-- What a call of `Propose` can come to, and what a second call with the same identity does.
use cann_o_call.Prelude.{
  ◌≡◌, refl, sym, ap, ◌∙◌, subst, inl, inr, String, true, List, Option, none, some, arith, ◌==◌,
  eq_iff, if◌then◌else◌, Option-cases, Bool-cases,
}
use cann_o_call.Prelude.Result.{Result, ok, err, Result-cases}
use cann_o_call.EventLog.{Event, validate_rust_acknowledgement}
use cann_o_call.Transition.{
  Stop, rejected, conflict, ProposedTransition, AcceptedTransition, AcceptedRecord, Projection,
  Authority, Codec, ref,
}
use cann_o_call.Transition.Encode.{accepted_bytes}
use cann_o_call.Transition.Apply.{apply}
use cann_o_call.Transition.Propose.{
  Policy, Decision, Admission, repeated, admitted, canonical_proposal, lookup, insert, ref_eq,
  pending, decide, decide_seen, decide_new, enact, settle, acknowledged, accepted_event, advance,
  propose,
}

module _ (codec : Codec) {L : Type 0} (append : L → Event → L × Option Event) where
  -- A new transition: it was admitted against the current state, the writer returned an event with its
  -- identity and a valid acknowledgement, and the authority moved to the admitted state.
  pub record Accepts (pol : Policy) (log : L) (a : Authority) (p : ProposedTransition)
      (out : L × Authority × Result Stop AcceptedTransition) : Type 0 where
    pub x : Admission codec
    pub saved : Event
    pub decided : decide codec pol a p ≡ ok (admitted x)
    pub appended : append log (accepted_event codec x) ≡ (out.0, some saved)
    pub same_id : saved.id ≡ x.normalized.transition_id
    pub acked : validate_rust_acknowledgement saved ≡ ok tt
    pub moved : out.1 ≡ (advance codec a x saved).0
    pub returned : out.2 ≡ ok (advance codec a x saved).1

  -- Refused, with the authority as it was; or a repetition that changes nothing; or a new transition.
  pub data Outcome (pol : Policy) (log : L) (a : Authority) (p : ProposedTransition)
      (out : L × Authority × Result Stop AcceptedTransition) : Type 0 where
    refuses : (e : Stop) → out.1 ≡ a → out.2 ≡ err e → Outcome pol log a p out
    repeats :
        (accepted : AcceptedTransition)
        → decide codec pol a p ≡ ok (repeated accepted)
        → out ≡ (log, a, ok accepted)
        → Outcome pol log a p out
    accepts : Accepts pol log a p out → Outcome pol log a p out

  pub acknowledged-ok :
      (x : Admission codec) (answer : Option Event) (saved : Event)
      → acknowledged codec x answer ≡ ok saved
      → (answer ≡ some saved)
        × (saved.id ≡ x.normalized.transition_id)
        × (validate_rust_acknowledgement saved ≡ ok tt)
  unfolding acknowledged
  acknowledged-ok x none saved h = absurd (ground arith)
  acknowledged-ok x (some ev) saved h = elim (Result-cases (validate_rust_acknowledgement ev)) [
    | inl (e, f) ↦ absurd (ground (arith, f))
    | inr (u, f) ↦
        let same : ev ≡ saved = ground (arith, f) in
        (
          ap some same,
          ground (arith, f, eq_iff ev.id x.normalized.transition_id, same),
          subst (λ e. validate_rust_acknowledgement e ≡ ok tt) same f,
        )
  ]

  enact-Outcome :
      (pol : Policy) (log : L) (a : Authority) (p : ProposedTransition)
      (d : Result Stop (Decision codec))
      → decide codec pol a p ≡ d
      → Outcome pol log a p (enact codec append log a d)
  unfolding enact settle
  enact-Outcome pol log a p (err e) q = refuses e refl refl
  enact-Outcome pol log a p (ok (repeated accepted)) q = repeats accepted q refl
  enact-Outcome pol log a p (ok (admitted x)) q =
      elim (Result-cases (acknowledged codec x (append log (accepted_event codec x)).1)) [
        | inl (e, f) ↦ rw (f, enact) (refuses e refl refl)
        | inr (saved, f) ↦
            let (answered, same_id, acked) =
              acknowledged-ok x (append log (accepted_event codec x)).1 saved f in
            rw (f, enact)
              (accepts (record {
                x = x;
                saved = saved;
                decided = q;
                appended = λ i. ((append log (accepted_event codec x)).0, answered i);
                same_id = same_id;
                acked = acked;
                moved = refl;
                returned = refl;
              }))
      ]

  -- Every call of `Propose` either fails and leaves the authority alone, or repeats what `decide` says,
  -- or makes the authority advance to what `decide` admits and the writer acknowledges.
  pub propose-Outcome :
      (pol : Policy) (log : L) (a : Authority) (p : ProposedTransition)
      → Outcome pol log a p (propose codec append pol log a p)
  unfolding propose
  propose-Outcome pol log a p = enact-Outcome pol log a p (decide codec pol a p) refl

module _ (codec : Codec) where
  -- What a decision to admit has established.
  pub record Admits (pol : Policy) (a : Authority) (p : ProposedTransition) (x : Admission codec)
      : Type 0 where
    pub canonical : canonical_proposal codec p ≡ ok (x.request, x.normalized)
    pub fresh : lookup x.normalized.transition_id a.accepted ≡ none
    pub current : ref_eq x.normalized.prior (ref a.state) ≡ true
    pub applied : apply codec a.state x.normalized ≡ some x.next
    pub encoded : accepted_bytes codec (pending codec x.normalized x.next) ≡ some x.payload

  abbrev NewAdmits : Projection → String → ProposedTransition → Admission codec → Type 0
  NewAdmits s request n x =
      (x.request ≡ request)
      × (x.normalized ≡ n)
      × (ref_eq n.prior (ref s) ≡ true)
      × (apply codec s n ≡ some x.next)
      × (accepted_bytes codec (pending codec n x.next) ≡ some x.payload)

  decide_new-Admits :
      (pol : Policy) (s : Projection) (request : String) (n : ProposedTransition)
      (x : Admission codec)
      → decide_new codec pol s request n ≡ ok (admitted x)
      → NewAdmits s request n x
  unfolding decide_new
  decide_new-Admits pol s request n x h = elim (Option-cases (apply codec s n)) [
    | inl f ↦ absurd (ground (arith, f))
    | inr (next, f) ↦ elim (Option-cases (accepted_bytes codec (pending codec n next))) [
      | inl g ↦ absurd (ground (arith, f, g))
      | inr (payload, g) ↦
          let made : Admission codec = record {
            request = request;
            normalized = n;
            next = next;
            payload = payload;
          } in
          let same : made ≡ x = ground (arith, f, g) in
          let current : ref_eq n.prior (ref s) ≡ true = elim (Bool-cases (ref_eq n.prior (ref s))) [
            | inl c ↦ c
            | inr c ↦ absurd (ground (arith, f, g, c))
          ] in
          subst (NewAdmits s request n) same (refl, refl, current, f, g)
    ]
  ]

  pub decide-Admits :
      (pol : Policy) (a : Authority) (p : ProposedTransition) (x : Admission codec)
      → decide codec pol a p ≡ ok (admitted x)
      → Admits pol a p x
  unfolding decide decide_seen
  decide-Admits pol a p x h = elim (Result-cases (canonical_proposal codec p)) [
    | inl (e, c) ↦ absurd (ground (arith, c))
    | inr ((request, n), c) ↦ elim (Option-cases (lookup n.transition_id a.accepted)) [
      | inr (prior, l) ↦ absurd (ground (arith, c, l))
      | inl l ↦
          let new = decide_new-Admits pol a.state request n x (ground (arith, c, l)) in
          record {
            canonical = c ∙ (λ i. ok (sym new.0 i, sym new.1 i));
            fresh = rw new.1 l;
            current = rw new.1 new.2;
            applied = rw new.1 new.3;
            encoded = rw new.1 new.4;
          }
    ]
  ]

  -- The keys of the map decide what a second proposal comes to.
  decide-seen :
      (pol : Policy) (a : Authority) (p n : ProposedTransition) (request : String)
      (r : AcceptedRecord)
      → canonical_proposal codec p ≡ ok (request, n)
      → lookup n.transition_id a.accepted ≡ some r
      → decide codec pol a p ≡ (
          if r.request == request
          then ok (repeated (record r.accepted { duplicate = true }))
          else err (rejected conflict))
  unfolding decide decide_seen
  decide-seen pol a p n request r c l = ground (arith, c, l)

pub lookup-insert_self :
    (k j : String) (r : AcceptedRecord) (m : List (String × AcceptedRecord))
    → j ≡ k
    → lookup j (insert k r m) ≡ some r
unfolding lookup
lookup-insert_self k j r m e = ground (arith, eq_iff k j)

module _ (codec : Codec) {L : Type 0} (append : L → Event → L × Option Event) (pol : Policy)
    (log : L) where
  pub propose-seen :
      (a : Authority) (p n : ProposedTransition) (request : String) (r : AcceptedRecord)
      → canonical_proposal codec p ≡ ok (request, n)
      → lookup n.transition_id a.accepted ≡ some r
      → propose codec append pol log a p ≡ (
        log,
        a,
        (if r.request == request
            then ok (record r.accepted { duplicate = true })
            else err (rejected conflict)),
      )
  unfolding propose enact
  propose-seen a p n request r c l =
      rw (decide-seen codec pol a p n request r c l)
        (elim (Bool-cases (r.request == request)) [ inl e ↦ rw e | inr e ↦ rw e ])

-- After an accepted proposal, a proposal with the same transition id changes neither the log nor
-- the authority, whatever its writer and policy: with the same canonical request it answers with
-- the recorded transition, marked as a duplicate, and with another one it is a conflict.
pub propose_again :
    (codec : Codec) {L : Type 0} (append append' : L → Event → L × Option Event) (pol pol' : Policy)
    (log log' : L) (a : Authority) (p q n : ProposedTransition) (request : String)
    → (out : Accepts codec append pol log a p (propose codec append pol log a p))
    → canonical_proposal codec q ≡ ok (request, n)
    → n.transition_id ≡ out.x.normalized.transition_id
    → propose codec append' pol' log' (propose codec append pol log a p).1 q ≡ (
      log',
      (propose codec append pol log a p).1,
      (if out.x.request == request
          then ok (record (advance codec a out.x out.saved).1 { duplicate = true })
          else err (rejected conflict)),
    )
propose_again codec append append' pol pol' log log' a p q n request out c same = rw out.moved (
    propose-seen codec append' pol' log' (advance codec a out.x out.saved).0 q n request
      (record { request = out.x.request; accepted = (advance codec a out.x out.saved).1 }) c
      (lookup-insert_self out.x.normalized.transition_id n.transition_id _ a.accepted same))
