-- ===== src/EventLog/Service/Append.antt =====
-- What `Append` does to the log, on success and on every error.
use cann_o_call.Prelude.{
  ℕ, ◌≡◌, refl, String, true, false, List, [], ◌∷◌, ◌++◌, some, arith, ◌==◌, ap, subst, sym, ◌∙◌,
}
use cann_o_call.Prelude.Int64.{pos, inc, InRange, dec-inc}
use cann_o_call.Prelude.Result.{Result, ok, err}
use cann_o_call.EventLog.{
  Event, Codec, genesis, requires_rust_acknowledgement, validate_rust_acknowledgement, hash_event,
  hashed_bytes,
}
use cann_o_call.EventLog.History.{validate_history, head_hash, next_seq}
use cann_o_call.EventLog.History.Chain.{validate_history-snoc, head_hash-snoc, next_seq-snoc}
use cann_o_call.EventLog.Service.{
  Service, World, Write, cannot_open, written, failed, AppendError, append, proceed, admit, finish,
  seal, store, rollback, with_defaults, lines,
}

module _ (codec : Codec) where
  -- The service continues a valid history: its number and its hash are those of the last event.
  pub record IsHead (es : List Event) (s : Service) : Type 0 where
    pub valid : validate_history codec es ≡ ok tt
    pub at_seq : next_seq (pos 1) es ≡ inc s.seq
    pub at_hash : head_hash genesis es ≡ s.last_hash

  -- The parts of an event that the log never writes.
  pub record SameBody (sent saved : Event) : Type 0 where
    pub type : saved.type ≡ sent.type
    pub action : saved.action ≡ sent.action
    pub status : saved.status ≡ sent.status
    pub details : saved.details ≡ sent.details

  -- What an event that goes to the file has gone through.
  record Sealed (ev sealed : Event) (line : String) : Type 0 where
    hashed : hash_event codec sealed ≡ some sealed.hash
    same_id : sealed.id ≡ ev.id
    same_body : SameBody ev sealed
    same_seq : sealed.seq ≡ ev.seq
    same_prev : sealed.prev_hash ≡ ev.prev_hash
    acked :
        requires_rust_acknowledgement sealed ≡ true → validate_rust_acknowledgement sealed ≡ ok tt
    encoded : codec.marshal sealed ≡ some line

  seal-Sealed :
      (w : World) (s : Service) (ev sealed : Event) (line : String)
      → seal codec w s ev ≡ ok (sealed, line)
      → Sealed ev sealed line
  unfolding seal hash_event hashed_bytes
  seal-Sealed w s ev sealed line h = record {
    hashed = ground arith;
    same_id = ground arith;
    same_body = record {
      type = ground arith;
      action = ground arith;
      status = ground arith;
      details = ground arith;
    };
    same_seq = ground arith;
    same_prev = ground arith;
    acked = ground arith;
    encoded = ground arith;
  }

  -- What a successful call leaves, beside the returned event.
  pub record Stored (s : Service) (ev saved : Event) (s' : Service) : Type 0 where
    pub line : String
    pub hashed : hash_event codec saved ≡ some saved.hash
    pub same_id : saved.id ≡ ev.id
    pub same_body : SameBody ev saved
    pub same_seq : saved.seq ≡ inc s.seq
    pub same_prev : saved.prev_hash ≡ s.last_hash
    pub acked :
        requires_rust_acknowledgement saved ≡ true → validate_rust_acknowledgement saved ≡ ok tt
    pub encoded : codec.marshal saved ≡ some line
    pub seq_raised : s'.seq ≡ inc s.seq
    pub hash_moved : s'.last_hash ≡ saved.hash
    pub url_kept : s'.sidecar_url ≡ s.sidecar_url
    pub line_added : s'.file ≡ some (lines s.file ++ line ∷ [])

  store-Stored :
      (answer : Write) (s : Service) (ev sealed saved : Event) (line : String)
      → ev.seq ≡ inc s.seq
      → ev.prev_hash ≡ s.last_hash
      → Sealed ev sealed line
      → (store codec answer (record s { seq = inc s.seq }) sealed line).1 ≡ ok saved
      → Stored s ev saved (store codec answer (record s { seq = inc s.seq }) sealed line).0
  unfolding store
  store-Stored cannot_open s ev sealed saved line q p z e = cc
  store-Stored (failed left) s ev sealed saved line q p z e = cc
  store-Stored written s ev sealed saved line q p z e =
      subst (λ t. Stored s ev t after) moved
        (record {
          line = line;
          hashed = z.hashed;
          same_id = z.same_id;
          same_body = record {
            type = z.same_body.type;
            action = z.same_body.action;
            status = z.same_body.status;
            details = z.same_body.details;
          };
          same_seq = z.same_seq ∙ q;
          same_prev = z.same_prev ∙ p;
          acked = z.acked;
          encoded = z.encoded;
          seq_raised = refl;
          hash_moved = refl;
          url_kept = refl;
          line_added = refl;
        })
    where
      after : Service
      after = record s {
        seq = inc s.seq;
        last_hash = sealed.hash;
        file = some (lines s.file ++ line ∷ []);
      }

      moved : sealed ≡ saved
      moved = cc

  finish-Stored :
      (answer : Write) (s : Service) (ev saved : Event) (r : Result AppendError (Event × String))
      → ev.seq ≡ inc s.seq
      → ev.prev_hash ≡ s.last_hash
      → ((sealed : Event) (line : String) → r ≡ ok (sealed, line) → Sealed ev sealed line)
      → (finish codec answer (record s { seq = inc s.seq }) r).1 ≡ ok saved
      → Stored s ev saved (finish codec answer (record s { seq = inc s.seq }) r).0
  unfolding finish
  finish-Stored answer s ev saved (err x) q p z e = cc
  finish-Stored answer s ev saved (ok (sealed, line)) q p z e =
      store-Stored answer s ev sealed saved line q p (z sealed line refl) e

  proceed-Stored :
      (w : World) (s : Service) (ev saved : Event) (r : Result AppendError (Unit {0}))
      → (proceed codec w s ev r).1 ≡ ok saved
      → Stored s ev saved (proceed codec w s ev r).0
  unfolding proceed
  proceed-Stored w s ev saved (err x) e = cc
  proceed-Stored w s ev saved (ok _) e =
      let numbered = record ev { seq = inc s.seq; prev_hash = s.last_hash } in
      let raised = record s { seq = inc s.seq } in
      let z =
        finish-Stored w.write s numbered saved (seal codec w raised numbered) refl refl
          (λ sealed line f. seal-Sealed w raised numbered sealed line f) e in
      record {
        line = z.line;
        hashed = z.hashed;
        same_id = z.same_id;
        same_body = record {
          type = z.same_body.type;
          action = z.same_body.action;
          status = z.same_body.status;
          details = z.same_body.details;
        };
        same_seq = z.same_seq;
        same_prev = z.same_prev;
        acked = z.acked;
        encoded = z.encoded;
        seq_raised = z.seq_raised;
        hash_moved = z.hash_moved;
        url_kept = z.url_kept;
        line_added = z.line_added;
      }

  -- Whatever the world answers, a call that returns an event has done all of this.
  pub append-Stored :
      (w : World) (s : Service) (ev saved : Event)
      → (append codec w s ev).1 ≡ ok saved
      → Stored s (with_defaults w.now ev) saved (append codec w s ev).0
  unfolding append
  append-Stored w s ev saved e =
      let d = with_defaults w.now ev in proceed-Stored w s d saved (admit s d) e

  -- If the service stands at the head of a valid history and `Append` succeeds, then the history
  -- with the saved event is valid, and the service stands at its head.
  pub append-IsHead :
      (w : World) (s : Service) (ev saved : Event) (es : List Event)
      → IsHead es s
      → (append codec w s ev).1 ≡ ok saved
      → IsHead (es ++ saved ∷ []) (append codec w s ev).0
  append-IsHead w s ev saved es h e = record {
    valid =
        validate_history-snoc codec es saved h.valid z.hashed (z.same_seq ∙ sym h.at_seq)
          (z.same_prev ∙ sym h.at_hash) z.acked;
    at_seq = next_seq-snoc (pos 1) es saved ∙ ap inc (h.at_seq ∙ sym z.seq_raised);
    at_hash = head_hash-snoc genesis es saved ∙ sym z.hash_moved;
  }
    where
      z : Stored s (with_defaults w.now ev) saved (append codec w s ev).0
      z = append-Stored w s ev saved e

  abbrev Unmoved : Service → Service × Result AppendError Event → Type 0
  Unmoved s r =
      (x : AppendError)
      → r.1 ≡ err x
      → (r.0.seq ≡ s.seq) × (r.0.last_hash ≡ s.last_hash) × (r.0.sidecar_url ≡ s.sidecar_url)

  finish-Unmoved :
      (answer : Write) (s : Service) (r : Result AppendError (Event × String))
      → InRange s.seq
      → Unmoved s (finish codec answer (record s { seq = inc s.seq }) r)
  unfolding finish store rollback
  finish-Unmoved answer s (err y) range x e = (dec-inc s.seq range, refl, refl)
  finish-Unmoved cannot_open s (ok t) range x e = (dec-inc s.seq range, refl, refl)
  finish-Unmoved written s (ok t) range x e = cc
  finish-Unmoved (failed left) s (ok t) range x e = (dec-inc s.seq range, refl, refl)

  proceed-Unmoved :
      (w : World) (s : Service) (ev : Event) (r : Result AppendError (Unit {0}))
      → InRange s.seq
      → Unmoved s (proceed codec w s ev r)
  unfolding proceed
  proceed-Unmoved w s ev (err y) range x e = (refl, refl, refl)
  proceed-Unmoved w s ev (ok _) range x e =
      let numbered = record ev { seq = inc s.seq; prev_hash = s.last_hash } in
      finish-Unmoved w.write s (seal codec w (record s { seq = inc s.seq }) numbered) range x e

  -- When `Append` fails, at whatever point, and the number is one of `int64`, the number, the head
  -- hash and the ledger's address are as before.
  pub append-Unmoved :
      (w : World) (s : Service) (ev : Event) (x : AppendError)
      → InRange s.seq
      → (append codec w s ev).1 ≡ err x
      → ((append codec w s ev).0.seq ≡ s.seq)
        × ((append codec w s ev).0.last_hash ≡ s.last_hash)
        × ((append codec w s ev).0.sidecar_url ≡ s.sidecar_url)
  unfolding append
  append-Unmoved w s ev x range refused =
      let d = with_defaults w.now ev in proceed-Unmoved w s d (admit s d) range x refused

  -- The defaults fill what is empty, and nothing else.
  pub SameBody-with_defaults :
      (now : ℕ) (ev saved : Event)
      → (ev.type == "") ≡ false
      → (ev.status == "") ≡ false
      → SameBody (with_defaults now ev) saved
      → SameBody ev saved
  unfolding with_defaults
  SameBody-with_defaults now ev saved typed settled b = record {
    type = b.type ∙ rw typed refl;
    action = b.action;
    status = b.status ∙ rw settled refl;
    details = b.details;
  }
