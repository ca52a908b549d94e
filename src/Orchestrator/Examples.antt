-- ===== src/Orchestrator/Examples.antt =====
-- A packet that the authority accepts, and the theorems at it.
use cann_o_call.Prelude.{
  ◌≡◌, refl, ℕ, suc, Bool, true, false, Option, none, some, leb, ◌&&◌, if◌then◌else◌, String, [],
  ◌∷◌, ◌==◌, length,
}
use cann_o_call.Prelude.Int64.{pos}
use cann_o_call.Prelude.Trim.{trim_space}
use cann_o_call.Prelude.Result.{Result, ok, err}
use cann_o_call.Json.Canonical.{write_canonical}
use cann_o_call.EventLog.{Event, is_sha256, validate_rust_acknowledgement}
use cann_o_call.Transition.Examples.{small_codec, start, good_hash}
use cann_o_call.Transition.Encode.{
  accepted_bytes, proposal_bytes, clone_projection, canonical_json, hash_projection,
  projection_bytes,
}
use cann_o_call.Transition.Apply.{apply}
use cann_o_call.Transition.Propose.{
  propose, decide, canonical_proposal, check_names, canonical_admission, normalize, lookup,
}
use cann_o_call.Ingest.{validate_packet, deterministic_source_id, deterministic_content_id}
use cann_o_call.Ingest.Propose.{propose_ingest, proposal_of, transition_id_of}
use cann_o_call.Graph
use cann_o_call.Graph.Examples.{small_lib, small_graphs, small_dir, note, two_graph}
use Prim.Native.Char.{code}
use cann_o_call.Actor
use cann_o_call.Actor.{new_with_config}
use cann_o_call.Actor.Activate.{World}
use cann_o_call.Scoring.{Unicode, score_graph}
use cann_o_call.Orchestrator.Query.{query}
use cann_o_call.Orchestrator.Query.Observes.{Observes, query-Observes}
use cann_o_call.Graph.Build.{build}
use cann_o_call.Graph.Store
use cann_o_call.Graph.Store.{new_store}
use cann_o_call.Orchestrator.{Orchestrator, Env, OrchestratorError, new, ingest}
use cann_o_call.Orchestrator.FailClosed.{Ingests, ingest-Ingests}
use cann_o_call.Scoring.Select.{default_config, with_defaults, select_candidates}

abbrev env : Env
env = record {
  lib = small_lib;
  packets = record { marshal = λ p. some "{}"; unmarshal = λ s. none };
  graphs = small_graphs;
  dir = small_dir;
  json = small_codec;
  pol = none;
}

-- A writer that numbers what it records, with an acknowledgement.
abbrev recording : ℕ → Event → ℕ × Option Event
recording n ev = (
  suc n,
  some (record ev {
    seq = pos 1;
    hash = "h";
    rust_ack = some (record { id = ev.id; sequence = pos 1; hash = good_hash });
  }),
)

abbrev fresh : Orchestrator
fresh = new "w" (some (new_store "w")) (some start) none default_config

abbrev Outcome : Type 0
Outcome = Orchestrator × Result OrchestratorError Graph.Graph

abbrev or_fresh : Option Outcome → Outcome
or_fresh none = (fresh, err OrchestratorError.workspace_required)
or_fresh (some out) = out

abbrev ingested : Outcome
ingested = or_fresh (ingest env recording 0 fresh note).1

note-ingested : ingest env recording 0 fresh note ≡ (1, some ingested)
unfolding ingest propose_ingest proposal_of propose decide canonical_proposal check_names
    canonical_admission normalize apply accepted_bytes hash_projection projection_bytes
    proposal_bytes write_canonical validate_rust_acknowledgement is_sha256 lookup trim_space
    clone_projection canonical_json validate_packet deterministic_source_id deterministic_content_id
    transition_id_of Store.apply build new with_defaults new_store
note-ingested = refl

abbrev is_ok : Outcome → Bool
is_ok (o, ok g) = true
is_ok (o, err e) = false

note-ok : is_ok ingested ≡ true
unfolding ingest propose_ingest proposal_of propose decide canonical_proposal check_names
    canonical_admission normalize apply accepted_bytes hash_projection projection_bytes
    proposal_bytes write_canonical validate_rust_acknowledgement is_sha256 lookup trim_space
    clone_projection canonical_json validate_packet deterministic_source_id deterministic_content_id
    transition_id_of Store.apply build new with_defaults new_store
note-ok = refl

ingest-Ingests_example : Ingests env recording fresh note ingested
ingest-Ingests_example = ingest-Ingests env recording 0 1 fresh note ingested note-ingested

-- The words of the small texts.
abbrev ascii : Unicode
ascii = record {
  is_letter = λ c. leb 97 (code c) && leb (code c) 122;
  is_digit = λ c. false;
  fields = λ s. if s == "plain words" then "plain" ∷ "words" ∷ [] else s ∷ [];
}

abbrev drawn : Orchestrator
drawn =
    new "w" (some (record { graph = two_graph; packets = ("n", note) ∷ []; workspace_id = "w" }))
      none (some (new_with_config Actor.default_config))
      (record { threshold = some (pos 40); max_candidates = pos 0; max_actors_per_request = pos 0 })

abbrev noon : String → World
noon node = record { now = 43200; spawned = true }

one_selected :
    length (
      select_candidates
        (score_graph small_lib ascii two_graph (note ∷ []) "words")
        drawn.select_config)
    ≡ 1
unfolding select_candidates score_graph build deterministic_source_id is_sha256 new with_defaults
    trim_space
one_selected = refl

query-Observes_example :
    Observes drawn (query small_lib ascii (λ e. "invalid") noon "r" "words" "" drawn)
query-Observes_example = query-Observes small_lib ascii (λ e. "invalid") noon "r" "words" "" drawn
