-- ===== src/Scoring/Examples.antt =====
-- Three scored nodes, and the theorems at them.
use Prim.Native.Char.{code}
use cann_o_call.Prelude.{none, ℕ, String, true, false, ◌&&◌, List, [], ◌∷◌, leb}
use cann_o_call.Prelude.Int64.{pos}
use cann_o_call.Ingest.{Lib}
use cann_o_call.Graph.{Node}
use cann_o_call.Scoring.{Unicode, ScoredNode, empty_packet, score}
use cann_o_call.Scoring.Bounds.{IsBounded, score-IsBounded}
use cann_o_call.Scoring.Select.{Config}

abbrev ascii : Unicode
ascii = record {
  is_letter = λ c. leb 97 (code c) && leb (code c) 122;
  is_digit = λ c. false;
  fields = λ s. s ∷ [];
}

abbrev small_lib : Lib
small_lib = record { to_lower = λ s. s; equal_fold = λ s t. true; sha256_hex = λ s. s }

abbrev file : String → Node
file id = record {
  node_id = id;
  source_id = "";
  source_sha256 = "";
  source_locator = "words";
  node_type = "file";
  content_id = "";
  content_hash = "";
  content_ref = "";
  metadata_ref = "";
  parent_id = "";
  provenance = record {
    workspace_id = "w";
    extraction_id = "";
    extraction_version = "v1";
    source_locator = "words";
    event_id = "";
  };
  created_event_id = "";
  derived_from_id = "";
  semantic_ref = "";
}

abbrev scored : String → ℕ → ScoredNode
scored id n = record {
  node = file id;
  packet = empty_packet;
  components = record {
    semantic_score = 2;
    raw_score = 4;
    structural_relevance = 20;
    graph_proximity = 1;
    source_confidence = 2;
    coverage = 1;
    activation_score = n;
    primary_matches = 1;
    secondary_matches = 0;
    meta_matches = 0;
  };
}

abbrev three : List ScoredNode
three = scored "a" 80 ∷ scored "b" 40 ∷ scored "c" 160 ∷ []

abbrev one_actor : Config
one_actor = record { threshold = none; max_candidates = pos 0; max_actors_per_request = pos 1 }

score-IsBounded_example : IsBounded (score small_lib ascii (file "a") empty_packet ("words" ∷ []))
score-IsBounded_example = score-IsBounded small_lib ascii (file "a") empty_packet ("words" ∷ [])
