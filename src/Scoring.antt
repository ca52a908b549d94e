-- ===== src/Scoring.antt =====
-- internal/scoring: the words of a text, the scores of the file nodes, and the candidates chosen from them.
-- A score is counted in the unit that makes it whole: semantic scores and confidences in halves, raw scores
-- in quarters, structural relevance in twentieths, so that an activation score is in eightieths. The
-- products that Go rounds are far apart, and equal exactly where these are.
pub mod Select
pub mod Bounds
mod Examples
use Prim.Native.Char.{Char}
use Prim.Native.String.{◌++◌}
use Prim.Native.String as Text
use cann_o_call.Prelude.{
  ℕ, zero, suc, ◌+◌, ◌*◌, String, Bool, true, false, not, ◌&&◌, ◌||◌, List, [], ◌∷◌, Option, none,
  some, map, filter, ◌==◌, ltb, nat_eq, if◌then◌else◌,
}
use cann_o_call.Prelude.Text.{str_lt}
use cann_o_call.Prelude.Sort.{sort}
use cann_o_call.Prelude.Int64.{ℤ, pos}
use cann_o_call.Prelude.Trim.{trim_space}
use cann_o_call.Prelude.Assoc.{find, put, has}
use cann_o_call.EventLog.{is_sha256}
use cann_o_call.Ingest.{Lib, SourcePacket, Metadata}
use cann_o_call.Graph
use cann_o_call.Graph.{Node, sorted_nodes, node_type_file}
use cann_o_call.Graph.Links.{first_by}

-- The standard library's `unicode.IsLetter` and `unicode.IsDigit`, and `strings.Fields`.
pub record Unicode : Type 0 where
  pub is_letter : Char → Bool
  pub is_digit : Char → Bool
  pub fields : String → List String

pub record Components : Type 0 where
  pub semantic_score : ℕ
  pub raw_score : ℕ
  pub structural_relevance : ℕ
  pub graph_proximity : ℕ
  pub source_confidence : ℕ
  pub coverage : ℕ
  pub activation_score : ℕ
  pub primary_matches : ℕ
  pub secondary_matches : ℕ
  pub meta_matches : ℕ

pub record ScoredNode : Type 0 where
  pub node : Node
  pub packet : SourcePacket
  pub components : Components

-- `if x > top { x = top }`
unfoldable pub at_most : ℕ → ℕ → ℕ
at_most top x = if ltb top x then top else x

-- `zeroComponents`
unfoldable pub zero_components : Components
zero_components = record {
  semantic_score = 0;
  raw_score = 0;
  structural_relevance = 17;
  graph_proximity = 1;
  source_confidence = 2;
  coverage = 1;
  activation_score = 0;
  primary_matches = 0;
  secondary_matches = 0;
  meta_matches = 0;
}

-- The keys of a set of texts that are not empty, sorted.
unfoldable pub sorted_set : List String → List String
unfolding first_by sort
sorted_set words = sort str_lt (λ s. s) (first_by (λ s. s) [] (filter (λ w. not (w == "")) words))

-- `countMatches`
unfoldable pub count_matches : List String → List String → ℕ
unfolding has
count_matches [] target = 0
count_matches (q ∷ tokens) target =
    let rest = count_matches tokens target in if has q target then suc rest else rest

-- The values of a map of texts, each with a space behind it.
unfoldable pub spaced : List (String × String) → String
spaced [] = ""
spaced ((k, v) ∷ m) = v ++ " " ++ spaced m

-- A zero `SourcePacket`.
abbrev pub empty_packet : SourcePacket
empty_packet = record {
  identity = record {
    source_id = "";
    source_type = "";
    source_ref = "";
    source_sha256 = "";
    workspace_id = "";
    extraction_version = "";
    extraction_id = "";
    locator = "";
    span = none;
  };
  content = record {
    source_id = "";
    content_id = "";
    content_hash = "";
    encoding = "";
    media_type = "";
    text = "";
    normalized_text = "";
    size = pos 0;
    ref = "";
  };
  metadata = record {
    source_id = "";
    author = "";
    title = "";
    mime_type = "";
    language = "";
    created_at = none;
    modified_at = none;
    encoding = "";
    document_properties = [];
    open_graph = [];
    source_tool = "";
    raw_properties = [];
    detected_kind = "";
  };
  provenance = record {
    workspace_id = "";
    extraction_id = "";
    extraction_version = "";
    source_locator = "";
    created_at = 0;
    event_id = "";
  };
}

-- The later of two packets of one source is kept.
unfoldable pub packets_by_source :
    List SourcePacket → List (String × SourcePacket) → List (String × SourcePacket)
unfolding put
packets_by_source [] m = m
packets_by_source (p ∷ l) m = packets_by_source l (put p.identity.source_id p m)

-- What `sort.Slice` compares: activation and raw scores fall, the node ids rise.
abbrev pub rank : ScoredNode → ℕ × ℕ × String
rank s = (s.components.activation_score, s.components.raw_score, s.node.node_id)

abbrev pub rank_lt : ℕ × ℕ × String → ℕ × ℕ × String → Bool
rank_lt (a, r, n) (b, q, m) =
    if nat_eq a b then if nat_eq r q then str_lt n m else ltb q r else ltb b a

module _ (lib : Lib) (u : Unicode) where
  -- What is no letter and no digit becomes a space.
  spread : String → String
  spread Text.[] = Text.[]
  spread (Text.◌∷◌ c s) =
      let rest = spread s in if u.is_letter c || u.is_digit c then Text.◌∷◌ c rest else " " ++ rest

  -- `tokenize`, which `TokenizeQuery` and `tokenSet` are
  unfoldable pub tokenize : String → List String
  unfolding spread sorted_set trim_space
  tokenize s = sorted_set (map trim_space (u.fields (spread (lib.to_lower s))))

  -- `metaTokenSet`
  unfoldable pub meta_token_set : Metadata → List String
  unfolding tokenize spaced
  meta_token_set m = tokenize (
      m.title
      ++ " "
      ++ m.mime_type
      ++ " "
      ++ m.language
      ++ " "
      ++ m.author
      ++ " "
      ++ m.source_tool
      ++ " "
      ++ m.detected_kind
      ++ " "
      ++ m.encoding
      ++ " "
      ++ spaced m.document_properties
      ++ spaced m.open_graph
      ++ spaced m.raw_properties)

  -- `dedupSorted`
  unfoldable pub dedup_sorted : List String → List String
  unfolding sorted_set trim_space
  dedup_sorted tokens = sorted_set (map (λ t. lib.to_lower (trim_space t)) tokens)

  -- The confidence in the hashes of a node and its packet, in halves.
  unfoldable pub source_confidence : String → String → ℕ
  unfolding trim_space
  source_confidence node packet =
      let no_hash =
        not (is_sha256 node)
        && not (is_sha256 packet)
        && ((trim_space node == "" && trim_space packet == "") || not (trim_space node == "")) in
      let stale = is_sha256 node && is_sha256 packet && not (lib.equal_fold node packet) in
      if no_hash || stale then 1 else 2

  -- The components from the three counts and the confidence.
  unfoldable pub combined : ℕ → ℕ → ℕ → ℕ → Components
  unfolding at_most
  combined primary secondary meta confidence =
      let p = at_most 4 primary in
      let s = at_most 8 secondary in
      let m = at_most 16 meta in
      let semantic = at_most 16 (p * 2 + s) in
      let structural = if ltb 0 s then 20 else 17 in
      record {
        semantic_score = semantic;
        raw_score = at_most 48 (semantic * 2 + m);
        structural_relevance = structural;
        graph_proximity = 1;
        source_confidence = confidence;
        coverage = 1;
        activation_score = semantic * structural * 1 * confidence * 1;
        primary_matches = p;
        secondary_matches = s;
        meta_matches = m;
      }

  -- `Score`
  unfoldable pub score : Node → SourcePacket → List String → Components
  unfolding zero_components dedup_sorted count_matches tokenize meta_token_set source_confidence
      combined
  score node packet tokens = elim (dedup_sorted tokens) [
    | [] ↦ zero_components
    | q ∷ l ↦
        combined (count_matches (q ∷ l) (tokenize packet.content.normalized_text))
          (count_matches (q ∷ l) (tokenize node.source_locator))
          (count_matches (q ∷ l) (meta_token_set packet.metadata))
          (source_confidence node.content_hash packet.content.content_hash)
  ]

  unfoldable pub scored_node : List (String × SourcePacket) → List String → Node → ScoredNode
  unfolding find score
  scored_node by_source tokens n =
      let packet : SourcePacket = elim (find n.source_id by_source) [
        | none ↦ empty_packet
        | some p ↦ p
      ] in
      record { node = n; packet = packet; components = score n packet tokens }

  unfoldable pub file_nodes : Graph.Graph → List Node
  unfolding sorted_nodes
  file_nodes g = filter (λ n. n.node_type == node_type_file) (sorted_nodes g)

  -- `ScoreGraph`, of a graph
  unfoldable pub score_graph : Graph.Graph → List SourcePacket → String → List ScoredNode
  unfolding tokenize file_nodes scored_node packets_by_source sort
  score_graph g packets query = elim (tokenize query) [
    | [] ↦ []
    | q ∷ l ↦
        sort rank_lt rank (map (scored_node (packets_by_source packets []) (q ∷ l)) (file_nodes g))
  ]
