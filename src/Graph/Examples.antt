-- ===== src/Graph/Examples.antt =====
-- Two packets under small library functions, and the theorems at them.
use mathlib.Core.List.Permᴰ
use mathlib.Core.List.{Permᴰ}
use cann_o_call.Prelude.{
  ◌++◌, append-nil, ◌≡◌, refl, subst, String, false, List, [], ◌∷◌, Option, none, some, All, ◌==◌,
  if◌then◌else◌,
}
use cann_o_call.Prelude.Int64.{pos}
use cann_o_call.Prelude.Trim.{trim_space}
use cann_o_call.Prelude.Maps.{false→ne}
use cann_o_call.Prelude.Sort.Permute.{Perm-middle}
use cann_o_call.EventLog.{is_sha256}
use cann_o_call.Transition.{AcceptedTransition}
use cann_o_call.Transition.Encode.{blank_binding}
use cann_o_call.Ingest
use cann_o_call.Ingest.{
  Lib, SourcePacket, deterministic_source_id, deterministic_content_id, validate_packet,
}
use cann_o_call.Ingest.Propose.{packets_from_history, packet_from_accepted}
use cann_o_call.Graph
use cann_o_call.Graph.{Codec, Edge}
use cann_o_call.Graph.Build.{build, links_of, source_id_of}
use cann_o_call.Graph.Build.Order.{HasDistinctSources, IsReadable, build-Perm}
use cann_o_call.Graph.Build.Joined.{build-Joins}
use cann_o_call.Graph.Build.Ends.{Joins}
use cann_o_call.Graph.Store.{Store, new_store, rebuild_from_accepted, packets}
use cann_o_call.Graph.Store.Rebuild.{apply_all, rebuild-apply_all}
use cann_o_call.Graph.Links.{extract_links}

abbrev pub small_lib : Lib
small_lib = record { to_lower = λ s. s; equal_fold = λ s t. s == t; sha256_hex = λ s. s }

abbrev pub small_graphs : Codec
small_graphs = record {
  value = λ g. none;
  iterate = λ l. (l, Permᴰ.refl l);
  sprint = λ g. g.workspace_id;
}

abbrev pub small_dir : String → String
small_dir s = if s == "a/x.md" then "a" else if s == "a/y.html" then "a" else "."

abbrev sha : String
sha = "aaaaaaaaaaaaaaaaaaaaaaaaaaaaaaaaaaaaaaaaaaaaaaaaaaaaaaaaaaaaaaaa"

abbrev pub packet : String → String → String → SourcePacket
packet kind path body =
    let id = deterministic_source_id small_lib "w" kind path sha "v1" in
    record {
      identity = record {
        source_id = id;
        source_type = kind;
        source_ref = path;
        source_sha256 = sha;
        workspace_id = "w";
        extraction_version = "v1";
        extraction_id = "ingest-v1";
        locator = path;
        span = none;
      };
      content = record {
        source_id = id;
        content_id = deterministic_content_id small_lib id sha;
        content_hash = sha;
        encoding = "";
        media_type = "";
        text = body;
        normalized_text = body;
        size = pos 1;
        ref = "";
      };
      metadata = record {
        source_id = id;
        author = "";
        title = "";
        mime_type = "";
        language = "";
        created_at = none;
        modified_at = none;
        encoding = "";
        document_properties = [];
        open_graph = [];
        source_tool = "";
        raw_properties = [];
        detected_kind = "";
      };
      provenance = record {
        workspace_id = "w";
        extraction_id = "ingest-v1";
        extraction_version = "v1";
        source_locator = path;
        created_at = 0;
        event_id = "";
      };
    }

abbrev pub note : SourcePacket
note = packet "generic" "a/x.md" "plain words"

abbrev page : SourcePacket
page = packet "html" "a/y.html" "<a href='z'>words</a>"

page_links : extract_links page.content.text page.content.text ≡ some ("z" ∷ [])
unfolding extract_links
page_links = refl

two_distinct : HasDistinctSources (note ∷ page ∷ [])
unfolding deterministic_source_id trim_space
two_distinct = ((false→ne (source_id_of note) (source_id_of page) refl, tt), (tt, tt))

two-IsReadable : All (IsReadable small_lib small_dir) (note ∷ page ∷ [])
unfolding links_of
two-IsReadable = (([], refl), (("z" ∷ [], refl), tt))

-- A visit of the edges that begins with the last.
abbrev backwards : (l : List Edge) → (m : List Edge) × Permᴰ l m
backwards [] = ([], Permᴰ.nil)
backwards (e ∷ l) =
    let (m, d) = backwards l in
    (
      m ++ e ∷ [],
      Permᴰ.trans (Permᴰ.cons refl d) (
          subst (λ (k : List Edge). Permᴰ (e ∷ k) (m ++ e ∷ [])) (append-nil m)
            (Perm-middle e m [])),
    )

build-Perm_example :
    build small_lib small_graphs small_dir (note ∷ page ∷ [])
    ≡ build small_lib (record small_graphs { iterate = backwards }) small_dir (page ∷ note ∷ [])
build-Perm_example =
    build-Perm small_lib small_graphs small_dir backwards (note ∷ page ∷ []) (page ∷ note ∷ [])
      (Permᴰ.swap refl refl) two_distinct

abbrev pub graph_or_empty : Option Graph.Graph → Graph.Graph
graph_or_empty none = record { workspace_id = ""; version = ""; nodes = []; edges = []; hash = "" }
graph_or_empty (some g) = g

abbrev pub two_graph : Graph.Graph
two_graph = graph_or_empty (build small_lib small_graphs small_dir (note ∷ page ∷ []))

two_built : build small_lib small_graphs small_dir (note ∷ page ∷ []) ≡ some two_graph
unfolding build deterministic_source_id
two_built = refl

build-Joins_example : All (Joins two_graph.nodes) two_graph.edges
build-Joins_example =
    build-Joins small_lib small_graphs small_dir (note ∷ page ∷ []) two_graph two_built

-- The text of a packet is its number, and no other text holds one.
abbrev coding : Ingest.Propose.Codec
coding = record {
  marshal = λ p. some "1";
  unmarshal = λ s. if s == "1" then some note else if s == "2" then some page else none;
}

abbrev carrying : String → AcceptedTransition
carrying s = record {
  proposal = record {
    transition_id = s;
    proposal_id = "p";
    request_id = "r";
    prior = record { id = "i"; version = 0; hash = "h" };
    operation = "upsert";
    entity = "w";
    node = s;
    result_data = s;
    admission_data = "{}";
  };
  result = record { id = "i"; version = 1; hash = "h" };
  admission = "{}";
  durable = blank_binding;
  duplicate = false;
}

abbrev history : List AcceptedTransition
history = carrying "1" ∷ carrying "other" ∷ carrying "2" ∷ []

history_packets : packets_from_history small_lib coding history ≡ note ∷ page ∷ []
unfolding packets_from_history validate_packet deterministic_source_id deterministic_content_id
    trim_space is_sha256
history_packets = refl

rebuild-apply_all_example :
    (s : Store) × (t : Store) × (apply_all small_lib small_graphs small_dir
        (new_store "w")
        (note ∷ page ∷ [])
      ≡ some s)
    × (rebuild_from_accepted small_lib small_graphs small_dir coding (new_store "v") history
        ≡ some (t, t.graph))
    × (t.graph ≡ s.graph)
    × (packets t ≡ packets s)
rebuild-apply_all_example =
    rebuild-apply_all small_lib small_graphs small_dir coding "w" (new_store "v") history note
      (page ∷ []) history_packets two_distinct two-IsReadable
