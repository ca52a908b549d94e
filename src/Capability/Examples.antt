-- ===== src/Capability/Examples.antt =====
-- Two capabilities, of which one is mutating.
use cann_o_call.Prelude.{
  ℕ, suc, Bool, ◌≡◌, ◌<◌, refl, String, true, false, [], ◌∷◌, Option, none, some, arith,
}
use cann_o_call.Prelude.Int64.{pos}
use cann_o_call.Prelude.Result.{ok}
use cann_o_call.Prelude.Trim.{trim_space}
use Prim.Native.String.{len, ◌++◌}
use cann_o_call.EventLog.{Event}
use cann_o_call.Json.{object, end}
use cann_o_call.Transition
use cann_o_call.Transition.{Authority, Projection}
use cann_o_call.Capability.{
  Descriptor, Request, CapabilityResult, finished, Executor, Registry, new_registry, get,
}
use cann_o_call.Progress.{Task, is_terminal, is_blank}
use cann_o_call.Progress.Registry
use cann_o_call.Progress.Lifecycle.{begin}
use cann_o_call.Capability.Integration
use cann_o_call.Capability.Integration.{ProgressIntegration, execute_with_progress}
use cann_o_call.Capability.Integration.Finish.{Ends, execute_with_progress-Ends}
use cann_o_call.Capability.Bounds.{Holds, register_all, register_all-Holds, register_all-get}
use cann_o_call.Capability.Manager.{World, execute_mutating, transition_id_of}
use cann_o_call.Capability.Manager.Guard.{Mutation, execute_mutating-Outcome}
use cann_o_call.Capability.Manager.Ids.{transition_id_cut}

abbrev descriptor : String → Descriptor
descriptor id = record {
  id = id;
  name = "write";
  version = "1";
  kind = "file";
  tier = "T2_BOUNDED";
  risk_tier = "";
  input_type = "json";
  output_type = "json";
  input_schema = "";
  output_schema = "";
  timeout = pos 5;
  resource_bounds = record {
    max_input_bytes = pos 10;
    max_output_bytes = pos 10;
    max_concurrency = pos 0;
  };
  mutating = true;
  native = false;
  enabled = true;
  provenance = "";
  provider = "";
}

abbrev done : CapabilityResult
done = record {
  request_id = "r";
  capability_id = "w";
  status = "";
  outputs = "{}";
  evidence_refs = [];
  started_at = 0;
  finished_at = 0;
  warnings = [];
  errors = [];
  proposed_transition = "";
}

abbrev writer : String → Executor
writer id = record { describe = descriptor id; execute = λ q. finished done none }

abbrev registry : Registry
registry = register_all (new_registry (pos 2)) (writer "w" ∷ [])

register_all-Holds_example :
    Holds (register_all (new_registry (pos 2)) (writer "w" ∷ writer "w" ∷ writer "v" ∷ []))
register_all-Holds_example = register_all-Holds (pos 2) (writer "w" ∷ writer "w" ∷ writer "v" ∷ [])

found : get registry "w" ≡ ok (writer "w")
unfolding get register_all new_registry trim_space
found = refl

register_all-get_example : get (register_all registry (writer "v" ∷ [])) "w" ≡ ok (writer "w")
register_all-get_example = register_all-get registry (writer "v" ∷ []) "w" (writer "w") found

abbrev request : Request
request = record {
  request_id = "r";
  capability_id = "w";
  workspace_id = "ws";
  actor_id = "";
  lineage_id = "";
  inputs = "";
  evidence_refs = [];
  requested_operation = "";
  timestamp = 3;
  version = "";
}

abbrev small_codec : Transition.Codec
small_codec = record {
  log = record { marshal = λ e. some e.id; unmarshal = λ s. none; sha256_hex = λ s. "h" };
  decode = λ s. some (object end);
  read_accepted = λ j. none;
}

abbrev state : Projection
state = record { id = "s"; version = 0; nodes = []; nil_nodes = false; hash = "h" }

abbrev authority : Authority
authority = record { state = state; accepted = [] }

abbrev is_json : String → Bool
is_json s = true

abbrev failing : ℕ → Event → ℕ × Option Event
failing n e = (suc n, none)

abbrev world : World
world = record { start = 4; finish = 5 }

execute_mutating-Outcome_example :
    Mutation small_codec is_json failing none registry 0 authority request "" "" "" "" (
      execute_mutating small_codec is_json failing none world registry 0 authority request "" "" ""
        "")
execute_mutating-Outcome_example =
    execute_mutating-Outcome small_codec is_json failing none world registry 0 authority request ""
      "" "" ""

abbrev tasks : ProgressIntegration
tasks = record { records = []; registry = Registry.new_registry (pos 2) }

named : is_blank "r" ≡ false
unfolding trim_space
named = refl

absent : Registry.get (Registry.new_registry (pos 2)) "r" ≡ none
unfolding Registry.get Registry.new_registry
absent = refl

-- Another call that begins a task of its own while the executor runs.
abbrev meanwhile : ProgressIntegration → ProgressIntegration
meanwhile p = Integration.begin 4 "y" p (record request { request_id = "q" })

left :
    Registry.get (meanwhile (Integration.begin 4 "x" tasks request)).registry "r"
    ≡ Registry.get (Integration.begin 4 "x" tasks request).registry "r"
unfolding Registry.get Integration.begin trim_space is_terminal Registry.new_registry
left = refl

execute_with_progress-Ends_example :
    let done = execute_with_progress is_json meanwhile world "x" registry tasks request in
    (t : Task) × (Registry.get done.0.registry "r" ≡ some t)
    × Ends done.1 done.2 t.packet.status
    × (is_terminal t.packet.status ≡ true)
execute_with_progress-Ends_example =
    execute_with_progress-Ends is_json meanwhile world "x" registry tasks request (pos 2) begin
      named absent left

abbrev long : String
long = "workspace-0123456789-0123456789-0123456789-0123456789-0123456789"

long_enough : 64 < len ("cap-" ++ "w" ++ "-" ++ long)
long_enough = ground arith

transition_id_cut_example :
    transition_id_of "w" (long ++ "-first") ≡ transition_id_of "w" (long ++ "-second")
transition_id_cut_example = transition_id_cut "w" long "-first" "-second" long_enough
