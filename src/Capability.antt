-- ===== src/Capability.antt =====
-- internal/capability: descriptor.go, executor.go, errors.go, request.go, result.go and registry.go.
pub mod Manager
pub mod Integration
pub mod Bounds
mod Examples
use cann_o_call.Prelude.{
  ℕ, zero, suc, ◌+◌, String, Bool, true, false, not, ◌&&◌, ◌||◌, List, [], ◌∷◌, Option, none, some,
  ◌==◌, leb, ltb, nat_eq, length, if◌then◌else◌,
}
use cann_o_call.Prelude.Assoc.{find, put}
use cann_o_call.Prelude.Int64.{ℤ, pos, negsuc, ltb_ℤ}
use cann_o_call.Prelude.Result.{Result, ok, err, ◌>>=◌, ◌>>◌, guard}
use cann_o_call.Prelude.Sort.{sort}
use cann_o_call.Prelude.Text.{str_lt}
use cann_o_call.Prelude.Trim.{trim_space}
use cann_o_call.Transition.{Stop}

-- `Tier`, `Kind` and `ResultStatus` are texts.
abbrev pub tier_read : String
tier_read = "T1_READ"

pub valid_tier : String → Bool
valid_tier t = t == tier_read || t == "T2_BOUNDED" || t == "T3_PRIVILEGED"

pub valid_kind : String → Bool
valid_kind k = k == "read" || k == "transform" || k == "file" || k == "process" || k == "native"

pub record ResourceBounds : Type 0 where
  pub max_input_bytes : ℤ
  pub max_output_bytes : ℤ
  pub max_concurrency : ℤ

-- `json.RawMessage` fields are texts, and a nil one is the empty text.
pub record Descriptor : Type 0 where
  pub id : String
  pub name : String
  pub version : String
  pub kind : String
  pub tier : String
  pub risk_tier : String
  pub input_type : String
  pub output_type : String
  pub input_schema : String
  pub output_schema : String
  pub timeout : ℤ
  pub resource_bounds : ResourceBounds
  pub mutating : Bool
  pub native : Bool
  pub enabled : Bool
  pub provenance : String
  pub provider : String

-- The codes of errors.go that are used; `executor_error` is what an executor returns, and
-- `propose_failed` the refusal of the authority, which the code files under one of its codes by
-- the words of the message.
pub data CapabilityError : Type 0 where
  unknown_capability capability_disabled capability_denied invalid_input timeout resource_limit
        execution_failed durable_recorder_unavailable :
      CapabilityError
  executor_error : String → CapabilityError
  propose_failed : Stop → CapabilityError

abbrev pub is_blank : String → Bool
is_blank s = trim_space s == ""

abbrev pub is_positive : ℤ → Bool
is_positive x = ltb_ℤ (pos 0) x

-- `Validate` of a descriptor
unfoldable pub validate : Descriptor → Result CapabilityError (Unit {0})
unfolding valid_kind valid_tier
validate d = do
  guard (not (is_blank d.id)) invalid_input
  guard (not (is_blank d.name)) invalid_input
  guard (not (is_blank d.version)) invalid_input
  guard (valid_kind d.kind) invalid_input
  guard (valid_tier d.tier) invalid_input
  guard (not (is_blank d.input_type)) invalid_input
  guard (not (is_blank d.output_type)) invalid_input
  guard (is_positive d.timeout) invalid_input
  guard (is_positive d.resource_bounds.max_input_bytes) invalid_input
  guard (is_positive d.resource_bounds.max_output_bytes) invalid_input
  guard (not (d.tier == tier_read && d.mutating)) invalid_input

pub record Request : Type 0 where
  pub request_id : String
  pub capability_id : String
  pub workspace_id : String
  pub actor_id : String
  pub lineage_id : String
  pub inputs : String
  pub evidence_refs : List String
  pub requested_operation : String
  pub timestamp : ℕ
  pub version : String

-- `Validate` of a request; `is_json` says which texts `json.Unmarshal` reads.
unfoldable pub validate_fields : (String → Bool) → Request → Result CapabilityError (Unit {0})
validate_fields is_json r = do
  guard (not (is_blank r.request_id)) invalid_input
  guard (not (is_blank r.capability_id)) invalid_input
  guard (not (is_blank r.workspace_id)) invalid_input
  guard (not (nat_eq r.timestamp 0)) invalid_input
  guard (r.inputs == "" || is_json r.inputs) invalid_input

-- `Result`, without the elapsed time, which is the difference of the two times, and the metadata,
-- which nothing reads. Times are counted from the zero `time.Time`.
pub record CapabilityResult : Type 0 where
  pub request_id : String
  pub capability_id : String
  pub status : String
  pub outputs : String
  pub evidence_refs : List String
  pub started_at : ℕ
  pub finished_at : ℕ
  pub warnings : List String
  pub errors : List String
  pub proposed_transition : String

-- What comes first: the executor's answer, the deadline or the caller's cancellation.
pub data Execution : Type 0 where
  finished : CapabilityResult → Option String → Execution
  deadline_exceeded cancelled : Execution

pub record Executor : Type 0 where
  pub describe : Descriptor
  pub execute : Request → Execution

-- The map is the list of its entries.
pub record Registry : Type 0 where
  pub max_size : ℕ
  pub entries : List (String × Executor)

unfoldable pub new_registry : ℤ → Registry
new_registry (pos (suc n)) = record { max_size = suc n; entries = [] }
new_registry _ = record { max_size = 64; entries = [] }

-- `Count`
unfoldable pub count : Registry → ℕ
count r = length r.entries

-- `Register` of an executor that is not nil
unfoldable pub register : Registry → Executor → Registry × Result CapabilityError (Unit {0})
unfolding validate find put
register r x =
    let d = x.describe in
    elim (validate d) [
      | err e ↦ (r, err e)
      | ok u ↦ elim (find d.id r.entries) [
        | some y ↦ (r, err invalid_input)
        | none ↦
            if leb r.max_size (length r.entries)
            then (r, err resource_limit)
            else (record r { entries = put d.id x r.entries }, ok tt)
      ]
    ]

unfoldable pub get : Registry → String → Result CapabilityError Executor
unfolding find
get r id = elim (find id r.entries) [
  | none ↦ err unknown_capability
  | some x ↦ if not x.describe.enabled then err capability_disabled else ok x
]

unfoldable pub get_descriptor : Registry → String → Result CapabilityError Descriptor
unfolding find
get_descriptor r id = elim (find id r.entries) [
  | none ↦ err unknown_capability
  | some x ↦ ok x.describe
]

descriptors : List (String × Executor) → List Descriptor
descriptors [] = []
descriptors ((k, x) ∷ m) = x.describe ∷ descriptors m

pub list : Registry → List Descriptor
unfolding descriptors sort
list r = sort str_lt (λ d. d.id) (descriptors r.entries)

ids : List (String × Executor) → List String
ids [] = []
ids ((k, x) ∷ m) = k ∷ ids m

pub list_ids : Registry → List String
unfolding ids sort
list_ids r = sort str_lt (λ k. k) (ids r.entries)
