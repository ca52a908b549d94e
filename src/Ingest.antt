-- ===== src/Ingest.antt =====
-- internal/ingest: the identities of identity.go and the packets of packet.go.
pub mod Propose
use Prim.Native.String.{◌++◌}
use cann_o_call.Prelude.{
  ℕ, String, Bool, true, false, not, ◌&&◌, ◌||◌, List, [], ◌∷◌, Option, none, some, ◌==◌,
  if◌then◌else◌,
}
use cann_o_call.Prelude.Int64.{ℤ}
use cann_o_call.Prelude.Result.{Result, ok, err, ◌>>=◌, ◌>>◌, guard, wrap_err}
use cann_o_call.Prelude.Trim.{trim_space}
use cann_o_call.EventLog.{is_sha256}

-- The standard library's `strings.ToLower` and `strings.EqualFold`, and SHA-256 in hexadecimal.
pub record Lib : Type 0 where
  pub to_lower : String → String
  pub equal_fold : String → String → Bool
  pub sha256_hex : String → String

abbrev pub extraction_version : String
extraction_version = "v1"

abbrev pub extraction_identity : String
extraction_identity = "ingest-v1"

abbrev pub source_type_generic : String
source_type_generic = "generic"

abbrev pub source_type_html : String
source_type_html = "html"

pub record Span : Type 0 where
  pub start : ℤ
  pub end : ℤ

pub record SourceIdentity : Type 0 where
  pub source_id : String
  pub source_type : String
  pub source_ref : String
  pub source_sha256 : String
  pub workspace_id : String
  pub extraction_version : String
  pub extraction_id : String
  pub locator : String
  pub span : Option Span

-- Times are counted from the zero `time.Time`.
pub record Provenance : Type 0 where
  pub workspace_id : String
  pub extraction_id : String
  pub extraction_version : String
  pub source_locator : String
  pub created_at : ℕ
  pub event_id : String

pub record Content : Type 0 where
  pub source_id : String
  pub content_id : String
  pub content_hash : String
  pub encoding : String
  pub media_type : String
  pub text : String
  pub normalized_text : String
  pub size : ℤ
  pub ref : String

-- A map of texts is the list of its entries, in the order of an iteration.
pub record Metadata : Type 0 where
  pub source_id : String
  pub author : String
  pub title : String
  pub mime_type : String
  pub language : String
  pub created_at : Option ℕ
  pub modified_at : Option ℕ
  pub encoding : String
  pub document_properties : List (String × String)
  pub open_graph : List (String × String)
  pub source_tool : String
  pub raw_properties : List (String × String)
  pub detected_kind : String

pub record SourcePacket : Type 0 where
  pub identity : SourceIdentity
  pub content : Content
  pub metadata : Metadata
  pub provenance : Provenance

-- `strings.Join(…, "\x00")`
unfoldable pub join : List String → String
join [] = ""
join (s ∷ []) = s
join (s ∷ t ∷ l) = s ++ "\0" ++ join (t ∷ l)

abbrev pub is_blank : String → Bool
is_blank s = trim_space s == ""

pub data IdentityError : Type 0 where
  source_id_required source_type_required source_ref_required sha256_invalid workspace_required
        version_required locator_required source_id_not_deterministic :
      IdentityError

pub data PacketError : Type 0 where
  bad_identity : IdentityError → PacketError
  content_hash_invalid content_id_required content_id_not_deterministic content_source_mismatch
        metadata_source_mismatch provenance_workspace_required provenance_locator_required :
      PacketError

module _ (lib : Lib) where
  -- `DeterministicSourceID`
  unfoldable pub deterministic_source_id : String → String → String → String → String → String
  unfolding join
  deterministic_source_id workspace_id source_type source_ref source_sha256 version =
      let v = trim_space version in
      lib.sha256_hex (
        join (
          trim_space workspace_id
          ∷ trim_space source_type
          ∷ trim_space source_ref
          ∷ lib.to_lower (trim_space source_sha256)
          ∷ (if v == "" then extraction_version else v)
          ∷ []))

  -- `DeterministicContentID`
  unfoldable pub deterministic_content_id : String → String → String
  unfolding join
  deterministic_content_id source_id content_hash =
      lib.sha256_hex (join (lib.to_lower source_id ∷ lib.to_lower content_hash ∷ []))

  -- `NewSourceIdentity`
  pub new_source_identity :
      String → String → String → String → String → Option Span → SourceIdentity
  unfolding deterministic_source_id
  new_source_identity workspace_id source_type source_ref source_sha256 locator span =
      let lowered = lib.to_lower (trim_space source_type) in
      let kind = if lowered == "" then source_type_generic else lowered in
      record {
        source_id =
            deterministic_source_id workspace_id kind source_ref source_sha256 extraction_version;
        source_type = kind;
        source_ref = source_ref;
        source_sha256 = lib.to_lower source_sha256;
        workspace_id = workspace_id;
        extraction_version = extraction_version;
        extraction_id = extraction_identity;
        locator = if locator == "" then source_ref else locator;
        span = span;
      }

  unfoldable pub validate_identity : SourceIdentity → Result IdentityError (Unit {0})
  unfolding deterministic_source_id
  validate_identity s = do
    guard (not (is_blank s.source_id)) source_id_required
    guard (not (is_blank s.source_type)) source_type_required
    guard (not (is_blank s.source_ref)) source_ref_required
    guard (is_sha256 s.source_sha256) sha256_invalid
    guard (not (is_blank s.workspace_id)) workspace_required
    guard (not (is_blank s.extraction_version)) version_required
    guard (not (is_blank s.locator)) locator_required
    let expected =
        deterministic_source_id s.workspace_id s.source_type s.source_ref s.source_sha256
          s.extraction_version
    guard (lib.equal_fold expected s.source_id) source_id_not_deterministic

  unfoldable pub validate_packet : SourcePacket → Result PacketError (Unit {0})
  unfolding validate_identity deterministic_content_id
  validate_packet p = do
    wrap_err bad_identity (validate_identity p.identity)
    guard (not (is_blank p.content.content_hash) && is_sha256 p.content.content_hash)
        content_hash_invalid
    guard (not (is_blank p.content.content_id)) content_id_required
    let expected = deterministic_content_id p.identity.source_id p.content.content_hash
    guard (lib.equal_fold expected p.content.content_id) content_id_not_deterministic
    guard (p.content.source_id == p.identity.source_id) content_source_mismatch
    guard (p.metadata.source_id == p.identity.source_id) metadata_source_mismatch
    guard (not (is_blank p.provenance.workspace_id)) provenance_workspace_required
    guard (not (p.provenance.source_locator == "")) provenance_locator_required
