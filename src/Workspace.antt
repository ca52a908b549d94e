-- ===== src/Workspace.antt =====
-- internal/workspace/files.go, with the types of model.go and `IsSafePath` of parser.go: the files of a
-- workspace and its directories.
pub mod Parents
pub mod Counts
mod Examples
use Prim.Native.Char.{code}
use Prim.Native.String.{len, slice, find}
use Prim.Native.String as Text
use mathlib.Core.List
use cann_o_call.Prelude.{
  ℕ, zero, suc, String, Bool, true, false, not, ◌&&◌, ◌||◌, List, [], ◌∷◌, Option, none, some,
  length, leb, nat_eq, ◌==◌, if◌then◌else◌,
}
use cann_o_call.Prelude.Text.{str_lt}
use cann_o_call.Prelude.Sort.{sort}
use cann_o_call.Prelude.Assoc.{put, has}
use cann_o_call.Prelude.Assoc
use cann_o_call.Prelude.Int64.{ℤ}
use cann_o_call.Prelude.Result.{Result, ok, err, ◌>>=◌, ◌>>◌, guard}

-- A slice of bytes, each below 256.
abbrev pub Bytes : Type 0
Bytes = List ℕ

-- `path.Clean`, `path.Dir`, `path.Ext`, `strings.ToLower`, `utf8.Valid`, and SHA-256 in hexadecimal.
pub record Lib : Type 0 where
  pub clean : String → String
  pub dir : String → String
  pub ext : String → String
  pub to_lower : String → String
  pub valid_utf8 : Bytes → Bool
  pub sha256_hex : Bytes → String

pub record Source : Type 0 where
  pub name : String
  pub sha256 : String
  pub file_count : ℤ
  pub directory_count : ℤ
  pub archive_member_count : ℤ
  pub unsafe_entry_count : ℤ

pub record File : Type 0 where
  pub path : String
  pub size : ℕ
  pub sha256 : String
  pub declared_sha256 : String
  pub encoding : String
  pub kind : String
  pub language : String
  pub media_type : String
  pub verified : Bool
  pub bytes : Bytes

-- Without the tree as it was decoded, the quarantine and the binding, which nothing here reads.
pub record Workspace : Type 0 where
  pub id : String
  pub format : String
  pub mode : String
  pub source : Source
  pub files : List (String × File)
  pub directories : List String
  pub issues : List String
  pub quarantined : List String
  pub created_at : ℕ
  pub file_count : ℕ
  pub directory_count : ℕ
  pub manifest_checked : Bool

pub data PathError : Type 0 where
  empty_path absolute_path null_byte path_traversal not_normalized invalid_segment : PathError

abbrev pub is_root : String → Bool
is_root d = d == "." || d == "/"

-- `strings.Split(s, "/")`
unfoldable pub split : String → List String
split Text.[] = "" ∷ []
split (Text.◌∷◌ c s) =
    let rest = split s in
    if nat_eq (code c) 47
    then "" ∷ rest
    else elim rest [ [] ↦ Text.◌∷◌ c "" ∷ [] | p ∷ l ↦ Text.◌∷◌ c p ∷ l ]

unfoldable pub contains : String → String → Bool
contains s t = leb (find s t) (len s)

unfoldable pub all_segments : List String → Bool
all_segments [] = true
all_segments (s ∷ l) = let rest = all_segments l in not (s == "" || s == "." || s == "..") && rest

-- `m[k] = true`
unfoldable pub mark : String → List String → List String
unfolding has
mark k ks = if has k ks then ks else k ∷ ks

module _ (lib : Lib) where
  -- `IsSafePath`
  unfoldable pub is_safe_path : String → Result PathError (Unit {0})
  unfolding contains split all_segments
  is_safe_path p = do
    guard (not (p == "")) empty_path
    guard (not (slice p 0 1 == "/")) absolute_path
    guard (not (contains p "\0")) null_byte
    guard (not (contains p "..")) path_traversal
    guard (lib.clean p == p) not_normalized
    guard (all_segments (split p)) invalid_segment

  -- `addParents`. Each parent is shorter, so the length of the path is fuel enough.
  unfoldable pub add_parents : ℕ → String → List String → List String
  unfolding mark
  add_parents zero p dirs = dirs
  add_parents (suc n) p dirs =
      let d = lib.dir p in
      let rest = add_parents n d (mark d dirs) in if is_root d then dirs else rest

  unfoldable pub file_parents : List (String × File) → List String → List String
  unfolding add_parents
  file_parents [] dirs = dirs
  file_parents ((p, f) ∷ l) dirs = file_parents l (add_parents (suc (len p)) p dirs)

  unfoldable pub kept_directories : List String → List String → List String
  unfolding add_parents mark is_safe_path
  kept_directories [] dirs = dirs
  kept_directories (d ∷ l) dirs = elim (is_safe_path d) [
    | err e ↦ kept_directories l dirs
    | ok u ↦ kept_directories l (add_parents (suc (len d)) d (mark d dirs))
  ]

  -- `RecalcCounts`
  unfoldable pub recalc_counts : Workspace → Workspace
  unfolding file_parents kept_directories sort
  recalc_counts w =
      let list = sort str_lt (λ d. d) (kept_directories w.directories (file_parents w.files [])) in
      record w { file_count = length w.files; directories = list; directory_count = length list }

  -- `LanguageFromPath`
  unfoldable pub language_from_path : String → String
  language_from_path p =
      let ext = lib.to_lower (lib.ext p) in
      if ext == ".yaml" || ext == ".yml"
      then "yaml"
      else if ext == ".md" || ext == ".markdown"
      then "markdown"
      else if ext == ".json"
      then "json"
      else if ext == ".jsonl"
      then "jsonl"
      else if ext == ".go"
      then "go"
      else if ext == ".rs"
      then "rust"
      else if ext == ".html"
      then "html"
      else if ext == ".js"
      then "javascript"
      else if ext == ".css"
      then "css"
      else ""

  -- `MediaTypeFromPath`
  unfoldable pub media_type_from_path : String → String
  media_type_from_path p =
      let ext = lib.to_lower (lib.ext p) in
      if ext == ".yaml" || ext == ".yml"
      then "application/yaml"
      else if ext == ".md" || ext == ".markdown"
      then "text/markdown"
      else if ext == ".json"
      then "application/json"
      else if ext == ".jsonl"
      then "application/jsonl"
      else if ext == ".go"
      then "text/x-go"
      else if ext == ".rs"
      then "text/x-rust"
      else if ext == ".html"
      then "text/html"
      else if ext == ".js"
      then "text/javascript"
      else if ext == ".css"
      then "text/css"
      else "application/octet-stream"

  abbrev or_text : String → String → String
  or_text s other = if s == "" then other else s

  unfoldable pub fresh_file : String → Bytes → File
  unfolding language_from_path media_type_from_path
  fresh_file p bytes =
      let hash = lib.sha256_hex bytes in
      record {
        path = p;
        size = length bytes;
        sha256 = hash;
        declared_sha256 = hash;
        encoding = if lib.valid_utf8 bytes then "utf-8" else "base64";
        kind = "text";
        language = language_from_path p;
        media_type = media_type_from_path p;
        verified = true;
        bytes = bytes;
      }

  -- The new file, which keeps the kind, the language and the media type of the old one.
  unfoldable pub file_of : Option File → String → Bytes → File
  unfolding fresh_file
  file_of none p bytes = fresh_file p bytes
  file_of (some old) p bytes =
      let f = fresh_file p bytes in
      record f {
        kind = or_text old.kind f.kind;
        language = or_text old.language f.language;
        media_type = or_text old.media_type f.media_type;
      }

  -- `UpsertFile`
  unfoldable pub upsert_file : Workspace → String → Bytes → Workspace × Result PathError File
  unfolding is_safe_path file_of recalc_counts put Assoc.find
  upsert_file w p bytes = elim (is_safe_path p) [
    | err e ↦ (w, err e)
    | ok u ↦
        let f = file_of (Assoc.find p w.files) p bytes in
        (recalc_counts (record w { files = put p f w.files }), ok f)
  ]

  unfoldable pub ends_in_newline : Bytes → Bool
  ends_in_newline [] = false
  ends_in_newline (b ∷ l) =
      let rest = ends_in_newline l in elim l [ [] ↦ nat_eq b 10 | c ∷ m ↦ rest ]

  abbrev end_line : Bytes → Bytes
  end_line bytes = if ends_in_newline bytes then bytes else List.◌++◌ bytes (10 ∷ [])

  abbrev end_started : Bytes → Bytes
  end_started [] = []
  end_started (b ∷ l) = end_line (b ∷ l)

  -- `AppendToFile`
  unfoldable pub append_to_file : Workspace → String → Bytes → Workspace × Result PathError File
  unfolding upsert_file ends_in_newline Assoc.find
  append_to_file w p line =
      let old : Bytes = elim (Assoc.find p w.files) [ none ↦ [] | some f ↦ f.bytes ] in
      upsert_file w p (end_line (List.◌++◌ (end_started old) line))
