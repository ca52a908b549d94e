-- ===== src/Workspace/Examples.antt =====
-- A workspace with one file, and the theorem at a second.
use Prim.Native.String.{len}
use cann_o_call.Prelude.{
  ◌≡◌, ◌<◌, refl, sym, subst, true, false, [], ◌∷◌, ◌==◌, arith, Bool-cases, inl, inr, eq→path,
  if◌then◌else◌,
}
use cann_o_call.Prelude.Int64.{pos}
use cann_o_call.Workspace.{
  is_root, Lib, Workspace, upsert_file, append_to_file, is_safe_path, recalc_counts,
}
use cann_o_call.Workspace.Parents.{DirShortens}
use cann_o_call.Workspace.Counts.{Upserts, upsert_file-Upserts}

abbrev small : Lib
small = record {
  clean = λ s. s;
  dir = λ s. if s == "a/b/x.md" then "a/b" else if s == "a/b" then "a" else ".";
  ext = λ s. if s == "a/b/x.md" then ".md" else "";
  to_lower = λ s. s;
  valid_utf8 = λ b. true;
  sha256_hex = λ b. "h";
}

abbrev empty : Workspace
empty = record {
  id = "w";
  format = "";
  mode = "";
  source = record {
    name = "";
    sha256 = "";
    file_count = pos 0;
    directory_count = pos 0;
    archive_member_count = pos 0;
    unsafe_entry_count = pos 0;
  };
  files = [];
  directories = [];
  issues = [];
  quarantined = [];
  created_at = 0;
  file_count = 0;
  directory_count = 0;
  manifest_checked = false;
}

small-DirShortens : DirShortens small
small-DirShortens p r = elim (Bool-cases (p == "a/b/x.md")) [
  | inl e ↦ subst (λ q. len (small.dir q) < len q) (sym (eq→path p "a/b/x.md" e)) (omega arith)
  | inr e ↦ elim (Bool-cases (p == "a/b")) [
    | inl f ↦ subst (λ q. len (small.dir q) < len q) (sym (eq→path p "a/b" f)) (omega arith)
    | inr f ↦
        let dot : small.dir p ≡ "." = rw (e, f) refl in
        let no : true ≡ false = subst (λ q. is_root q ≡ false) dot r in absurd (ground (arith, no))
  ]
]

upserted_directories :
    (upsert_file small empty "a/b/x.md" (104 ∷ 105 ∷ [])).0.directories ≡ "a" ∷ "a/b" ∷ []
unfolding upsert_file is_safe_path recalc_counts
upserted_directories = refl

appended_lines : (append_to_file small empty "a/b/x.md" (104 ∷ [])).0.file_count ≡ 1
unfolding append_to_file upsert_file is_safe_path recalc_counts
appended_lines = refl

upsert_file-Upserts_example :
    Upserts small small-DirShortens empty "a/b/x.md"
      (104 ∷ 105 ∷ [])
      (upsert_file small empty "a/b/x.md" (104 ∷ 105 ∷ []))
upsert_file-Upserts_example =
    upsert_file-Upserts small small-DirShortens empty "a/b/x.md" (104 ∷ 105 ∷ [])
