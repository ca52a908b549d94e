-- ===== src/Workspace/Counts.antt =====
-- What `RecalcCounts` and `UpsertFile` leave.
use cann_o_call.Prelude.{
  ◌≡◌, ◌≢◌, refl, sym, ◌∙◌, inl, inr, String, true, false, [], Option, none, some, All, All-map,
  length, arith,
}
use cann_o_call.Prelude.Text.{str_lt}
use cann_o_call.Prelude.Sort.{IsSorted}
use cann_o_call.Prelude.Sort.Permute.{Perm-sort}
use cann_o_call.Prelude.Assoc
use cann_o_call.Prelude.Assoc.{put, has}
use cann_o_call.Prelude.Maps.{find-put, find-put_other}
use cann_o_call.Prelude.Result.{Result, ok, err, Result-cases}
use cann_o_call.Workspace.{
  Lib, Workspace, File, Bytes, PathError, is_root, is_safe_path, file_parents, kept_directories,
  recalc_counts, file_of, upsert_file,
}
use cann_o_call.Workspace.Parents.{
  DirShortens, has-Perm, sort-IsSorted, IsClosed, file_parents-Closes, kept_directories-Closes,
}

module _ (lib : Lib) (shorter : DirShortens lib) where
  -- The counts and the directories of a workspace.
  pub record Counted (w : Workspace) : Type 0 where
    pub file_total : w.file_count ≡ length w.files
    pub directory_total : w.directory_count ≡ length w.directories
    pub sorted : IsSorted str_lt (λ d. d) w.directories
    pub closed :
        (d : String)
        → has d w.directories ≡ true
        → is_root (lib.dir d) ≡ false
        → has (lib.dir d) w.directories ≡ true
    pub above :
        All
          (λ (e : String × File).
            is_root (lib.dir e.0) ≡ false → has (lib.dir e.0) w.directories ≡ true)
          w.files

  recalc_counts-Counted : (w : Workspace) → Counted (recalc_counts lib w)
  unfolding recalc_counts
  recalc_counts-Counted w =
      let none_yet : IsClosed lib shorter [] = λ d h r. absurd (ground (arith, h)) in
      let files = file_parents-Closes lib shorter w.files [] none_yet tt in
      let dirs = file_parents lib w.files [] in
      let kept =
        kept_directories-Closes lib shorter w.directories dirs files.0.closed files.0.distinct in
      let all = kept_directories lib w.directories dirs in
      let order = Perm-sort str_lt (λ (d : String). d) all in
      record {
        file_total = refl;
        directory_total = refl;
        sorted = sort-IsSorted all kept.distinct;
        closed = λ d h r. sym (has-Perm (lib.dir d) order) ∙ kept.closed d (has-Perm d order ∙ h) r;
        above =
            All-map _ _ w.files
              (λ e h r. sym (has-Perm (lib.dir e.0) order) ∙ kept.grows (lib.dir e.0) (h r))
              files.1;
      }

  -- The two things that `UpsertFile` comes to.
  pub data Upserts (w : Workspace) (p : String) (bytes : Bytes)
      (out : Workspace × Result PathError File) : Type 0 where
    refuses : (e : PathError) → out.1 ≡ err e → out.0 ≡ w → Upserts w p bytes out
    stores :
        (f : File)
        → out.1 ≡ ok f
        → is_safe_path lib p ≡ ok tt
        → f.bytes ≡ bytes
        → f.sha256 ≡ lib.sha256_hex bytes
        → Assoc.find p out.0.files ≡ some f
        → ((q : String) → q ≢ p → Assoc.find q out.0.files ≡ Assoc.find q w.files)
        → Counted out.0
        → Upserts w p bytes out

  file_of-bytes :
      (old : Option File) (p : String) (bytes : Bytes)
      → ((file_of lib old p bytes).bytes ≡ bytes)
        × ((file_of lib old p bytes).sha256 ≡ lib.sha256_hex bytes)
  unfolding file_of
  file_of-bytes none p bytes = (refl, refl)
  file_of-bytes (some old) p bytes = (refl, refl)

  -- If `path.Dir` returns a shorter path wherever it returns neither `.` nor `/`, a call of
  -- `UpsertFile` either refuses the path and changes nothing; or the path is safe, the file with
  -- the given bytes and their hash stands under it, and every other path has the file it had. Then
  -- the counts are those of the files and of the directories, and the directories are sorted,
  -- without repetition, and hold the parents of every file and of every directory.
  pub upsert_file-Upserts :
      (w : Workspace) (p : String) (bytes : Bytes) → Upserts w p bytes (upsert_file lib w p bytes)
  unfolding upsert_file recalc_counts
  upsert_file-Upserts w p bytes = elim (Result-cases (is_safe_path lib p)) [
    | inl (e, s) ↦ rw (s, upsert_file) (refuses e refl refl)
    | inr (u, s) ↦
        let f = file_of lib (Assoc.find p w.files) p bytes in
        let same = file_of-bytes (Assoc.find p w.files) p bytes in
        rw (s, upsert_file)
          (stores f refl s same.0 same.1 (find-put p f w.files)
            (λ q d. find-put_other q p f w.files d)
            (recalc_counts-Counted (record w { files = put p f w.files })))
  ]
