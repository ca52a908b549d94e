-- ===== src/Quarantine.antt =====
-- internal/quarantine/store.go: the store of quarantined files, in memory and in its directory.
pub mod Durable
pub mod Steps
mod Examples
use Prim.Native.String.{◌++◌}
use cann_o_call.Prelude.{
  ℕ, String, Bool, true, false, not, ◌&&◌, ◌||◌, List, [], ◌∷◌, Option, none, some, ◌==◌,
  if◌then◌else◌,
}
use cann_o_call.Prelude.Assoc.{find, put}
use cann_o_call.Prelude.Int64.{ℤ}

pub record Item : Type 0 where
  pub id : String
  pub workspace_id : String
  pub original_path : String
  pub safe_path : String
  pub target_path : String
  pub reason : String
  pub status : String
  pub sha256 : String
  pub size : ℤ
  pub decided_at : String
  pub receipt_id : String
  pub content : List ℕ

-- The map, and the texts of the files on the disk, each under its path. An item is a value, where the
-- code shares a pointer with its callers.
pub record Store : Type 0 where
  pub items : List (String × Item)
  pub files : List (String × String)

-- `json.MarshalIndent` of an item and `json.Unmarshal` into one; what `filepath.Join` makes of the
-- directory and a key with `.json`; and whether a path is that of a file with the extension `.json`
-- that `os.ReadDir` lists in the directory and `os.ReadFile` reads.
pub record Codec : Type 0 where
  pub path_of : String → String
  pub in_dir : String → Bool
  pub marshal_indent : Item → Option String
  pub unmarshal : String → Option Item

-- Whether `os.WriteFile` succeeds; if it fails, the file is as it was, or holds another text.
pub data Write : Type 0 where
  written failed : Write
  torn : String → Write

pub data StoreError : Type 0 where
  ids_required not_found encode_failed write_failed : StoreError

unfoldable pub key : String → String → String
key workspace_id id = workspace_id ++ "__" ++ id

unfoldable pub key_of : Item → String
unfolding key
key_of item = key item.workspace_id item.id

unfoldable pub lacks_ids : Item → Bool
lacks_ids item = item.id == "" || item.workspace_id == ""

-- What `UpdateStatus` writes into an item.
abbrev pub decide : String → String → String → String → Item → Item
decide status receipt_id decided_at target_path item = record item {
  status = status;
  receipt_id = receipt_id;
  decided_at = decided_at;
  target_path = if not (target_path == "") then target_path else item.target_path;
}

module _ (codec : Codec) where
  unfoldable pub accept : Option Item → List (String × Item) → List (String × Item)
  unfolding lacks_ids key_of put
  accept none m = m
  accept (some item) m = if lacks_ids item then m else put (key_of item) item m

  -- The loop of `load` over the files.
  unfoldable pub load : List (String × String) → List (String × Item) → List (String × Item)
  unfolding accept
  load [] m = m
  load ((path, text) ∷ files) m =
      load files (if codec.in_dir path then accept (codec.unmarshal text) m else m)

  -- `New`, over the files of the disk.
  unfoldable pub new : List (String × String) → Store
  unfolding load
  new files = record { items = load files []; files = files }

  unfoldable pub write_file : Write → Store → String → String → Store × Option StoreError
  unfolding put
  write_file written s name text = (record s { files = put name text s.files }, none)
  write_file failed s name text = (s, some write_failed)
  write_file (torn left) s name text =
      (record s { files = put name left s.files }, some write_failed)

  unfoldable pub persist : Write → Store → Item → Store × Option StoreError
  unfolding write_file key_of
  persist w s item = elim (codec.marshal_indent item) [
    | none ↦ (s, some encode_failed)
    | some text ↦ write_file w s (codec.path_of (key_of item)) text
  ]

  -- The item is kept if it was persisted.
  keep : Item → Store × Option StoreError → Store × Option StoreError
  unfolding put key_of
  keep item (s, some e) = (s, some e)
  keep item (s, none) = (record s { items = put (key_of item) item s.items }, none)

  -- `Add`
  unfoldable pub add : Write → Store → Item → Store × Option StoreError
  unfolding keep persist find lacks_ids
  add w s item =
      if lacks_ids item then (s, some ids_required) else elim (find (key_of item) s.items) [
        | some old ↦ (s, none)
        | none ↦ keep item (persist w s item)
      ]

  -- `UpdateStatus`
  unfoldable pub update_status :
      Write
      → Store
      → String
      → String
      → String
      → String
      → String
      → String
      → Store × Option StoreError
  unfolding persist find put key
  update_status w s workspace_id id status receipt_id decided_at target_path =
      let k = key workspace_id id in
      elim (find k s.items) [
        | none ↦ (s, some not_found)
        | some old ↦
            let item = decide status receipt_id decided_at target_path old in
            persist w (record s { items = put k item s.items }) item
      ]

-- `Get`
unfoldable pub get : Store → String → String → Option Item
unfolding find key
get s workspace_id id = find (key workspace_id id) s.items

in_workspace : String → List (String × Item) → List Item
in_workspace w [] = []
in_workspace w ((k, item) ∷ m) =
    let rest = in_workspace w m in if item.workspace_id == w then item ∷ rest else rest

-- `ListWorkspace`
pub list_workspace : Store → String → List Item
unfolding in_workspace
list_workspace s workspace_id = in_workspace workspace_id s.items
