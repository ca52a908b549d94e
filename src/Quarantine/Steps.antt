-- ===== src/Quarantine/Steps.antt =====
-- The quarantine store as a machine: the calls of store.go that change it, in any order.
use cann_o_call.Prelude.{
  Bool, false, List, if◌then◌else◌, true, none, ◌≡◌, ◌≢◌, refl, ap, ◌∙◌, String, [], some, arith,
  inl, inr, Option-cases,
}
use cann_o_call.Prelude.Assoc.{find, put, remove}
use cann_o_call.Prelude.Maps.{keys, find-put, find-remove, find-remove-some, remove-IsDistinct}
use cann_o_call.Quarantine.{
  Item, Store, Write, Codec, written, failed, torn, key_of, load, accept, encode_failed, key,
  decide, new, add, update_status, get, persist, write_file,
}
use cann_o_call.Quarantine.Durable.{
  PlainKeys, AllFiled, load-other, Durable-Filed, Durable, Durable-new, add-Durable,
  add-failed-Durable, update_status-Durable,
}

module _ (codec : Codec) (plain : PlainKeys codec) where
  -- The items of `Add` have plain keys. A write that fails leaves the file as it was, and only `Add`
  -- may meet one.
  pub data Step (s : Store) : Store → Type 0 where
    adds : (item : Item) → plain.is_plain (key_of item) ≡ true → Step s (add codec written s item).0
    misses : (item : Item) → Step s (add codec failed s item).0
    decides :
        (workspace_id id status receipt_id decided_at target_path : String)
        → (update_status codec written s workspace_id id status receipt_id decided_at target_path).1
          ≢ some encode_failed
        → Step s
            (update_status codec written s workspace_id id status receipt_id decided_at
              target_path).0

  pub data Reachable (start : Store) : Store → Type 0 where
    begin : Reachable start start
    next : {s t : Store} → Reachable start s → Step s t → Reachable start t

abbrev pub empty : Store
empty = record { items = []; files = [] }

empty-Durable : (codec : Codec) (plain : PlainKeys codec) → Durable codec plain empty
unfolding find keys
empty-Durable codec plain = record {
  distinct = tt;
  filed = λ n t h. absurd (ground (arith, h));
  same = λ k p. refl;
  absent = λ k p. refl;
}

module _ (codec : Codec) (plain : PlainKeys codec)
    (reads : (item : Item) (text : String)
      → codec.marshal_indent item ≡ some text
      → codec.unmarshal text ≡ some item) where
  Step-Durable :
      {s t : Store} → Step codec plain s t → Durable codec plain s → Durable codec plain t
  Step-Durable {s} (adds item p) d = add-Durable codec plain reads s item p d
  Step-Durable {s} (misses item) d = add-failed-Durable codec plain reads s item d
  Step-Durable {s} (decides workspace_id id status receipt_id decided_at target_path e) d =
      update_status-Durable codec plain reads s workspace_id id status receipt_id decided_at
        target_path d e

  Reachable-Durable : (s : Store) → Reachable codec plain empty s → Durable codec plain s
  Reachable-Durable s begin = empty-Durable codec plain
  Reachable-Durable s (next {s = q} path step) = Step-Durable step (Reachable-Durable q path)

  -- If `json.Unmarshal` reads back what was marshalled, a restart over the disk of a store that
  -- the calls of `Step` reach from an empty one finds the same item under every workspace and id.
  -- Those calls are `Add`, of an item with a plain key where the write succeeds, or with a write
  -- that leaves the file alone, and `UpdateStatus`, with a write that succeeds. No two plain keys
  -- share a file, and their files are listed in the directory.
  pub restart-get :
      (s : Store) (workspace_id id : String)
      → Reachable codec plain empty s
      → get (new codec s.files) workspace_id id ≡ get s workspace_id id
  unfolding get
  restart-get s workspace_id id path =
      Durable-new codec plain s (Reachable-Durable s path) (key workspace_id id)

  skipped :
      (left : String) (m : List (String × Item)) (listed : Bool)
      → codec.unmarshal left ≡ none
      → (if listed then accept codec (codec.unmarshal left) m else m) ≡ m
  unfolding accept
  skipped left m true unread = rw unread refl
  skipped left m false unread = refl

  -- A file that no longer holds an item is not loaded.
  torn-new :
      (s : Store) (k left : String)
      → Durable codec plain s
      → codec.unmarshal left ≡ none
      → find k (new codec (put (codec.path_of k) left s.files)).items ≡ none
  unfolding new load accept put find
  torn-new s k left d unread =
      let p = codec.path_of k in
      let rest = remove p s.files in
      let filed : AllFiled codec plain rest =
        λ n t h. d.filed n t (find-remove-some n p t s.files h).1 in
      let gone =
        load-other codec plain rest [] k filed (remove-IsDistinct p s.files d.distinct)
          (inr (find-remove p s.files)) in
      ap (λ m. find k (load codec rest m)) (skipped left [] (codec.in_dir p) unread) ∙ gone

  failed_write :
      (s : Store) (workspace_id id status receipt_id decided_at target_path : String) (old : Item)
      → get s workspace_id id ≡ some old
      → (get
            (update_status codec failed s workspace_id id status receipt_id decided_at
              target_path).0
            workspace_id
            id
          ≡ some (decide status receipt_id decided_at target_path old))
        × ((update_status codec failed s workspace_id id status receipt_id decided_at
              target_path).0.files
            ≡ s.files)
  unfolding get update_status persist write_file
  failed_write s workspace_id id status receipt_id decided_at target_path old h =
      let item = decide status receipt_id decided_at target_path old in
      elim (Option-cases (codec.marshal_indent item)) [
        | inl g ↦ (
          ground (arith, h, g, find-put (key workspace_id id) item s.items),
          ground (arith, h, g),
        )
        | inr (text, g) ↦ (
          ground (arith, h, g, find-put (key workspace_id id) item s.items),
          ground (arith, h, g),
        )
      ]

  torn_write :
      (s : Store) (workspace_id id status receipt_id decided_at target_path text left : String)
      (old : Item)
      → get s workspace_id id ≡ some old
      → key_of old ≡ key workspace_id id
      → codec.marshal_indent (decide status receipt_id decided_at target_path old) ≡ some text
      → (get
            (update_status codec
              (torn left)
              s
              workspace_id
              id
              status
              receipt_id
              decided_at
              target_path).0
            workspace_id
            id
          ≡ some (decide status receipt_id decided_at target_path old))
        × ((update_status codec
              (torn left)
              s
              workspace_id
              id
              status
              receipt_id
              decided_at
              target_path).0.files
            ≡ put (codec.path_of (key workspace_id id)) left s.files)
  unfolding get update_status persist write_file key_of
  torn_write s workspace_id id status receipt_id decided_at target_path text left old h name g =
      let item = decide status receipt_id decided_at target_path old in
      let path = ap (λ k. put (codec.path_of k) left s.files) name in
      (
        ground (arith, h, g, find-put (key workspace_id id) item s.items),
        ground (arith, h, g, path),
      )

  -- If `json.Unmarshal` reads back what was marshalled, then in a store that the calls of `Step`
  -- reach, which add items with plain keys only, a decision that is encoded and whose write fails
  -- is nevertheless what `Get` answers. A restart brings back the item as it was where the write
  -- left the file alone, and finds no item where it left a text that does not decode.
  pub update_status-Lost :
      (s : Store) (workspace_id id status receipt_id decided_at target_path text left : String)
      (old : Item)
      → Reachable codec plain empty s
      → get s workspace_id id ≡ some old
      → codec.marshal_indent (decide status receipt_id decided_at target_path old) ≡ some text
      → codec.unmarshal left ≡ none
      → let decided = decide status receipt_id decided_at target_path old in
        let after : Write → Store = λ w.
          (update_status codec w s workspace_id id status receipt_id decided_at target_path).0 in
        (get (after failed) workspace_id id ≡ some decided)
        × (get (new codec (after failed).files) workspace_id id ≡ some old)
        × (get (after (torn left)) workspace_id id ≡ some decided)
        × (get (new codec (after (torn left)).files) workspace_id id ≡ none)
  unfolding get
  update_status-Lost s workspace_id id status receipt_id decided_at target_path text left old path h
        encoded unread =
      let k = key workspace_id id in
      let durable = Reachable-Durable s path in
      let name = (Durable-Filed codec plain s k old durable h).0 in
      let (memory, disk) =
        failed_write s workspace_id id status receipt_id decided_at target_path old h in
      let (memory', disk') =
        torn_write s workspace_id id status receipt_id decided_at target_path text left old h name
          encoded in
      (
        memory,
        ap (λ f. get (new codec f) workspace_id id) disk ∙ restart-get s workspace_id id path ∙ h,
        memory',
        ap (λ f. get (new codec f) workspace_id id) disk' ∙ torn-new s k left durable unread,
      )
