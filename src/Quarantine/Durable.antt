-- ===== src/Quarantine/Durable.antt =====
-- What a restart of the quarantine store finds.
use cann_o_call.Prelude.{
  ◌≡◌, ◌≢◌, refl, sym, ap, ◌∙◌, subst, String, Bool, true, false, ◌⊎◌, List, [], ◌∷◌, none, some,
  ◌==◌, inl, inr, arith, Bool-cases, Option-cases, eq→path, ne→false, eq_refl, ◌>>=◌,
}
use cann_o_call.Prelude.Assoc.{find, put}
use cann_o_call.Prelude.Maps.{
  keys, IsDistinct, keys-has, put-IsDistinct, find-put, find-put_other, find-put-some, false→ne,
}
use cann_o_call.Quarantine.{
  Item, Store, Codec, written, failed, encode_failed, key, key_of, lacks_ids, load, accept, new,
  persist, keep, add, decide, update_status, write_file,
}

-- The keys that `filepath.Join` leaves alone, such as those without a separator of paths: their files
-- are listed in the directory, and no two of them share a file.
pub record PlainKeys (codec : Codec) : Type 0 where
  pub is_plain : String → Bool
  pub inside : (k : String) → is_plain k ≡ true → codec.in_dir (codec.path_of k) ≡ true
  pub apart :
      (j k : String)
      → is_plain j ≡ true
      → is_plain k ≡ true
      → codec.path_of j ≡ codec.path_of k
      → j ≡ k

module _ (codec : Codec) (plain : PlainKeys codec) where
  -- A text of a file under a path, and the item that it holds.
  pub record Filed (path text : String) : Type 0 where
    pub item : Item
    pub reads : codec.unmarshal text ≡ some item
    pub named : codec.path_of (key_of item) ≡ path
    pub is_plain : plain.is_plain (key_of item) ≡ true
    pub complete : lacks_ids item ≡ false

  -- Every file holds the item of its path.
  abbrev pub AllFiled : List (String × String) → Type 0
  AllFiled files = (n t : String) → find n files ≡ some t → Filed n t

  rest-AllFiled :
      (n t : String) (files : List (String × String))
      → IsDistinct (keys ((n, t) ∷ files))
      → AllFiled ((n, t) ∷ files)
      → AllFiled files
  unfolding find keys
  rest-AllFiled n t files d good i u h =
      let absent = keys-has n files d.0 in
      let other : i ≢ n = λ q. ground (arith, h, absent, ap (λ k. find k files) q) in
      good i u (ground (arith, h, ne→false i n other))

  load-Filed :
      (n t : String) (files : List (String × String)) (m : List (String × Item))
      → (x : Filed n t)
      → load codec ((n, t) ∷ files) m ≡ load codec files (put (key_of x.item) x.item m)
  unfolding load accept
  load-Filed n t files m x =
      let listed = subst (λ p. codec.in_dir p ≡ true) x.named (plain.inside _ x.is_plain) in
      rw (listed, x.reads, x.complete) refl

  -- No file is the key's.
  abbrev pub Missing : String → List (String × String) → Type 0
  Missing k files = (plain.is_plain k ≡ false) ⊎ (find (codec.path_of k) files ≡ none)

  Missing-ne :
      (n t k : String) (files : List (String × String))
      → (x : Filed n t) → Missing k ((n, t) ∷ files)
      → k ≢ key_of x.item
  unfolding find
  Missing-ne n t k files x (inl h) q = ground (arith, h, x.is_plain, ap plain.is_plain q)
  Missing-ne n t k files x (inr h) q =
      let here = ap codec.path_of q ∙ x.named in
      ground (arith, h, eq_refl n, ap (λ i. (i == n)) here)

  Missing-rest :
      (n t k : String) (files : List (String × String))
      → Missing k ((n, t) ∷ files)
      → Missing k files
  unfolding find
  Missing-rest n t k files (inl h) = inl h
  Missing-rest n t k files (inr h) = inr (ground (arith, h))

  pub load-other :
      (files : List (String × String)) (m : List (String × Item)) (k : String)
      → AllFiled files
      → IsDistinct (keys files)
      → Missing k files
      → find k (load codec files m) ≡ find k m
  unfolding load find keys
  load-other [] m k good d h = refl
  load-other ((n, t) ∷ files) m k good d h =
      let x = good n t (ground (arith, eq_refl n)) in
      let rest = rest-AllFiled n t files d good in
      ap (find k) (load-Filed n t files m x)
      ∙ load-other files (put (key_of x.item) x.item m) k rest d.1 (Missing-rest n t k files h)
      ∙ find-put_other k (key_of x.item) x.item m (Missing-ne n t k files x h)

  load-here :
      (files : List (String × String)) (m : List (String × Item)) (k u : String)
      → AllFiled files
      → IsDistinct (keys files)
      → plain.is_plain k ≡ true
      → find (codec.path_of k) files ≡ some u
      → find k (load codec files m) ≡ codec.unmarshal u
  unfolding load find keys
  load-here [] m k u good d p h = absurd (ground (arith, h))
  load-here ((n, t) ∷ files) m k u good d p h =
      let x = good n t (ground (arith, eq_refl n)) in
      let j = key_of x.item in
      let rest = rest-AllFiled n t files d good in
      ap (find k) (load-Filed n t files m x) ∙ elim (Bool-cases (codec.path_of k == n)) [
        | inr e ↦ load-here files (put j x.item m) k u rest d.1 p (ground (arith, h, e))
        | inl e ↦
            let same : t ≡ u = ground (arith, h, e) in
            let path = eq→path (codec.path_of k) n e in
            let name = plain.apart k j p x.is_plain (path ∙ sym x.named) in
            let absent = subst (λ i. find i files ≡ none) (sym path) (keys-has n files d.0) in
            load-other files (put j x.item m) k rest d.1 (inr absent)
            ∙ ap (λ i. find i (put j x.item m)) name
            ∙ find-put j x.item m
            ∙ sym x.reads
            ∙ ap codec.unmarshal same
      ]

  -- The disk and the map hold the same items, all under plain keys.
  pub record Durable (s : Store) : Type 0 where
    pub distinct : IsDistinct (keys s.files)
    pub filed : (n t : String) → find n s.files ≡ some t → Filed n t
    pub same :
        (k : String)
        → plain.is_plain k ≡ true
        → find k s.items ≡ (find (codec.path_of k) s.files >>= codec.unmarshal)
    pub absent : (k : String) → plain.is_plain k ≡ false → find k s.items ≡ none

  pub Durable-new :
      (s : Store) → Durable s → (k : String) → find k (new codec s.files).items ≡ find k s.items
  unfolding new find
  Durable-new s d k = elim (Bool-cases (plain.is_plain k)) [
    | inr p ↦ load-other s.files [] k d.filed d.distinct (inl p) ∙ sym (d.absent k p)
    | inl p ↦ elim (Option-cases (find (codec.path_of k) s.files)) [
      | inl e ↦ load-other s.files [] k d.filed d.distinct (inr e) ∙ ground (arith, d.same k p, e)
      | inr (t, e) ↦ load-here s.files [] k t d.filed d.distinct p e ∙ ground (arith, d.same k p, e)
    ]
  ]

  -- Writing an item under its name, in the map and in the directory.
  put-Durable :
      (s : Store) (item : Item) (text : String)
      → Durable s
      → codec.unmarshal text ≡ some item
      → lacks_ids item ≡ false
      → plain.is_plain (key_of item) ≡ true
      → Durable (record s {
        items = put (key_of item) item s.items;
        files = put (codec.path_of (key_of item)) text s.files;
      })
  put-Durable s item text d reads complete is_plain =
      let k = key_of item in
      let path = codec.path_of k in
      record {
        distinct = put-IsDistinct path text s.files d.distinct;
        filed = λ n t h. elim (find-put-some n path text t s.files h) [
          | inl e ↦ record {
            item = item;
            reads = ap codec.unmarshal (sym e.1) ∙ reads;
            named = sym e.0;
            is_plain = is_plain;
            complete = complete;
          }
          | inr e ↦ d.filed n t e.1
        ];
        same = λ j p. elim (Bool-cases (j == k)) [
          | inl e ↦
              let name = sym (eq→path j k e) in
              subst
                (λ i.
                  find i (put k item s.items)
                  ≡ (find (codec.path_of i) (put path text s.files) >>= codec.unmarshal))
                name
                (find-put k item s.items
                  ∙ sym reads
                  ∙ ap (λ o. o >>= codec.unmarshal) (sym (find-put path text s.files)))
          | inr e ↦
              let other = false→ne j k e in
              let elsewhere : codec.path_of j ≢ path = λ q. other (plain.apart j k p is_plain q) in
              find-put_other j k item s.items other
              ∙ d.same j p
              ∙ ap (λ o. o >>= codec.unmarshal)
                  (sym (find-put_other (codec.path_of j) path text s.files elsewhere))
        ];
        absent = λ j p.
            let other : j ≢ k = λ q. ground (arith, p, is_plain, ap plain.is_plain q) in
            find-put_other j k item s.items other ∙ d.absent j p;
      }

  -- An item of the map is the one that its file holds, complete and under its own name.
  pub Durable-Filed :
      (s : Store) (k : String) (item : Item)
      → Durable s
      → find k s.items ≡ some item
      → (key_of item ≡ k) × (lacks_ids item ≡ false) × (plain.is_plain k ≡ true)
  Durable-Filed s k item d h = elim (Bool-cases (plain.is_plain k)) [
    | inr p ↦ absurd (ground (arith, d.absent k p, h))
    | inl p ↦ elim (Option-cases (find (codec.path_of k) s.files)) [
      | inl e ↦ absurd (ground (arith, d.same k p, e, h))
      | inr (t, e) ↦
          let x = d.filed (codec.path_of k) t e in
          let same : x.item ≡ item = ground (arith, d.same k p, e, h, x.reads) in
          subst (λ i. (key_of i ≡ k) × (lacks_ids i ≡ false) × (plain.is_plain k ≡ true)) same
            (plain.apart (key_of x.item) k x.is_plain p x.named, x.complete, p)
    ]
  ]

  module _
      (reads : (item : Item) (text : String)
        → codec.marshal_indent item ≡ some text
        → codec.unmarshal text ≡ some item) where
    pub add-Durable :
        (s : Store) (item : Item)
        → plain.is_plain (key_of item) ≡ true
        → Durable s
        → Durable (add codec written s item).0
    unfolding add keep persist write_file
    add-Durable s item p d = elim (Bool-cases (lacks_ids item)) [
      | inl e ↦ subst Durable (ground (arith, e)) d
      | inr e ↦ elim (Option-cases (find (key_of item) s.items)) [
        | inr (old, f) ↦ subst Durable (ground (arith, e, f)) d
        | inl f ↦ elim (Option-cases (codec.marshal_indent item)) [
          | inl g ↦ subst Durable (ground (arith, e, f, g)) d
          | inr (text, g) ↦
              subst Durable (ground (arith, e, f, g))
                (put-Durable s item text d (reads item text g) e p)
        ]
      ]
    ]

    pub add-failed-Durable :
        (s : Store) (item : Item) → Durable s → Durable (add codec failed s item).0
    unfolding add keep persist write_file
    add-failed-Durable s item d = subst Durable (ground (arith)) d

    pub update_status-Durable :
        (s : Store) (workspace_id id status receipt_id decided_at target_path : String)
        → Durable s
        → (update_status codec written s workspace_id id status receipt_id decided_at target_path).1
          ≢ some encode_failed
        → Durable
            (update_status codec written s workspace_id id status receipt_id decided_at
              target_path).0
    unfolding update_status persist write_file key_of lacks_ids
    update_status-Durable s workspace_id id status receipt_id decided_at target_path d ok_text =
        elim (Option-cases (find (key workspace_id id) s.items)) [
          | inl e ↦ subst Durable (ground (arith, e)) d
          | inr (old, e) ↦
              let item = decide status receipt_id decided_at target_path old in
              let (name, complete, p) = Durable-Filed s (key workspace_id id) old d e in
              let same_key : key_of item ≡ key_of old = refl in
              let complete_too : lacks_ids item ≡ false = complete in
              let is_plain : plain.is_plain (key_of item) ≡ true =
                subst (λ i. plain.is_plain i ≡ true) (sym (same_key ∙ name)) p in
              elim (Option-cases (codec.marshal_indent item)) [
                | inl g ↦ absurd (ok_text (ground (arith, e, g)))
                | inr (text, g) ↦
                    let moved : record s {
                      items = put (key_of item) item s.items;
                      files = put (codec.path_of (key_of item)) text s.files;
                    }
                        ≡ (update_status codec written s workspace_id id status receipt_id
                            decided_at target_path).0 =
                      ground (arith, e, g, ap (λ k. put k item s.items) (same_key ∙ name)) in
                    subst Durable moved
                      (put-Durable s item text d (reads item text g) complete_too is_plain)
              ]
        ]
