-- ===== src/Quarantine/Examples.antt =====
-- One quarantined file, and two whose names in the store are the same.
use cann_o_call.Prelude.{
  not, subst, ◌≡◌, refl, sym, ℕ, Bool, true, false, ◌&&◌, ◌==◌, ◌∷◌, if◌then◌else◌, inl, inr,
  Bool-cases, eq→path, String, List, [], none, some, arith,
}
use cann_o_call.Prelude.Assoc.{find}
use cann_o_call.Prelude.Int64.{pos, ◌==ℤ◌, int_eq_iff}
use cann_o_call.Quarantine.{
  Item, Store, Write, Codec, written, failed, torn, decide, key, new, add, update_status, get,
}
use cann_o_call.Quarantine.Durable.{PlainKeys}
use cann_o_call.Quarantine.Steps.{
  Reachable, begin, next, adds, empty, restart-get, update_status-Lost,
}

abbrev item : Item
item = record {
  id = "c";
  workspace_id = "a__b";
  original_path = "x";
  safe_path = "x";
  target_path = "";
  reason = "traversal";
  status = "pending";
  sha256 = "h";
  size = pos 1;
  decided_at = "";
  receipt_id = "";
  content = [];
}

is_empty : List ℕ → Bool
is_empty [] = true
is_empty (x ∷ l) = false

-- Whether an item differs from `item` in its status at most.
is_same : Item → Bool
is_same i =
    i.id == item.id
    && i.workspace_id == item.workspace_id
    && i.original_path == item.original_path
    && i.safe_path == item.safe_path
    && i.target_path == item.target_path
    && i.reason == item.reason
    && i.sha256 == item.sha256
    && i.decided_at == item.decided_at
    && i.receipt_id == item.receipt_id
    && i.size ==ℤ item.size
    && is_empty i.content

-- A text holds the status, which is not empty; the other fields are those of `item`.
abbrev codec : Codec
codec = record {
  path_of = λ k. k;
  in_dir = λ path. true;
  marshal_indent = λ i. if is_same i && not (i.status == "") then some i.status else none;
  unmarshal = λ s. if s == "" then none else some (record item { status = s });
}

is_empty-nil : (l : List ℕ) → is_empty l ≡ true → l ≡ []
unfolding is_empty
is_empty-nil [] h = refl
is_empty-nil (x ∷ l) h = absurd (ground (arith, h))

reads :
    (i : Item) (text : String) → codec.marshal_indent i ≡ some text → codec.unmarshal text ≡ some i
unfolding is_same
reads i text h = elim (Bool-cases (is_same i && not (i.status == ""))) [
  | inr e ↦ absurd (ground (arith, h, e))
  | inl e ↦
      let at_status : i.status ≡ text = ground (arith, h, e) in
      let stated : (text == "") ≡ false =
        subst (λ s. (s == "") ≡ false) at_status (ground (arith, e)) in
      let at_id : i.id ≡ item.id = eq→path i.id item.id (ground (arith, e)) in
      let at_workspace_id : i.workspace_id ≡ item.workspace_id =
        eq→path i.workspace_id item.workspace_id (ground (arith, e)) in
      let at_original_path : i.original_path ≡ item.original_path =
        eq→path i.original_path item.original_path (ground (arith, e)) in
      let at_safe_path : i.safe_path ≡ item.safe_path =
        eq→path i.safe_path item.safe_path (ground (arith, e)) in
      let at_target_path : i.target_path ≡ item.target_path =
        eq→path i.target_path item.target_path (ground (arith, e)) in
      let at_reason : i.reason ≡ item.reason = eq→path i.reason item.reason (ground (arith, e)) in
      let at_sha256 : i.sha256 ≡ item.sha256 = eq→path i.sha256 item.sha256 (ground (arith, e)) in
      let at_decided_at : i.decided_at ≡ item.decided_at =
        eq→path i.decided_at item.decided_at (ground (arith, e)) in
      let at_receipt_id : i.receipt_id ≡ item.receipt_id =
        eq→path i.receipt_id item.receipt_id (ground (arith, e)) in
      let at_size : i.size ≡ item.size = (int_eq_iff i.size item.size).0 (ground (arith, e)) in
      let at_content : i.content ≡ [] = is_empty-nil i.content (ground (arith, e)) in
      rw stated (
        sym (λ j. some (record {
          id = at_id j;
          workspace_id = at_workspace_id j;
          original_path = at_original_path j;
          safe_path = at_safe_path j;
          target_path = at_target_path j;
          reason = at_reason j;
          status = at_status j;
          sha256 = at_sha256 j;
          size = at_size j;
          decided_at = at_decided_at j;
          receipt_id = at_receipt_id j;
          content = at_content j;
        })))
]

-- No key shares its file with another one here.
abbrev all_plain : PlainKeys codec
all_plain = record { is_plain = λ k. true; inside = λ k p. refl; apart = λ j k p q e. e }

same_key : key "a__b" "c" ≡ key "a" "b__c"
unfolding key
same_key = refl

abbrev stored : Store
stored = (add codec written empty item).0

path : Reachable codec all_plain empty stored
path = next begin (adds item refl)

held : get stored "a__b" "c" ≡ some item
unfolding get add find key is_same is_empty
held = refl

-- The second item is not stored, and its names find the first one.
shadowed :
    get (add codec written stored (record item { workspace_id = "a"; id = "b__c" })).0 "a" "b__c"
    ≡ some item
unfolding get add find key is_same is_empty
shadowed = refl

restart-get_example : get (new codec stored.files) "a__b" "c" ≡ get stored "a__b" "c"
restart-get_example = restart-get codec all_plain reads stored "a__b" "c" path

update_status-Lost_example :
    let decided = decide "released" "" "" "" item in
    let after : Write → Store =
      λ w. (update_status codec w stored "a__b" "c" "released" "" "" "").0 in
    (get (after failed) "a__b" "c" ≡ some decided)
    × (get (new codec (after failed).files) "a__b" "c" ≡ some item)
    × (get (after (torn "")) "a__b" "c" ≡ some decided)
    × (get (new codec (after (torn "")).files) "a__b" "c" ≡ none)
unfolding is_same is_empty
update_status-Lost_example =
    update_status-Lost codec all_plain reads stored "a__b" "c" "released" "" "" "" "released" ""
      item path held refl refl
