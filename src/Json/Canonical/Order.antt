-- ===== src/Json/Canonical/Order.antt =====
-- `writeCanonical` of internal/transition/authority.go, and the order in which a map is walked.
use cann_o_call.Prelude.{
  ◌≡◌, ◌≢◌, refl, ap, ◌∙◌, String, Option, none, some, List, ◌∷◌, arith, ◌>>=◌,
}
use cann_o_call.Prelude.Text.{str_lt, str_lt-IsOrder}
use cann_o_call.Prelude.Sort.{sort, insert_comm}
use cann_o_call.Json.{Json, Items, Fields, array, object, nil, cons, end, field}
use cann_o_call.Json.Canonical.{
  Member, name, write_canonical, write_items, write_fields, write_object, write_array,
}

-- Two values that differ in the order of their objects' members, at any depth, and in nothing else.
mutual
  pub data SameJson : Json → Json → Type 0 where
    same : (v : Json) → SameJson v v
    same_array : {a b : Items} → SameItems a b → SameJson (array a) (array b)
    same_object : {f g : Fields} → SameFields f g → SameJson (object f) (object g)

  pub data SameItems : Items → Items → Type 0 where
    same_nil : SameItems nil nil
    same_cons :
        {v w : Json} {a b : Items} → SameJson v w → SameItems a b → SameItems (cons v a) (cons w b)

  pub data SameFields : Fields → Fields → Type 0 where
    same_end : SameFields end end
    same_field :
        (k : String) {v w : Json} {f g : Fields}
        → SameJson v w
        → SameFields f g
        → SameFields (field k v f) (field k w g)
    swapped :
        {k j : String} (v w : Json) (f : Fields)
        → k ≢ j
        → SameFields (field k v (field j w f)) (field j w (field k v f))
    in_turn : {f g h : Fields} → SameFields f g → SameFields g h → SameFields f h

sorted_members : Option (List Member) → Option (List Member)
sorted_members none = none
sorted_members (some members) = some (sort str_lt name members)

add_member : String → Option String → Option (List Member) → Option (List Member)
add_member k none rest = none
add_member k (some here) none = none
add_member k (some here) (some rest) = some ((k, here) ∷ rest)

write_fields-field :
    (k : String) (v : Json) (f : Fields)
    → write_fields (field k v f) ≡ add_member k (write_canonical v) (write_fields f)
unfolding write_canonical add_member
write_fields-field k v f = ground arith

add_member-cong :
    (k : String) (h : Option String) (r r' : Option (List Member))
    → sorted_members r ≡ sorted_members r'
    → sorted_members (add_member k h r) ≡ sorted_members (add_member k h r')
unfolding sorted_members add_member sort
add_member-cong k none r r' q = refl
add_member-cong k (some h) none none q = refl
add_member-cong k (some h) none (some ms) q = cc
add_member-cong k (some h) (some ms) none q = cc
add_member-cong k (some h) (some ms) (some ns) q = cc

add_member-swap :
    (k j : String) (h i : Option String) (r : Option (List Member))
    → k ≢ j
    → sorted_members (add_member k h (add_member j i r))
      ≡ sorted_members (add_member j i (add_member k h r))
unfolding sorted_members add_member sort
add_member-swap k j none none r d = refl
add_member-swap k j none (some i) r d = refl
add_member-swap k j (some h) none r d = refl
add_member-swap k j (some h) (some i) none d = refl
add_member-swap k j (some h) (some i) (some r) d =
    ap some (insert_comm str_lt-IsOrder name (k, h) (j, i) (sort str_lt name r) d)

written : Option (List Member) → Option String
written r = r >>= λ members. some (write_object members)

written-sorted :
    (r r' : Option (List Member)) → sorted_members r ≡ sorted_members r' → written r ≡ written r'
unfolding sorted_members written write_object
written-sorted none none q = refl
written-sorted none (some ms) q = cc
written-sorted (some ms) none q = cc
written-sorted (some ms) (some ns) q = cc

write_object-sorted :
    (f g : Fields)
    → sorted_members (write_fields f) ≡ sorted_members (write_fields g)
    → write_canonical (object f) ≡ write_canonical (object g)
unfolding write_canonical written
write_object-sorted f g h = written-sorted (write_fields f) (write_fields g) h

write_fields-swap :
    (k j : String) (v w : Json) (f : Fields)
    → k ≢ j
    → sorted_members (write_fields (field k v (field j w f)))
      ≡ sorted_members (write_fields (field j w (field k v f)))
write_fields-swap k j v w f d =
    rw
      (
        write_fields-field k v (field j w f),
        write_fields-field j w f,
        write_fields-field j w (field k v f),
        write_fields-field k v f,
      )
      (add_member-swap k j (write_canonical v) (write_canonical w) (write_fields f) d)

mutual
  unfolding write_canonical

  canonical_same : {v w : Json} → SameJson v w → write_canonical v ≡ write_canonical w
  canonical_same (same v) = refl
  canonical_same (same_array s) =
      ap (λ ws. ws >>= λ written. some (write_array written)) (items_same s)
  canonical_same (same_object {f = f} {g = g} s) = write_object-sorted f g (fields_same s)

  items_same : {a b : Items} → SameItems a b → write_items a ≡ write_items b
  items_same same_nil = refl
  items_same (same_cons s t) = ground (arith, canonical_same s, items_same t)

  fields_same :
      {f g : Fields}
      → SameFields f g
      → sorted_members (write_fields f) ≡ sorted_members (write_fields g)
  fields_same same_end = refl
  fields_same (same_field k {v = v} {w = w} {f = f} {g = g} s t) =
      rw (write_fields-field k v f, write_fields-field k w g, canonical_same s)
        (add_member-cong k (write_canonical w) (write_fields f) (write_fields g) (fields_same t))
  fields_same (swapped {k = k} {j = j} v w f d) = write_fields-swap k j v w f d
  fields_same (in_turn s t) = fields_same s ∙ fields_same t

-- Two values that differ only in the order of members with different names, at any depth, are
-- written as the same canonical text, or both are refused.
pub write_canonical-same : {v w : Json} → SameJson v w → write_canonical v ≡ write_canonical w
write_canonical-same s = canonical_same s
