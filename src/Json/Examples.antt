-- ===== src/Json/Examples.antt =====
-- The canonical text at one value.
use cann_o_call.Prelude.{◌≡◌, refl, none, some, true, arith, eq_iff}
use cann_o_call.Json.{Json, null, bool, text, number, array, object, nil, cons, end, field}
use cann_o_call.Json.Canonical.{write_canonical}
use cann_o_call.Json.Canonical.Order.{same_object, swapped, write_canonical-same}

abbrev sample : Json
sample = object (
    field "b" (array (cons null (cons (bool true) (cons (number "1.50") nil))))
      (field "a" (text "x<\"") (field "c" (object end) end)))

write_sample :
    write_canonical sample ≡ some "{\"a\":\"x\\u003c\\\"\",\"b\":[null,true,1.50],\"c\":{}}"
unfolding write_canonical
write_sample = refl

bad_number : write_canonical (number "01") ≡ none
unfolding write_canonical
bad_number = refl

write_canonical-same_example :
    write_canonical (object (field "b" null (field "a" (bool true) end)))
    ≡ write_canonical (object (field "a" (bool true) (field "b" null end)))
write_canonical-same_example = write_canonical-same (
    same_object (
      swapped {k = "b"} {j = "a"} null (bool true) end
        (λ e. absurd (ground (arith, (eq_iff "b" "a").1 e)))))
