-- ===== src/Inspect/Strings.antt =====
-- pkg/inspect/parse.go: `InspectStrings`, which gives every text of a value to a handler.
use spinnaker_operator.Base.{String, Option, none, some}
use spinnaker_operator.Base.Io.{Io, go_on, returned}
use spinnaker_operator.Base.Result.{ok, panic}
use spinnaker_operator.Inspect.Value.{
  Value, nil, bool, int, float, string, slice, map, Items, end, item, Fields, empty, field,
}

module _ {S E : Type 0} (handler : String → Io S E String) where
  -- What is found of nil is the zero `reflect.Value`, here none: setting a slice's element to it panics,
  -- and setting a map's key to it leaves the key out.

  abbrev with_item : Io S E Items → Option Value → Io S E Items
  with_item rest none s = (s, panic)
  with_item rest (some v) s = go_on (λ xs. returned (ok (item v xs))) (rest s)

  abbrev with_field : String → Io S E Fields → Option Value → Io S E Fields
  with_field k rest none s = rest s
  with_field k rest (some v) s = go_on (λ fs. returned (ok (field k v fs))) (rest s)

  unfoldable mutual
    inspect_value : Value → Io S E (Option Value)
    inspect_value nil s = (s, ok none)
    inspect_value (bool b) s = (s, ok (some (bool b)))
    inspect_value (int n) s = (s, ok (some (int n)))
    inspect_value (float x) s = (s, ok (some (float x)))
    inspect_value (string t) s = go_on (λ t'. returned (ok (some (string t')))) (handler t s)
    inspect_value (slice xs) s = go_on (λ ys. returned (ok (some (slice ys)))) (inspect_items xs s)
    inspect_value (map fs) s = go_on (λ gs. returned (ok (some (map gs)))) (inspect_fields fs s)

    inspect_items : Items → Io S E Items
    inspect_items end s = (s, ok end)
    inspect_items (item v xs) s = go_on (with_item (inspect_items xs)) (inspect_value v s)

    inspect_fields : Fields → Io S E Fields
    inspect_fields empty s = (s, ok empty)
    inspect_fields (field k v fs) s = go_on (with_field k (inspect_fields fs)) (inspect_value v s)

  abbrev interface : Option Value → Io S E Value
  interface none = returned panic
  interface (some v) = returned (ok v)

  unfoldable pub inspect_strings : Value → Io S E Value
  unfolding inspect_value
  inspect_strings v s = go_on interface (inspect_value v s)
