-- ===== src/Inspect/Merge.antt =====
-- pkg/inspect/parse.go: `Merge`. Its result is a new map, filled by two loops over the keys.
pub mod Lookup
use spinnaker_operator.Base.{String, Option, none, some}
use spinnaker_operator.Inspect.Value.{
  Value, slice, map, Items, Fields, empty, field, get_field, put_field, append_items,
}

-- The second loop: the keys of `b` that `a` lacks.
merge_rest : Fields → Fields → Fields → Fields
merge_rest a empty result = result
merge_rest a (field k bv bs) result =
    merge_rest a bs (elim (get_field k a) [ none ↦ put_field k bv result | some _ ↦ result ])

-- A slice of `a` beside what `b` has: without a `b[k]` the key is not written at all.
abbrev merge_slice : String → Items → Option Value → Fields → Fields
merge_slice k xs none result = result
merge_slice k xs (some (slice ys)) result = put_field k (slice (append_items xs ys)) result
merge_slice k xs (some bv) result = put_field k bv result

abbrev override : String → Value → Option Value → Fields → Fields
override k av none result = put_field k av result
override k av (some bv) result = put_field k bv result

-- The first loop: the keys of `a`, each with what `b` has there. Maps are merged in turn.
merge_keys : Fields → Fields → Fields → Fields
unfolding merge_rest
merge_keys empty b result = result
merge_keys (field k (map am) rest) b result = elim (get_field k b) [
  | some (map bm) ↦
      merge_keys rest b (put_field k (map (merge_rest am bm (merge_keys am bm empty))) result)
  | some bv ↦ merge_keys rest b (put_field k bv result)
  | none ↦ merge_keys rest b (put_field k (map am) result)
]
merge_keys (field k (slice xs) rest) b result =
    merge_keys rest b (merge_slice k xs (get_field k b) result)
merge_keys (field k av rest) b result = merge_keys rest b (override k av (get_field k b) result)

unfoldable pub merge : Fields → Fields → Fields
unfolding merge_keys merge_rest
merge a b = merge_rest a b (merge_keys a b empty)
