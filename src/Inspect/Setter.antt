-- ===== src/Inspect/Setter.antt =====
-- pkg/inspect/setter.go. A Go map or slice is a reference: what a call writes below a container is
-- seen from above. The model returns the container with the change put back where it stands.
pub mod RoundTrip
pub mod Atomic
pub mod Frame
use spinnaker_operator.Base.{ℕ, String, Bool, true, false, Option, none, some, List, [], ◌∷◌}
use spinnaker_operator.Base.{if◌then◌else◌}
use spinnaker_operator.Base.Text.{split}
use spinnaker_operator.Base.Number.{ℤ, pos, negsuc, NumError, parse_int}
use spinnaker_operator.Base.Result.{Result, ok, err, panic}
use spinnaker_operator.Inspect.Value.{
  Value, nil, slice, map, Items, Fields, empty, Error, invalid_interface, unknown_type, bad_index,
  out_of_bounds, get_field, put_field, remove_field, get_item, set_item,
}

-- `SetMapIndex` with the zero `Value`, which nil gives, deletes the key.
abbrev store_field : Fields → String → Value → Value × Result Error Value
store_field fs key nil = (map (remove_field key fs), err (invalid_interface key))
store_field fs key v = (map (put_field key v fs), ok v)

-- `Set` with the zero `Value` panics.
abbrev store_item : Items → ℕ → Value → Value × Result Error Value
store_item xs n nil = (slice xs, panic)
store_item xs n v = (slice (set_item n v xs), ok v)

abbrev slot : ℤ × Option NumError → Items → Value → Bool → Value × Result Error Value
slot (z, some e) xs value only_default = (slice xs, err (bad_index e))
slot (negsuc n, none) xs value only_default = (slice xs, panic)
slot (pos n, none) xs value only_default = elim (get_item n xs) [
  | none ↦ (slice xs, err (out_of_bounds n))
  | some old ↦ if only_default then (slice xs, ok old) else store_item xs n value
]

-- The container after the call, and what it holds at the key.
unfoldable pub inspect_property_or_set : Value → String → Value → Bool → Value × Result Error Value
inspect_property_or_set (map fs) key value only_default = elim (get_field key fs) [
  | none ↦ store_field fs key value
  | some old ↦ if only_default then (map fs, ok old) else store_field fs key value
]
inspect_property_or_set (slice xs) key value only_default =
    slot (parse_int 64 key) xs value only_default
inspect_property_or_set c key value only_default = (c, err (unknown_type key))

abbrev write_item : ℤ × Option NumError → Items → Value → Value
write_item (pos n, none) xs child = slice (set_item n child xs)
write_item _ xs child = slice xs

-- A change below the child at a key, seen in the container.
unfoldable pub write_back : Value → String → Value → Value
write_back (map fs) key child = map (put_field key child fs)
write_back (slice xs) key child = write_item (parse_int 64 key) xs child
write_back c key child = c

abbrev done : Result Error Value → Result Error (Unit {0})
done (ok v) = ok tt
done (err e) = err e
done panic = panic

abbrev descend :
    (Value → Value × Result Error (Unit {0}))
    → String
    → Value × Result Error Value
    → Value × Result Error (Unit {0})
descend below key (c, ok child) = let (child', r) = below child in (write_back c key child', r)
descend below key (c, err e) = (c, err e)
descend below key (c, panic) = (c, panic)

-- The loop of `SetObjectProp`: missing maps are made on the way, and the last key is written.
unfoldable pub set_from_keys : Value → List String → Value → Value × Result Error (Unit {0})
set_from_keys c [] value = (c, ok tt)
set_from_keys c (a ∷ []) value =
    let (c', r) = inspect_property_or_set c a value false in (c', done r)
set_from_keys c (a ∷ b ∷ rest) value =
    descend (λ child. set_from_keys child (b ∷ rest) value) a
      (inspect_property_or_set c a (map empty) true)

unfoldable pub set_object_prop : Fields → String → Value → Value × Result Error (Unit {0})
unfolding set_from_keys
set_object_prop obj prop value = set_from_keys (map obj) (split b'.' prop) value
