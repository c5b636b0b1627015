-- ===== src/Inspect/Getter.antt =====
-- pkg/inspect/getter.go
use spinnaker_operator.Base.{String, Bool, false, Option, none, some, List, [], ◌∷◌, ltb, length}
use spinnaker_operator.Base.{if◌then◌else◌}
use spinnaker_operator.Base.Text.{split, is_empty}
use spinnaker_operator.Base.Number.{ℤ, pos, negsuc, NumError, parse_int, format_int}
use spinnaker_operator.Base.Result.{Result, ok, err, panic, ◌>>=◌}
use spinnaker_operator.Inspect.Value.{
  Value, bool, int, float, string, slice, map, Items, end, item, Fields, Error, invalid_interface,
  unknown_type, bad_index, out_of_bounds, not_boolean, not_string, not_array, no_map_at,
  no_string_at, get_field, get_item,
}

-- The element that `strconv.Atoi` selects; an index below 0 passes the test and panics.
abbrev pub at_index : ℤ × Option NumError → Items → Result Error Value
at_index (z, some e) xs = err (bad_index e)
at_index (negsuc n, none) xs = panic
at_index (pos n, none) xs = elim (get_item n xs) [ some v ↦ ok v | none ↦ err (out_of_bounds n) ]

unfoldable pub inspect_property : Value → String → Result Error Value
inspect_property (map fs) key = elim (get_field key fs) [
  | some v ↦ ok v
  | none ↦ err (invalid_interface key)
]
inspect_property (slice xs) key = at_index (parse_int 64 key) xs
inspect_property _ key = err (unknown_type key)

unfoldable pub get_object_prop_from_keys : Value → List String → Result Error Value
get_object_prop_from_keys c [] = ok c
get_object_prop_from_keys c (k ∷ ks) = inspect_property c k >>= λ p. get_object_prop_from_keys p ks

-- An error of the path read is retried with the whole text as one key.
abbrev retry : Value → String → List String → Result Error Value → Result Error Value
retry obj prop addr (err e) =
    if ltb 1 (length addr) then get_object_prop_from_keys obj (prop ∷ []) else err e
retry obj prop addr r = r

unfoldable pub get_object_prop : Value → String → Result Error Value
unfolding get_object_prop_from_keys
get_object_prop obj prop =
    let addr = split b'.' prop in
    if is_empty prop then ok obj else retry obj prop addr (get_object_prop_from_keys obj addr)

-- On an error the value that is returned beside it is kept: the default where the property is
-- missing, `false` where it is not a boolean.
unfoldable pub get_object_prop_bool : Value → String → Bool → Result (Bool × Error) Bool
get_object_prop_bool obj prop default_val = elim (get_object_prop obj prop) [
  | err e ↦ err (default_val, e)
  | panic ↦ panic
  | ok v ↦ elim v [ bool b ↦ ok b | _ ↦ err (false, not_boolean prop) ]
]

abbrev raw_string : String → Value → Result Error String
raw_string prop (string s) = ok s
raw_string prop (int n) = ok (format_int n)
raw_string prop (float x) = ok x
raw_string prop (bool b) = ok (if b then "true" else "false")
raw_string prop _ = err (not_string prop)

unfoldable pub get_raw_object_prop_string : Value → String → Result Error String
get_raw_object_prop_string obj prop = get_object_prop obj prop >>= raw_string prop

-- The elements of a slice as maps; an empty slice gives the nil slice.
unfoldable pub as_maps : String → Items → Result Error (List Fields)
as_maps prop end = ok []
as_maps prop (item (map fs) xs) = as_maps prop xs >>= λ rest. ok (fs ∷ rest)
as_maps prop (item _ xs) = err (no_map_at prop)

abbrev maps_of : String → Value → Result Error (List Fields)
maps_of prop (slice xs) = as_maps prop xs
maps_of prop _ = err (not_array prop)

unfoldable pub get_object_array : Value → String → Result Error (List Fields)
unfolding as_maps
get_object_array obj prop = get_object_prop obj prop >>= maps_of prop

unfoldable pub as_strings : String → Items → Result Error (List String)
as_strings prop end = ok []
as_strings prop (item (string s) xs) = as_strings prop xs >>= λ rest. ok (s ∷ rest)
as_strings prop (item _ xs) = err (no_string_at prop)

abbrev strings_of : String → Value → Result Error (List String)
strings_of prop (slice xs) = as_strings prop xs
strings_of prop _ = err (not_array prop)

unfoldable pub get_string_array : Value → String → Result Error (List String)
unfolding as_strings
get_string_array obj prop = get_object_prop obj prop >>= strings_of prop
