-- ===== src/Inspect/Missing.antt =====
-- pkg/inspect: reads and writes of a property whose first keys are not there.
use spinnaker_operator.Base.{
  String, true, false, ◌≡◌, none, some, List, [], ◌∷◌, length, ltb, arith,
}
use spinnaker_operator.Base.Text.{is_empty, split}
use spinnaker_operator.Base.Result.{ok, err}
use spinnaker_operator.Inspect.Value.{
  Value, map, Fields, empty, Error, invalid_interface, get_field, put_field,
}
use spinnaker_operator.Inspect.Getter.{
  inspect_property, get_object_prop_from_keys, get_object_prop, get_raw_object_prop_string,
}
use spinnaker_operator.Inspect.Setter.{inspect_property_or_set, write_back, set_from_keys}

pub get_object_prop_from_keys-missing :
    (key : String) (keys : List String) (fs : Fields)
    → get_field key fs ≡ none
    → get_object_prop_from_keys (map fs) (key ∷ keys) ≡ err (invalid_interface key)
unfolding get_object_prop_from_keys inspect_property
get_object_prop_from_keys-missing key keys fs h = ground arith

-- A path that ends early, and a property that is no key either.
pub get_object_prop-missing :
    (fs : Fields) (prop : String) {e : Error}
    → is_empty prop ≡ false
    → ltb 1 (length (split b'.' prop)) ≡ true
    → get_object_prop_from_keys (map fs) (split b'.' prop) ≡ err e
    → get_field prop fs ≡ none
    → get_object_prop (map fs) prop ≡ err (invalid_interface prop)
unfolding get_object_prop
get_object_prop-missing fs prop named long ended h =
    rw (named, ended, long, get_object_prop_from_keys-missing prop [] fs h)

pub get_raw_object_prop_string-missing :
    (obj : Value) (prop : String) {e : Error}
    → get_object_prop obj prop ≡ err e
    → get_raw_object_prop_string obj prop ≡ err e
unfolding get_raw_object_prop_string
get_raw_object_prop_string-missing obj prop h = rw h

made :
    (a : String) (fs : Fields)
    → get_field a fs ≡ none
    → inspect_property_or_set (map fs) a (map empty) true
      ≡ (map (put_field a (map empty) fs), ok (map empty))
unfolding inspect_property_or_set
made a fs h = ground arith

-- A map is made for the first key, and the rest of the path is set in it.
pub set_from_keys-missing :
    (a b : String) (keys : List String) (fs gs : Fields) (v : Value)
    → get_field a fs ≡ none
    → set_from_keys (map empty) (b ∷ keys) v ≡ (map gs, ok tt)
    → set_from_keys (map fs) (a ∷ b ∷ keys) v
      ≡ (map (put_field a (map gs) (put_field a (map empty) fs)), ok tt)
unfolding set_from_keys write_back
set_from_keys-missing a b keys fs gs v h below = rw (made a fs h, below)

pub get_object_prop_from_keys-present :
    (key : String) (keys : List String) (fs : Fields) (v : Value)
    → get_field key fs ≡ some v
    → get_object_prop_from_keys (map fs) (key ∷ keys) ≡ get_object_prop_from_keys v keys
unfolding get_object_prop_from_keys inspect_property
get_object_prop_from_keys-present key keys fs v h = ground arith
