-- ===== src/Inspect/Setter/Atomic.antt =====
-- pkg/inspect/setter.go: the object after a `SetObjectProp` that returns an error.
use spinnaker_operator.Base.{
  String, ◌≡◌, refl, ◌≢◌, true, false, Option, none, some, List, [], ◌∷◌, arith, Bool, ◌⊎◌,
}
use spinnaker_operator.Base.Text.{split}
use spinnaker_operator.Base.Number.{ℤ, pos, negsuc, NumError, parse_int}
use spinnaker_operator.Base.Result.{Result, ok, err, panic}
use spinnaker_operator.Inspect.Value.{
  Value, nil, slice, map, Items, Fields, empty, Error, get_field,
}
use spinnaker_operator.Inspect.Fields.{put_field-get_field, set_item-get_item}
use spinnaker_operator.Inspect.Setter.{
  slot, done, descend, inspect_property_or_set, write_back, write_item, set_from_keys,
  set_object_prop,
}

-- In a map that was just made nothing can go wrong.
set_from_keys-empty :
    (k : String) (ks : List String) (v : Value)
    → v ≢ nil
    → (set_from_keys (map empty) (k ∷ ks) v).1 ≡ ok tt
unfolding set_from_keys inspect_property_or_set get_field
set_from_keys-empty k [] v n = ground arith
set_from_keys-empty k (b ∷ ks) v n = set_from_keys-empty b ks v n

item-write_back_old :
    (z : ℤ × Option NumError) (xs : Items) {c' child : Value}
    → slot z xs (map empty) true ≡ (c', ok child)
    → (c' ≡ slice xs) × (write_item z xs child ≡ slice xs)
item-write_back_old (z, some e) xs h = ground arith
item-write_back_old (negsuc n, none) xs h = ground arith
item-write_back_old (pos n, none) xs {child} h = ground (arith, set_item-get_item n child xs)

-- What a key held is put back as it was, unless the key is new and holds an empty map.
write_back_old :
    (c : Value) (key : String) {c' child : Value}
    → inspect_property_or_set c key (map empty) true ≡ (c', ok child)
    → ((c' ≡ c) × (write_back c' key child ≡ c)) ⊎ (child ≡ map empty)
unfolding inspect_property_or_set write_back
write_back_old (map fs) key {child} h = ground (arith, put_field-get_field key child fs)
write_back_old (slice xs) key h = ground (arith, item-write_back_old (parse_int 64 key) xs h)
write_back_old _ key h = ground arith

failed_lookup :
    (c : Value) (key : String) (v : Value) (only_default : Bool) {c' : Value} {e : Error}
    → v ≢ nil
    → inspect_property_or_set c key v only_default ≡ (c', err e)
    → c' ≡ c
unfolding inspect_property_or_set
failed_lookup (map fs) key v o n h = ground arith
failed_lookup (slice xs) key v o n h = failed (parse_int 64 key) h
  where
    failed :
        (z : ℤ × Option NumError) {c' : Value} {e : Error}
        → slot z xs v o ≡ (c', err e)
        → c' ≡ slice xs
    failed (z, some e) h = ground arith
    failed (negsuc i, none) h = ground arith
    failed (pos i, none) h = ground arith
failed_lookup _ key v o n h = ground arith

set_from_keys-err :
    (c : Value) (ks : List String) (v c' : Value) (e : Error)
    → v ≢ nil
    → set_from_keys c ks v ≡ (c', err e)
    → c' ≡ c
unfolding set_from_keys
set_from_keys-err c [] v c' e n h = ground arith
set_from_keys-err c (k ∷ []) v c' e n h = last (inspect_property_or_set c k v false) refl h
  where
    last :
        (p : Value × Result Error Value)
        → inspect_property_or_set c k v false ≡ p
        → ◌≡◌ {A = Value × Result Error (Unit {0})} (p.0, done p.1) (c', err e)
        → c' ≡ c
    last (c1, ok child) eq g = ground arith
    last (c1, err e1) eq g = ground (arith, failed_lookup c k v false n eq)
    last (c1, panic) eq g = ground arith
set_from_keys-err c (k ∷ b ∷ ks) v c' e n h =
    round (inspect_property_or_set c k (map empty) true) refl h
      (λ child child' e'. set_from_keys-err child (b ∷ ks) v child' e' n)
  where
    round :
        (p : Value × Result Error Value)
        → inspect_property_or_set c k (map empty) true ≡ p
        → descend (λ child. set_from_keys child (b ∷ ks) v) k p ≡ (c', err e)
        → ((child child' : Value) (e' : Error)
            → set_from_keys child (b ∷ ks) v ≡ (child', err e')
            → child' ≡ child)
        → c' ≡ c
    round (c1, ok child) eq g later =
        let below = set_from_keys child (b ∷ ks) v in
        ground (arith, write_back_old c k eq, later child below.0 e, set_from_keys-empty b ks v n)
    round (c1, err e1) eq g later = ground (arith, failed_lookup c k (map empty) true (λ q. cc) eq)
    round (c1, panic) eq g later = ground arith

-- When `SetObjectProp` of a value other than nil returns an error, the object is what it was: the
-- maps that are made on the way are only made where the rest of the path cannot fail.
pub set_object_prop-err :
    (obj : Fields) (prop : String) (v c' : Value) (e : Error)
    → v ≢ nil
    → set_object_prop obj prop v ≡ (c', err e)
    → c' ≡ map obj
unfolding set_object_prop
set_object_prop-err obj prop v c' e n h = set_from_keys-err (map obj) (split b'.' prop) v c' e n h
