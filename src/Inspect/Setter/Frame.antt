-- ===== src/Inspect/Setter/Frame.antt =====
-- pkg/inspect/setter.go: other paths after a `SetObjectProp`.
use spinnaker_operator.Base.{
  String, ◌≡◌, refl, ◌≢◌, true, false, Option, none, some, List, [], ◌∷◌, ◌++◌, arith, Bool,
  Option-cases, inl, inr, =ₛ→≡,
}
use spinnaker_operator.Base.Number.{ℤ, pos, negsuc, NumError, parse_int}
use spinnaker_operator.Base.Result.{Result, ok, err, panic}
use spinnaker_operator.Inspect.Value.{
  Value, nil, slice, map, Items, Fields, empty, field, Error, put_field, remove_field, get_field,
}
use spinnaker_operator.Inspect.Fields.{get_field-put_field}
use spinnaker_operator.Inspect.Getter.{at_index, inspect_property, get_object_prop_from_keys}
use spinnaker_operator.Inspect.Setter.{slot, inspect_property_or_set, write_back, set_from_keys}
use spinnaker_operator.Inspect.Setter.RoundTrip.{inspect_property-write_back}

get_field-remove_field_ne :
    (k j : String) (fs : Fields) → k ≢ j → get_field j (remove_field k fs) ≡ get_field j fs
unfolding get_field remove_field
get_field-remove_field_ne k j empty n = refl
get_field-remove_field_ne k j (field i w fs) n =
    ground (arith, =ₛ→≡ i k, =ₛ→≡ i j, get_field-remove_field_ne k j fs n)

get_field-put_field_ne :
    (k j : String) (v : Value) (fs : Fields)
    → k ≢ j
    → get_field j (put_field k v fs) ≡ get_field j fs
get_field-put_field_ne k j v fs n = ground (arith, get_field-put_field k j v fs, =ₛ→≡ k j)

-- The value at another key of a map, after one call on the map.
other_key :
    (fs : Fields) (a j : String) (v : Value) (only_default : Bool)
    → a ≢ j
    → inspect_property (inspect_property_or_set (map fs) a v only_default).0 j
      ≡ inspect_property (map fs) j
unfolding inspect_property_or_set inspect_property
other_key fs a j nil o n = ground (arith, get_field-remove_field_ne a j fs n)
other_key fs a j v o n = ground (arith, get_field-put_field_ne a j v fs n)

other_key-set :
    (fs : Fields) (a j : String) (r : List String) (v : Value)
    → a ≢ j
    → inspect_property (set_from_keys (map fs) (a ∷ r) v).0 j ≡ inspect_property (map fs) j
unfolding set_from_keys
other_key-set fs a j [] v n = other_key fs a j v false n
other_key-set fs a j (b ∷ ks) v n = elim (Option-cases (get_field a fs)) [
  | inl new ↦
      let below = (set_from_keys (map empty) (b ∷ ks) v).0 in
      unfold inspect_property inspect_property_or_set write_back in
      ground (
        arith,
        new,
        get_field-put_field_ne a j below (put_field a (map empty) fs) n,
        get_field-put_field_ne a j (map empty) fs n,
      )
  | inr (old, found) ↦
      let below = (set_from_keys old (b ∷ ks) v).0 in
      unfold inspect_property inspect_property_or_set write_back in
      ground (arith, found, get_field-put_field_ne a j below fs n)
]

item_found :
    (z : ℤ × Option NumError) (xs : Items) (d : Value) {child : Value}
    → at_index z xs ≡ ok child
    → slot z xs d true ≡ (slice xs, ok child)
item_found (z, some e) xs d h = ground arith
item_found (negsuc n, none) xs d h = ground arith
item_found (pos n, none) xs d h = ground arith

-- A key that is there is left as it is on the way.
found :
    (c : Value) (key : String) (d : Value) {child : Value}
    → inspect_property c key ≡ ok child
    → inspect_property_or_set c key d true ≡ (c, ok child)
unfolding inspect_property inspect_property_or_set
found (map fs) key d h = ground arith
found (slice xs) key d h = item_found (parse_int 64 key) xs d h
found _ key d h = ground arith

append-cons :
    (p : List String) (a : String) (r : List String)
    → (b : String) × (ks : List String) × (p ++ a ∷ r ≡ b ∷ ks)
append-cons [] a r = (a, r, refl)
append-cons (k ∷ p) a r = (k, p ++ a ∷ r, refl)

-- Where a key leads, the rest of the path is set there.
inspect_property-set_from_keys :
    (c : Value) (k : String) (p : List String) (a : String) (r : List String) (v : Value)
    {child : Value}
    → inspect_property c k ≡ ok child
    → inspect_property (set_from_keys c (k ∷ (p ++ a ∷ r)) v).0 k
      ≡ ok (set_from_keys child (p ++ a ∷ r) v).0
unfolding set_from_keys
inspect_property-set_from_keys c k p a r v {child} h =
    let (b, ks, e) = append-cons p a r in
    let there = found c k (map empty) h in
    rw (e, there) (inspect_property-write_back c k (set_from_keys child (b ∷ ks) v).0 there)

-- Two paths that part at a map: the first is set, and a read of the second gives what it gave
-- before. (The parting keys differ, and the path before them leads to a map.)
pub get-set_from_keys_ne :
    (c : Value) (p : List String) (fs : Fields) (a j : String) (r q : List String) (v : Value)
    → get_object_prop_from_keys c p ≡ ok (map fs)
    → a ≢ j
    → get_object_prop_from_keys (set_from_keys c (p ++ a ∷ r) v).0 (p ++ j ∷ q)
      ≡ get_object_prop_from_keys c (p ++ j ∷ q)
unfolding get_object_prop_from_keys
get-set_from_keys_ne c [] fs a j r q v h n = ground (arith, other_key-set fs a j r v n)
get-set_from_keys_ne c (k ∷ p) fs a j r q v h n =
    below (inspect_property c k) refl (λ child g. get-set_from_keys_ne child p fs a j r q v g n)
  where
    below :
        (x : Result Error Value)
        → inspect_property c k ≡ x
        → ((child : Value)
            → get_object_prop_from_keys child p ≡ ok (map fs)
            → get_object_prop_from_keys (set_from_keys child (p ++ a ∷ r) v).0 (p ++ j ∷ q)
              ≡ get_object_prop_from_keys child (p ++ j ∷ q))
        → get_object_prop_from_keys (set_from_keys c (k ∷ (p ++ a ∷ r)) v).0 (k ∷ (p ++ j ∷ q))
          ≡ get_object_prop_from_keys c (k ∷ (p ++ j ∷ q))
    below (ok child) e later =
        rw (inspect_property-set_from_keys c k p a r v e, e) (later child (rw e at h))
    below (err x) e later = ground (arith, e)
    below panic e later = ground (arith, e)
