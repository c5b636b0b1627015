-- ===== src/Inspect/Setter/RoundTrip.antt =====
-- pkg/inspect: a read by the path of a `SetObjectProp` before it.
use Prim.Native.Char.{code}
use spinnaker_operator.Base.{
  String, ◌≡◌, refl, ◌≢◌, true, false, Option, none, some, List, [], ◌∷◌, arith, Bool,
  if◌then◌else◌, ◌==◌, ℕ, Option-cases, inl, inr,
}
use spinnaker_operator.Base.Number.{ℤ, pos, negsuc, NumError, parse_int}
use spinnaker_operator.Base.Text.{split, push_char, is_empty}
use spinnaker_operator.Base.Result.{Result, ok, err, panic}
use spinnaker_operator.Inspect.Value.{
  Value, nil, slice, map, Items, get_item, Fields, empty, put_field, remove_field, get_field, Error,
}
use spinnaker_operator.Inspect.Fields.{get_field-put_field_self, get_item-set_item}
use spinnaker_operator.Inspect.Getter.{inspect_property, get_object_prop_from_keys, get_object_prop}
use spinnaker_operator.Inspect.Setter.{
  inspect_property_or_set, write_back, set_from_keys, set_object_prop, slot, descend, done,
}

item-write_back :
    (key : String) (z : ℤ × Option NumError) (xs : Items) {c' child : Value} (x : Value)
    → parse_int 64 key ≡ z
    → slot z xs (map empty) true ≡ (c', ok child)
    → inspect_property (write_back c' key x) key ≡ ok x
unfolding inspect_property write_back
item-write_back key (z, some e) xs x p h = ground arith
item-write_back key (negsuc n, none) xs x p h = ground arith
item-write_back key (pos n, none) xs {child} x p h = ground (arith, get_item-set_item n x child xs)

-- A key that was found or made can be read, and so can what is later put back there.
pub inspect_property-write_back :
    (c : Value) (key : String) {c' child : Value} (x : Value)
    → inspect_property_or_set c key (map empty) true ≡ (c', ok child)
    → inspect_property (write_back c' key x) key ≡ ok x
unfolding inspect_property_or_set inspect_property write_back
inspect_property-write_back (map fs) key x h = ground (
  arith,
  get_field-put_field_self key x fs,
  get_field-put_field_self key x (put_field key (map empty) fs),
)
inspect_property-write_back (slice xs) key x h = item-write_back key (parse_int 64 key) xs x refl h
inspect_property-write_back _ key x h = ground arith

item-set :
    (key : String) (z : ℤ × Option NumError) (xs : Items) (v : Value) {c' child : Value}
    → v ≢ nil
    → parse_int 64 key ≡ z
    → slot z xs v false ≡ (c', ok child)
    → inspect_property c' key ≡ ok v
unfolding inspect_property
item-set key (z, some e) xs v n p h = ground arith
item-set key (negsuc i, none) xs v n p h = ground arith
item-set key (pos i, none) xs v n p h = elim (Option-cases (get_item i xs)) [
  | inl gone ↦ ground (arith, gone)
  | inr (w, at) ↦ ground (arith, get_item-set_item i v w xs at)
]

inspect_property-set :
    (c : Value) (key : String) (v : Value) {c' child : Value}
    → v ≢ nil
    → inspect_property_or_set c key v false ≡ (c', ok child)
    → inspect_property c' key ≡ ok v
unfolding inspect_property_or_set inspect_property
inspect_property-set (map fs) key v n h = ground (arith, get_field-put_field_self key v fs)
inspect_property-set (slice xs) key v n h = item-set key (parse_int 64 key) xs v n refl h
inspect_property-set _ key v n h = ground arith

-- One round of the loop, from what the later rounds do.
get-descend :
    (c : Value) (k b : String) (ks : List String) (v : Value) (p : Value × Result Error Value)
    {c' : Value}
    → inspect_property_or_set c k (map empty) true ≡ p
    → ((child child' : Value)
        → set_from_keys child (b ∷ ks) v ≡ (child', ok tt)
        → get_object_prop_from_keys child' (b ∷ ks) ≡ ok v)
    → descend (λ child. set_from_keys child (b ∷ ks) v) k p ≡ (c', ok tt)
    → get_object_prop_from_keys c' (k ∷ b ∷ ks) ≡ ok v
unfolding get_object_prop_from_keys
get-descend c k b ks v (c1, err e) eq later h = ground arith
get-descend c k b ks v (c1, panic) eq later h = ground arith
get-descend c k b ks v (c1, ok child) eq later h =
    let below = set_from_keys child (b ∷ ks) v in
    ground (arith, inspect_property-write_back c k below.0 eq, later child below.0)

get-set_from_keys :
    (c : Value) (k : String) (ks : List String) (v c' : Value)
    → v ≢ nil
    → set_from_keys c (k ∷ ks) v ≡ (c', ok tt)
    → get_object_prop_from_keys c' (k ∷ ks) ≡ ok v
unfolding set_from_keys get_object_prop_from_keys
get-set_from_keys c k [] v c' n h = last (inspect_property_or_set c k v false) refl h
  where
    last :
        (p : Value × Result Error Value)
        → inspect_property_or_set c k v false ≡ p
        → ◌≡◌ {A = Value × Result Error (Unit {0})} (p.0, done p.1) (c', ok tt)
        → get_object_prop_from_keys c' (k ∷ []) ≡ ok v
    last (c1, ok child) eq g = ground (arith, inspect_property-set c k v n eq)
    last (c1, err e) eq g = ground arith
    last (c1, panic) eq g = ground arith
get-set_from_keys c k (b ∷ ks) v c' n h =
    get-descend c k b ks v (inspect_property_or_set c k (map empty) true) refl
      (λ child child'. get-set_from_keys child b ks v child' n) h

abbrev stored : Fields → String → Value → Fields
stored fs key nil = remove_field key fs
stored fs key v = put_field key v fs

store-map :
    (fs : Fields) (key : String) (v : Value)
    → (inspect_property_or_set (map fs) key v false).0 ≡ map (stored fs key v)
unfolding inspect_property_or_set
store-map fs key nil = ground arith
store-map fs key v = ground arith

-- A map that is set in stays a map.
set_from_keys-map :
    (fs : Fields) (k : String) (ks : List String) (v : Value)
    → (gs : Fields) × ((set_from_keys (map fs) (k ∷ ks) v).0 ≡ map gs)
unfolding set_from_keys
set_from_keys-map fs k [] v = (stored fs k v, store-map fs k v)
set_from_keys-map fs k (b ∷ ks) v = elim (Option-cases (get_field k fs)) [
  | inl new ↦ (
    put_field k (set_from_keys (map empty) (b ∷ ks) v).0 (put_field k (map empty) fs),
    unfold inspect_property_or_set write_back in ground (arith, new),
  )
  | inr (old, found) ↦ (
    put_field k (set_from_keys old (b ∷ ks) v).0 fs,
    unfold inspect_property_or_set write_back in ground (arith, found),
  )
]

-- `split` gives at least one part.
split-cons : (sep : ℕ) (s : String) → (h : String) × (t : List String) × (split sep s ≡ h ∷ t)
unfolding split
split-cons sep String.[] = (String.[], [], refl)
split-cons sep (String.◌∷◌ c s) = joined (code c == sep) (split-cons sep s)
  where
    joined :
        (b : Bool)
        → (h : String) × (t : List String) × (split sep s ≡ h ∷ t)
        → (h : String) × (t : List String) × ((if b
              then String.[] ∷ split sep s
              else push_char c (split sep s))
            ≡ h ∷ t)
    joined true w = (String.[], split sep s, refl)
    joined false (h, t, e) = (String.◌∷◌ c h, t, rw e)

-- After a `SetObjectProp` that returned no error, `GetObjectProp` at the same (non-empty) property
-- gives the value that was set, through maps and slices alike; the value is not nil.
pub get_object_prop-set_object_prop :
    (obj : Fields) (prop : String) (v c' : Value)
    → v ≢ nil
    → is_empty prop ≡ false
    → set_object_prop obj prop v ≡ (c', ok tt)
    → get_object_prop c' prop ≡ ok v
unfolding set_object_prop get_object_prop
get_object_prop-set_object_prop obj prop v c' n e h =
    let (k, ks, parts) = split-cons b'.' prop in
    rw (e, parts) (rw (get-set_from_keys (map obj) k ks v c' n (rw parts at h)))

pub set_object_prop-map :
    (obj : Fields) (prop : String) (v : Value)
    → (gs : Fields) × ((set_object_prop obj prop v).0 ≡ map gs)
unfolding set_object_prop
set_object_prop-map obj prop v =
    let (k, ks, parts) = split-cons b'.' prop in
    let (gs, e) = set_from_keys-map obj k ks v in (gs, rw parts e)
