-- ===== src/Inspect/Fields.antt =====
-- The laws of maps and slices of values.
use spinnaker_operator.Base.{ℕ, zero, suc, String, ◌≡◌, refl, some, arith, ap}
use spinnaker_operator.Base.{◌=ₛ◌, =ₛ→≡, =ₛ_refl, if◌then◌else◌}
use spinnaker_operator.Inspect.Value.{
  Value, Items, end, item, Fields, empty, field, get_field, put_field, get_item, set_item,
}

pub get_field-put_field :
    (k j : String) (v : Value) (fs : Fields)
    → get_field j (put_field k v fs) ≡ (if k =ₛ j then some v else get_field j fs)
unfolding get_field put_field
get_field-put_field k j v empty = refl
get_field-put_field k j v (field i w fs) =
    ground (arith, =ₛ→≡ k j, =ₛ→≡ i k, =ₛ→≡ i j, =ₛ_refl i, =ₛ_refl k, get_field-put_field k j v fs)

pub get_field-put_field_self :
    (k : String) (v : Value) (fs : Fields) → get_field k (put_field k v fs) ≡ some v
get_field-put_field_self k v fs = ground (arith, get_field-put_field k k v fs, =ₛ_refl k)

-- Writing back what a key holds changes nothing.
pub put_field-get_field :
    (k : String) (v : Value) (fs : Fields) → get_field k fs ≡ some v → put_field k v fs ≡ fs
unfolding get_field put_field
put_field-get_field k v empty h = ground arith
put_field-get_field k v (field j w fs) h = ground (arith, =ₛ→≡ j k, put_field-get_field k v fs)

put_field-put_field :
    (k : String) (v w : Value) (fs : Fields) → put_field k w (put_field k v fs) ≡ put_field k w fs
unfolding put_field
put_field-put_field k v w empty = ground (arith, =ₛ_refl k)
put_field-put_field k v w (field j u fs) =
    ground (arith, =ₛ→≡ j k, =ₛ_refl k, put_field-put_field k v w fs)

pub get_item-set_item :
    (i : ℕ) (v w : Value) (xs : Items)
    → get_item i xs ≡ some w
    → get_item i (set_item i v xs) ≡ some v
unfolding get_item set_item
get_item-set_item i v w end h = ground arith
get_item-set_item zero v w (item x xs) h = refl
get_item-set_item (suc i) v w (item x xs) h = get_item-set_item i v w xs h

pub set_item-get_item :
    (i : ℕ) (v : Value) (xs : Items) → get_item i xs ≡ some v → set_item i v xs ≡ xs
unfolding get_item set_item
set_item-get_item i v end h = refl
set_item-get_item zero v (item x xs) h = ground arith
set_item-get_item (suc i) v (item x xs) h = ap (item x) (set_item-get_item i v xs h)
