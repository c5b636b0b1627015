-- ===== src/Inspect/Value.antt =====
-- pkg/inspect: the values of Go's `interface{}` that come from decoded JSON and YAML. A slice or a
-- map holds values, so the two are declared with them.
use spinnaker_operator.Base.{ℕ, zero, suc, String, Bool, Option, none, some, List, [], ◌∷◌}
use spinnaker_operator.Base.{◌≡◌, ◌=ₛ◌, if◌then◌else◌}
use spinnaker_operator.Base.Number.{ℤ, NumError}

mutual
  -- `float` keeps a float as `strconv.FormatFloat(x, 'f', -1, _)` prints it.
  pub data Value : Type 0 where
    nil : Value
    bool : Bool → Value
    int : ℤ → Value
    float : String → Value
    string : String → Value
    slice : Items → Value
    map : Fields → Value

  pub data Items : Type 0 where
    end : Items
    item : Value → Items → Items

  -- `map[string]interface{}`
  pub data Fields : Type 0 where
    empty : Fields
    field : String → Value → Fields → Fields

pub data Error : Type 0 where
  invalid_interface unknown_type : String → Error
  bad_index : NumError → Error
  out_of_bounds : ℕ → Error
  not_boolean not_string not_array no_map_at no_string_at : String → Error

unfoldable pub get_field : String → Fields → Option Value
get_field k empty = none
get_field k (field j v fs) = if j =ₛ k then some v else get_field k fs

unfoldable pub put_field : String → Value → Fields → Fields
put_field k v empty = field k v empty
put_field k v (field j w fs) = if j =ₛ k then field j v fs else field j w (put_field k v fs)

unfoldable pub remove_field : String → Fields → Fields
remove_field k empty = empty
remove_field k (field j w fs) =
    let rest = remove_field k fs in if j =ₛ k then rest else field j w rest

unfoldable pub get_item : ℕ → Items → Option Value
get_item i end = none
get_item zero (item v xs) = some v
get_item (suc i) (item v xs) = get_item i xs

unfoldable pub set_item : ℕ → Value → Items → Items
set_item i v end = end
set_item zero v (item w xs) = item v xs
set_item (suc i) v (item w xs) = item w (set_item i v xs)

unfoldable pub append_items : Items → Items → Items
append_items end ys = ys
append_items (item v xs) ys = item v (append_items xs ys)

unfoldable pub of_list : List Value → Items
of_list [] = end
of_list (v ∷ vs) = item v (of_list vs)

-- No key stands twice, as in every Go map.
abbrev pub NodupFields : Fields → Type 0
NodupFields empty = Unit
NodupFields (field k v fs) = (get_field k fs ≡ none) × NodupFields fs
