-- ===== src/Inspect/Source.antt =====
-- pkg/inspect/parse.go: `Source` and `toSpecificArray`, for the types of fields that the operator copies
-- settings into: texts, booleans, slices of texts, and slices of structs.
use spinnaker_operator.Base.{String, Bool, Option, none, some, List, [], ◌∷◌}
use spinnaker_operator.Base.Result.{Result, ok, err, panic, ◌>>=◌}
use spinnaker_operator.Inspect.Value.{
  Value, nil, bool, string, slice, Items, end, item, Fields, get_field,
}

pub data SourceError : Type 0 where
  unassignable : SourceError

-- The type of nil, which no reflected value has, is a panic.
abbrev pub strings_of : Items → Result SourceError (List String)
strings_of end = ok []
strings_of (item (string s) xs) = strings_of xs >>= λ ss. ok (s ∷ ss)
strings_of (item nil xs) = panic
strings_of (item v xs) = err unassignable

abbrev as_strings : Value → Result SourceError (List String)
as_strings (slice xs) = strings_of xs
as_strings nil = panic
as_strings v = err unassignable

-- No element of decoded JSON is assignable to a struct.
abbrev as_structs : Value → Result SourceError (Unit {0})
as_structs (slice end) = ok tt
as_structs (slice (item nil xs)) = panic
as_structs (slice (item v xs)) = err unassignable
as_structs nil = panic
as_structs v = err unassignable

-- A slice is converted to the elements of the field's type, which a text does not have.
abbrev as_text : Value → Result SourceError String
as_text (string s) = ok s
as_text (slice xs) = panic
as_text nil = panic
as_text v = err unassignable

abbrev as_bool : Value → Result SourceError Bool
as_bool (bool b) = ok b
as_bool (slice xs) = panic
as_bool nil = panic
as_bool v = err unassignable

-- A field without a setting keeps the value that it has.
abbrev field_or :
    {A : Type 0} → A → (Value → Result SourceError A) → Option Value → Result SourceError A
field_or old read none = ok old
field_or old read (some v) = read v

module _ (settings : Fields) where
  unfoldable pub source_strings : String → Result SourceError (List String)
  source_strings key = field_or [] as_strings (get_field key settings)

  unfoldable pub source_structs : String → Result SourceError (Unit {0})
  source_structs key = field_or tt as_structs (get_field key settings)

  unfoldable pub source_text : String → Result SourceError String
  source_text key = field_or String.[] as_text (get_field key settings)

  unfoldable pub source_bool : String → Result SourceError Bool
  source_bool key = field_or Bool.false as_bool (get_field key settings)
