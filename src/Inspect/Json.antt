-- ===== src/Inspect/Json.antt =====
-- pkg/inspect/parse.go: `ConvertJSON`. The decoding and the printing of values are Go's libraries.
use spinnaker_operator.Base.{String, ◌⊎◌, inl, inr, if◌then◌else◌}
use spinnaker_operator.Base.Text.{is_empty}
use spinnaker_operator.Base.Result.{Result, ok, err}
use spinnaker_operator.Inspect.Value.{Value, Fields, empty}

-- `json.Unmarshal` into a map, and `fmt.Sprintf("%v", _)`.
pub record Json (E : Type 0) : Type 0 where
  pub unmarshal : String → E ⊎ Fields
  pub sprint : Value → String

abbrev of_sum : {E A : Type 0} → E ⊎ A → Result E A
of_sum (inl e) = err e
of_sum (inr a) = ok a

unfoldable pub convert_json : {E : Type 0} → Json E → String → Result E Fields
convert_json json b = if is_empty b then ok empty else of_sum (json.unmarshal b)
