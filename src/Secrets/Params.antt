-- ===== src/Secrets/Params.antt =====
-- pkg/secrets/kubernetes.go: the parameters `n:<name>!k:<key>` of a Kubernetes secret reference.
pub mod RoundTrip
use spinnaker_operator.Base.{String, Option, none, some, List, [], ◌∷◌, ◌=ₛ◌, if◌then◌else◌}
use spinnaker_operator.Base.Text.{split, is_empty}
use spinnaker_operator.Base.Result.{Result, ok, err}

pub data ParamError : Type 0 where
  bad_format : String → ParamError
  name_required key_required : ParamError

abbrev pair_of : List String → Option (String × String)
pair_of (k ∷ v ∷ []) = some (k, v)
pair_of _ = none

-- The loop over the tokens, with the name and the key found so far.
unfoldable pub params_loop : List String → String → String → Result ParamError (String × String)
params_loop [] name key = ok (name, key)
params_loop (element ∷ tokens) name key = elim (pair_of (split b':' element)) [
  | none ↦ err (bad_format element)
  | some (k, v) ↦
      params_loop tokens (if k =ₛ "n" then v else name)
        (if k =ₛ "n" then key else if k =ₛ "k" then v else key)
]

abbrev check_params : Result ParamError (String × String) → Result ParamError (String × String)
check_params (ok (name, key)) =
    if is_empty name
    then err name_required
    else if is_empty key
    then err key_required
    else ok (name, key)
check_params r = r

unfoldable pub parse_kubernetes_secret_params : String → Result ParamError (String × String)
unfolding params_loop
parse_kubernetes_secret_params params =
    check_params (params_loop (split b'!' params) String.[] String.[])
