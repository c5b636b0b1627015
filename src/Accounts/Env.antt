-- ===== src/Accounts/Env.antt =====
-- pkg/accounts/kubernetes/kubernetes.go: `Env`, filled from the settings of an account by `inspect.Source`.
use spinnaker_operator.Base.{String, List, []}
use spinnaker_operator.Base.Result.{Result, ok, ◌>>=◌}
use spinnaker_operator.Inspect.Value.{Fields}
use spinnaker_operator.Inspect.Source.{SourceError, source_strings, source_structs}

-- `customResources` can only be an empty slice.
pub record Env : Type 0 where
  pub namespaces : List String
  pub omit_namespaces : List String
  pub kinds : List String
  pub omit_kinds : List String

abbrev pub no_env : Env
no_env = record { namespaces = []; omit_namespaces = []; kinds = []; omit_kinds = [] }

-- The fields in their order.
unfoldable pub source_env : Fields → Result SourceError Env
unfolding source_strings source_structs
source_env settings = do
  namespaces ← source_strings settings "namespaces"
  omit_namespaces ← source_strings settings "omitNamespaces"
  kinds ← source_strings settings "kinds"
  omit_kinds ← source_strings settings "omitKinds"
  custom_resources ← source_structs settings "customResources"
  ok (record {
    namespaces = namespaces;
    omit_namespaces = omit_namespaces;
    kinds = kinds;
    omit_kinds = omit_kinds;
  })
