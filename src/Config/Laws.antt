-- ===== src/Config/Laws.antt =====
-- pkg/apis/spinnaker/interfaces/config.go: a write of the configuration, and a read after it.
use spinnaker_operator.Base.{String, ◌≡◌, false, Option, none, arith, ◌≢◌}
use spinnaker_operator.Base.Text.{is_empty}
use spinnaker_operator.Base.Result.{ok}
use spinnaker_operator.Inspect.Value.{Value, nil, string, map}
use spinnaker_operator.Inspect.Getter.{get_object_prop, get_raw_object_prop_string}
use spinnaker_operator.Inspect.Setter.RoundTrip.{
  get_object_prop-set_object_prop, set_object_prop-map,
}
use spinnaker_operator.Secrets.Context.{SecretContext}
use spinnaker_operator.Secrets.Decode.{Engines, decode}
use spinnaker_operator.Config.{SpinnakerConfig, get_hal_config_prop_string, set_hal_config_prop}

config-set :
    (s s' : SpinnakerConfig) (prop : String) (v : Value)
    → v ≢ nil
    → is_empty prop ≡ false
    → set_hal_config_prop s prop v ≡ (s', ok tt)
    → get_object_prop (map s'.config) prop ≡ ok v
unfolding set_hal_config_prop
config-set s s' prop v n e h =
    let (gs, m) = set_object_prop-map s.config prop v in
    ground (arith, m, get_object_prop-set_object_prop s.config prop v (map gs) n e)

-- A text that is no secret reference, set in the main config under a non-empty property, is what a
-- read of the property then gives, with no error; the secret context is left alone.
get_hal_config_prop_string-set :
    {E : Type 0} (eng : Engines E) (ctx : Option SecretContext) (s s' : SpinnakerConfig)
    (prop v : String)
    → is_empty prop ≡ false
    → eng.is_encrypted_secret v ≡ false
    → set_hal_config_prop s prop (string v) ≡ (s', ok tt)
    → get_hal_config_prop_string eng ctx s' prop ≡ (ctx, v, none)
unfolding get_hal_config_prop_string set_hal_config_prop
get_hal_config_prop_string-set eng ctx s s' prop v e plain h =
    unfold decode get_raw_object_prop_string in
    ground (arith, config-set s s' prop (string v) (λ q. cc) e h)
