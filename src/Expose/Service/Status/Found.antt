-- ===== src/Expose/Service/Status/Found.antt =====
-- pkg/deploy/spindeploy/expose_service/transform.go: the URLs that are found.
use spinnaker_operator.Base.{
  String, Bool, true, false, ◌≡◌, refl, inl, Option, none, some, ◌=ₛ◌, ◌&&◌,
}
use spinnaker_operator.Base.Text.{append, is_empty}
use spinnaker_operator.Base.Number.{ℤ, pos}
use spinnaker_operator.Base.Result.{ok, err}
use spinnaker_operator.Secrets.Context.{SecretContext}
use spinnaker_operator.Secrets.Decode.{Engines}
use spinnaker_operator.Config.{PropError, get_hal_config_prop_string}
use spinnaker_operator.Api.Types.{SpinnakerService}
use spinnaker_operator.Kubernetes.{other_error, Services, get_service}
use spinnaker_operator.Expose.LoadBalancer.{build_url, is_positive, find_load_balancer_url}
use spinnaker_operator.Expose.Port.{
  Url, Parse, get_desired_expose_port, gate_override_base_url_prop, deck_override_base_url_prop,
}
use spinnaker_operator.Expose.Service.{applies}
use spinnaker_operator.Expose.Service.Status.{
  without_spin, ssl_enabled, generate_override_url, find_url_in_service, find_status_url, with_url,
  set_status_and_override_base_url, transform_config,
}

lost :
    (client : Services) (name namespace e : String) (ssl : Bool)
    → client name namespace ≡ inl (other_error e)
    → find_load_balancer_url client name namespace ssl ≡ err (other_error e)
unfolding find_load_balancer_url get_service
lost client name namespace e ssl failed = rw (find_load_balancer_url, get_service, failed) refl

and_false : (b : Bool) → (b && false) ≡ false
and_false true = refl
and_false false = refl

empty_url : (port : ℤ) → build_url String.[] String.[] port ≡ String.[]
unfolding build_url ◌=ₛ◌ append is_empty
empty_url port = rw (build_url, and_false (is_positive port)) refl

module _ {E : Type 0} (eng : Engines E) (parse : Parse) where
  configured_status :
      (ctx : Option SecretContext) (client : Services) (spin : SpinnakerService)
      (name prop u : String)
      → ((c : Option SecretContext)
          → get_hal_config_prop_string eng c spin.spinnaker_config prop ≡ (c, u, none))
      → is_empty u ≡ false
      → set_status_and_override_base_url eng parse ctx client spin name prop
        ≡ (ctx, with_url eng parse name u spin, ok tt)
  unfolding set_status_and_override_base_url find_status_url
  configured_status ctx client spin name prop u plain given = rw (plain ctx, given) refl

  -- With a non-empty overrideBaseUrl for Gate and for Deck, which read the same in every context, the
  -- status of an exposed Spinnaker gets these two URLs, and nothing else of it changes.
  transform_config-configured :
      (ctx : Option SecretContext) (client : Services) (spin : SpinnakerService)
      (gate deck : String)
      → applies spin ≡ true
      → ((c : Option SecretContext)
          → get_hal_config_prop_string eng c spin.spinnaker_config gate_override_base_url_prop
            ≡ (c, gate, none))
      → ((c : Option SecretContext)
          → get_hal_config_prop_string eng c spin.spinnaker_config deck_override_base_url_prop
            ≡ (c, deck, none))
      → is_empty gate ≡ false
      → is_empty deck ≡ false
      → transform_config eng parse ctx client spin ≡ (
        ctx,
        record spin { status = record spin.status { api_url = gate; ui_url = deck } },
        ok tt,
      )
  unfolding transform_config ◌=ₛ◌
  transform_config-configured ctx client spin gate deck exposed g d gate_given deck_given =
      let spin' = record spin { status = record spin.status { api_url = gate } } in
      rw
        (
          exposed,
          configured_status ctx client spin "spin-gate" gate_override_base_url_prop gate g
              gate_given,
        )
        (configured_status ctx client spin' "spin-deck" deck_override_base_url_prop deck d
          deck_given)

  generated :
      (ctx : Option SecretContext) (spin : SpinnakerService) (name : String) (u : Url)
      → parse String.[] ≡ some u
      → u.scheme ≡ String.[]
      → u.hostname ≡ String.[]
      → (generate_override_url eng parse ctx spin name String.[]).1 ≡ ok String.[]
  unfolding generate_override_url
  generated ctx spin name u parsed scheme host =
      let port = (get_desired_expose_port eng parse ctx (without_spin name) (pos 80) spin).1 in
      rw (generate_override_url, parsed, scheme, host, empty_url port) refl

  -- Without an overrideBaseUrl, and with a net/url that reads the empty text as an URL without scheme
  -- and host, an error of the cluster when the service is looked up gives no error: the URL is
  -- found to be the empty text.
  find_status_url-other_error :
      (ctx : Option SecretContext) (client : Services) (spin : SpinnakerService)
      (name prop e : String) (u : Url) (missing : Option (PropError E))
      → ((c : Option SecretContext)
          → get_hal_config_prop_string eng c spin.spinnaker_config prop ≡ (c, String.[], missing))
      → client name spin.namespace ≡ inl (other_error e)
      → parse String.[] ≡ some u
      → u.scheme ≡ String.[]
      → u.hostname ≡ String.[]
      → (find_status_url eng parse ctx client spin name prop).1 ≡ ok (String.[], false)
  unfolding find_status_url find_url_in_service is_empty
  find_status_url-other_error ctx client spin name prop e u missing plain failed parsed scheme
        host =
      rw
        (
          plain ctx,
          lost client name spin.namespace e (ssl_enabled name spin) failed,
          generated ctx spin name u parsed scheme host,
        )
        refl
