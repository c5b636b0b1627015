-- ===== src/Accounts/Validator/Reached.antt =====
-- pkg/accounts/kubernetes/validator.go: what an account that is accepted was asked.
use spinnaker_operator.Base.{
  String, Bool, true, false, ◌≡◌, refl, ◌⊎◌, inl, inr, Option, none, some, List, [], ◌∷◌, ◌&&◌,
  arith,
}
use spinnaker_operator.Base.Text.{is_empty}
use spinnaker_operator.Base.Io.{go_on, returned, go_on-eq_ok}
use spinnaker_operator.Base.Result.{ok}
use spinnaker_operator.Secrets.Context.{SecretContext}
use spinnaker_operator.Config.{SpinnakerConfig}
use spinnaker_operator.Api.Types.{SpinnakerService}
use spinnaker_operator.Accounts.Kubernetes.{KubernetesAuth, Account, SecretReference}
use spinnaker_operator.Accounts.AuthSettings.{AuthSettings}
use spinnaker_operator.Accounts.Cluster.{
  Cluster, RestConfig, ValidatorError, error_listing_namespaces, error_listing_pods, no_clientset,
}
use spinnaker_operator.Accounts.Client.{
  V, make_client, client_without_file, converted, client_of, make_client_from_file,
  make_client_from_secret_ref, make_client_from_service_account, make_client_from_settings,
  make_client_from_config_api, with_config, with_settings, sourced, a_client,
}
use spinnaker_operator.Accounts.Validator.{
  validate, validate_settings, validate_access, access_if, request, failed_with, names_at,
}

module _ {K C A L R E : Type 0} (cluster : Cluster K C A L R E) where
  -- The cluster answered one of the two requests.
  abbrev pub Answered : RestConfig R → Type 0
  Answered rest =
      (cluster.list_namespaces rest ≡ none) ⊎ ((ns : String) × (cluster.list_pods rest ns ≡ none))

  abbrev cannot_convert : Option K → Bool
  cannot_convert none = false
  cannot_convert (some c) = elim (cluster.convert c) [ none ↦ true | some cfg ↦ false ]

  -- The account has a kubeconfig of its own that the library cannot convert.
  abbrev pub is_unconvertible : Option (KubernetesAuth K) → Bool
  is_unconvertible none = false
  is_unconvertible (some auth) = is_empty auth.kubeconfig_file && cannot_convert auth.kubeconfig

  failed_with-ok :
      (o : Option E) (f : E → ValidatorError E) (ctx : Option SecretContext)
      {t : Option SecretContext} {u : Unit {0}}
      → failed_with cluster o f ctx ≡ (t, ok u)
      → o ≡ none
  failed_with-ok none f ctx h = refl
  failed_with-ok (some e) f ctx h = ground arith

  request-Answered :
      (rest : RestConfig R) (ns : List String) (ctx : Option SecretContext)
      {t : Option SecretContext} {u : Unit {0}}
      → request cluster rest ns ctx ≡ (t, ok u)
      → Answered rest
  request-Answered rest [] ctx h =
      inl (failed_with-ok (cluster.list_namespaces rest) error_listing_namespaces ctx h)
  request-Answered rest (ns ∷ more) ctx h =
      inr (ns, failed_with-ok (cluster.list_pods rest ns) (error_listing_pods ns) ctx h)

  validate_access-Answered :
      (a : Account K) (rest : RestConfig R) (ctx : Option SecretContext) {t : Option SecretContext}
      {u : Unit {0}}
      → validate_access cluster a rest ctx ≡ (t, ok u)
      → Answered rest
  unfolding validate_access
  validate_access-Answered a rest ctx h =
      let (u1, t1, made, h1) =
        go_on-eq_ok (λ u. λ s. go_on (request cluster rest) (names_at cluster a "namespaces" s))
          (failed_with cluster (cluster.new_clientset rest) no_clientset ctx) h in
      let (ns, t2, named, h2) =
        go_on-eq_ok (request cluster rest) (names_at cluster a "namespaces" t1) h1 in
      request-Answered rest ns t2 h2

  -- A call that gives a client or an error never gives nil.
  a_client-some :
      (m : V cluster (RestConfig R)) (ctx : Option SecretContext) {t : Option SecretContext}
      → a_client cluster m ctx ≡ (t, ok none)
      → false ≡ true
  a_client-some m ctx h =
      let (r, t1, made, h1) = go_on-eq_ok (λ r. returned (ok (some r))) (m ctx) h in ground arith

  with_config-some :
      (spin : Option SpinnakerService) (f : SpinnakerConfig → V cluster (RestConfig R))
      (ctx : Option SecretContext) {t : Option SecretContext}
      → with_config cluster spin (λ cfg. a_client cluster (f cfg)) ctx ≡ (t, ok none)
      → false ≡ true
  with_config-some none f ctx h = ground arith
  with_config-some (some spin) f ctx h = a_client-some (f spin.spinnaker_config) ctx h

  converted-none :
      (o : Option C) (settings : AuthSettings) (ctx : Option SecretContext)
      {t : Option SecretContext}
      → converted cluster o settings ctx ≡ (t, ok none)
      → o ≡ none
  converted-none none settings ctx h = refl
  converted-none (some cfg) settings ctx {t} h =
      let impossible = a_client-some (client_of cluster settings cfg) ctx {t = t} h in ground arith

  config_api-none :
      (c : K) (settings : AuthSettings) (ctx : Option SecretContext) {t : Option SecretContext}
      → make_client_from_config_api cluster c settings ctx ≡ (t, ok none)
      → cannot_convert (some c) ≡ true
  unfolding make_client_from_config_api
  config_api-none c settings ctx h =
      let unconverted = converted-none (cluster.convert c) settings ctx h in ground arith

  without_file-none :
      (spin : Option SpinnakerService) (k : Option K) (secret : Option SecretReference)
      (account : Bool) (settings : AuthSettings) (ctx : Option SecretContext)
      {t : Option SecretContext}
      → client_without_file cluster spin k secret account settings ctx ≡ (t, ok none)
      → cannot_convert k ≡ true
  without_file-none spin (some c) secret account settings ctx h = config_api-none c settings ctx h
  without_file-none spin none (some ref) account settings ctx h =
      a_client-some (make_client_from_secret_ref cluster ref settings) ctx h
  without_file-none spin none none true settings ctx h =
      a_client-some (make_client_from_service_account cluster spin) ctx h
  without_file-none spin none none false settings ctx h = ground arith

  with_settings-none :
      (spin : Option SpinnakerService) (auth : Option (KubernetesAuth K)) (settings : AuthSettings)
      (ctx : Option SecretContext) {t : Option SecretContext}
      → with_settings cluster spin auth settings ctx ≡ (t, ok none)
      → is_unconvertible auth ≡ true
  with_settings-none spin none settings ctx h =
      with_config-some spin (make_client_from_settings cluster settings) ctx h
  with_settings-none spin (some auth) settings ctx {t} h = ground (
    arith,
    with_config-some spin (make_client_from_file cluster auth.kubeconfig_file settings) ctx {t = t},
    without_file-none spin auth.kubeconfig auth.kubeconfig_secret auth.use_service_account settings
        ctx {t = t},
  )

  -- The client that is made for the account, and its cluster's answer.
  abbrev pub AnsweredFor : Option SpinnakerService → Account K → Type 0
  AnsweredFor spin a =
      (rest : RestConfig R) × (before : Option SecretContext) × (after : Option SecretContext)
      × (make_client cluster spin a before ≡ (after, ok (some rest)))
      × Answered rest

  accepted :
      (spin : Option SpinnakerService) (a : Account K) (ctx : Option SecretContext)
      (client : Option (RestConfig R)) (t : Option SecretContext) {t' : Option SecretContext}
      → make_client cluster spin a ctx ≡ (t, ok client)
      → access_if cluster a client t ≡ (t', ok tt)
      → AnsweredFor spin a ⊎ (is_unconvertible a.auth ≡ true)
  unfolding make_client
  accepted spin a ctx none t made access =
      let (settings, t3, read, h) =
        go_on-eq_ok (with_settings cluster spin a.auth) (sourced cluster a.settings ctx) made in
      inr (with_settings-none spin a.auth settings t3 h)
  accepted spin a ctx (some r) t made access =
      inl (r, ctx, t, made, validate_access-Answered a r t access)

  -- An account is accepted only after the cluster of the client that is made for this very account
  -- answered a request for the namespaces, or for the pods of a namespace; or, without any request, if it
  -- has a kubeconfig of its own that cannot be converted.
  pub validate-ok :
      (spin : Option SpinnakerService) (a : Account K) (ctx : Option SecretContext)
      {t : Option SecretContext}
      → validate cluster spin a ctx ≡ (t, ok tt)
      → AnsweredFor spin a ⊎ (is_unconvertible a.auth ≡ true)
  unfolding validate
  validate-ok spin a ctx {t} h =
      let (u, t1, settled, h1) =
        go_on-eq_ok (λ u. λ s. go_on (access_if cluster a) (make_client cluster spin a s))
          (validate_settings cluster a ctx) h in
      let (client, t2, made, h2) =
        go_on-eq_ok (access_if cluster a) (make_client cluster spin a t1) h1 in
      accepted spin a t1 client t2 made h2
