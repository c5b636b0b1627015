-- ===== src/Transform/Accounts/Written.antt =====
-- pkg/deploy/spindeploy/transformer/accounts.go: what the secret of a service holds after its accounts were
-- written.
use mathlib.Core.Path.{ap₂}
use spinnaker_operator.Base.{
  ap, sym, ◌∙◌, String, true, false, ◌≡◌, refl, ◌⊎◌, inl, inr, Option, none, some, List, [], ◌∷◌,
  ◌=ₛ◌, =ₛ→≡, arith, Bool-cases, if◌then◌else◌,
}
use spinnaker_operator.Base.Dict.{Dict, insert, lookup}
use spinnaker_operator.Base.Text.{is_empty}
use spinnaker_operator.Base.Result.{Result, ok, err, panic, ◌>>=◌}
use spinnaker_operator.Inspect.Value.{Fields, empty}
use spinnaker_operator.Secrets.Context.{SecretContext}
use spinnaker_operator.Kubernetes.Workload.{
  Deployment, Secret, Object, deployment_object, service_object, secret_object, other_object,
  ServiceConfig, GeneratedConfig,
}
use spinnaker_operator.Accounts.Kubernetes.{Account, Kube}
use spinnaker_operator.Accounts.Service.{prepare_settings}
use spinnaker_operator.Accounts.Service.Prepared.{prepare_settings-other}
use spinnaker_operator.Transform.Accounts.{
  AccountsError, accounts_file, config_secret, update_secret, update_in_resources, with_settings,
  update_config, update_service_settings, wrapped, with_resources,
}

-- What the first secret of a name holds.
abbrev pub contents_of : String → List Object → Option (Dict String)
contents_of name [] = none
contents_of name (secret_object s ∷ more) =
    let rest = contents_of name more in if s.name =ₛ name then some s.contents else rest
contents_of name (o ∷ more) = contents_of name more

module _ {E : Type 0} where
  -- What a chain of calls that succeeds is made of.
  bind-eq_ok :
      {A B : Type 0} (r : Result (AccountsError E) A) (f : A → Result (AccountsError E) B) {b : B}
      → (r >>= f) ≡ ok b
      → (a : A) × (r ≡ ok a) × (f a ≡ ok b)
  bind-eq_ok (ok a) f h = (a, refl, h)
  bind-eq_ok (err e) f h = ground arith
  bind-eq_ok panic f h = ground arith

  -- The change of a secret keeps its name, and puts one text into it.
  abbrev Puts : (Secret → Result (AccountsError E) Secret) → String → String → Type 0
  Puts change key b = (s : Secret) → change s ≡ ok (record s { contents = insert key b s.contents })

  abbrev from_ok : Result (AccountsError E) (List Object) → List Object
  from_ok (ok os) = os
  from_ok r = []

  -- An object that is no secret of the name is passed over.
  passed_over :
      (o : Object) (name : String) (r : Result (AccountsError E) (List Object)) {os' : List Object}
      {held : Dict String}
      → ((os : List Object) → contents_of name (o ∷ os) ≡ contents_of name os)
      → (r >>= λ more. ok (o ∷ more)) ≡ ok os'
      → ((more : List Object) → r ≡ ok more → contents_of name more ≡ some held)
      → contents_of name os' ≡ some held
  passed_over o name r skip h rest =
      let (more, done, is) = bind-eq_ok r (λ more. ok (o ∷ more)) h in
      ap (contents_of name) (sym (ap from_ok is)) ∙ skip more ∙ rest more done

  found_first :
      (change : Secret → Result (AccountsError E) Secret) (key b name : String) (s : Secret)
      (more : List Object) {os' : List Object} {held : Dict String}
      → Puts change key b
      → (s.name =ₛ name) ≡ true
      → update_in_resources change name (secret_object s ∷ more) ≡ ok os'
      → contents_of name (secret_object s ∷ more) ≡ some held
      → contents_of name os' ≡ some (insert key b held)
  unfolding update_in_resources
  found_first change key b name s more {os'} {held} puts here h there =
      let changed : update_in_resources change name (secret_object s ∷ more)
          ≡ ok (secret_object (record s { contents = insert key b s.contents }) ∷ more) =
        rw (here, puts s) refl in
      let was : some s.contents ≡ some held = sym (rw here refl) ∙ there in
      ap (contents_of name) (sym (ap from_ok (sym changed ∙ h)))
      ∙ rw here refl
      ∙ ap (λ (o : Option (Dict String)). elim o [ none ↦ none | some d ↦ some (insert key b d) ])
          was

  contents_of-update :
      (change : Secret → Result (AccountsError E) Secret) (key b name : String) (os : List Object)
      {os' : List Object} {held : Dict String}
      → Puts change key b
      → update_in_resources change name os ≡ ok os'
      → contents_of name os ≡ some held
      → contents_of name os' ≡ some (insert key b held)
  unfolding update_in_resources
  contents_of-update change key b name [] puts h there = ground arith
  contents_of-update change key b name (secret_object s ∷ more) puts h there =
      elim (Bool-cases (s.name =ₛ name)) [
        | inl here ↦ found_first change key b name s more puts here h there
        | inr other ↦
            passed_over (secret_object s) name (update_in_resources change name more)
              (λ os. rw other refl) (sym (rw other refl) ∙ h)
              (λ more' done.
                contents_of-update change key b name more puts done (sym (rw other refl) ∙ there))
      ]
  contents_of-update change key b name (deployment_object o ∷ more) puts h there =
      passed_over (deployment_object o) name (update_in_resources change name more) (λ os. refl) h
        (λ more' done. contents_of-update change key b name more puts done there)
  contents_of-update change key b name (service_object o ∷ more) puts h there =
      passed_over (service_object o) name (update_in_resources change name more) (λ os. refl) h
        (λ more' done. contents_of-update change key b name more puts done there)
  contents_of-update change key b name (other_object o ∷ more) puts h there =
      passed_over (other_object o) name (update_in_resources change name more) (λ os. refl) h
        (λ more' done. contents_of-update change key b name more puts done there)

abbrev config_or_none : {E : Type 0} → Result (AccountsError E) GeneratedConfig → GeneratedConfig
config_or_none (ok gen) = gen
config_or_none r = []

abbrev config_or :
    {E : Type 0} → ServiceConfig → Result (AccountsError E) ServiceConfig → ServiceConfig
config_or d (ok c) = c
config_or d r = d

abbrev service_or : ServiceConfig → Option ServiceConfig → ServiceConfig
service_or d none = d
service_or d (some c) = c

module _ {K E : Type 0} (kube : Kube K E) (marshal : Fields → E ⊎ String)
    (ctx : Option SecretContext) where
  -- The secret where the service looks for its configuration is among its resources, and holds this.
  abbrev pub Holds : String → ServiceConfig → Dict String → Type 0
  Holds svc c held =
      (d : Deployment) × (c.deployment ≡ some d)
      × (is_empty (config_secret svc d) ≡ false)
      × (contents_of (config_secret svc d) c.resources ≡ some held)

  wrapped-ok :
      {A : Type 0} (r : Result (spinnaker_operator.Accounts.Kubernetes.AccountError E) A) {a : A}
      → wrapped r ≡ ok a
      → r ≡ ok a
  wrapped-ok (ok a) h = ground arith
  wrapped-ok (err e) h = ground arith
  wrapped-ok panic h = ground arith

  -- A secret that cannot be written is an error.
  Puts-marshal :
      (svc : String) (settings : Fields) (b : String)
      → marshal settings ≡ inr b
      → (s : Secret)
      → update_secret marshal s svc settings
        ≡ ok (record s { contents = insert (accounts_file svc) b s.contents })
  unfolding update_secret
  Puts-marshal svc settings b m s = rw m refl

  lookup-update_service_settings :
      (accounts : List (Account K)) (k : String) (gen : GeneratedConfig) {gen' : GeneratedConfig}
      {c : ServiceConfig}
      → update_service_settings kube marshal ctx accounts gen ≡ ok gen'
      → lookup k gen ≡ some c
      → (c' : ServiceConfig) × (update_config kube marshal ctx accounts k c ≡ ok c')
        × (lookup k gen' ≡ some c')
  unfolding update_service_settings lookup
  lookup-update_service_settings accounts k [] h there = ground arith
  lookup-update_service_settings accounts k ((j, c) ∷ gen) {gen'} {c = d} h there =
      let (c', one, h1) =
        bind-eq_ok (update_config kube marshal ctx accounts j c)
          (λ c'.
            update_service_settings kube marshal ctx accounts gen >>= λ gen'. ok ((j, c') ∷ gen'))
          h in
      let (more, all, h2) =
        bind-eq_ok (update_service_settings kube marshal ctx accounts gen)
          (λ gen'. ok ((j, c') ∷ gen')) h1 in
      let is : gen' ≡ (j, c') ∷ more = sym (ap config_or_none h2) in
      let was : (j =ₛ k) ≡ true → lookup k ((j, c) ∷ gen) ≡ some c = λ here. rw here refl in
      elim (Bool-cases (j =ₛ k)) [
        | inl here ↦ (
          c',
          ap₂ (update_config kube marshal ctx accounts) (sym (=ₛ→≡ j k here))
                (ap (service_or c) (sym there ∙ was here))
              ∙ one,
          ap (lookup k) is ∙ rw here refl,
        )
        | inr other ↦
            (let (c2, updated, found) =
                lookup-update_service_settings accounts k gen all (sym (rw other refl) ∙ there) in
              (c2, updated, ap (lookup k) is ∙ rw other refl ∙ found))
      ]

  with_settings-written :
      (svc : String) (settings : Fields) (b : String) (c c' : ServiceConfig) (held : Dict String)
      → marshal settings ≡ inr b
      → with_settings marshal svc c settings ≡ ok c'
      → Holds svc c held
      → Holds svc c' (insert (accounts_file svc) b held)
  with_settings-written svc settings b c c' held m h (d, has_d, mounted, there) =
      let change = λ (sec : Secret). update_secret marshal sec svc settings in
      let opened : with_settings marshal svc c settings
          ≡ with_resources c (update_in_resources change (config_secret svc d) c.resources) =
        rw (has_d, mounted) refl in
      let (os, done, is) =
        bind-eq_ok (update_in_resources change (config_secret svc d) c.resources)
          (λ resources. ok (record c { resources = resources })) (sym opened ∙ h) in
      let same : c' ≡ record c { resources = os } = sym (ap (config_or c) is) in
      (
        d,
        ap (λ (s : ServiceConfig). s.deployment) same ∙ has_d,
        mounted,
        ap (λ (s : ServiceConfig). contents_of (config_secret svc d) s.resources) same
            ∙ contents_of-update change (accounts_file svc) b (config_secret svc d) c.resources
                (Puts-marshal svc settings b m) done there,
      )

  -- Writing the accounts of a namespace into the generated services: where the settings that a service is
  -- prepared are written as a YAML text, and the service's own secret is among its resources, that secret
  -- gets the text at the file of the Spring profile, beside what it holds otherwise.
  pub update_service_settings-written :
      (accounts : List (Account K)) (gen gen' : GeneratedConfig) (svc : String) (c : ServiceConfig)
      (held : Dict String) (settings : Fields) (b : String)
      → update_service_settings kube marshal ctx accounts gen ≡ ok gen'
      → lookup svc gen ≡ some c
      → Holds svc c held
      → prepare_settings kube ctx svc accounts ≡ ok settings
      → marshal settings ≡ inr b
      → (c' : ServiceConfig) × (lookup svc gen' ≡ some c')
        × Holds svc c' (insert (accounts_file svc) b held)
  unfolding update_config
  update_service_settings-written accounts gen gen' svc c held settings b h there holds prepared m =
      let (c', updated, found) = lookup-update_service_settings accounts svc gen h there in
      let opened : update_config kube marshal ctx accounts svc c
          ≡ with_settings marshal svc c settings =
        rw prepared refl in
      (c', found, with_settings-written svc settings b c c' held m (sym opened ∙ updated) holds)

  -- A service that is like clouddriver but not clouddriver itself gets the settings of no account, whatever
  -- accounts there are: what is written into its secret is the YAML of an empty map.
  pub update_service_settings-other :
      (accounts : List (Account K)) (gen gen' : GeneratedConfig) (svc : String) (c : ServiceConfig)
      (held : Dict String) (b : String)
      → update_service_settings kube marshal ctx accounts gen ≡ ok gen'
      → lookup svc gen ≡ some c
      → Holds svc c held
      → ("clouddriver" =ₛ svc) ≡ false
      → marshal empty ≡ inr b
      → (c' : ServiceConfig) × (lookup svc gen' ≡ some c')
        × Holds svc c' (insert (accounts_file svc) b held)
  update_service_settings-other accounts gen gen' svc c held b h there holds other m =
      update_service_settings-written accounts gen gen' svc c held empty b h there holds
        (prepare_settings-other kube ctx svc accounts other) m
