-- ===== src/Accounts/Service/Prepared.antt =====
-- pkg/accounts/service.go: settings that were prepared for a service, read again.
use mathlib.Core.Path.{ap₂}
use spinnaker_operator.Base.{
  ap, String, false, ◌≡◌, refl, Option, none, some, List, [], ◌∷◌, map, ◌=ₛ◌,
}
use spinnaker_operator.Base.Text.{split, is_empty}
use spinnaker_operator.Base.Result.{Result, ok, ◌>>=◌}
use spinnaker_operator.Inspect.Value.{
  Value, slice, Items, Fields, empty, field, get_field, put_field, of_list, Error,
}
use spinnaker_operator.Inspect.Getter.{get_object_array, get_object_prop, as_maps}
use spinnaker_operator.Inspect.Setter.{set_object_prop}
use spinnaker_operator.Secrets.Context.{SecretContext}
use spinnaker_operator.Accounts.Kubernetes.{
  KubernetesAuth, Account, Kube, to_spinnaker_settings, from_spinnaker_config,
}
use spinnaker_operator.Accounts.Kubernetes.RoundTrip.{
  Method, auth_of, IsReadable, from_spinnaker_config-to_spinnaker_settings,
}
use spinnaker_operator.Accounts.Service.{
  kubernetes_type, settings_of, prepare_settings, prepare_types, found_in,
  from_spinnaker_config_slice,
}

-- The settings of a service with one list of accounts.
abbrev accounts_settings : List Fields → Fields
accounts_settings ms =
    field "kubernetes" (Value.map (field "accounts" (slice (of_list (map Value.map ms))) empty))
      empty

as_maps-of_list :
    (prop : String) (ms : List Fields) → as_maps prop (of_list (map Value.map ms)) ≡ ok ms
unfolding as_maps of_list
as_maps-of_list prop [] = refl
as_maps-of_list prop (m ∷ ms) =
    ap (λ (r : Result Error (List Fields)). r >>= λ rest. ok (m ∷ rest)) (as_maps-of_list prop ms)

get_object_array-accounts :
    (ms : List Fields)
    → get_object_array (Value.map (accounts_settings ms)) "kubernetes.accounts" ≡ ok ms
unfolding get_object_array get_object_prop get_field is_empty of_list split
    spinnaker_operator.Inspect.Getter.inspect_property ◌=ₛ◌
get_object_array-accounts ms = as_maps-of_list "kubernetes.accounts" ms

set_accounts :
    (v : Items)
    → set_object_prop empty "kubernetes.accounts" (slice v)
      ≡ (Value.map (field "kubernetes" (Value.map (field "accounts" (slice v) empty)) empty), ok tt)
unfolding set_object_prop put_field split spinnaker_operator.Inspect.Setter.inspect_property_or_set
    get_field spinnaker_operator.Inspect.Setter.write_back ◌=ₛ◌
set_accounts v = refl

abbrev pub accounts_in : {K : Type 0} → List (Account K × Method K) → List (Account K)
accounts_in ps = map (λ p. p.0) ps

-- An account's name, and how it authenticates.
abbrev pub identity : {K : Type 0} → Account K → String × Option (KubernetesAuth K)
identity a = (a.name, a.auth)

module _ {K E : Type 0} (kube : Kube K E) (ctx : Option SecretContext) where
  -- Accounts, each with its way to authenticate, whose settings can be read back one by one.
  abbrev pub AreReadable : List (Account K × Method K) → Type 0
  AreReadable [] = Unit
  AreReadable ((a, m) ∷ ps) =
      (a.auth ≡ some (auth_of m))
      × (get_field "name" a.settings ≡ none)
      × IsReadable kube a.settings m
      × AreReadable ps

  -- One account more, written.
  settings_of-more :
      (a : Account K) (accounts : List (Account K)) (s : Fields) (ms : List Fields)
      → to_spinnaker_settings kube ctx a ≡ ok s
      → settings_of kube ctx "Kubernetes" accounts ≡ ok ms
      → settings_of kube ctx "Kubernetes" (a ∷ accounts) ≡ ok (s ∷ ms)
  unfolding settings_of ◌=ₛ◌
  settings_of-more a accounts s ms one more = rw (one, more) refl

  -- One account more, read.
  from_slice-more :
      (s : Fields) (ms : List Fields) (a : Account K) (accounts : List (Account K))
      → from_spinnaker_config kube s ctx ≡ (ctx, ok a)
      → from_spinnaker_config_slice (kubernetes_type kube) ms false ctx ≡ (ctx, ok accounts)
      → from_spinnaker_config_slice (kubernetes_type kube) (s ∷ ms) false ctx
        ≡ (ctx, ok (a ∷ accounts))
  unfolding from_spinnaker_config_slice
  from_slice-more s ms a accounts one more = rw (one, more) refl

  -- What is written for some accounts, and read from that.
  record Read (accounts : List (Account K)) : Type 0 where
    settings : List Fields
    read : List (Account K)
    are_written : settings_of kube ctx "Kubernetes" accounts ≡ ok settings
    are_read :
        from_spinnaker_config_slice (kubernetes_type kube) settings false ctx ≡ (ctx, ok read)
    same : map identity read ≡ map identity accounts

  read_more :
      (a : Account K) (accounts : List (Account K)) (s : Fields)
      → to_spinnaker_settings kube ctx a ≡ ok s
      → (b : Account K) → from_spinnaker_config kube s ctx ≡ (ctx, ok b)
      → identity b ≡ identity a
      → Read accounts
      → Read (a ∷ accounts)
  read_more a accounts s to b from same_one r = record {
    settings = s ∷ r.settings;
    read = b ∷ r.read;
    are_written = settings_of-more a accounts s r.settings to r.are_written;
    are_read = from_slice-more s r.settings b r.read from r.are_read;
    same = ap₂ (λ x xs. x ∷ xs) same_one r.same;
  }

  read_all : (ps : List (Account K × Method K)) → AreReadable ps → Read (accounts_in ps)
  unfolding settings_of from_spinnaker_config_slice
  read_all [] h = record {
    settings = [];
    read = [];
    are_written = refl;
    are_read = refl;
    same = refl;
  }
  read_all ((a, m) ∷ ps) h =
      let (s, to, from) = from_spinnaker_config-to_spinnaker_settings kube a m ctx h.0 h.1 h.2 in
      read_more a (accounts_in ps) s to _ from refl (read_all ps h.3)

  prepare-written :
      (accounts : List (Account K)) (m : Fields) (ms : List Fields)
      → settings_of kube ctx "Kubernetes" accounts ≡ ok (m ∷ ms)
      → prepare_settings kube ctx "clouddriver" accounts ≡ ok (accounts_settings (m ∷ ms))
  unfolding prepare_settings ◌=ₛ◌
  prepare-written accounts m ms h = rw (h, set_accounts (of_list (map Value.map (m ∷ ms)))) refl

  -- The settings that are prepared for clouddriver from one or more accounts, each of which can be read
  -- back from its own settings, have one list of accounts; and the accounts that are read from that list
  -- have the names and the authentications of the first ones, in their order.
  pub from_spinnaker_config_slice-prepare_settings :
      (p : Account K × Method K) (ps : List (Account K × Method K))
      → AreReadable (p ∷ ps)
      → (ss : Fields) × (listed : List Fields) × (read : List (Account K)) × (prepare_settings kube
            ctx "clouddriver"
            (accounts_in (p ∷ ps))
          ≡ ok ss)
        × (get_object_array (Value.map ss) "kubernetes.accounts" ≡ ok listed)
        × (from_spinnaker_config_slice (kubernetes_type kube) listed false ctx ≡ (ctx, ok read))
        × (map identity read ≡ map identity (accounts_in (p ∷ ps)))
  unfolding read_more
  from_spinnaker_config_slice-prepare_settings (a, m) ps h =
      let (s, to, from) = from_spinnaker_config-to_spinnaker_settings kube a m ctx h.0 h.1 h.2 in
      let r = read_more a (accounts_in ps) s to _ from refl (read_all ps h.3) in
      let rest = (read_all ps h.3).settings in
      (
        accounts_settings (s ∷ rest),
        s ∷ rest,
        r.read,
        prepare-written (a ∷ accounts_in ps) s rest r.are_written,
        get_object_array-accounts (s ∷ rest),
        r.are_read,
        r.same,
      )

  -- Another service gets no accounts, not even one that is like clouddriver: a caching or a read-only
  -- clouddriver of a Spinnaker with high availability, whose Spring profile the transformer enables.
  pub prepare_settings-other :
      (svc : String) (accounts : List (Account K))
      → ("clouddriver" =ₛ svc) ≡ false
      → prepare_settings kube ctx svc accounts ≡ ok empty
  unfolding prepare_settings prepare_types found_in
  prepare_settings-other svc accounts other = rw other refl
